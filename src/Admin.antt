-- ===== src/Admin.antt =====
-- The administrative requests of src/c/elasticsearch/elasticsearch.c, each through rest_call.
pub mod Create
use Prim.Native.String.{String}
use zombodb.Prelude.{
  Bool, List, Option, Outcome, [], error, false, if◌then◌else◌, none, ok, some, true, ℕ, ◌++◌, ◌-◌,
  ◌/◌, ◌==◌, ◌>>=◌, ◌>>◌, ◌∷◌,
}
use zombodb.Bulk.{text_eq}
use zombodb.Curl.{Curl, Net, Response}
use zombodb.Index.{IndexOptions}
use zombodb.Json.{get_json_object_uint64}
use zombodb.Rest.Single.{rest_call, rest_call_empty}
use zombodb.Scroll.{rest_call_response}
use zombodb.Text.{Text, codes, decimal}

-- `%s` of a name that may be NULL, as Postgres' snprintf prints it.
abbrev pub print_name : Option Text → Text
print_name none = codes "(null)"
print_name (some name) = name

-- The URL of an index.
abbrev pub index_url : IndexOptions → Text → Text
index_url rel endpoint = rel.url ++ (print_name rel.index_name ++ endpoint)

-- What an alias is made of: the names of the database, the schema, the table and the index, and
-- the index's oid; `lower` is Postgres' str_tolower.
pub record AliasParts : Type 0 where
  pub database : Text
  pub namespace : Text
  pub heap_name : Text
  pub lower : Text → Text

unfoldable pub default_alias : IndexOptions → AliasParts → Text
default_alias rel parts = parts.lower (
    parts.database
    ++ (codes "."
        ++ (parts.namespace
            ++ (codes "."
                ++ (parts.heap_name
                    ++ (codes "." ++ (rel.rel_name ++ (codes "-" ++ decimal rel.relid))))))))

unfoldable pub make_alias_name : IndexOptions → AliasParts → Bool → Text
unfolding default_alias
make_alias_name rel parts true = default_alias rel parts
make_alias_name rel parts false = elim rel.alias [
  | none ↦ default_alias rel parts
  | some name ↦ name
]

abbrev pub or_else : Option Text → Text → Text
or_else none t = t
or_else (some t') t = t'

unfoldable pub settings_body : IndexOptions → Text
settings_body rel =
    codes "{   \"index\": {      \"refresh_interval\": \""
    ++ (rel.refresh_interval
        ++ (codes "\",      \"number_of_replicas\": " ++ (decimal rel.replicas ++ codes "   }}")))

unfoldable pub aliases_body : IndexOptions → Text → Text → Text
aliases_body rel old_alias new_alias =
    codes "{   \"actions\": [      {\"remove\": {\"index\": \""
    ++ (print_name rel.index_name
        ++ (codes "\", \"alias\":\""
            ++ (old_alias
                ++ (codes "\" } },      {\"add\": {\"index\": \""
                    ++ (print_name rel.index_name
                        ++ (codes "\", \"alias\":\"" ++ (new_alias ++ codes "\" } }   ]}")))))))

-- The xids, separated by commas.
unfoldable pub xids_array : List ℕ → Text
xids_array [] = []
xids_array (xid ∷ []) = decimal xid
xids_array (xid ∷ xid' ∷ xids) = decimal xid ++ (codes "," ++ xids_array (xid' ∷ xids))

unfoldable pub remove_aborted_body : List ℕ → Text
unfolding xids_array
remove_aborted_body xids =
    codes
      "{\"script\":{\"source\":\"ctx._source.zdb_aborted_xids.removeAll(params.XIDS);\",\"params\":{\"XIDS\":["
    ++ (xids_array xids ++ codes "]},\"lang\":\"painless\"}}")

module _ (c : Curl) where
  unfoldable pub arbitrary_request :
      IndexOptions → Text → Text → Option Text → Net c → Outcome (Net c)
  unfolding rest_call rest_call_empty
  arbitrary_request rel method endpoint post_data n =
      let url : Text = elim endpoint [
        | [] ↦ index_url rel (codes "/")
        | ch ∷ rest ↦
            if ch == b'/' then rel.url ++ rest else index_url rel (codes "/" ++ (ch ∷ rest))
      ] in
      elim post_data [
        | none ↦ rest_call_empty c method url n
        | some body ↦ rest_call c method url body rel.compression_level n
      ]

  unfoldable pub delete_index : IndexOptions → Net c → Outcome (Net c)
  unfolding rest_call_empty
  delete_index rel n = rest_call_empty c (codes "DELETE") (index_url rel []) n

  unfoldable pub delete_index_direct : Text → Net c → Outcome (Net c)
  unfolding rest_call_empty
  delete_index_direct url n = rest_call_empty c (codes "DELETE") url n

  unfoldable pub finalize_index_creation : IndexOptions → Net c → Outcome (Net c)
  unfolding rest_call settings_body
  finalize_index_creation rel n =
      rest_call c (codes "PUT") (index_url rel (codes "/_settings")) (settings_body rel)
        rel.compression_level n

  unfoldable pub move_alias : IndexOptions → Text → Text → Net c → Outcome (Net c)
  unfolding rest_call aliases_body text_eq
  move_alias rel old_alias new_alias n =
      if text_eq old_alias new_alias
      then ok n
      else rest_call c (codes "POST") (rel.url ++ codes "_aliases")
          (aliases_body rel old_alias new_alias) rel.compression_level n

  unfoldable pub update_settings :
      IndexOptions → AliasParts → Option Text → Option Text → Net c → Outcome (Net c)
  unfolding move_alias finalize_index_creation make_alias_name
  update_settings rel parts old_alias new_alias n =
      move_alias rel (or_else old_alias (make_alias_name rel parts true))
        (or_else new_alias (make_alias_name rel parts false)) n
      >>= finalize_index_creation rel

  -- `mapping` is what generate_mapping makes of the table.
  unfoldable pub put_mapping : IndexOptions → Text → Net c → Outcome (Net c)
  unfolding rest_call
  put_mapping rel mapping n =
      rest_call c (codes "PUT") (index_url rel (codes "/_mapping/doc"))
        (codes "{   \"properties\": {" ++ (mapping ++ codes "}}")) rel.compression_level n

  unfoldable pub remove_aborted_transactions : IndexOptions → List ℕ → Net c → Outcome (Net c)
  unfolding rest_call remove_aborted_body
  remove_aborted_transactions rel [] n = ok n
  remove_aborted_transactions rel (xid ∷ xids) n =
      rest_call c (codes "POST")
        (index_url rel (
          codes "/"
          ++ (rel.type_name
              ++ codes "/zdb_aborted_xids/_update?retry_on_conflict=128&refresh=true")))
        (remove_aborted_body (xid ∷ xids)) rel.compression_level n

  unfoldable pub force_merge : IndexOptions → Net c → Outcome (Net c)
  unfolding rest_call_empty
  force_merge rel n =
      rest_call_empty c (codes "POST")
        (index_url rel (codes "/_forcemerge?only_expunge_deletes=true&flush=false")) n
      >>= rest_call_empty c (codes "POST") (index_url rel (codes "/_refresh"))

-- The requests with a query, which arrives converted.
module _ (int8in : String → Option ℕ) (c : Curl) where
  unfoldable pub profile_query : IndexOptions → Text → c.World → Outcome (Response × c.World)
  unfolding rest_call_response
  profile_query rel query_dsl w =
      rest_call_response c (codes "POST")
        (index_url rel (codes "/_search?size=0&filter_path=profile&pretty"))
        (codes "{\"profile\":true, \"query\":" ++ (query_dsl ++ codes "}")) rel.compression_level w

  -- After validate_alias, finish_inserts(false) has run.
  unfoldable pub count : IndexOptions → Text → c.World → Outcome (ℕ × c.World)
  unfolding rest_call_response
  count rel query_dsl w = elim rel.alias [
    | none ↦ error "index doesn't have an alias"
    | some alias ↦
        rest_call_response c (codes "POST")
          (rel.url ++ (alias ++ codes "/_count?filter_path=count"))
          (codes "{\"query\":" ++ (query_dsl ++ codes "}")) rel.compression_level w
        >>= λ r. r.0.json >>= λ json.
            get_json_object_uint64 int8in json "count" false >>= λ v. ok (v, r.1)
  ]

-- `count_property` reads the `count` of an answer with Postgres' json_object_field_text and int8in.
module _ (c : Curl) (count_property : Response → Outcome ℕ) where
  unfoldable pub count_where : IndexOptions → Text → c.World → Outcome (ℕ × c.World)
  unfolding rest_call_response
  count_where rel post_data w = do
    r ←
        rest_call_response c (codes "GET")
          (index_url rel (codes "/" ++ (rel.type_name ++ codes "/_count?filter_path=count")))
          post_data rel.compression_level w
    v ← count_property r.0
    ok (v, r.1)

  unfoldable pub count_all_docs : IndexOptions → c.World → Outcome (ℕ × c.World)
  unfolding count_where
  count_all_docs rel w = count_where rel (codes "{\"query\":{\"match_all\":{}}}") w

  unfoldable pub estimate_selectivity : IndexOptions → Text → c.World → Outcome (ℕ × c.World)
  unfolding count_where
  estimate_selectivity rel query_dsl w =
      count_where rel (codes "{\"query\":" ++ (query_dsl ++ codes "}")) w
