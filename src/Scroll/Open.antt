-- ===== src/Scroll/Open.antt =====
-- ElasticsearchOpenScroll and ElasticsearchCloseScroll of src/c/elasticsearch/elasticsearch.c. The
-- query arrives converted, and finish_inserts(false), which ends the transaction's bulk processes,
-- has run.
use Prim.Native.String.{String}
use zombodb.Prelude.{
  Bool, List, Option, Outcome, [], false, if◌then◌else◌, is_some, ltb, min, none, not, ok, some,
  suc, true, zero, ℕ, ◌%◌, ◌&&◌, ◌++◌, ◌+◌, ◌==◌, ◌>>=◌, ◌>>◌, ◌||◌, ◌∷◌,
}
use zombodb.Bulk.{max_docs_per_request}
use zombodb.Curl.{Curl, Response}
use zombodb.Json.{
  Json, get_json_array_length, get_json_object_array, get_json_object_object,
  get_json_object_string, get_json_object_uint64,
}
use zombodb.Scroll.{
  ScrollContext, found, get_next_item_pointer, no_error, rest_call_response, search_response_filter,
}
use zombodb.Text.{Text, codes, decimal}
use zombodb.Xid.{u64}

-- What a search asks for. `min_score` is the printed score if it is positive.
pub record Search : Type 0 where
  pub url : Text
  pub es_index_name : Text
  pub type_name : Text
  pub compression_level : ℕ
  pub query_dsl : Text
  pub query_limit : ℕ
  pub wants_score : Bool
  pub offset : ℕ
  pub sort_json : Option Text
  pub min_score : Option Text
  pub use_id : Bool
  pub limit : ℕ
  pub highlights : Option (List (Text × Text))
  pub extra_fields : List Text

-- The limit of the query goes before the caller's.
unfoldable pub search_limit : Search → ℕ
search_limit q = if not (q.query_limit == 0) then q.query_limit else q.limit

unfoldable pub search_need_score : Search → Bool
unfolding search_limit
search_need_score q = q.wants_score || (ltb 0 (search_limit q) && not (is_some q.sort_json))

-- uint64 arithmetic.
unfoldable pub limit_and_offset : Search → ℕ
unfolding search_limit
limit_and_offset q = (search_limit q + q.offset) % u64

unfoldable pub min_score_text : Option Text → Text
min_score_text none = []
min_score_text (some score) = codes "\"min_score\":" ++ (score ++ codes ",")

unfoldable pub sort_text : Bool → Option Text → Text
sort_text need_score (some sort_json) = codes "\"sort\":" ++ (sort_json ++ codes ",")
sort_text true none = codes "\"sort\":[{\"_score\":\"desc\"}],"
sort_text false none = codes "\"sort\":[{\"zdb_ctid\":\"asc\"}],"

unfoldable pub highlight_fields : ℕ → List (Text × Text) → Text
highlight_fields cnt [] = []
highlight_fields cnt ((name, json) ∷ rest) =
    (if ltb 0 cnt then codes "," else [])
    ++ (codes "\"" ++ (name ++ (codes "\":" ++ (json ++ highlight_fields (cnt + 1) rest))))

unfoldable pub highlight_text : Option (List (Text × Text)) → Text
unfolding highlight_fields
highlight_text none = []
highlight_text (some infos) =
    codes ",\"highlight\":{\"fields\":{" ++ (highlight_fields 0 infos ++ codes "}}")

unfoldable pub search_body : Search → Text
unfolding search_need_score min_score_text sort_text highlight_text
search_body q =
    codes "{\"track_scores\":"
    ++ ((if search_need_score q then codes "true" else codes "false")
        ++ (codes ","
            ++ (min_score_text q.min_score
                ++ (sort_text (search_need_score q) q.sort_json
                    ++ (codes "\"query\":"
                        ++ (q.query_dsl ++ (highlight_text q.highlights ++ codes "}")))))))

unfoldable pub docvalue_fields : List Text → Text
docvalue_fields [] = []
docvalue_fields (name ∷ names) = codes "," ++ (name ++ docvalue_fields names)

unfoldable pub stored_fields : Search → Text
stored_fields q =
    if is_some q.highlights then codes "type" else if q.use_id then codes "_id" else codes "_none_"

unfoldable pub search_size : Search → ℕ
unfolding limit_and_offset
search_size q =
    if search_limit q == 0
    then max_docs_per_request
    else min max_docs_per_request (limit_and_offset q)

unfoldable pub search_url : Search → Text
unfolding search_size stored_fields docvalue_fields
search_url q =
    q.url
    ++ (q.es_index_name
        ++ (codes "/"
            ++ (q.type_name
                ++ (codes "/_search?search_type="
                    ++ ((if search_need_score q
                          then codes "dfs_query_then_fetch"
                          else codes "query_then_fetch")
                        ++ (codes "&_source=false&size="
                            ++ (decimal (search_size q)
                                ++ (codes "&scroll=10m&filter_path="
                                    ++ (search_response_filter (search_need_score q)
                                        ++ (codes "&stored_fields="
                                            ++ (stored_fields q
                                                ++ (codes "&docvalue_fields=zdb_ctid"
                                                    ++ docvalue_fields q.extra_fields))))))))))))

-- The scroll over the hits that the server counts, `found_total`, and its first page.
unfoldable pub search_total : Search → ℕ → ℕ
unfolding limit_and_offset
search_total q found_total =
    if ltb 0 (search_limit q) then min (limit_and_offset q) found_total else found_total

unfoldable pub empty_scroll : Search → Text → ScrollContext
unfolding search_need_score
empty_scroll q scroll_id = record {
  url = q.url;
  compression_level = q.compression_level;
  using_id = q.use_id;
  scroll_id = scroll_id;
  has_highlights = is_some q.highlights;
  need_score = search_need_score q;
  total = 0;
  cnt = 0;
  nhits = 0;
  currpos = 0;
  hits = none;
}

unfoldable pub first_page : Search → Text → ℕ → Json → Outcome ScrollContext
unfolding empty_scroll
first_page q scroll_id total hits_object =
    if ltb q.offset total
    then (get_json_object_array hits_object "hits" false >>= λ hits.
        ok (record (empty_scroll q scroll_id) {
          total = total;
          hits = hits;
          nhits = elim hits [ none ↦ 0 | some items ↦ get_json_array_length items ];
        }))
    else ok (empty_scroll q scroll_id)

module _ (int8in : String → Option ℕ) where
  unfoldable pub read_search : Search → Json → Outcome ScrollContext
  unfolding first_page search_total no_error
  read_search q json = do
    e ← get_json_object_object json "error" true
    no_error e
    h ← get_json_object_object json "hits" false
    hits_object ← found h
    s ← get_json_object_string json "_scroll_id" false
    scroll_id ← found s
    found_total ← get_json_object_uint64 int8in hits_object "total" false
    first_page q (codes scroll_id) (search_total q found_total) hits_object

module _ (int8in : String → Option ℕ) (c : Curl) where
  -- `while (offset--) if (!ElasticsearchGetNextItemPointer(context, NULL, ...)) break;`
  unfoldable pub fast_forward :
      Bool → ℕ → ScrollContext → c.World → Outcome (ScrollContext × c.World)
  unfolding get_next_item_pointer
  fast_forward ignore_visibility zero ctx w = ok (ctx, w)
  fast_forward ignore_visibility (suc n) ctx w =
      get_next_item_pointer int8in c ignore_visibility false ctx w >>= λ r. elim r.0 [
        | none ↦ ok (r.1, r.2)
        | some hit ↦ fast_forward ignore_visibility n r.1 r.2
      ]

  unfoldable pub open_scroll : Bool → Search → c.World → Outcome (ScrollContext × c.World)
  unfolding rest_call_response read_search fast_forward search_url search_body
  open_scroll ignore_visibility q w = do
    r ← rest_call_response c (codes "POST") (search_url q) (search_body q) q.compression_level w
    json ← r.0.json
    ctx ← read_search int8in q json
    if ltb q.offset ctx.total
        then fast_forward ignore_visibility q.offset ctx r.1
        else ok (ctx, r.1)

module _ (c : Curl) where
  unfoldable pub close_scroll : ScrollContext → c.World → Outcome (Response × c.World)
  unfolding rest_call_response
  close_scroll ctx w =
      rest_call_response c (codes "DELETE") (ctx.url ++ codes "_search/scroll")
        (codes "{\"scroll_id\":\"" ++ (ctx.scroll_id ++ codes "\"}")) ctx.compression_level w
