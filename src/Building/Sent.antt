-- ===== src/Building/Sent.antt =====
-- What a build sends.
use zombodb.Prelude.{[], false, is_some, length, none, ok, some, true, ◌++◌, ◌∷◌, ◌≡◌}
use zombodb.Admin.{index_url, make_alias_name, or_else, settings_body}
use zombodb.Admin.Create.{create_body}
use zombodb.Building.{
  BuildResult, BuildState, BuildTarget, Relations, extract_tuple_desc_from_index_expressions, named,
}
use zombodb.Building.Rows.{built_ops}
use zombodb.Bulk.Batches.{expected, remembered}
use zombodb.Bulk.Rows.{has_json}
use zombodb.Bulk.Sends.{commit_marks}
use zombodb.Curl.{Curl}
use zombodb.Index.{Session, TupleDesc}
use zombodb.Index.Relations.{already_has_zdb_index}
use zombodb.Mapping.{Catalog, generate_mapping}
use zombodb.Rest.Sent.{bodies, targets}
use zombodb.Text.{Text, codes}

module _ (c : Curl) (catalog : Catalog) (target : BuildTarget) (s : Session)
    (st : Relations c) where
  unfoldable pub build_alias : Text
  build_alias = make_alias_name st.rel target.parts false

  unfoldable pub build_name : Text
  build_name = or_else st.rel.index_name target.generated_name

  -- A build that has been made.
  pub record IsDone (tupdesc : TupleDesc) (r : BuildResult c) : Type 0 where
    pub bulk : BuildState c
    pub mapping : Text
    pub mapped : generate_mapping catalog target.heap_relid tupdesc ≡ ok mapping
    pub has_build : r.build ≡ some bulk
    pub rows_sent :
        bodies bulk.es.net.sent
        ≡ expected (has_json (some tupdesc)) 0 [] (built_ops s target.tuples)
          ++ commit_marks s (remembered 0 [] (built_ops s target.tuples))
    pub rest_asked :
        targets r.after.xact.rest.sent
        ≡ targets st.xact.rest.sent
          ++ ((codes "DELETE", index_url st.rel [])
              ∷ (codes "PUT", st.rel.url ++ build_name)
              ∷ (codes "PUT", st.rel.url ++ (build_name ++ codes "/_settings"))
              ∷ [])
    pub rest_sent :
        bodies r.after.xact.rest.sent
        ≡ (bodies st.xact.rest.sent ++ create_body catalog st.rel mapping build_alias)
          ++ settings_body st.rel
    pub counted : r.index_tuples ≡ length (built_ops s target.tuples)
    pub new_options : r.after.rel ≡ named c st.rel build_alias build_name
    pub new_url :
        r.after.xact.created_indices_urls
        ≡ st.xact.created_indices_urls ++ ((st.rel.url ++ build_name) ∷ [])

  -- What a build comes to. An index of the low-level API that has a name is left alone.
  pub data Built (r : BuildResult c) : Type 0 where
    left_alone :
        is_some st.rel.index_name ≡ true
        → st.rel.llapi ≡ true
        → r.after ≡ st
        → r.build ≡ none
        → Built r
    built_anew :
        (tupdesc : TupleDesc)
        → already_has_zdb_index target.indices st.rel.relid ≡ false
        → extract_tuple_desc_from_index_expressions target.types target.info ≡ ok (some tupdesc)
        → IsDone tupdesc r
        → Built r
