-- ===== src/Query/Searching.antt =====
-- The search for a query: how ElasticsearchOpenScroll of src/c/elasticsearch/elasticsearch.c reads the
-- query's options.
use zombodb.Prelude.{
  Bool, List, Option, Outcome, if◌then◌else◌, ltb, none, not, ok, some, ℕ, ◌==◌, ◌>>=◌,
}
use zombodb.Admin.{print_name}
use zombodb.Index.{IndexOptions}
use zombodb.Query.{
  JsonText, ZdbQuery, zdbquery_get_limit, zdbquery_get_min_score, zdbquery_get_offset,
  zdbquery_get_sort_json, zdbquery_get_wants_score,
}
use zombodb.Query.Dsl.{convert_to_query_dsl}
use zombodb.Scroll.Open.{Search}
use zombodb.Text.{Text}

module _ (l : JsonText) where
  -- ElasticsearchOpenScroll's reading of the query's options.
  unfoldable pub search_of :
      Bool
      → ZdbQuery
      → IndexOptions
      → ZdbQuery
      → Bool
      → ℕ
      → Option (List (Text × Text))
      → List Text
      → Outcome Search
  unfolding zdbquery_get_limit zdbquery_get_wants_score zdbquery_get_offset zdbquery_get_sort_json
      zdbquery_get_min_score convert_to_query_dsl
  search_of ignore_visibility visibility rel query use_id limit highlights extra_fields = do
    query_limit ← zdbquery_get_limit l query
    wants_score ← zdbquery_get_wants_score l query
    offset ← zdbquery_get_offset l query
    sort_json ← zdbquery_get_sort_json l query
    min_score ← zdbquery_get_min_score l query
    query_dsl ←
        convert_to_query_dsl l ignore_visibility visibility query
          (ltb 0 (if not (query_limit == 0) then query_limit else limit))
    ok (record {
      url = rel.url;
      es_index_name = print_name rel.index_name;
      type_name = rel.type_name;
      compression_level = rel.compression_level;
      query_dsl = query_dsl;
      query_limit = query_limit;
      wants_score = wants_score;
      offset = offset;
      sort_json = sort_json;
      min_score = if l.is_positive min_score then some (l.print_real min_score) else none;
      use_id = use_id;
      limit = limit;
      highlights = highlights;
      extra_fields = extra_fields;
    })
