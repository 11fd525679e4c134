-- ===== src/Examples/Queries.antt =====
-- A concrete query.
use zombodb.Prelude.{false, none, ok, refl, some, ◌>>=◌, ◌≡◌}
use zombodb.Examples.Vacuums.{demo_json}
use zombodb.Json.{
  as_bool, as_uint64, end, field, find_key, number, object, or_missing, uint64_or_zero,
}
use zombodb.Query.{
  JsonText, ZdbQuery, zdbquery_get_limit, zdbquery_get_min_score, zdbquery_get_offset,
  zdbquery_get_query, zdbquery_get_raw_row_estimate, zdbquery_get_sort_json,
  zdbquery_get_wants_score, zdbquery_in_direct,
}
use zombodb.Query.Options.{property_of, zdb_set_query_property}
use zombodb.Query.Setting.{
  HasOptions, Options, options_text, set_option, zdb_set_query_property-set_option,
}
use zombodb.Text.{codes, decimal}

-- A parser that reads every text as a query with a limit.
abbrev query_json : JsonText
query_json = record demo_json {
  parse = λ t. some (object (field "limit" (number "1") (field "query_dsl" (object end) end)));
}

abbrev limited_query : ZdbQuery
limited_query = record { json = codes "{\"limit\":1,\"query_dsl\":{}}" }

abbrev limited_options : Options query_json
limited_options = record {
  limit = 1;
  offset = 0;
  min_score = 0;
  sort_json = none;
  row_estimate = 0;
  query_dsl = some (codes "{}");
  wants_score = false;
}

limited_query-HasOptions : HasOptions query_json limited_query limited_options
unfolding zdbquery_get_limit zdbquery_get_offset zdbquery_get_min_score zdbquery_get_sort_json
    zdbquery_get_raw_row_estimate zdbquery_get_query zdbquery_get_wants_score or_missing find_key
    uint64_or_zero as_uint64 as_bool
limited_query-HasOptions = record {
  limit = refl;
  offset = refl;
  min_score = refl;
  sort_json = refl;
  row_estimate = refl;
  query_dsl = refl;
  wants_score = refl;
}

zdb_set_query_property-set_option_example :
    zdb_set_query_property query_json "wants_score" (codes "true") limited_query ≡ (
      property_of "wants_score" >>= λ p.
      set_option query_json p (codes "true") limited_options >>= λ o'.
      zdbquery_in_direct query_json (options_text query_json o'))
zdb_set_query_property-set_option_example =
    zdb_set_query_property-set_option query_json "wants_score" (codes "true") limited_query
      limited_options limited_query-HasOptions

-- The text that comes out.
limited_query_scored :
    zdb_set_query_property query_json "wants_score" (codes "true") limited_query
    ≡ ok (record { json = codes "{\"limit\":1,\"query_dsl\":{},\"wants_score\":true}" })
unfolding zdb_set_query_property codes decimal or_missing find_key uint64_or_zero as_uint64 as_bool
limited_query_scored = refl
