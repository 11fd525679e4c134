-- ===== src/Aggs/Requests.antt =====
-- The aggregate functions of src/c/elasticsearch/elasticsearch.c, each with its aggregate. A function
-- gives the aggregate's text and the field that decides whether it is nested; `aggregate` sends it.
use Prim.Native.String.{String}
use text.Mathlib.Text.{◌==◌ as str_eq}
use zombodb.Prelude.{
  List, Option, Outcome, [], false, if◌then◌else◌, is_some, ltb, none, ok, some, suc, true, zero, ℕ,
  ◌++◌, ◌+◌, ◌==◌, ◌>>=◌, ◌∷◌,
}
use zombodb.Aggs.{AggContext, make_agg_request, nested_base}
use zombodb.Curl.{Curl, Response}
use zombodb.Json.{
  Items, Json, get_json_array_element_object, get_json_array_length, get_json_object_array,
  get_json_object_object, get_json_object_string_force,
}
use zombodb.Query.{JsonText, ZdbQuery}
use zombodb.Query.Dsl.{comma_separated, convert_to_query_dsl}
use zombodb.Text.{Text, codes, decimal}

abbrev pub int_max : Text
int_max = codes "2147483647"

-- A size of 0 is the largest one.
unfoldable pub size_text : ℕ → Text
size_text size = if size == 0 then int_max else decimal size

unfoldable pub make_terms_order_clause : String → Text
make_terms_order_clause order =
    if str_eq "count" order
    then codes ",\"order\":{\"_count\":\"desc\"}"
    else if str_eq "term" order
    then codes ",\"order\":{\"_term\":\"asc\"}"
    else if str_eq "reverse_count" order
    then codes ",\"order\":{\"_count\":\"asc\"}"
    else if str_eq "reverse_term" order
    then codes ",\"order\":{\"_term\":\"desc\"}"
    else []

-- `{"name":{"field":"..."rest}}`.
unfoldable pub field_agg : Text → Text → Text → Text
field_agg name field_name rest =
    codes "{\""
    ++ (name ++ (codes "\":{\"field\":\"" ++ (field_name ++ (codes "\"" ++ (rest ++ codes "}}")))))

-- `,"key":[text]`, unless the text is empty.
unfoldable pub list_option : Text → Text → Text
list_option key [] = []
list_option key (ch ∷ text) = codes ",\"" ++ (key ++ (codes "\":[" ++ ((ch ∷ text) ++ codes "]")))

unfoldable pub quoted : List Text → List Text
quoted [] = []
quoted (t ∷ ts) = (codes "\"" ++ (t ++ codes "\"")) ∷ quoted ts

module _ (l : JsonText) (c : Curl) (a : AggContext) where
  -- Over one field.
  unfoldable pub aggregate : Option ZdbQuery → Text → Text → c.World → Outcome (Response × c.World)
  unfolding make_agg_request
  aggregate query agg field_name w = make_agg_request l c a query agg (some field_name) false w

  unfoldable pub arbitrary_agg : Option ZdbQuery → Text → c.World → Outcome (Response × c.World)
  unfolding make_agg_request
  arbitrary_agg query agg w = make_agg_request l c a query agg none true w

  unfoldable pub terms :
      Text → Option ZdbQuery → String → ℕ → c.World → Outcome (Response × c.World)
  unfolding aggregate field_agg size_text make_terms_order_clause
  terms field_name query order size w =
      aggregate query
        (field_agg (codes "terms") field_name (
          codes ",\"shard_size\":"
          ++ (int_max
              ++ (codes ",\"size\":" ++ (size_text size ++ make_terms_order_clause order)))))
        field_name w

  unfoldable pub avg_agg : Text → Option ZdbQuery → c.World → Outcome (Response × c.World)
  unfolding aggregate field_agg
  avg_agg field_name query w = aggregate query (field_agg (codes "avg") field_name []) field_name w

  unfoldable pub min_agg : Text → Option ZdbQuery → c.World → Outcome (Response × c.World)
  unfolding aggregate field_agg
  min_agg field_name query w = aggregate query (field_agg (codes "min") field_name []) field_name w

  unfoldable pub max_agg : Text → Option ZdbQuery → c.World → Outcome (Response × c.World)
  unfolding aggregate field_agg
  max_agg field_name query w = aggregate query (field_agg (codes "max") field_name []) field_name w

  unfoldable pub cardinality_agg : Text → Option ZdbQuery → c.World → Outcome (Response × c.World)
  unfolding aggregate field_agg
  cardinality_agg field_name query w =
      aggregate query (field_agg (codes "cardinality") field_name []) field_name w

  unfoldable pub sum_agg : Text → Option ZdbQuery → c.World → Outcome (Response × c.World)
  unfolding aggregate field_agg
  sum_agg field_name query w = aggregate query (field_agg (codes "sum") field_name []) field_name w

  unfoldable pub value_count_agg : Text → Option ZdbQuery → c.World → Outcome (Response × c.World)
  unfolding aggregate field_agg
  value_count_agg field_name query w =
      aggregate query (field_agg (codes "value_count") field_name []) field_name w

  unfoldable pub stats_agg : Text → Option ZdbQuery → c.World → Outcome (Response × c.World)
  unfolding aggregate field_agg
  stats_agg field_name query w =
      aggregate query (field_agg (codes "stats") field_name []) field_name w

  unfoldable pub missing_agg : Text → Option ZdbQuery → c.World → Outcome (Response × c.World)
  unfolding aggregate field_agg
  missing_agg field_name query w =
      aggregate query (field_agg (codes "missing") field_name []) field_name w

  unfoldable pub percentiles :
      Text → Option ZdbQuery → Text → c.World → Outcome (Response × c.World)
  unfolding aggregate field_agg list_option
  percentiles field_name query percents w =
      aggregate query
        (field_agg (codes "percentiles") field_name (list_option (codes "percents") percents))
        field_name w

  unfoldable pub percentile_ranks :
      Text → Option ZdbQuery → Text → c.World → Outcome (Response × c.World)
  unfolding aggregate field_agg list_option
  percentile_ranks field_name query values w =
      aggregate query
        (field_agg (codes "percentiles") field_name (list_option (codes "values") values))
        field_name w

  unfoldable pub extended_stats :
      Text → Option ZdbQuery → ℕ → c.World → Outcome (Response × c.World)
  unfolding aggregate field_agg
  extended_stats field_name query sigma w =
      aggregate query
        (field_agg (codes "extended_stats") field_name
          (if ltb 0 sigma then codes ",\"sigma\":" ++ decimal sigma else []))
        field_name w

  unfoldable pub significant_terms :
      Text → Option ZdbQuery → Text → ℕ → ℕ → c.World → Outcome (Response × c.World)
  unfolding aggregate field_agg
  significant_terms field_name query include size min_doc_count w =
      aggregate query
        (field_agg (codes "significant_terms") field_name (
          codes ", \"include\":\""
          ++ (include
              ++ (codes "\", \"size\":"
                  ++ (decimal size ++ (codes ", \"min_doc_count\":" ++ decimal min_doc_count))))))
        field_name w

  unfoldable pub range_agg : Text → Option ZdbQuery → Text → c.World → Outcome (Response × c.World)
  unfolding aggregate field_agg
  range_agg field_name query ranges w =
      aggregate query (field_agg (codes "range") field_name (codes ",\"ranges\":" ++ ranges))
        field_name w

  unfoldable pub date_range_agg :
      Text → Option ZdbQuery → Text → c.World → Outcome (Response × c.World)
  unfolding aggregate field_agg
  date_range_agg field_name query ranges w =
      aggregate query (field_agg (codes "date_range") field_name (codes ",\"ranges\":" ++ ranges))
        field_name w

  unfoldable pub ip_range_agg :
      Text → Option ZdbQuery → Text → c.World → Outcome (Response × c.World)
  unfolding aggregate field_agg
  ip_range_agg field_name query ranges w =
      aggregate query (field_agg (codes "ip_range") field_name (codes ",\"ranges\":" ++ ranges))
        field_name w

  unfoldable pub date_histogram :
      Text → Option ZdbQuery → Text → Text → c.World → Outcome (Response × c.World)
  unfolding aggregate field_agg
  date_histogram field_name query interval format w =
      aggregate query
        (field_agg (codes "date_histogram") field_name (
          codes ",\"interval\":\""
          ++ (interval ++ (codes "\",\"format\":\"" ++ (format ++ codes "\"")))))
        field_name w

  unfoldable pub histogram :
      Text → Option ZdbQuery → l.Real → ℕ → c.World → Outcome (Response × c.World)
  unfolding aggregate field_agg
  histogram field_name query interval min_doc_count w =
      aggregate query
        (field_agg (codes "histogram") field_name (
          codes ",\"interval\":"
          ++ (l.print_real interval
              ++ (if ltb 0 min_doc_count
                  then codes ",\"min_doc_count\":" ++ decimal min_doc_count
                  else []))))
        field_name w

  -- The filters with their labels.
  unfoldable pub filter_texts : List (Text × ZdbQuery) → Outcome (List Text)
  unfolding convert_to_query_dsl
  filter_texts [] = ok []
  filter_texts ((label, query) ∷ filters) = do
    dsl ← convert_to_query_dsl l a.ignore_visibility a.visibility query true
    rest ← filter_texts filters
    ok ((codes "\"" ++ (label ++ (codes "\":" ++ dsl))) ∷ rest)

  unfoldable pub labelled : Text → List (Text × ZdbQuery) → c.World → Outcome (Response × c.World)
  unfolding filter_texts comma_separated make_agg_request
  labelled name filters w = filter_texts filters >>= λ texts.
      make_agg_request l c a none
        (codes "{\""
          ++ (name ++ (codes "\":{\"filters\":{" ++ (comma_separated texts ++ codes "}}}"))))
        none false w

  unfoldable pub filters_agg : List (Text × ZdbQuery) → c.World → Outcome (Response × c.World)
  unfolding labelled
  filters_agg filters w = labelled (codes "filters") filters w

  unfoldable pub adjacency_matrix : List (Text × ZdbQuery) → c.World → Outcome (Response × c.World)
  unfolding labelled
  adjacency_matrix filters w = labelled (codes "adjacency_matrix") filters w

  unfoldable pub matrix_stats : Option ZdbQuery → List Text → c.World → Outcome (Response × c.World)
  unfolding quoted comma_separated make_agg_request
  matrix_stats query fields w =
      make_agg_request l c a query
        (codes "{\"matrix_stats\":{\"fields\":["
          ++ (comma_separated (quoted fields) ++ codes "]}}"))
        none false w

  unfoldable pub top_hits : Option ZdbQuery → List Text → ℕ → c.World → Outcome (Response × c.World)
  unfolding quoted comma_separated size_text make_agg_request
  top_hits query fields size w =
      make_agg_request l c a query
        (codes "{\"top_hits\":{\"_source\":["
          ++ (comma_separated (quoted fields)
              ++ (codes "],\"size\":" ++ (size_text size ++ codes "}}"))))
        none false w

  -- ElasticsearchTermsAsArray: the keys of the buckets; `none` is NULL.
  unfoldable pub bucket_keys : ℕ → ℕ → Items → Outcome (List String)
  unfolding get_json_array_element_object get_json_object_string_force
  bucket_keys zero i buckets = ok []
  bucket_keys (suc n) i buckets = do
    obj ← get_json_array_element_object buckets i
    term ← get_json_object_string_force obj "key"
    terms_after ← bucket_keys n (i + 1) buckets
    ok (term ∷ terms_after)

  unfoldable pub the_agg_of : Text → Json → Outcome (Option Json)
  unfolding nested_base get_json_object_object
  the_agg_of field_name aggregations =
      if is_some (nested_base a.heap (some field_name))
      then (get_json_object_object aggregations "nested_agg" true >>= λ nested. elim nested [
        | none ↦ ok none
        | some j ↦ get_json_object_object j "the_agg" true
      ])
      else get_json_object_object aggregations "the_agg" true

  unfoldable pub agg_keys : Option Json → Outcome (List String)
  unfolding bucket_keys get_json_object_array get_json_array_length
  agg_keys none = ok []
  agg_keys (some the_agg) = get_json_object_array the_agg "buckets" true >>= λ b. elim b [
    | none ↦ ok []
    | some buckets ↦ bucket_keys (get_json_array_length buckets) 0 buckets
  ]

  unfoldable pub terms_as_array :
      Text → Option ZdbQuery → String → ℕ → c.World → Outcome (List String × c.World)
  unfolding terms the_agg_of agg_keys
  terms_as_array field_name query order size w = do
    r ← terms field_name query order size w
    json ← r.0.json
    aggregations ← get_json_object_object json "aggregations" true
    the_agg ← elim aggregations [ none ↦ ok none | some j ↦ the_agg_of field_name j ]
    keys ← agg_keys the_agg
    ok (keys, r.1)
