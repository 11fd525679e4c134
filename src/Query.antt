-- ===== src/Query.antt =====
-- src/c/type/zdbquerytype.c and src/c/elasticsearch/querygen.c: the query type, which is a JSON text
-- with its options, and the queries that Elasticsearch gets. `JsonText` is the vendored parser and
-- what the code uses of Postgres; numbers of type float8 are `Real`.
pub mod Dsl
pub mod Options
pub mod Setting
pub mod Searching
use Prim.Native.String.{String}
use zombodb.Prelude.{
  Bool, Option, Outcome, [], error, false, fault, if◌then◌else◌, is_some, none, ok, some, true, ℕ,
  ◌++◌, ◌==◌, ◌>>=◌, ◌>>◌, ◌∷◌,
}
use zombodb.Json.{
  Json, get_json_object_bool, get_json_object_object, get_json_object_uint64, json_false, json_null,
  json_true, lookup_key, number, object,
}
use zombodb.Text.{Text, codes}

pub record JsonText : Type 1 where
  pub parse : Text → Option Json
  pub json_write : Json → Text
  pub btrim : Text → Text
  pub escape_json : Text → Text
  pub int8in : String → Option ℕ
  pub int8in_text : Text → Option ℕ
  pub boolin : Text → Option Bool
  pub Real : Type 0
  pub real_zero : Real
  pub float8in : String → Option Real
  pub float8in_text : Text → Option Real
  pub is_positive : Real → Bool
  pub print_real : Real → Text
  pub float4 : Real → Real

-- ZDBQueryType.
pub record ZdbQuery : Type 0 where
  pub json : Text

abbrev pub or_error {ℓ} : {A : Type ℓ} → Option A → String → Outcome A
or_error none e = error e
or_error (some a) e = ok a

-- `strlen(text) == 0`.
abbrev is_empty : Text → Bool
is_empty [] = true
is_empty (c ∷ t) = false

module _ (l : JsonText) where
  -- Of src/c/json/json_support.c.
  unfoldable pub is_json : Text → Bool
  is_json input = elim (l.parse input) [ some (object fields) ↦ true | _ ↦ false ]

  unfoldable pub parse_json_object_from_string : Text → Outcome Json
  parse_json_object_from_string t = or_error (l.parse t) "Error parsing json"

  unfoldable pub as_real : Option Json → Outcome l.Real
  as_real none = ok l.real_zero
  as_real (some (number n)) = or_error (l.float8in n) "invalid input syntax"
  as_real (some json_null) = ok l.real_zero
  as_real (some json_true) = ok l.real_zero
  as_real (some json_false) = ok l.real_zero
  as_real (some _) = fault

  unfoldable pub get_json_object_real : Json → String → Outcome l.Real
  unfolding as_real lookup_key
  get_json_object_real j key = lookup_key key j >>= as_real

  unfoldable pub write_json : Option Json → Option Text
  write_json none = none
  write_json (some j) = some (l.json_write j)

  -- Of src/c/elasticsearch/querygen.c.
  unfoldable pub convert_to_query_dsl_not_wrapped : Text → Text
  unfolding is_json
  convert_to_query_dsl_not_wrapped input =
      let trimmed = l.btrim input in
      if is_empty trimmed
      then codes "{\"match_all\":{}}"
      else if is_json trimmed
      then trimmed
      else codes "{\"query_string\":{\"query\":" ++ (l.escape_json trimmed ++ codes "}}")

  unfoldable pub zdbquery_string_is_zdb : Text → Outcome Bool
  unfolding is_json parse_json_object_from_string get_json_object_object
  zdbquery_string_is_zdb query =
      if is_json query
      then (parse_json_object_from_string query >>= λ json.
          get_json_object_object json "query_dsl" true >>= λ dsl. ok (is_some dsl))
      else ok false

  unfoldable pub zdbquery_in_direct : Text → Outcome ZdbQuery
  unfolding zdbquery_string_is_zdb convert_to_query_dsl_not_wrapped
  zdbquery_in_direct input = zdbquery_string_is_zdb input >>= λ is_zdb. ok (record {
    json =
        if is_zdb
        then input
        else codes "{\"query_dsl\":" ++ (convert_to_query_dsl_not_wrapped input ++ codes "}");
  })

  unfoldable pub get_uint64 : String → ZdbQuery → Outcome ℕ
  unfolding parse_json_object_from_string get_json_object_uint64
  get_uint64 key query = parse_json_object_from_string query.json >>= λ json.
      get_json_object_uint64 l.int8in json key true

  unfoldable pub zdbquery_get_raw_row_estimate : ZdbQuery → Outcome ℕ
  unfolding get_uint64
  zdbquery_get_raw_row_estimate query = get_uint64 "row_estimate" query

  unfoldable pub zdbquery_get_limit : ZdbQuery → Outcome ℕ
  unfolding get_uint64
  zdbquery_get_limit query = get_uint64 "limit" query

  unfoldable pub zdbquery_get_offset : ZdbQuery → Outcome ℕ
  unfolding get_uint64
  zdbquery_get_offset query = get_uint64 "offset" query

  unfoldable pub zdbquery_get_wants_score : ZdbQuery → Outcome Bool
  unfolding parse_json_object_from_string get_json_object_bool
  zdbquery_get_wants_score query = parse_json_object_from_string query.json >>= λ json.
      get_json_object_bool json "wants_score" true

  -- The estimate, or else the limit, or else the session's default.
  unfoldable pub zdbquery_get_row_estimate : ℕ → ZdbQuery → Outcome ℕ
  unfolding parse_json_object_from_string get_json_object_uint64
  zdbquery_get_row_estimate default_estimation query = do
    json ← parse_json_object_from_string query.json
    raw ← get_json_object_uint64 l.int8in json "row_estimate" true
    limited ← if raw == 0 then get_json_object_uint64 l.int8in json "limit" true else ok raw
    ok (if limited == 0 then default_estimation else limited)

  unfoldable pub zdbquery_get_min_score : ZdbQuery → Outcome l.Real
  unfolding parse_json_object_from_string get_json_object_real
  zdbquery_get_min_score query =
      parse_json_object_from_string query.json >>= λ json. get_json_object_real json "min_score"

  unfoldable pub get_json_text : String → ZdbQuery → Outcome (Option Text)
  unfolding parse_json_object_from_string get_json_object_object write_json
  get_json_text key query = parse_json_object_from_string query.json >>= λ json.
      get_json_object_object json key true >>= λ v. ok (write_json v)

  unfoldable pub zdbquery_get_sort_json : ZdbQuery → Outcome (Option Text)
  unfolding get_json_text
  zdbquery_get_sort_json query = get_json_text "sort_json" query

  unfoldable pub zdbquery_get_query : ZdbQuery → Outcome (Option Text)
  unfolding get_json_text
  zdbquery_get_query query = get_json_text "query_dsl" query

  -- convert_to_query_dsl_not_wrapped(zdbquery_get_query(query)).
  unfoldable pub query_text : ZdbQuery → Outcome Text
  unfolding zdbquery_get_query convert_to_query_dsl_not_wrapped
  query_text query = zdbquery_get_query query >>= λ t. elim t [
    | none ↦ fault
    | some t ↦ ok (convert_to_query_dsl_not_wrapped t)
  ]
