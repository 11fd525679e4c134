-- ===== src/Query/Options.antt =====
-- zdb_set_query_property of src/c/type/zdbquerytype.c.
use Prim.Native.String.{String}
use text.Mathlib.Text.{◌==◌ as str_eq}
use zombodb.Prelude.{
  Bool, List, Option, Outcome, [], error, false, if◌then◌else◌, length, ltb, none, ok, some, true,
  ℕ, ◌++◌, ◌>>=◌, ◌∷◌,
}
use zombodb.Query.{
  JsonText, ZdbQuery, or_error, zdbquery_get_limit, zdbquery_get_min_score, zdbquery_get_offset,
  zdbquery_get_query, zdbquery_get_raw_row_estimate, zdbquery_get_sort_json,
  zdbquery_get_wants_score, zdbquery_in_direct,
}
use zombodb.Text.{Text, codes, decimal}

pub data Property : Type 0 where
  zdbquery_limit zdbquery_offset zdbquery_min_score zdbquery_sort_json zdbquery_row_estimate
        zdbquery_query_dsl zdbquery_wants_score :
      Property

unfoldable pub property_of : String → Outcome Property
property_of key =
    if str_eq key "limit"
    then ok zdbquery_limit
    else if str_eq key "offset"
    then ok zdbquery_offset
    else if str_eq key "min_score"
    then ok zdbquery_min_score
    else if str_eq key "sort_json"
    then ok zdbquery_sort_json
    else if str_eq key "row_estimate"
    then ok zdbquery_row_estimate
    else if str_eq key "query_dsl"
    then ok zdbquery_query_dsl
    else if str_eq key "wants_score"
    then ok zdbquery_wants_score
    else error "unrecognized zdbquery property"

-- `prop == i`.
unfoldable pub property_eq : Property → Property → Bool
property_eq zdbquery_limit zdbquery_limit = true
property_eq zdbquery_offset zdbquery_offset = true
property_eq zdbquery_min_score zdbquery_min_score = true
property_eq zdbquery_sort_json zdbquery_sort_json = true
property_eq zdbquery_row_estimate zdbquery_row_estimate = true
property_eq zdbquery_query_dsl zdbquery_query_dsl = true
property_eq zdbquery_wants_score zdbquery_wants_score = true
property_eq _ _ = false

-- An entry behind the others, with its comma: the length counts the opening brace.
unfoldable pub add_entry : String → Option Text → Text → Text
add_entry name none query = query
add_entry name (some value) query =
    query ++ ((if ltb 1 (length query) then codes "," else []) ++ (codes name ++ value))

-- `%lu` of a positive number.
unfoldable pub positive_text : ℕ → Option Text
positive_text n = if ltb 0 n then some (decimal n) else none

module _ (l : JsonText) where
  unfoldable pub real_text : l.Real → Option Text
  real_text x = if l.is_positive x then some (l.print_real x) else none

  -- The value if this is the property, or else what the query has.
  unfoldable pub value_or :
      {A : Type 0} → Property → Property → (Text → Option A) → Text → Outcome A → Outcome A
  unfolding property_eq
  value_or prop i read value old =
      if property_eq prop i then or_error (read value) "invalid input syntax" else old

  -- The case of the loop for one property: the query's text with the property's entry.
  unfoldable pub set_entry : Property → Text → ZdbQuery → Property → Text → Outcome Text
  unfolding value_or positive_text real_text add_entry zdbquery_get_limit zdbquery_get_offset
      zdbquery_get_min_score zdbquery_get_sort_json zdbquery_get_raw_row_estimate zdbquery_get_query
      zdbquery_get_wants_score
  set_entry prop value input zdbquery_limit query =
      value_or prop zdbquery_limit l.int8in_text value (zdbquery_get_limit l input) >>= λ n.
      ok (add_entry "\"limit\":" (positive_text n) query)
  set_entry prop value input zdbquery_offset query =
      value_or prop zdbquery_offset l.int8in_text value (zdbquery_get_offset l input) >>= λ n.
      ok (add_entry "\"offset\":" (positive_text n) query)
  set_entry prop value input zdbquery_min_score query =
      value_or prop zdbquery_min_score l.float8in_text value (zdbquery_get_min_score l input)
      >>= λ x. ok (add_entry "\"min_score\":" (real_text x) query)
  set_entry prop value input zdbquery_sort_json query =
      value_or prop zdbquery_sort_json (λ t. some (some t)) value (zdbquery_get_sort_json l input)
      >>= λ t. ok (add_entry "\"sort_json\":" t query)
  set_entry prop value input zdbquery_row_estimate query =
      value_or prop zdbquery_row_estimate l.int8in_text value
        (zdbquery_get_raw_row_estimate l input)
      >>= λ n. ok (add_entry "\"row_estimate\":" (positive_text n) query)
  set_entry prop value input zdbquery_query_dsl query =
      value_or prop zdbquery_query_dsl (λ t. some (some t)) value (zdbquery_get_query l input)
      >>= λ t. ok (add_entry "\"query_dsl\":" t query)
  set_entry prop value input zdbquery_wants_score query =
      value_or prop zdbquery_wants_score l.boolin value (zdbquery_get_wants_score l input) >>= λ b.
      ok (add_entry "\"wants_score\":" (if b then some (codes "true") else none) query)

  unfoldable pub set_entries : Property → Text → ZdbQuery → List Property → Text → Outcome Text
  unfolding set_entry
  set_entries prop value input [] query = ok query
  set_entries prop value input (i ∷ is) query =
      set_entry prop value input i query >>= set_entries prop value input is

  abbrev pub all_properties : List Property
  all_properties =
      zdbquery_limit ∷ zdbquery_offset ∷ zdbquery_min_score ∷ zdbquery_sort_json
      ∷ zdbquery_row_estimate ∷ zdbquery_query_dsl ∷ zdbquery_wants_score ∷ []

  unfoldable pub zdb_set_query_property : String → Text → ZdbQuery → Outcome ZdbQuery
  unfolding property_of set_entries zdbquery_in_direct
  zdb_set_query_property key value input = do
    prop ← property_of key
    query ← set_entries prop value input all_properties (codes "{")
    zdbquery_in_direct l (query ++ codes "}")
