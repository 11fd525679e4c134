-- ===== src/Query/Dsl.antt =====
-- The query that Elasticsearch gets for a ZomboDB query and for the keys of an index scan, as
-- src/c/elasticsearch/querygen.c makes it.
use zombodb.Prelude.{
  Bool, List, Option, Outcome, [], error, false, fault, if◌then◌else◌, none, ok, some, ℕ, ◌++◌,
  ◌==◌, ◌>>=◌, ◌||◌, ◌∷◌,
}
use zombodb.Query.{JsonText, ZdbQuery, query_text, zdbquery_get_query, zdbquery_in_direct}
use zombodb.Text.{Text, codes}

-- A key's argument is a query or an array of queries (a NULL element is `none`).
pub data Argument : Type 0 where
  single : ZdbQuery → Argument
  many : List (Option ZdbQuery) → Argument

pub record ScanKey : Type 0 where
  pub search_array : Bool
  pub strategy : ℕ
  pub argument : Argument

abbrev pub strategy_single : ℕ
strategy_single = 1

abbrev pub strategy_array_should : ℕ
strategy_array_should = 2

abbrev pub strategy_array_must : ℕ
strategy_array_must = 3

abbrev pub strategy_array_not : ℕ
strategy_array_not = 4

-- The argument read as an array, or as a query; the other one is undefined.
unfoldable pub argument_array : Argument → Outcome (List (Option ZdbQuery))
argument_array (single q) = fault
argument_array (many qs) = ok qs

unfoldable pub argument_query : Argument → Outcome ZdbQuery
argument_query (single q) = ok q
argument_query (many qs) = fault

-- array_to_zdbqueries.
unfoldable pub non_null_queries : List (Option ZdbQuery) → Outcome (List ZdbQuery)
non_null_queries [] = ok []
non_null_queries (none ∷ qs) = error "expected zdbquery[] of non-null values"
non_null_queries (some q ∷ qs) = non_null_queries qs >>= λ rest. ok (q ∷ rest)

-- The texts with commas between them.
unfoldable pub comma_separated : List Text → Text
comma_separated [] = []
comma_separated (t ∷ []) = t
comma_separated (t ∷ u ∷ ts) = t ++ (codes "," ++ comma_separated (u ∷ ts))

unfoldable pub is_array_key : ScanKey → Bool
is_array_key key =
    key.search_array
    || (key.strategy == strategy_array_should
        || (key.strategy == strategy_array_must || key.strategy == strategy_array_not))

unfoldable pub has_array : List ScanKey → Bool
unfolding is_array_key
has_array [] = false
has_array (key ∷ keys) = is_array_key key || has_array keys

module _ (l : JsonText) where
  unfoldable pub query_texts : List ZdbQuery → Outcome (List Text)
  unfolding query_text
  query_texts [] = ok []
  query_texts (q ∷ qs) = do t ← query_text l q; ts ← query_texts qs; ok (t ∷ ts)

  unfoldable pub to_bool_query : List (Option ZdbQuery) → Text → Outcome ZdbQuery
  unfolding non_null_queries query_texts zdbquery_in_direct
  to_bool_query elements type = do
    queries ← non_null_queries elements
    texts ← query_texts queries
    zdbquery_in_direct l (
        codes "{\"bool\":{\"" ++ (type ++ (codes "\":[" ++ (comma_separated texts ++ codes "]}}"))))

  unfoldable pub array_to_should_query_dsl : List (Option ZdbQuery) → Outcome ZdbQuery
  unfolding to_bool_query
  array_to_should_query_dsl elements = to_bool_query elements (codes "should")

  unfoldable pub array_to_must_query_dsl : List (Option ZdbQuery) → Outcome ZdbQuery
  unfolding to_bool_query
  array_to_must_query_dsl elements = to_bool_query elements (codes "must")

  unfoldable pub array_to_not_query_dsl : List (Option ZdbQuery) → Outcome ZdbQuery
  unfolding to_bool_query
  array_to_not_query_dsl elements = to_bool_query elements (codes "must_not")

  unfoldable pub do_scan_key : ScanKey → Outcome ZdbQuery
  unfolding argument_array argument_query array_to_should_query_dsl array_to_must_query_dsl
      array_to_not_query_dsl query_text zdbquery_in_direct
  do_scan_key key =
      if key.search_array
      then argument_array key.argument >>= array_to_should_query_dsl
      else if key.strategy == strategy_array_should
      then argument_array key.argument >>= array_to_should_query_dsl
      else if key.strategy == strategy_array_must
      then argument_array key.argument >>= array_to_must_query_dsl
      else if key.strategy == strategy_array_not
      then argument_array key.argument >>= array_to_not_query_dsl
      else if key.strategy == strategy_single
      then (argument_query key.argument >>= λ q. query_text l q >>= zdbquery_in_direct l)
      else error "Unrecognized ScanKey"

  unfoldable pub key_texts : List ScanKey → Outcome (List Text)
  unfolding do_scan_key query_text
  key_texts [] = ok []
  key_texts (key ∷ keys) = do
    q ← do_scan_key key
    t ← query_text l q
    ts ← key_texts keys
    ok (t ∷ ts)

  unfoldable pub must_of_keys : List ScanKey → Outcome ZdbQuery
  unfolding key_texts comma_separated zdbquery_in_direct
  must_of_keys keys = key_texts keys >>= λ texts.
      zdbquery_in_direct l (codes "{\"bool\":{\"must\":[" ++ (comma_separated texts ++ codes "]}}"))

  unfoldable pub scan_keys_to_query_dsl : List ScanKey → Outcome ZdbQuery
  unfolding do_scan_key must_of_keys has_array argument_query
  scan_keys_to_query_dsl (key ∷ []) =
      if has_array (key ∷ []) then do_scan_key key else argument_query key.argument
  scan_keys_to_query_dsl keys = must_of_keys keys

  -- `visibility` is the query that zdb_internal_visibility_clause gives for the index.
  unfoldable pub wrap_with_visibility_query : ZdbQuery → Text → Outcome Text
  unfolding zdbquery_get_query
  wrap_with_visibility_query visibility query = zdbquery_get_query l visibility >>= λ v. elim v [
    | none ↦ fault
    | some v ↦
        ok
          (codes "{\"bool\":{\"must\":[" ++ (query ++ (codes "],\"filter\":" ++ (v ++ codes "}}"))))
  ]

  unfoldable pub convert_to_query_dsl : Bool → ZdbQuery → ZdbQuery → Bool → Outcome Text
  unfolding query_text wrap_with_visibility_query
  convert_to_query_dsl ignore_visibility visibility query apply_visibility =
      query_text l query >>= λ unwrapped.
      if ignore_visibility
      then ok unwrapped
      else if apply_visibility
      then wrap_with_visibility_query visibility unwrapped
      else ok (
          codes "{\"bool\":{\"must\":["
          ++ (unwrapped ++ codes "],\"must_not\":[{\"term\":{\"_id\":\"zdb_aborted_xids\"}}]}}"))
