-- ===== src/Json/Laws.antt =====
-- How the accessors of json_support.c relate.
use Prim.Native.String.{String}
use zombodb.Prelude.{
  Bool, Ends, Ends-bind, Option, arith, false, none, ok, refl, some, suc, true, with_error,
  with_fault, with_value, zero, ℕ, ◌<◌, ◌≡◌,
}
use zombodb.Json.{
  Items, Json, array, as_array, as_string, cons, get_json_array_element_object,
  get_json_array_length, get_json_object_array, get_json_object_object, get_json_object_string,
  json_false, json_null, json_true, lookup_key, nil, number, object, or_missing, string,
}

-- An index below the length of an array reads an element of it.
pub element_in_range :
    (xs : Items) (i : ℕ)
    → i < get_json_array_length xs
    → (v : Json) × (get_json_array_element_object xs i ≡ ok v)
unfolding get_json_array_length get_json_array_element_object
element_in_range nil i h = absurd (omega arith)
element_in_range (cons x xs) zero h = (x, refl)
element_in_range (cons x xs) (suc i) h = element_in_range xs i (omega arith)

pub lookup_key-Ends : (key : String) (j : Json) → Ends (lookup_key key j)
unfolding lookup_key
lookup_key-Ends key (object fields) = with_value
lookup_key-Ends key (array items) = with_fault
lookup_key-Ends key (string s) = with_fault
lookup_key-Ends key (number s) = with_fault
lookup_key-Ends key json_true = with_fault
lookup_key-Ends key json_false = with_fault
lookup_key-Ends key json_null = with_fault

or_missing-Ends : (missing_ok : Bool) (o : Option Json) → Ends (or_missing missing_ok o)
unfolding or_missing
or_missing-Ends b (some v) = with_value
or_missing-Ends true none = with_value
or_missing-Ends false none = with_error

pub get_json_object_object-Ends :
    (j : Json) (key : String) (missing_ok : Bool) → Ends (get_json_object_object j key missing_ok)
unfolding get_json_object_object
get_json_object_object-Ends j key missing_ok =
    Ends-bind (lookup_key-Ends key j) (or_missing-Ends missing_ok)

pub get_json_object_string-Ends :
    (j : Json) (key : String) (missing_ok : Bool) → Ends (get_json_object_string j key missing_ok)
unfolding get_json_object_string as_string
get_json_object_string-Ends j key missing_ok =
    Ends-bind (get_json_object_object-Ends j key missing_ok) go
  where
    go : (o : Option Json) → Ends (as_string o)
    go none = with_value
    go (some (object fields)) = with_fault
    go (some (array items)) = with_fault
    go (some (string s)) = with_value
    go (some (number s)) = with_fault
    go (some json_true) = with_fault
    go (some json_false) = with_fault
    go (some json_null) = with_fault

pub get_json_object_array-Ends :
    (j : Json) (key : String) (missing_ok : Bool) → Ends (get_json_object_array j key missing_ok)
unfolding get_json_object_array as_array
get_json_object_array-Ends j key missing_ok =
    Ends-bind (get_json_object_object-Ends j key missing_ok) go
  where
    go : (o : Option Json) → Ends (as_array o)
    go none = with_value
    go (some (object fields)) = with_fault
    go (some (array items)) = with_value
    go (some (string s)) = with_fault
    go (some (number s)) = with_fault
    go (some json_true) = with_value
    go (some json_false) = with_value
    go (some json_null) = with_value
