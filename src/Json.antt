-- ===== src/Json.antt =====
-- src/c/json/json_support.c: the accessors over the values that the vendored parser returns.
-- A value is a `json_value_s`; its payload is the constructor's argument. Strings and numbers are
-- kept as their text. The C accessors cast payloads without looking at the type; a cast to another
-- payload type is `fault` here.
pub mod Laws
use Prim.Native.String.{String}
use text.Mathlib.Text.{◌==◌ as str_eq}
use zombodb.Prelude.{
  Bool, Option, Outcome, error, false, fault, if◌then◌else◌, none, ok, some, suc, true, zero, ℕ,
  ◌>>=◌,
}

mutual
  pub data Json : Type 0 where
    object : Fields → Json
    array : Items → Json
    string : String → Json
    number : String → Json
    json_true json_false json_null : Json

  pub data Fields : Type 0 where
    end : Fields
    field : String → Json → Fields → Fields

  pub data Items : Type 0 where
    nil : Items
    cons : Json → Items → Items

-- The walk `for (elem = obj->start; elem != NULL; elem = elem->next)` with its `strcmp`.
unfoldable pub find_key : String → Fields → Option Json
find_key key end = none
find_key key (field name value rest) = if str_eq key name then some value else find_key key rest

abbrev pub missing_key : String
missing_key = "no such key in json object"

unfoldable pub lookup_key : String → Json → Outcome (Option Json)
unfolding find_key
lookup_key key (object fields) = ok (find_key key fields)
lookup_key key json_null = fault
lookup_key key _ = fault

unfoldable pub or_missing : Bool → Option Json → Outcome (Option Json)
or_missing missing_ok (some v) = ok (some v)
or_missing true none = ok none
or_missing false none = error missing_key

unfoldable pub get_json_object_object : Json → String → Bool → Outcome (Option Json)
unfolding lookup_key or_missing
get_json_object_object j key missing_ok = lookup_key key j >>= or_missing missing_ok

unfoldable pub as_string : Option Json → Outcome (Option String)
as_string none = ok none
as_string (some (string s)) = ok (some s)
as_string (some json_null) = fault
as_string (some _) = fault

unfoldable pub get_json_object_string : Json → String → Bool → Outcome (Option String)
unfolding get_json_object_object as_string
get_json_object_string j key missing_ok = get_json_object_object j key missing_ok >>= as_string

unfoldable pub force_string : Option Json → Outcome String
force_string none = error missing_key
force_string (some (string s)) = ok s
force_string (some (number n)) = ok n
force_string (some json_false) = ok "false"
force_string (some json_true) = ok "true"
force_string (some json_null) = ok "null"
force_string (some (object fs)) = error "cannot force value for key to string"
force_string (some (array xs)) = error "cannot force value for key to string"

unfoldable pub get_json_object_string_force : Json → String → Outcome String
unfolding lookup_key force_string
get_json_object_string_force j key = lookup_key key j >>= force_string

unfoldable pub as_bool : Option Json → Bool
as_bool (some json_true) = true
as_bool (some _) = false
as_bool none = false

unfoldable pub get_json_object_bool : Json → String → Bool → Outcome Bool
unfolding get_json_object_object as_bool
get_json_object_bool j key missing_ok =
    get_json_object_object j key missing_ok >>= λ v. ok (as_bool v)

-- The payload of an array value; that of `null`, `true` and `false` is NULL.
unfoldable pub as_array : Option Json → Outcome (Option Items)
as_array none = ok none
as_array (some (array xs)) = ok (some xs)
as_array (some json_null) = ok none
as_array (some json_true) = ok none
as_array (some json_false) = ok none
as_array (some _) = fault

unfoldable pub get_json_object_array : Json → String → Bool → Outcome (Option Items)
unfolding get_json_object_object as_array
get_json_object_array j key missing_ok = get_json_object_object j key missing_ok >>= as_array

unfoldable pub get_json_array_length : Items → ℕ
get_json_array_length nil = 0
get_json_array_length (cons x xs) = suc (get_json_array_length xs)

-- `list[idx]->value`, over the list that `build_json_list` makes; past its end is undefined.
unfoldable pub get_json_array_element_object : Items → ℕ → Outcome Json
get_json_array_element_object nil i = fault
get_json_array_element_object (cons x xs) zero = ok x
get_json_array_element_object (cons x xs) (suc i) = get_json_array_element_object xs i

-- The text of a string's payload; that of `null`, `true` and `false` is NULL.
unfoldable pub element_string : Json → Outcome String
element_string (string s) = ok s
element_string json_null = fault
element_string _ = fault

unfoldable pub get_json_array_element_string : Items → ℕ → Outcome String
unfolding get_json_array_element_object element_string
get_json_array_element_string xs i = get_json_array_element_object xs i >>= element_string

-- `int8in` is Postgres' reader of 64-bit integers; `none` is its ERROR.
module _ (int8in : String → Option ℕ) where
  unfoldable pub as_uint64 : Json → Outcome ℕ
  as_uint64 (number n) = elim (int8in n) [ none ↦ error "invalid input syntax" | some v ↦ ok v ]
  as_uint64 json_null = fault
  as_uint64 _ = fault

  unfoldable pub uint64_or_zero : Option Json → Outcome ℕ
  unfolding as_uint64
  uint64_or_zero none = ok 0
  uint64_or_zero (some v) = as_uint64 v

  unfoldable pub get_json_object_uint64 : Json → String → Bool → Outcome ℕ
  unfolding get_json_object_object uint64_or_zero
  get_json_object_uint64 j key missing_ok =
      get_json_object_object j key missing_ok >>= uint64_or_zero

  unfoldable pub get_json_array_element_uint64 : Items → ℕ → Outcome ℕ
  unfolding get_json_array_element_object as_uint64
  get_json_array_element_uint64 xs i = get_json_array_element_object xs i >>= as_uint64

  unfoldable pub first_uint64 : Option Json → Outcome ℕ
  unfolding as_uint64
  first_uint64 none = error missing_key
  first_uint64 (some (array (cons x xs))) = as_uint64 x
  first_uint64 (some (array nil)) = fault
  first_uint64 (some json_null) = fault
  first_uint64 (some _) = fault

  unfoldable pub get_json_first_array_uint64 : Json → String → Outcome ℕ
  unfolding lookup_key first_uint64
  get_json_first_array_uint64 j key = lookup_key key j >>= first_uint64
