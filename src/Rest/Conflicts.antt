-- ===== src/Rest/Conflicts.antt =====
-- contains_version_conflict_error of src/c/rest/rest.c.
use Prim.Native.String.{String}
use text.Mathlib.Text.{◌==◌ as str_eq}
use zombodb.Prelude.{
  Bool, Ends, Ends-bind, Option, Outcome, false, none, ok, some, true, with_value, ◌>>=◌,
}
use zombodb.Json.{
  Items, Json, cons, get_json_object_array, get_json_object_object, get_json_object_string, nil,
}
use zombodb.Json.Laws.{
  get_json_object_array-Ends, get_json_object_object-Ends, get_json_object_string-Ends,
}

abbrev is_conflict_type : Option String → Bool
is_conflict_type none = false
is_conflict_type (some s) = str_eq "version_conflict_engine_exception" s

abbrev of_error : Option Json → Outcome Bool
of_error none = ok false
of_error (some e) = get_json_object_string e "type" false >>= λ s. ok (is_conflict_type s)

abbrev of_update : Option Json → Outcome Bool
of_update none = ok false
of_update (some u) = get_json_object_object u "error" true >>= of_error

-- One entry of `items`.
unfoldable pub is_version_conflict : Json → Outcome Bool
unfolding get_json_object_object get_json_object_string
is_version_conflict elem = get_json_object_object elem "update" true >>= of_update

unfoldable pub any_conflict : Items → Outcome Bool
unfolding is_version_conflict
any_conflict nil = ok false
any_conflict (cons elem items) =
    is_version_conflict elem >>= λ hit. elim hit [ true ↦ ok true | false ↦ any_conflict items ]

abbrev of_items : Option Items → Outcome Bool
of_items none = ok false
of_items (some items) = any_conflict items

unfoldable pub contains_version_conflict_error : Outcome Json → Outcome Bool
unfolding get_json_object_array any_conflict
contains_version_conflict_error parsed =
    parsed >>= λ json. get_json_object_array json "items" true >>= of_items

is_version_conflict-Ends : (elem : Json) → Ends (is_version_conflict elem)
unfolding is_version_conflict
is_version_conflict-Ends elem =
    Ends-bind (get_json_object_object-Ends elem "update" true) of_update-Ends
  where
    of_error-Ends : (o : Option Json) → Ends (of_error o)
    of_error-Ends none = with_value
    of_error-Ends (some e) = Ends-bind (get_json_object_string-Ends e "type" false) λ s. with_value

    of_update-Ends : (o : Option Json) → Ends (of_update o)
    of_update-Ends none = with_value
    of_update-Ends (some u) = Ends-bind (get_json_object_object-Ends u "error" true) of_error-Ends

any_conflict-Ends : (items : Items) → Ends (any_conflict items)
unfolding any_conflict
any_conflict-Ends nil = with_value
any_conflict-Ends (cons elem items) =
    Ends-bind (is_version_conflict-Ends elem) λ hit. go hit (any_conflict-Ends items)
  where
    go :
        (b : Bool)
        → Ends (any_conflict items)
        → Ends (elim b [ true ↦ ok true | false ↦ any_conflict items ])
    go true rest = with_value
    go false rest = rest

-- The test of a response for version conflicts ends where its parser does.
pub contains_version_conflict_error-Ends :
    (parsed : Outcome Json) → Ends parsed → Ends (contains_version_conflict_error parsed)
unfolding contains_version_conflict_error
contains_version_conflict_error-Ends parsed e =
    Ends-bind e λ json. Ends-bind (get_json_object_array-Ends json "items" true) of_items-Ends
  where
    of_items-Ends : (o : Option Items) → Ends (of_items o)
    of_items-Ends none = with_value
    of_items-Ends (some items) = any_conflict-Ends items
