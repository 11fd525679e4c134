-- ===== src/Highlights.antt =====
-- Highlights: the hash table of src/c/highlighting/highlighting.c, the fragments that a hit brings,
-- and the callbacks that zdb.highlight() asks.
pub mod Saved
use zombodb.Prelude.{
  Bool, List, Option, Outcome, [], fault, if◌then◌else◌, none, ok, some, suc, take, zero, ℕ, ◌&&◌,
  ◌++◌, ◌+◌, ◌==◌, ◌>>=◌, ◌>>◌, ◌∷◌,
}
use zombodb.Bulk.{text_eq}
use zombodb.Json.{
  Fields, Items, Json, as_array, end, field, get_json_array_element_string, get_json_array_length,
  json_null, object,
}
use zombodb.Scroll.{found}
use zombodb.Text.{Text, codes}
use zombodb.Xid.{ItemPointer, ctid_eq}

abbrev pub name_datalen : ℕ
name_datalen = 64

abbrev pub highlight_field_max_length : ℕ
highlight_field_max_length = 8192

-- A field's name stands in a buffer that is filled up with zeros.
pub record HighlightKey : Type 0 where
  pub ctid : ItemPointer
  pub field_data : Text

-- A hash table of highlights, the last entry first.
abbrev pub HighlightTable : Type 0
HighlightTable = List (HighlightKey × List Text)

unfoldable pub highlight_key_eq : HighlightKey → HighlightKey → Bool
unfolding ctid_eq text_eq
highlight_key_eq a b = ctid_eq a.ctid b.ctid && text_eq a.field_data b.field_data

unfoldable pub find_highlights : HighlightKey → HighlightTable → Option (List Text)
unfolding highlight_key_eq
find_highlights key [] = none
find_highlights key ((k, texts) ∷ table) =
    if highlight_key_eq k key then some texts else find_highlights key table

-- HASH_ENTER, and the new list.
unfoldable pub enter_highlights : HighlightKey → List Text → HighlightTable → HighlightTable
enter_highlights key texts table = (key, texts) ∷ table

-- The key that save_highlights writes under, with `Min(fieldlen, NAMEDATALEN)` bytes of the name.
unfoldable pub saved_key : ItemPointer → Text → HighlightKey
saved_key ctid name = record { ctid = ctid; field_data = take name_datalen name }

-- `for (i = 0; i < len; i++)`: the `n` elements from `i` on.
unfoldable pub element_strings : Items → ℕ → ℕ → Outcome (List Text)
unfolding get_json_array_element_string
element_strings items i zero = ok []
element_strings items i (suc n) = do
  s ← get_json_array_element_string items i
  rest ← element_strings items (i + 1) n
  ok (codes s ∷ rest)

-- The fragments of a field.
unfoldable pub fragments : Json → Outcome (List Text)
unfolding as_array element_strings get_json_array_length
fragments value = as_array (some value) >>= λ payload.
    found payload >>= λ items. element_strings items 0 (get_json_array_length items)

-- The walk over the keys of the object.
unfoldable pub save_fields : ItemPointer → Fields → HighlightTable → Outcome HighlightTable
unfolding fragments enter_highlights saved_key
save_fields ctid end table = ok table
save_fields ctid (field name value rest) table = fragments value >>= λ texts.
    save_fields ctid rest (enter_highlights (saved_key ctid (codes name)) texts table)

unfoldable pub save_highlights : ItemPointer → Option Json → HighlightTable → Outcome HighlightTable
unfolding save_fields
save_highlights ctid none table = ok table
save_highlights ctid (some (object fields)) table = save_fields ctid fields table
save_highlights ctid (some json_null) table = fault
save_highlights ctid (some _) table = fault

-- The callbacks that are registered, by the heap's oid.
pub record HighlightEntry : Type 0 where
  pub heap_oid : ℕ
  pub callbacks : List ℕ

unfoldable pub highlight_register_callback : ℕ → ℕ → List HighlightEntry → List HighlightEntry
highlight_register_callback heap_oid callback [] =
    record { heap_oid = heap_oid; callbacks = callback ∷ [] } ∷ []
highlight_register_callback heap_oid callback (e ∷ es) =
    if heap_oid == e.heap_oid
    then record e { callbacks = e.callbacks ++ (callback ∷ []) } ∷ es
    else e ∷ highlight_register_callback heap_oid callback es

-- `call` gives a callback's highlights of the row and the field.
module _ (call : ℕ → List Text) where
  unfoldable pub all_highlights : List ℕ → List Text
  all_highlights [] = []
  all_highlights (callback ∷ callbacks) = call callback ++ all_highlights callbacks

  unfoldable pub highlight_lookup_highlights : ℕ → List HighlightEntry → List Text
  unfolding all_highlights
  highlight_lookup_highlights heap_oid [] = []
  highlight_lookup_highlights heap_oid (e ∷ es) =
      (if heap_oid == e.heap_oid then all_highlights e.callbacks else [])
      ++ highlight_lookup_highlights heap_oid es

-- The name that zdb_highlight() passes on.
unfoldable pub asked_field : Text → Text
asked_field name = take highlight_field_max_length name
