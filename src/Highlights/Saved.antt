-- ===== src/Highlights/Saved.antt =====
-- What the table of highlights holds of a row after its hit has been saved.
use zombodb.Prelude.{
  Bool-cases, Ends, Ends-bind, List, Option, Outcome, WhenOk, WhenOk-bind, WhenOk-mono, [], ap, ap₂,
  arith, false, faulted, if◌then◌else◌, inl, inr, length, none, ok, refl, returned, some, suc, take,
  take-length, take-whole, true, with_fault, with_value, zero, ℕ, ◌&&◌, ◌+◌, ◌<◌, ◌>>=◌, ◌∙◌, ◌∷◌,
  ◌≡◌, ◌≤◌,
}
use zombodb.Bulk.{text_eq}
use zombodb.Highlights.{
  HighlightKey, HighlightTable, asked_field, element_strings, enter_highlights, find_highlights,
  fragments, highlight_field_max_length, highlight_key_eq, name_datalen, save_fields,
  save_highlights, saved_key,
}
use zombodb.Json.{
  Fields, Items, Json, array, as_array, cons, element_string, end, field,
  get_json_array_element_object, get_json_array_element_string, get_json_array_length, json_false,
  json_null, json_true, nil, number, object, string,
}
use zombodb.Scroll.Liveness.{found-Ends}
use zombodb.Text.{Text, codes}
use zombodb.Xid.{ItemPointer, ctid_eq}

-- The text of an element that is a string.
unfoldable text_of : Json → Text
text_of (string s) = codes s
text_of _ = []

unfoldable item_texts : Items → List Text
unfolding text_of
item_texts nil = []
item_texts (cons x xs) = text_of x ∷ item_texts xs

-- The fragments under a value that is an array of strings.
unfoldable field_texts : Json → List Text
unfolding item_texts
field_texts (array items) = item_texts items
field_texts _ = []

-- The fragments of the last field whose name, cut, is `key_data`; else `before`.
unfoldable pub latest_texts : Text → Fields → Option (List Text) → Option (List Text)
unfolding field_texts
latest_texts key_data end before = before
latest_texts key_data (field name value rest) before =
    latest_texts key_data rest (
      if text_eq (take name_datalen (codes name)) key_data
      then some (field_texts value)
      else before)

element_strings-cons :
    (x : Json) (xs : Items) (i n : ℕ)
    → element_strings (cons x xs) (suc i) n ≡ element_strings xs i n
unfolding element_strings get_json_array_element_string get_json_array_element_object
element_strings-cons x xs i zero = refl
element_strings-cons x xs i (suc n) =
    let next : suc i + 1 ≡ suc (i + 1) = omega arith in
    rw next (
      ap
        (λ (f : Outcome (List Text)).
          get_json_array_element_string xs i >>= λ s. f >>= λ rest. ok (codes s ∷ rest))
        (element_strings-cons x xs (i + 1) n))

element_string-text_of : (x : Json) → WhenOk (λ s. codes s ≡ text_of x) (element_string x)
unfolding element_string text_of
element_string-text_of (string s) = returned refl
element_string-text_of (object fields) = faulted
element_string-text_of (array items) = faulted
element_string-text_of (number n) = faulted
element_string-text_of json_true = faulted
element_string-text_of json_false = faulted
element_string-text_of json_null = faulted

element_strings-item_texts :
    (items : Items)
    → WhenOk
        (λ texts. texts ≡ item_texts items)
        (element_strings items 0 (get_json_array_length items))
unfolding element_strings get_json_array_length item_texts get_json_array_element_string
    get_json_array_element_object
element_strings-item_texts nil = returned refl
element_strings-item_texts (cons x xs) =
    rw (element_strings-cons x xs 0 (get_json_array_length xs)) (
      WhenOk-bind (element_string-text_of x) λ s p.
        WhenOk-bind (element_strings-item_texts xs) λ rest q. returned (ap₂ (λ a b. a ∷ b) p q))

fragments-field_texts :
    (value : Json) → WhenOk (λ texts. texts ≡ field_texts value) (fragments value)
unfolding fragments as_array field_texts
fragments-field_texts (array items) = element_strings-item_texts items
fragments-field_texts (string s) = faulted
fragments-field_texts (object fields) = faulted
fragments-field_texts (number n) = faulted
fragments-field_texts json_true = faulted
fragments-field_texts json_false = faulted
fragments-field_texts json_null = faulted

-- What the hit with `highlights` leaves under a key, where there was `before`.
unfoldable pub after_save :
    ItemPointer → Option Json → HighlightKey → Option (List Text) → Option (List Text)
unfolding latest_texts
after_save ctid (some (object fields)) key before =
    if ctid_eq ctid key.ctid then latest_texts key.field_data fields before else before
after_save ctid _ key before = before

find-enter :
    (ctid : ItemPointer) (name : Text) (texts : List Text) (key : HighlightKey)
    (table : HighlightTable)
    → find_highlights key (enter_highlights (saved_key ctid name) texts table) ≡ (
        if ctid_eq ctid key.ctid && text_eq (take name_datalen name) key.field_data
        then some texts
        else find_highlights key table)
unfolding find_highlights enter_highlights saved_key highlight_key_eq
find-enter ctid name texts key table = refl

save_fields-find :
    (ctid : ItemPointer) (fields : Fields) (key : HighlightKey) (table : HighlightTable)
    → WhenOk
        (λ table'. find_highlights key table' ≡ (
          if ctid_eq ctid key.ctid
          then latest_texts key.field_data fields (find_highlights key table)
          else find_highlights key table))
        (save_fields ctid fields table)
unfolding save_fields latest_texts
save_fields-find ctid end key table = elim (Bool-cases (ctid_eq ctid key.ctid)) [
  | inl e ↦ returned (rw e refl)
  | inr e ↦ returned (rw e refl)
]
save_fields-find ctid (field name value rest) key table =
    WhenOk-bind (fragments-field_texts value) λ texts p.
      WhenOk-mono
        (save_fields-find ctid rest key
          (enter_highlights (saved_key ctid (codes name)) texts table))
        λ table' q. elim (Bool-cases (ctid_eq ctid key.ctid)) [
          | inl e ↦ q ∙ rw (e, find-enter ctid (codes name) texts key table, e, p) refl
          | inr e ↦ q ∙ rw (e, find-enter ctid (codes name) texts key table, e) refl
        ]

-- If the highlights of a hit are saved, then a lookup finds, under the hit's ctid, the fragments of
-- the last field whose name, cut to 64 bytes, is the key's, and where there is no such field, or
-- under another ctid, what the table had.
pub save_highlights-find :
    (ctid : ItemPointer) (highlights : Option Json) (key : HighlightKey) (table : HighlightTable)
    → WhenOk
        (λ table'.
          find_highlights key table' ≡ after_save ctid highlights key (find_highlights key table))
        (save_highlights ctid highlights table)
unfolding save_highlights after_save
save_highlights-find ctid none key table = returned refl
save_highlights-find ctid (some (object fields)) key table = save_fields-find ctid fields key table
save_highlights-find ctid (some (array items)) key table = faulted
save_highlights-find ctid (some (string s)) key table = faulted
save_highlights-find ctid (some (number n)) key table = faulted
save_highlights-find ctid (some json_true) key table = faulted
save_highlights-find ctid (some json_false) key table = faulted
save_highlights-find ctid (some json_null) key table = faulted

element_strings-Ends : (items : Items) (i n : ℕ) → Ends (element_strings items i n)
unfolding element_strings get_json_array_element_string
element_strings-Ends items i zero = with_value
element_strings-Ends items i (suc n) =
    Ends-bind (Ends-bind (element-Ends items i) string-Ends)
      λ s. Ends-bind (element_strings-Ends items (i + 1) n) λ rest. with_value
  where
    element-Ends : (xs : Items) (j : ℕ) → Ends (get_json_array_element_object xs j)
    element-Ends nil j = with_fault
    element-Ends (cons x xs) zero = with_value
    element-Ends (cons x xs) (suc j) = element-Ends xs j

    string-Ends : (x : Json) → Ends (element_string x)
    string-Ends (string s) = with_value
    string-Ends (object fields) = with_fault
    string-Ends (array xs) = with_fault
    string-Ends (number m) = with_fault
    string-Ends json_true = with_fault
    string-Ends json_false = with_fault
    string-Ends json_null = with_fault

save_fields-Ends :
    (ctid : ItemPointer) (fields : Fields) (table : HighlightTable)
    → Ends (save_fields ctid fields table)
unfolding save_fields fragments
save_fields-Ends ctid end table = with_value
save_fields-Ends ctid (field name value rest) table =
    Ends-bind
      (Ends-bind (payload-Ends value)
        λ payload. Ends-bind (found-Ends payload) λ items. element_strings-Ends items 0 _)
      λ texts. save_fields-Ends ctid rest _
  where
    payload-Ends : (v : Json) → Ends (as_array (some v))
    payload-Ends (array items) = with_value
    payload-Ends (string s) = with_fault
    payload-Ends (object fs) = with_fault
    payload-Ends (number n) = with_fault
    payload-Ends json_true = with_value
    payload-Ends json_false = with_value
    payload-Ends json_null = with_value

pub save_highlights-Ends :
    (ctid : ItemPointer) (highlights : Option Json) (table : HighlightTable)
    → Ends (save_highlights ctid highlights table)
unfolding save_highlights
save_highlights-Ends ctid none table = with_value
save_highlights-Ends ctid (some (object fields)) table = save_fields-Ends ctid fields table
save_highlights-Ends ctid (some (array items)) table = with_fault
save_highlights-Ends ctid (some (string s)) table = with_fault
save_highlights-Ends ctid (some (number n)) table = with_fault
save_highlights-Ends ctid (some json_true) table = with_fault
save_highlights-Ends ctid (some json_false) table = with_fault
save_highlights-Ends ctid (some json_null) table = with_fault

text_eq-length : (a b : Text) → text_eq a b ≡ true → length a ≡ length b
unfolding text_eq
text_eq-length [] [] h = refl
text_eq-length [] (y ∷ ys) h = absurd (ground arith)
text_eq-length (x ∷ xs) [] h = absurd (ground arith)
text_eq-length (x ∷ xs) (y ∷ ys) h = ap suc (text_eq-length xs ys (ground arith))

cut-long :
    (name key_data : Text)
    → name_datalen < length key_data
    → text_eq (take name_datalen name) key_data ≡ false
cut-long name key_data h = elim (Bool-cases (text_eq (take name_datalen name) key_data)) [
  | inl e ↦
      let same : length (take name_datalen name) ≡ length key_data = text_eq-length _ _ e in
      let short : length (take name_datalen name) ≤ name_datalen = take-length name_datalen name in
      absurd (omega arith)
  | inr e ↦ e
]

latest_texts-long :
    (key_data : Text) (fields : Fields) (before : Option (List Text))
    → name_datalen < length key_data
    → latest_texts key_data fields before ≡ before
unfolding latest_texts
latest_texts-long key_data end before h = refl
latest_texts-long key_data (field name value rest) before h =
    rw (cut-long (codes name) key_data h) (latest_texts-long key_data rest before h)

-- The name of a field that is longer than 64 bytes finds nothing that the save of a hit's
-- highlights wrote: a lookup under it, up to 8192 bytes, gives what the table had before.
pub save_highlights-long :
    (ctid row : ItemPointer) (highlights : Option Json) (name : Text) (table : HighlightTable)
    → name_datalen < length name
    → length name ≤ highlight_field_max_length
    → WhenOk
        (λ table'.
          find_highlights (record { ctid = row; field_data = asked_field name }) table'
          ≡ find_highlights (record { ctid = row; field_data = asked_field name }) table)
        (save_highlights ctid highlights table)
unfolding asked_field after_save
save_highlights-long ctid row highlights name table h k =
    rw (take-whole highlight_field_max_length name k) (
      WhenOk-mono
        (save_highlights-find ctid highlights (record { ctid = row; field_data = name }) table)
        λ table' e. e ∙ go highlights)
  where
    go :
        (o : Option Json)
        → after_save ctid o
            (record { ctid = row; field_data = name })
            (find_highlights (record { ctid = row; field_data = name }) table)
          ≡ find_highlights (record { ctid = row; field_data = name }) table
    go none = refl
    go (some (object fields)) = elim (Bool-cases (ctid_eq ctid row)) [
      | inl e ↦ rw e (latest_texts-long name fields _ h)
      | inr e ↦ rw e refl
    ]
    go (some (array items)) = refl
    go (some (string s)) = refl
    go (some (number n)) = refl
    go (some json_true) = refl
    go (some json_false) = refl
    go (some json_null) = refl
