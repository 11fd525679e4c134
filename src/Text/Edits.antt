-- ===== src/Text/Edits.antt =====
-- What replace_line_breaks and strip_json_ending do to a row's JSON.
use zombodb.Prelude.{
  ℕ, suc, ◌≡◌, refl, ap, ◌⊎◌, inl, inr, false, Option, none, some, [], ◌∷◌, ◌++◌, arith, Bool-cases,
  length, All, ok, error, ◌==◌,
}
use zombodb.Text.{Text, is_break, replace_line_breaks, strip_last, strip_json_ending}

-- With a replacement that is no line break, the text has no line break left, and keeps its
-- length.
pub replace_line_breaks_one_line :
    (str : Text) (with_char : ℕ)
    → is_break with_char ≡ false
    → All (λ c. is_break c ≡ false) (replace_line_breaks str with_char)
      × (length (replace_line_breaks str with_char) ≡ length str)
unfolding replace_line_breaks
replace_line_breaks_one_line [] w h = (tt, refl)
replace_line_breaks_one_line (c ∷ str) w h =
    let rest = replace_line_breaks_one_line str w h in
    elim (Bool-cases (is_break c)) [
      | inl e ↦ rw e ((h, rest.0), ap suc rest.1)
      | inr e ↦ rw e ((e, rest.0), ap suc rest.1)
    ]

abbrev pub NoBrace : Text → Type 0
NoBrace = All (λ c. (c == b'}') ≡ false)

-- What looking for the last `}` comes to.
abbrev Split : Text → Option Text → Type 0
Split str r =
    (NoBrace str × (r ≡ none))
    ⊎ ((head : Text) × (tail : Text) × (str ≡ head ++ (b'}' ∷ tail))
        × NoBrace tail
        × (r ≡ some (head ++ (b' ' ∷ tail))))

strip_last-Split : (str : Text) → Split str (strip_last str)
unfolding strip_last
strip_last-Split [] = inl (tt, refl)
strip_last-Split (c ∷ str) = elim (strip_last-Split str) [
  | inl (clean, e) ↦ elim (Bool-cases (c == b'}')) [
    | inl hit ↦ inr ([], str, ground (arith, e), clean, rw (e, strip_last, hit) refl)
    | inr miss ↦ inl ((miss, clean), rw (e, strip_last, miss) refl)
  ]
  | inr (head, tail, split, clean, e) ↦
      inr (c ∷ head, tail, ap (◌∷◌ c) split, clean, rw (e, strip_last) refl)
]

-- A nonempty text either has no `}` behind its first byte, and the result is the error; or its last
-- `}` becomes a space and nothing else changes.
pub strip_json_ending_lem :
    (c : ℕ) (str : Text)
    → (NoBrace str × (strip_json_ending (c ∷ str) ≡ error "improper JSON format"))
      ⊎ ((head : Text) × (tail : Text) × (str ≡ head ++ (b'}' ∷ tail))
          × NoBrace tail
          × (strip_json_ending (c ∷ str) ≡ ok (c ∷ head ++ (b' ' ∷ tail))))
unfolding strip_json_ending
strip_json_ending_lem c str = elim (strip_last-Split str) [
  | inl (clean, e) ↦ inl (clean, rw (e, strip_json_ending) refl)
  | inr (head, tail, split, clean, e) ↦
      inr (head, tail, split, clean, rw (e, strip_json_ending) refl)
]
