-- ===== src/Text.antt =====
-- Texts as lists of bytes, `%lu` and `%u` of printf, and the two in-place edits that
-- src/c/utils/utils.c makes to a row's JSON before it is sent.
pub mod Edits
pub mod Decimal
use Prim.Native.String.{String}
use Prim.Native.Char.{code}
use zombodb.Prelude.{
  ℕ, zero, suc, ◌+◌, ◌/◌, ◌%◌, Bool, true, false, ◌||◌, List, [], ◌∷◌, ◌++◌, ltb, ◌==◌,
  if◌then◌else◌, Option, none, some, Outcome, ok, error, fault,
}

abbrev pub Text : Type 0
Text = List ℕ

-- The bytes of an ASCII literal.
unfoldable pub codes : String → Text
codes String.[] = []
codes (String.◌∷◌ c s) = code c ∷ codes s

-- Digits from the right; a uint64 has at most 20.
unfoldable pub digits_loop : ℕ → ℕ → Text → Text
digits_loop zero n acc = acc
digits_loop (suc f) n acc =
    let rest = digits_loop f (n / 10) ((48 + n % 10) ∷ acc) in
    if ltb n 10 then (48 + n % 10) ∷ acc else rest

unfoldable pub decimal : ℕ → Text
unfolding digits_loop
decimal n = digits_loop 20 n []

unfoldable pub is_break : ℕ → Bool
is_break c = c == b'\r' || c == b'\n' || c == 12

-- `replace_line_breaks`, over the whole of a text.
unfoldable pub replace_line_breaks : Text → ℕ → Text
unfolding is_break
replace_line_breaks [] with_char = []
replace_line_breaks (c ∷ str) with_char =
    (if is_break c then with_char else c) ∷ replace_line_breaks str with_char

-- The last `}` of a text becomes a space; `none` where there is no `}`.
unfoldable pub strip_last : Text → Option Text
strip_last [] = none
strip_last (c ∷ str) = elim (strip_last str) [
  | some str' ↦ some (c ∷ str')
  | none ↦ if c == b'}' then some (b' ' ∷ str) else none
]

-- `while (--len)` looks at the indices from len - 1 down to 1. With an empty text `--len` is -1 and
-- the loop runs off the front of the buffer.
unfoldable pub strip_json_ending : Text → Outcome Text
unfolding strip_last
strip_json_ending [] = fault
strip_json_ending (c ∷ str) = elim (strip_last str) [
  | some str' ↦ ok (c ∷ str')
  | none ↦ error "improper JSON format"
]
