-- ===== src/Rest/Pool.antt =====
-- The pool of buffers of a MultiRestState: returning a buffer, and checking one out.
use zombodb.Prelude.{
  List, Option, [], ap, arith, if◌then◌else◌, length, none, refl, set, some, subst, suc, zero, ℕ,
  ◌+◌, ◌<◌, ◌==◌, ◌∙◌, ◌∷◌, ◌≡◌, ◌≤◌,
}
use zombodb.Curl.{PostDataEntry}
use zombodb.Rest.{checkout, write}
use zombodb.Rest.Slots.{held_at}
use zombodb.Text.{Text}

-- 1 if the pool has a buffer at index `i`.
abbrev pub some_count : Option ℕ → ℕ
some_count none = 0
some_count (some b) = 1

abbrev pub pooled_at : ℕ → List (Option ℕ) → ℕ
pooled_at i [] = 0
pooled_at zero (o ∷ pool) = some_count o
pooled_at (suc i) (o ∷ pool) = pooled_at i pool

-- A pooled buffer lives at its index and is empty.
abbrev pub IsPooled : ℕ → (ℕ → Text) → Option ℕ → Type 0
IsPooled i buffers none = Unit {0}
IsPooled i buffers (some b) = (b ≡ i) × (buffers b ≡ [])

abbrev pub ArePooled : ℕ → (ℕ → Text) → List (Option ℕ) → Type 0
ArePooled i buffers [] = Unit {0}
ArePooled i buffers (o ∷ pool) = IsPooled i buffers o × ArePooled (suc i) buffers pool

pub pooled_at-set :
    (i j b : ℕ) (pool : List (Option ℕ))
    → j < length pool
    → pooled_at i (set pool j (some b)) ≡ (if j == i then 1 else pooled_at i pool)
pooled_at-set i j b [] h = absurd (omega arith)
pooled_at-set zero zero b (o ∷ pool) h = refl
pooled_at-set (suc i) zero b (o ∷ pool) h = ground arith
pooled_at-set zero (suc j) b (o ∷ pool) h = ground arith
pooled_at-set (suc i) (suc j) b (o ∷ pool) h =
    ground (arith, pooled_at-set i j b pool (omega arith))

IsPooled-write :
    (i b : ℕ) (buffers : ℕ → Text) (o : Option ℕ)
    → IsPooled i buffers o
    → IsPooled i (write buffers b []) o
unfolding write
IsPooled-write i b buffers none p = tt
IsPooled-write i b buffers (some a) p = ground arith

pub ArePooled-write_nil :
    (i b : ℕ) (buffers : ℕ → Text) (pool : List (Option ℕ))
    → ArePooled i buffers pool
    → ArePooled i (write buffers b []) pool
ArePooled-write_nil i b buffers [] p = tt
ArePooled-write_nil i b buffers (o ∷ pool) p =
    (IsPooled-write i b buffers o p.0, ArePooled-write_nil (suc i) b buffers pool p.1)

pub ArePooled-set :
    (i j b : ℕ) (buffers : ℕ → Text) (pool : List (Option ℕ))
    → b ≡ i + j
    → ArePooled i buffers pool
    → ArePooled i (write buffers b []) (set pool j (some b))
unfolding write
ArePooled-set i j b buffers [] e p = tt
ArePooled-set i zero b buffers (o ∷ pool) e p =
    ((omega arith, ground arith), ArePooled-write_nil (suc i) b buffers pool p.1)
ArePooled-set i (suc j) b buffers (o ∷ pool) e p =
    (IsPooled-write i b buffers o p.0, ArePooled-set (suc i) j b buffers pool (omega arith) p.1)

-- A write to a buffer that is not in the pool.
pub ArePooled-write :
    (i b : ℕ) (str : Text) (buffers : ℕ → Text) (pool : List (Option ℕ))
    → ((j : ℕ) → b ≡ i + j → pooled_at j pool ≡ 0)
    → ArePooled i buffers pool
    → ArePooled i (write buffers b str) pool
unfolding write
ArePooled-write i b str buffers [] out p = tt
ArePooled-write i b str buffers (none ∷ pool) out p =
    (tt, ArePooled-write (suc i) b str buffers pool (λ j e. out (suc j) (omega arith)) p.1)
ArePooled-write i b str buffers (some a ∷ pool) out p = (
  ground (arith, out 0),
  ArePooled-write (suc i) b str buffers pool (λ j e. out (suc j) (omega arith)) p.1,
)

-- What a checkout from index `i` on finds.
pub record CheckedOut (i : ℕ) (buffers : ℕ → Text) (pool : List (Option ℕ)) (e : PostDataEntry)
    (pool' : List (Option ℕ)) : Type 0 where
  pub home : e.buff ≡ e.pool_idx
  pub above : i ≤ e.pool_idx
  pub below : e.pool_idx < i + length pool
  pub empty : buffers e.buff ≡ []
  pub same_length : length pool' ≡ length pool
  pub pool_ok : ArePooled i buffers pool'
  pub moved : (j : ℕ) → pooled_at j pool ≡ pooled_at j pool' + held_at (i + j) (some e)

abbrev pub CheckedOutOr :
    ℕ → (ℕ → Text) → List (Option ℕ) → Option (PostDataEntry × List (Option ℕ)) → Type 0
CheckedOutOr i buffers pool none = (j : ℕ) → pooled_at j pool ≡ 0
CheckedOutOr i buffers pool (some (e, pool')) = CheckedOut i buffers pool e pool'

skip_none :
    (i : ℕ) (buffers : ℕ → Text) (pool : List (Option ℕ))
    (r : Option (PostDataEntry × List (Option ℕ)))
    → CheckedOutOr (i + 1) buffers pool r
    → CheckedOutOr i buffers
        (none ∷ pool)
        (elim r [ none ↦ none | some (e, pool') ↦ some (e, none ∷ pool') ])
skip_none i buffers pool none out = empty
  where
    empty : (j : ℕ) → pooled_at j (none ∷ pool) ≡ 0
    empty zero = refl
    empty (suc j) = out j
skip_none i buffers pool (some (e, pool')) out = record {
  home = out.home;
  above = omega (arith, out.above);
  below = omega (arith, out.below);
  empty = out.empty;
  same_length = ap suc out.same_length;
  pool_ok = (tt, subst (λ k. ArePooled k buffers pool') (omega arith) out.pool_ok);
  moved = moved;
}
  where
    moved :
        (j : ℕ) → pooled_at j (none ∷ pool) ≡ pooled_at j (none ∷ pool') + held_at (i + j) (some e)
    moved zero = ground (arith, out.above)
    moved (suc j) =
        let shift : i + 1 + j ≡ i + suc j = omega arith in
        out.moved j ∙ ap (λ k. pooled_at j pool' + held_at k (some e)) shift

pub checkout-CheckedOut :
    (n i : ℕ) (buffers : ℕ → Text) (pool : List (Option ℕ))
    → n ≡ length pool
    → ArePooled i buffers pool
    → CheckedOutOr i buffers pool (checkout n i pool)
unfolding checkout
checkout-CheckedOut zero i buffers [] h p = λ j. refl
checkout-CheckedOut zero i buffers (o ∷ pool) h p = absurd (omega arith)
checkout-CheckedOut (suc n) i buffers [] h p = absurd (omega arith)
checkout-CheckedOut (suc n) i buffers (some b ∷ pool) h p = record {
  home = p.0.0;
  above = omega arith;
  below = omega arith;
  empty = p.0.1;
  same_length = refl;
  pool_ok = (tt, p.1);
  moved = moved;
}
  where
    moved :
        (j : ℕ)
        → pooled_at j (some b ∷ pool) ≡ pooled_at j (none ∷ pool) + (if i == i + j then 1 else 0)
    moved zero = ground arith
    moved (suc j) = ground arith
checkout-CheckedOut (suc n) i buffers (none ∷ pool) h p =
    skip_none i buffers pool (checkout n (i + 1) pool) (
      checkout-CheckedOut n (i + 1) buffers pool (omega arith)
        (subst (λ k. ArePooled k buffers pool) (omega arith) p.1))
