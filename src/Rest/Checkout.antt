-- ===== src/Rest/Checkout.antt =====
-- checkout_batch_pool finds a buffer whenever the context holds none: the pool has one buffer more
-- than there are requests.
use zombodb.Prelude.{
  Bool-cases, List, Option, Returns, [], ap, arith, error, inl, inr, length, none, ok, refl,
  returns, some, subst, suc, sym, zero, ℕ, ◌+◌, ◌<◌, ◌==◌, ◌∙◌, ◌∷◌, ◌≡◌, ◌≤◌,
}
use zombodb.Curl.{Curl, Net, PostDataEntry, Slot}
use zombodb.Rest.{checkout, checkout_batch_pool}
use zombodb.Rest.Own.{Own}
use zombodb.Rest.Pool.{CheckedOut, CheckedOutOr, checkout-CheckedOut, pooled_at}
use zombodb.Rest.Slots.{AreSlots, busy_at, held_at}

-- f 0 + ... + f (n - 1)
abbrev sum_below : ℕ → (ℕ → ℕ) → ℕ
sum_below zero f = 0
sum_below (suc n) f = f n + sum_below n f

sum_below-add : (n : ℕ) (f g : ℕ → ℕ) → sum_below n (λ i. f i + g i) ≡ sum_below n f + sum_below n g
sum_below-add zero f g = refl
sum_below-add (suc n) f g = omega (arith, sum_below-add n f g)

sum_below-zero : (n : ℕ) (f : ℕ → ℕ) → ((i : ℕ) → i < n → f i ≡ 0) → sum_below n f ≡ 0
sum_below-zero zero f h = refl
sum_below-zero (suc n) f h =
    omega (arith, h n (omega arith), sum_below-zero n f (λ i k. h i (omega arith)))

le-sum_below : (n : ℕ) (f : ℕ → ℕ) → ((i : ℕ) → i < n → 1 ≤ f i) → n ≤ sum_below n f
le-sum_below zero f h = omega arith
le-sum_below (suc n) f h =
    omega (arith, h n (omega arith), le-sum_below n f (λ i k. h i (omega arith)))

sum_held_le : (n : ℕ) (p : Option PostDataEntry) → sum_below n (λ i. held_at i p) ≤ 1
sum_held_le zero p = omega arith
sum_held_le (suc n) none = omega (arith, sum_held_le n none)
sum_held_le (suc n) (some e) = elim (Bool-cases (e.pool_idx == n)) [
  | inl h ↦ ground (arith, sum_below-zero n (λ i. held_at i (some e)) (λ i k. ground arith))
  | inr h ↦ ground (arith, sum_held_le n (some e))
]

sum_busy_le : (n : ℕ) (slots : List Slot) → sum_below n (λ i. busy_at i slots) ≤ length slots
sum_busy_le n [] = omega (arith, sum_below-zero n (λ i. 0) (λ i k. refl))
sum_busy_le n (s ∷ slots) = omega (
  arith,
  sum_below-add n (λ i. held_at i s.post_data) (λ i. busy_at i slots),
  sum_held_le n s.post_data,
  sum_busy_le n slots,
)

module _ {c : Curl} where
  -- The entry is the context's now, and its buffer is empty.
  pub record Refilled (n : Net c) (e : PostDataEntry) (m : Net c) : Type 0 where
    pub own : Own (some e) m
    pub empty : m.buffers e.buff ≡ []
    pub sent : m.sent ≡ n.sent
    pub nhandles : m.nhandles ≡ n.nhandles

module _ (c : Curl) where
  refilled :
      (n : Net c) (e : PostDataEntry) (pool : List (Option ℕ))
      → Own none n
      → CheckedOut 0 n.buffers n.pool e pool
      → Refilled n e (record n { pool = pool })
  refilled n e pool o k = record {
    own = record {
      slots_length = o.slots_length;
      free = o.free;
      pool_length = k.same_length ∙ o.pool_length;
      slots_ok = subst (λ l. AreSlots l n.slots) (sym k.same_length) o.slots_ok;
      pool_ok = k.pool_ok;
      held_ok = (k.home, omega (arith, k.below, k.same_length));
      once = λ i h. omega (
        arith,
        o.once i (subst (λ l. i < l) k.same_length h),
        k.moved i,
        ap (λ j. held_at j (some e)) (let q : 0 + i ≡ i = omega arith in q),
      );
    };
    empty = k.empty;
    sent = refl;
    nhandles = refl;
  }

  pool_exhausted : (n : Net c) → Own none n → ((j : ℕ) → pooled_at j n.pool ≡ 0) → ⊥
  pool_exhausted n o out = omega (
    arith,
    o.pool_length,
    o.slots_length,
    sum_busy_le (length n.pool) n.slots,
    le-sum_below (length n.pool) (λ i. busy_at i n.slots) (λ i k. omega (arith, o.once i k, out i)),
  )

  -- Where every buffer is at one place and the context holds none, the checkout returns: its
  -- error is never raised. The entry it gives is the context's, its buffer is empty, and nothing
  -- is sent.
  pub checkout_batch_pool-Refilled :
      (n : Net c) → Own none n → Returns (λ r. Refilled n r.0 r.1) (checkout_batch_pool c n)
  unfolding checkout_batch_pool
  checkout_batch_pool-Refilled n o = go (checkout (n.nhandles + 1) 0 n.pool) (
      checkout-CheckedOut (n.nhandles + 1) 0 n.buffers n.pool (omega (arith, o.pool_length))
        o.pool_ok)
    where
      go :
          (r : Option (PostDataEntry × List (Option ℕ)))
          → CheckedOutOr 0 n.buffers n.pool r
          → Returns {A = PostDataEntry × Net c}
              (λ x. Refilled n x.0 x.1)
              (elim r [
                | none ↦ error "Unable to checkout from batch pool"
                | some (e, pool') ↦ ok (e, record n { pool = pool' })
              ])
      go none out = absurd (pool_exhausted n o out)
      go (some (e, pool)) k = returns (refilled n e pool o k)
