-- ===== src/Vacuum/Aborted.antt =====
-- Which ids of aborted transactions a vacuum forgets.
use zombodb.Prelude.{
  Bool-cases, List, Outcome, WhenOk, WhenOk-bind, [], ap, arith, error, fault, faulted, hang, hung,
  if◌then◌else◌, inl, inr, ok, raised, refl, returned, suc, true, zero, ℕ, ◌%◌, ◌&&◌, ◌++◌, ◌+◌,
  ◌==◌, ◌∙◌, ◌∷◌, ◌≡◌,
}
use zombodb.Curl.{Curl}
use zombodb.Json.{Items, get_json_array_element_uint64}
use zombodb.Query.{JsonText}
use zombodb.Text.{codes, decimal}
use zombodb.Vacuum.{VacInfo, count_text, is_aborted, removable}
use zombodb.Xid.{u32}

pub outcome_eq : {A : Type 0} (m : Outcome A) → WhenOk (λ a. m ≡ ok a) m
outcome_eq (ok a) = returned refl
outcome_eq (error e) = raised
outcome_eq fault = faulted
outcome_eq hang = hung

module _ (l : JsonText) (c : Curl) (v : VacInfo) where
  -- An aborted transaction that no document refers to, by the index's own count.
  pub record IsForgettable (items : Items) (xid64 : ℕ) : Type 0 where
    pub index : ℕ
    pub listed : get_json_array_element_uint64 l.int8in items index ≡ ok xid64
    pub aborted : is_aborted v (xid64 % u32) ≡ true
    pub before : c.World
    pub between : c.World
    pub after : c.World
    pub no_xmin : count_text l c v (codes "zdb_xmin:" ++ decimal xid64) before ≡ ok (0, between)
    pub no_xmax : count_text l c v (codes "zdb_xmax:" ++ decimal xid64) between ≡ ok (0, after)

  unfoldable pub AreForgettable : Items → List ℕ → Type 0
  AreForgettable items [] = Unit
  AreForgettable items (x ∷ xs) = IsForgettable items x × AreForgettable items xs

  -- The ids that a vacuum takes off the list of aborted transactions, if it gets as far, are ids of
  -- that list whose transactions aborted before the oldest one that a snapshot needs. When the
  -- index was asked, no document had such an id as its xmin, and then none as its xmax.
  pub removable-AreForgettable :
      (n i : ℕ) (items : Items) (w : c.World)
      → WhenOk (λ r. AreForgettable items r.0) (removable l c v n i items w)
  unfolding removable AreForgettable
  removable-AreForgettable zero i items w = returned tt
  removable-AreForgettable (suc n) i items w =
      WhenOk-bind (outcome_eq (get_json_array_element_uint64 l.int8in items i)) λ x at.
        elim (Bool-cases (is_aborted v (x % u32))) [
          | inl e ↦ rw e (
              WhenOk-bind (outcome_eq (count_text l c v (codes "zdb_xmin:" ++ decimal x) w)) λ a p.
                WhenOk-bind (outcome_eq (count_text l c v (codes "zdb_xmax:" ++ decimal x) a.1))
                  λ b q.
                    WhenOk-bind (removable-AreForgettable n (i + 1) items b.1)
                      λ rest fs. returned (kept_or_not x at e w a b p q rest.0 fs))
          | inr e ↦ rw e (removable-AreForgettable n (i + 1) items w)
        ]
    where
      kept_or_not :
          (x : ℕ)
          → get_json_array_element_uint64 l.int8in items i ≡ ok x
          → is_aborted v (x % u32) ≡ true
          → (w : c.World) (a b : ℕ × c.World)
          → count_text l c v (codes "zdb_xmin:" ++ decimal x) w ≡ ok a
          → count_text l c v (codes "zdb_xmax:" ++ decimal x) a.1 ≡ ok b
          → (rest : List ℕ) → AreForgettable items rest
          → AreForgettable items (if a.0 == 0 && b.0 == 0 then x ∷ rest else rest)
      kept_or_not x at e w a b p q rest fs = elim (Bool-cases (a.0 == 0 && b.0 == 0)) [
        | inl z ↦
            let no_a : a.0 ≡ 0 = ground arith in
            let no_b : b.0 ≡ 0 = ground arith in
            rw z (
              record {
                index = i;
                listed = at;
                aborted = e;
                before = w;
                between = a.1;
                after = b.1;
                no_xmin = p ∙ ap (λ k. ok (k, a.1)) no_a;
                no_xmax = q ∙ ap (λ k. ok (k, b.1)) no_b;
              },
              fs,
            )
        | inr z ↦ rw z fs
      ]
