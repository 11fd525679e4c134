-- ===== src/Rest/Slots.antt =====
-- The slots of a MultiRestState: how many are free, and which pool indices the requests in flight
-- hold.
use zombodb.Prelude.{
  Bool-cases, List, Option, Option-cases, [], ap, arith, if◌then◌else◌, inl, inr, length, none,
  refl, some, suc, true, ℕ, ◌+◌, ◌<◌, ◌==◌, ◌∷◌, ◌≡◌, ◌≢◌,
}
use zombodb.Curl.{PostDataEntry, Slot}
use zombodb.Rest.{has_free, holds, place, take_slot}

-- 1 if the entry came from pool index `i`.
abbrev pub held_at : ℕ → Option PostDataEntry → ℕ
held_at i none = 0
held_at i (some e) = if e.pool_idx == i then 1 else 0

abbrev pub busy_at : ℕ → List Slot → ℕ
busy_at i [] = 0
busy_at i (s ∷ slots) = held_at i s.post_data + busy_at i slots

abbrev pub none_count : Option ℕ → ℕ
none_count none = 1
none_count (some h) = 0

abbrev pub free_count : List Slot → ℕ
free_count [] = 0
free_count (s ∷ slots) = none_count s.handle + free_count slots

-- Buffers go by the index of the pool that they live at.
abbrev pub IsHome : ℕ → Option PostDataEntry → Type 0
IsHome n none = Unit {0}
IsHome n (some e) = (e.buff ≡ e.pool_idx) × (e.pool_idx < n)

-- A free slot holds no entry.
abbrev pub IsSlot : ℕ → Option ℕ → Option PostDataEntry → Type 0
IsSlot n none none = Unit {0}
IsSlot n none (some e) = ⊥
IsSlot n (some h) p = IsHome n p

abbrev pub AreSlots : ℕ → List Slot → Type 0
AreSlots n [] = Unit {0}
AreSlots n (s ∷ slots) = IsSlot n s.handle s.post_data × AreSlots n slots

-- What taking a slot changes.
pub record Taken (n : ℕ) (slots : List Slot) (s : Slot) (slots' : List Slot) : Type 0 where
  pub same_length : length slots' ≡ length slots
  pub freed : free_count slots' ≡ suc (free_count slots)
  pub moved : (i : ℕ) → busy_at i slots ≡ busy_at i slots' + held_at i s.post_data
  pub home : IsHome n s.post_data
  pub slots_ok : AreSlots n slots'

abbrev pub TakenOr : ℕ → List Slot → Option (Slot × List Slot) → Type 0
TakenOr n slots none = Unit {0}
TakenOr n slots (some (s, slots')) = Taken n slots s slots'

IsSlot-IsHome :
    (n h : ℕ) (o : Option ℕ) (p : Option PostDataEntry)
    → holds h o ≡ true
    → IsSlot n o p
    → IsHome n p
IsSlot-IsHome n h none p e good = cc
IsSlot-IsHome n h (some g) p e good = good

none_count_of_holds : (h : ℕ) (o : Option ℕ) → holds h o ≡ true → none_count o ≡ 0
none_count_of_holds h none e = cc
none_count_of_holds h (some g) e = refl

keep_slot :
    (n : ℕ) (s : Slot) (slots : List Slot) (r : Option (Slot × List Slot))
    → IsSlot n s.handle s.post_data
    → TakenOr n slots r
    → TakenOr n (s ∷ slots) (elim r [ none ↦ none | some (t, slots') ↦ some (t, s ∷ slots') ])
keep_slot n s slots none good t = tt
keep_slot n s slots (some (u, slots')) good t = record {
  same_length = ap suc t.same_length;
  freed = omega (arith, t.freed);
  moved = λ i. omega (arith, t.moved i);
  home = t.home;
  slots_ok = (good, t.slots_ok);
}

pub take_slot-Taken :
    (n h : ℕ) (slots : List Slot) → AreSlots n slots → TakenOr n slots (take_slot h slots)
unfolding take_slot
take_slot-Taken n h [] good = tt
take_slot-Taken n h (s ∷ slots) good = elim (Bool-cases (holds h s.handle)) [
  | inl e ↦ rw e (record {
    same_length = refl;
    freed = omega (arith, none_count_of_holds h s.handle e);
    moved = λ i. omega arith;
    home = IsSlot-IsHome n h s.handle s.post_data e good.0;
    slots_ok = (tt, good.1);
  })
  | inr e ↦ rw e (keep_slot n s slots (take_slot h slots) good.0 (take_slot-Taken n h slots good.1))
]

-- What filling a slot changes.
pub record Placed (n : ℕ) (new : Slot) (slots slots' : List Slot) : Type 0 where
  pub same_length : length slots' ≡ length slots
  pub used : free_count slots ≡ suc (free_count slots')
  pub added : (i : ℕ) → busy_at i slots' ≡ busy_at i slots + held_at i new.post_data
  pub slots_ok : AreSlots n slots'

held_at_free :
    (n i : ℕ) (o : Option ℕ) (p : Option PostDataEntry) → o ≡ none → IsSlot n o p → held_at i p ≡ 0
held_at_free n i none none e good = refl
held_at_free n i none (some x) e good = elim good [ ]
held_at_free n i (some h) p e good = cc

place-none :
    (new s : Slot) (slots : List Slot)
    → s.handle ≡ none
    → place new (s ∷ slots) ≡ record new { vconflict = s.vconflict } ∷ slots
unfolding place
place-none new s slots e = ground arith

place-some :
    (new s : Slot) (slots : List Slot) (h : ℕ)
    → s.handle ≡ some h
    → place new (s ∷ slots) ≡ s ∷ place new slots
unfolding place
place-some new s slots h e = ground arith

none_count_of_none : (o : Option ℕ) → o ≡ none → none_count o ≡ 1
none_count_of_none o e = ground arith

none_count_of_ne : (o : Option ℕ) → o ≢ none → none_count o ≡ 0
none_count_of_ne o e = ground arith

pub place-Placed :
    (n : ℕ) (new : Slot) (slots : List Slot)
    → AreSlots n slots
    → IsSlot n new.handle new.post_data
    → new.handle ≢ none
    → has_free slots ≡ true
    → Placed n new slots (place new slots)
unfolding place has_free
place-Placed n new [] good new_good busy free = cc
place-Placed n new (s ∷ slots) good new_good busy free = elim (Option-cases s.handle) [
  | inl e ↦ rw (place-none new s slots e) (record {
    same_length = refl;
    used = omega (arith, none_count_of_none s.handle e, none_count_of_ne new.handle busy);
    added = λ i. omega (arith, held_at_free n i s.handle s.post_data e good.0);
    slots_ok = (new_good, good.1);
  })
  | inr (h, e) ↦
      let t : Placed n new slots (place new slots) =
        place-Placed n new slots good.1 new_good busy rw (e, has_free) at free in
      rw (place-some new s slots h e) (record {
        same_length = ap suc t.same_length;
        used = omega (arith, t.used);
        added = λ i. omega (arith, t.added i);
        slots_ok = (good.0, t.slots_ok);
      })
]
