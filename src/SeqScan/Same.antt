-- ===== src/SeqScan/Same.antt =====
-- The loops over the hits: a sequential scan keeps the rows that a bitmap scan gives.
use zombodb.Prelude.{
  Bool, Bool-cases, List, Option, Outcome, WhenOk, WhenOk-bind, WhenOk-mono, WhenOk-of_ok, [],
  any_outcome, ap, false, hang, hung, if◌then◌else◌, inl, inr, is_some, leb, ltb, none, ok, refl,
  returned, some, suc, true, zero, ℕ, ◌>>=◌, ◌||◌, ◌∙◌, ◌∷◌, ◌≡◌,
}
use zombodb.Curl.{Curl}
use zombodb.Highlights.{save_highlights}
use zombodb.IndexScan.{ScanState, bitmap_loop, enter_score, find_score, hit_outputs, take_hit}
use zombodb.IndexScan.Kept.{save_hit-scroll}
use zombodb.Json.{Json}
use zombodb.Query.{JsonText}
use zombodb.Scroll.{Hit, ScrollContext, found, get_next_item_pointer}
use zombodb.SeqScan.{CtidMap, ctid_loop, save_ctid}
use zombodb.Vacuum.Aborted.{outcome_eq}
use zombodb.Xid.{ItemPointer, ctid_eq}

unfoldable pub has_ctid : ItemPointer → List ItemPointer → Bool
has_ctid ctid [] = false
has_ctid ctid (x ∷ xs) = ctid_eq x ctid || has_ctid ctid xs

or_swap : (a b k : Bool) → (a || (b || k)) ≡ ((b || a) || k)
or_swap true true k = refl
or_swap true false k = refl
or_swap false true k = refl
or_swap false false k = refl

module _ (l : JsonText) (c : Curl) where
  unfoldable pub keeps : ItemPointer → CtidMap l c → Bool
  keeps ctid ctids = is_some (find_score ctid ctids.scores)

  save_ctid-keeps :
      (ctid row : ItemPointer) (outputs : l.Real × Option Json) (ctids : CtidMap l c)
      → WhenOk
          (λ ctids'. keeps row ctids' ≡ (ctid_eq ctid row || keeps row ctids))
          (save_ctid l c ctid outputs ctids)
  unfolding save_ctid keeps enter_score find_score
  save_ctid-keeps ctid row outputs ctids =
      WhenOk-bind (any_outcome (save_highlights ctid outputs.1 ctids.highlights)) λ h u.
        returned (elim (Bool-cases (ctid_eq ctid row)) [ inl e ↦ rw e refl | inr e ↦ rw e refl ])

  -- What the bitmap's step leaves after a hit.
  record Took (ctid : ItemPointer) (scroll : ScrollContext) (w : c.World)
      (r : Option ItemPointer × ScanState l c) : Type 0 where
    taken : r.0 ≡ some ctid
    at : r.1.context.scroll ≡ some scroll
    served : r.1.world ≡ w

  -- What is to be shown of the rows from here on, and those of the tables already.
  unfoldable pub AreSame :
      ItemPointer
      → CtidMap l c
      → Outcome (CtidMap l c × ScrollContext × c.World)
      → Outcome (List ItemPointer × ScanState l c)
      → Type 0
  AreSame row ctids seq bitmap =
      WhenOk (λ r. WhenOk (λ b. keeps row r.0 ≡ (has_ctid row b.0 || keeps row ctids)) bitmap) seq

  take_hit-Took :
      (ignore : Bool) (scroll scroll' : ScrollContext) (w' : c.World) (hit : Hit)
      (ctid : ItemPointer) (outputs : l.Real × Option Json) (st : ScanState l c)
      → st.context.scroll ≡ some scroll
      → leb scroll.total scroll.cnt ≡ false
      → get_next_item_pointer l.int8in c ignore true scroll st.world ≡ ok (some hit, scroll', w')
      → found hit.ctid ≡ ok ctid
      → hit_outputs l c scroll' hit ≡ ok outputs
      → WhenOk (Took ctid scroll' w') (take_hit l c ignore (λ ctid. ok tt) st)
  unfolding take_hit
  take_hit-Took ignore scroll scroll' w' hit ctid outputs st e more f g h =
      rw (ap found e, more, f, g, h)
        (WhenOk-bind
          (save_hit-scroll l c ctid outputs (record st.context { scroll = some scroll' }))
          λ ctx k. returned (record { taken = refl; at = k; served = refl }))

  take_hit-end :
      (ignore : Bool) (scroll scroll' : ScrollContext) (w' : c.World) (st : ScanState l c)
      → st.context.scroll ≡ some scroll
      → leb scroll.total scroll.cnt ≡ false
      → get_next_item_pointer l.int8in c ignore true scroll st.world ≡ ok (none, scroll', w')
      → WhenOk (λ r. r.0 ≡ none) (take_hit l c ignore (λ ctid. ok tt) st)
  unfolding take_hit
  take_hit-end ignore scroll scroll' w' st e more f = rw (ap found e, more, f) (returned refl)

  take_hit-past :
      (ignore : Bool) (scroll : ScrollContext) (st : ScanState l c)
      → st.context.scroll ≡ some scroll
      → leb scroll.total scroll.cnt ≡ true
      → WhenOk (λ r. r.0 ≡ none) (take_hit l c ignore (λ ctid. ok tt) st)
  unfolding take_hit
  take_hit-past ignore scroll st e past = rw (ap found e, past) (returned refl)

  -- Neither scan takes a row more.
  no_more :
      (ignore : Bool) (n : ℕ) (row : ItemPointer) (scroll : ScrollContext) (w : c.World)
      (ctids : CtidMap l c) (st : ScanState l c)
      → WhenOk (λ r. r.0 ≡ none) (take_hit l c ignore (λ ctid. ok tt) st)
      → AreSame row ctids (ok (ctids, scroll, w)) (bitmap_loop l c ignore (suc n) st)
  unfolding AreSame bitmap_loop has_ctid
  no_more ignore n row scroll w ctids st ended =
      returned (WhenOk-bind ended λ t k. rw k (returned refl))

  -- The bitmap's rows after a hit, if those after it are the same.
  one_more :
      (ignore : Bool) (n : ℕ) (row ctid : ItemPointer) (outputs : l.Real × Option Json)
      (scroll : ScrollContext) (w : c.World) (ctids ctids' : CtidMap l c) (st : ScanState l c)
      → WhenOk (Took ctid scroll w) (take_hit l c ignore (λ ctid. ok tt) st)
      → keeps row ctids' ≡ (ctid_eq ctid row || keeps row ctids)
      → ((st' : ScanState l c)
          → st'.context.scroll ≡ some scroll
          → st'.world ≡ w
          → AreSame row ctids'
              (ctid_loop l c ignore n scroll w ctids')
              (bitmap_loop l c ignore n st'))
      → AreSame row ctids
          (ctid_loop l c ignore n scroll w ctids')
          (bitmap_loop l c ignore (suc n) st)
  unfolding AreSame bitmap_loop has_ctid
  one_more ignore n row ctid outputs scroll w ctids ctids' st took saved later =
      WhenOk-mono (outcome_eq (ctid_loop l c ignore n scroll w ctids')) λ r e.
        WhenOk-bind took λ t k. rw k.taken (
          WhenOk-bind (WhenOk-of_ok (later t.1 k.at k.served) e) λ b h.
            returned
              (rw (h, saved) (or_swap (has_ctid row b.0) (ctid_eq ctid row) (keeps row ctids))))

  pub ctid_loop-bitmap_loop :
      (ignore : Bool) (n : ℕ) (row : ItemPointer) (scroll : ScrollContext) (w : c.World)
      (ctids : CtidMap l c) (st : ScanState l c)
      → st.context.scroll ≡ some scroll
      → st.world ≡ w
      → AreSame row ctids (ctid_loop l c ignore n scroll w ctids) (bitmap_loop l c ignore n st)
  unfolding AreSame ctid_loop bitmap_loop has_ctid
  ctid_loop-bitmap_loop ignore zero row scroll w ctids st e f =
      rw (ap found e) (go (ltb scroll.cnt scroll.total))
    where
      go :
          (b : Bool)
          → WhenOk {A = CtidMap l c × ScrollContext × c.World}
              (λ r.
                WhenOk {A = List ItemPointer × ScanState l c}
                  (λ q. keeps row r.0 ≡ (has_ctid row q.0 || keeps row ctids))
                  (if b then hang else ok ([], st)))
              (if b then hang else ok (ctids, scroll, w))
      go true = hung
      go false = returned (returned refl)
  ctid_loop-bitmap_loop ignore (suc n) row scroll w ctids st e f =
      branch (ctid_loop-bitmap_loop ignore n row) (leb scroll.total scroll.cnt) refl
    where
      go :
          leb scroll.total scroll.cnt ≡ false
          → (o : Option Hit) (scroll' : ScrollContext) (w' : c.World)
          → get_next_item_pointer l.int8in c ignore true scroll st.world ≡ ok (o, scroll', w')
          → ((ctids' : CtidMap l c) (st' : ScanState l c)
              → st'.context.scroll ≡ some scroll'
              → st'.world ≡ w'
              → AreSame row ctids'
                  (ctid_loop l c ignore n scroll' w' ctids')
                  (bitmap_loop l c ignore n st'))
          → AreSame row ctids
              (elim o [
                | none ↦ ok (ctids, scroll', w')
                | some hit ↦ (do
                  ctid ← found hit.ctid
                  outputs ← hit_outputs l c scroll' hit
                  ctids' ← save_ctid l c ctid outputs ctids
                  ctid_loop l c ignore n scroll' w' ctids')
              ])
              (bitmap_loop l c ignore (suc n) st)
      go more none scroll' w' g later =
          no_more ignore n row scroll' w' ctids st
            (take_hit-end ignore scroll scroll' w' st e more g)
      go more (some hit) scroll' w' g later = WhenOk-bind (outcome_eq (found hit.ctid)) λ ctid h.
          WhenOk-bind (outcome_eq (hit_outputs l c scroll' hit)) λ outputs k.
            WhenOk-bind (save_ctid-keeps ctid row outputs ctids) λ ctids' saved.
              one_more ignore n row ctid outputs scroll' w' ctids ctids' st
                (take_hit-Took ignore scroll scroll' w' hit ctid outputs st e more g h k) saved
                (later ctids')

      branch :
          ((scroll' : ScrollContext) (w' : c.World) (ctids' : CtidMap l c) (st' : ScanState l c)
            → st'.context.scroll ≡ some scroll'
            → st'.world ≡ w'
            → AreSame row ctids'
                (ctid_loop l c ignore n scroll' w' ctids')
                (bitmap_loop l c ignore n st'))
          → (b : Bool) → leb scroll.total scroll.cnt ≡ b
          → AreSame row ctids
              (if b
                then ok (ctids, scroll, w)
                else (get_next_item_pointer l.int8in c ignore true scroll w >>= λ r. elim r.0 [
                  | none ↦ ok (ctids, r.1, r.2)
                  | some hit ↦ (do
                    ctid ← found hit.ctid
                    outputs ← hit_outputs l c r.1 hit
                    ctids' ← save_ctid l c ctid outputs ctids
                    ctid_loop l c ignore n r.1 r.2 ctids')
                ]))
              (bitmap_loop l c ignore (suc n) st)
      branch later true past =
          no_more ignore n row scroll w ctids st (take_hit-past ignore scroll st e past)
      branch later false more =
          WhenOk-bind (outcome_eq (get_next_item_pointer l.int8in c ignore true scroll w)) λ r g.
            go more r.0 r.1 r.2 (ap (get_next_item_pointer l.int8in c ignore true scroll) f ∙ g)
              (later r.1 r.2)
