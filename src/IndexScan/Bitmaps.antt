-- ===== src/IndexScan/Bitmaps.antt =====
-- A bitmap scan and a plain index scan give the same rows.
use zombodb.Prelude.{
  Bool, Bool-cases, List, Option, Outcome, WhenOk, WhenOk-and, WhenOk-bind, WhenOk-mono, [],
  any_outcome, ap, arith, false, fault, faulted, hang, if◌then◌else◌, inl, inr, leb, ltb, none, not,
  ok, refl, returned, some, suc, true, zero, ℕ, ◌&&◌, ◌==◌, ◌>>=◌, ◌>>◌, ◌∙◌, ◌∷◌, ◌≡◌,
}
use zombodb.Curl.{Curl}
use zombodb.Highlights.{HighlightTable, save_highlights}
use zombodb.IndexScan.{
  ScanContext, ScanPlan, ScanState, ScoreTable, amgetbitmap, amgettuple, bitmap_loop, check_ctid,
  do_search_for_scan, enter_score, hit_outputs, keep_highlights, save_hit, save_score,
  search_for_scan, take_hit,
}
use zombodb.Json.{Json}
use zombodb.Query.{JsonText}
use zombodb.Scroll.{Hit, ScrollContext, found, get_next_item_pointer}
use zombodb.Vacuum.Aborted.{outcome_eq}
use zombodb.Xid.{ItemPointer}

-- No ctid of the hit is invalid.
unfoldable pub are_valid : List ItemPointer → Bool
are_valid [] = true
are_valid (ctid ∷ ctids) = not (ctid.offset == 0) && are_valid ctids

unfoldable pub is_valid : Option ItemPointer → Bool
is_valid none = true
is_valid (some ctid) = not (ctid.offset == 0)

module _ (l : JsonText) (c : Curl) where
  -- Calls of amgettuple until there is no tuple, at most so many.
  unfoldable pub gather :
      ScanPlan → ℕ → ℕ → ScanState l c → Outcome (List ItemPointer × ScanState l c)
  gather plan id zero st = found st.context.scroll >>= λ scroll.
      if ltb scroll.cnt scroll.total then hang else ok ([], st)
  gather plan id (suc n) st = amgettuple l c plan id st >>= λ r. elim r.0 [
    | none ↦ ok ([], r.1)
    | some ctid ↦ gather plan id n r.1 >>= λ rest. ok (ctid ∷ rest.0, rest.1)
  ]

  -- With the check, the same hit comes, if it is valid.
  record Agrees (ignore : Bool) (st : ScanState l c) (r : Option ItemPointer × ScanState l c)
      : Type 0 where
    checked : is_valid r.0 ≡ true → take_hit l c ignore (check_ctid l c) st ≡ ok r
    searched : r.1.context.needs_init ≡ st.context.needs_init

  save_score-needs_init :
      (ctid : ItemPointer) (score : l.Real) (ctx : ScanContext l.Real)
      → WhenOk (λ ctx'. ctx'.needs_init ≡ ctx.needs_init) (save_score l c ctid score ctx)
  unfolding save_score
  save_score-needs_init ctid score ctx = elim (Bool-cases ctx.want_scores) [
    | inl e ↦ rw e (go ctx.score_lookup)
    | inr e ↦ rw e (returned refl)
  ]
    where
      go :
          (t : Option (ScoreTable l.Real))
          → WhenOk {A = ScanContext l.Real}
              (λ ctx'. ctx'.needs_init ≡ ctx.needs_init)
              (elim t [
                | none ↦ fault
                | some table ↦
                    ok (record ctx { score_lookup = some (enter_score ctid score table) })
              ])
      go none = faulted
      go (some table) = returned refl

  keep_highlights-needs_init :
      (ctid : ItemPointer) (highlights : Option Json) (ctx : ScanContext l.Real)
      → WhenOk (λ ctx'. ctx'.needs_init ≡ ctx.needs_init) (keep_highlights l c ctid highlights ctx)
  unfolding keep_highlights
  keep_highlights-needs_init ctid highlights ctx = elim (Bool-cases ctx.want_highlights) [
    | inl e ↦ rw e (go ctx.highlight_lookup)
    | inr e ↦ rw e (returned refl)
  ]
    where
      go :
          (t : Option HighlightTable)
          → WhenOk {A = ScanContext l.Real}
              (λ ctx'. ctx'.needs_init ≡ ctx.needs_init)
              (elim t [
                | none ↦ fault
                | some table ↦ save_highlights ctid highlights table >>= λ table'.
                    ok (record ctx { highlight_lookup = some table' })
              ])
      go none = faulted
      go (some table) =
          WhenOk-bind (any_outcome (save_highlights ctid highlights table)) λ t u. returned refl

  save_hit-needs_init :
      (ctid : ItemPointer) (outputs : l.Real × Option Json) (ctx : ScanContext l.Real)
      → WhenOk (λ ctx'. ctx'.needs_init ≡ ctx.needs_init) (save_hit l c ctid outputs ctx)
  unfolding save_hit
  save_hit-needs_init ctid outputs ctx =
      WhenOk-bind (save_score-needs_init ctid outputs.0 ctx)
        λ ctx' e. WhenOk-mono (keep_highlights-needs_init ctid outputs.1 ctx') λ ctx'' f. f ∙ e

  take_hit-Agrees :
      (ignore : Bool) (st : ScanState l c)
      → WhenOk (Agrees ignore st) (take_hit l c ignore (λ ctid. ok tt) st)
  unfolding take_hit check_ctid is_valid
  take_hit-Agrees ignore st = WhenOk-bind (outcome_eq (found st.context.scroll)) λ scroll e.
      elim (Bool-cases (leb scroll.total scroll.cnt)) [
        | inl past ↦
            rw past (returned (record { checked = λ v. rw (e, past) refl; searched = refl }))
        | inr more ↦ rw more (
            WhenOk-bind (outcome_eq (get_next_item_pointer l.int8in c ignore true scroll st.world))
              λ r f. go scroll e more r.0 r.1 r.2 f)
      ]
    where
      go :
          (scroll : ScrollContext)
          → found st.context.scroll ≡ ok scroll
          → leb scroll.total scroll.cnt ≡ false
          → (o : Option Hit) (scroll' : ScrollContext) (w : c.World)
          → get_next_item_pointer l.int8in c ignore true scroll st.world ≡ ok (o, scroll', w)
          → WhenOk (Agrees ignore st) (elim o [
            | none ↦ ok (
              none,
              record st { context = record st.context { scroll = some scroll' }; world = w },
            )
            | some hit ↦ (do
              ctid ← found hit.ctid
              outputs ← hit_outputs l c scroll' hit
              ok tt
              context ← save_hit l c ctid outputs (record st.context { scroll = some scroll' })
              ok (some ctid, record st { context = context; world = w }))
          ])
      go scroll e more none scroll' w f =
          returned (record { checked = λ v. rw (e, more, f) refl; searched = refl })
      go scroll e more (some hit) scroll' w f = WhenOk-bind (outcome_eq (found hit.ctid)) λ ctid g.
          WhenOk-bind (outcome_eq (hit_outputs l c scroll' hit)) λ outputs h.
            WhenOk-bind
              (WhenOk-and
                (save_hit-needs_init ctid outputs (record st.context { scroll = some scroll' }))
                (outcome_eq
                  (save_hit l c ctid outputs (record st.context { scroll = some scroll' }))))
              λ context k.
                returned
                  (record { checked = λ v. rw (e, more, f, g, h, v, k.1) refl; searched = k.0 })

  pub already_searched :
      (plan : ScanPlan) (id : ℕ) (st : ScanState l c)
      → st.context.needs_init ≡ false
      → do_search_for_scan l c plan id st ≡ ok st
  unfolding do_search_for_scan
  already_searched plan id st = skip st.context.needs_init
    where
      skip : (b : Bool) → b ≡ false → (if b then search_for_scan l c plan id st else ok st) ≡ ok st
      skip true e = cc
      skip false e = refl

  amgettuple-take_hit :
      (plan : ScanPlan) (id : ℕ) (st : ScanState l c)
      → st.context.needs_init ≡ false
      → amgettuple l c plan id st ≡ take_hit l c plan.ignore_visibility (check_ctid l c) st
  unfolding amgettuple
  amgettuple-take_hit plan id st init = rw (already_searched plan id st init) refl

  bitmap_loop-gather :
      (plan : ScanPlan) (id n : ℕ) (st : ScanState l c)
      → st.context.needs_init ≡ false
      → WhenOk
          (λ r. are_valid r.0 ≡ true → gather plan id n st ≡ ok r)
          (bitmap_loop l c plan.ignore_visibility n st)
  unfolding bitmap_loop gather are_valid is_valid
  bitmap_loop-gather plan id zero st init = WhenOk-mono (outcome_eq _) λ r e v. e
  bitmap_loop-gather plan id (suc n) st init =
      WhenOk-bind (take_hit-Agrees plan.ignore_visibility st)
        λ r a. next r.0 r.1 a (bitmap_loop-gather plan id n r.1 (a.searched ∙ init))
    where
      next :
          (o : Option ItemPointer) (st' : ScanState l c)
          → Agrees plan.ignore_visibility st (o, st')
          → WhenOk
              (λ r. are_valid r.0 ≡ true → gather plan id n st' ≡ ok r)
              (bitmap_loop l c plan.ignore_visibility n st')
          → WhenOk {A = List ItemPointer × ScanState l c}
              (λ r. are_valid r.0 ≡ true → gather plan id (suc n) st ≡ ok r)
              (elim o [
                | none ↦ ok ([], st')
                | some ctid ↦ bitmap_loop l c plan.ignore_visibility n st' >>= λ rest.
                    ok (ctid ∷ rest.0, rest.1)
              ])
      next none st' a later =
          returned (λ v. rw (amgettuple-take_hit plan id st init, a.checked refl) refl)
      next (some ctid) st' a later = WhenOk-bind later λ rest h. returned (λ v.
          let first : not (ctid.offset == 0) ≡ true = ground (arith, v) in
          let others : are_valid rest.0 ≡ true = ground (arith, v) in
          rw (amgettuple-take_hit plan id st init, a.checked first, h others) refl)

  -- If a bitmap scan of a search that is open returns, and no ctid that it gives is invalid, then calls
  -- of amgettuple until there is no tuple give the same ctids, in the same order, and leave the same
  -- state: the scroll, the tables of scores and highlights and the callbacks.
  pub amgetbitmap-gather :
      (plan : ScanPlan) (id : ℕ) (st : ScanState l c) (scroll : ScrollContext)
      → st.context.needs_init ≡ false
      → st.context.scroll ≡ some scroll
      → WhenOk
          (λ r. are_valid r.0 ≡ true → gather plan id scroll.total st ≡ ok (r.0, r.2))
          (amgetbitmap l c plan id st)
  unfolding amgetbitmap
  amgetbitmap-gather plan id st scroll init opened =
      rw (already_searched plan id st init, ap found opened)
        (WhenOk-bind (bitmap_loop-gather plan id scroll.total st init) λ r h. returned h)
