-- ===== src/Functions/Rows.antt =====
-- The array of zdb_query_tids and the set of zdb_query_srf have the same rows.
use zombodb.Prelude.{
  Bool, Bool-cases, List, Option, Outcome, WhenOk, WhenOk-mono, [], ap, arith, error, false, fault,
  hang, if◌then◌else◌, inl, inr, ltb, none, ok, refl, some, suc, sym, true, zero, ℕ, ◌+◌, ◌==◌,
  ◌>>=◌, ◌∙◌, ◌∷◌, ◌≡◌,
}
use zombodb.Curl.{Curl}
use zombodb.Functions.{
  SrfContext, SrfResult, next_row, no_more_rows, open_query, srf_call, srf_done, tids_loop,
  zdb_query_srf, zdb_query_tids,
}
use zombodb.Index.{IndexOptions}
use zombodb.Index.Relations.{IndexEntry}
use zombodb.Query.{JsonText, ZdbQuery}
use zombodb.Scroll.{Hit, ScrollContext, found, get_next_item_pointer}
use zombodb.Scroll.Open.{close_scroll}
use zombodb.Vacuum.Aborted.{outcome_eq}
use zombodb.Xid.{ItemPointer}

>>=-cong :
    {A B : Type 0} (m : Outcome A) (f g : A → Outcome B)
    → ((a : A) → f a ≡ g a)
    → (m >>= f) ≡ (m >>= g)
>>=-cong (ok a) f g h = h a
>>=-cong (error e) f g h = refl
>>=-cong fault f g h = refl
>>=-cong hang f g h = refl

>>=-assoc :
    {A B C : Type 0} (m : Outcome A) (f : A → Outcome B) (g : B → Outcome C)
    → (m >>= f >>= g) ≡ (m >>= λ a. f a >>= g)
>>=-assoc (ok a) f g = refl
>>=-assoc (error e) f g = refl
>>=-assoc fault f g = refl
>>=-assoc hang f g = refl

module _ (l : JsonText) (c : Curl) (ignore : Bool) (visibility : ZdbQuery) where
  -- The calls of a set-returning function until it has done, at most so many.
  unfoldable pub srf_rows :
      SrfResult l c ignore visibility → ℕ → Outcome (List ItemPointer × c.World)
  srf_rows (no_more_rows w) n = ok ([], w)
  srf_rows (next_row ctid context w) zero = hang
  srf_rows (next_row ctid context w) (suc n) = srf_call l c ignore visibility context w >>= λ r.
      srf_rows r n >>= λ rest. ok (ctid ∷ rest.0, rest.1)

  -- The end of the scroll behind an array's rows.
  unfoldable end_array :
      List ItemPointer × ScrollContext × c.World → Outcome (List ItemPointer × c.World)
  end_array r = close_scroll c r.1 r.2 >>= λ closed. ok (r.0, closed.1)

  done-end_array :
      (scroll : ScrollContext) (w : c.World) (n : ℕ)
      → (srf_done l c ignore visibility scroll w >>= λ r. srf_rows r n) ≡ end_array ([], scroll, w)
  unfolding srf_done end_array srf_rows
  done-end_array scroll w n = >>=-assoc (close_scroll c scroll w) _ _

  first_of_array :
      (ctid : ItemPointer) (m : Outcome (List ItemPointer × ScrollContext × c.World))
      → (m >>= end_array >>= λ rest. ok (ctid ∷ rest.0, rest.1))
        ≡ (m >>= (λ rest. ok (ctid ∷ rest.0, rest.1, rest.2)) >>= end_array)
  unfolding end_array
  first_of_array ctid m =
      >>=-assoc m _ _
      ∙ (>>=-cong m _ _ (λ r. >>=-assoc (close_scroll c r.1 r.2) _ _) ∙ sym (>>=-assoc m _ _))

  row_step :
      (n : ℕ) (ctid : ItemPointer) (context : SrfContext l c ignore visibility) (w : c.World)
      → ((srf_call l c ignore visibility context w >>= λ r. srf_rows r n)
          ≡ (tids_loop l c ignore visibility n context.scroll w >>= end_array))
      → srf_rows (next_row ctid context w) (suc n) ≡ (
          tids_loop l c ignore visibility n context.scroll w
          >>= (λ rest. ok (ctid ∷ rest.0, rest.1, rest.2))
          >>= end_array)
  unfolding srf_rows
  row_step n ctid context w later =
      sym (>>=-assoc (srf_call l c ignore visibility context w) _ _)
      ∙ (ap (λ (m : Outcome (List ItemPointer × c.World)). m >>= λ rest. ok (ctid ∷ rest.0, rest.1))
            later
          ∙ first_of_array ctid (tids_loop l c ignore visibility n context.scroll w))

  srf_rows-end_array :
      (n : ℕ) (context : SrfContext l c ignore visibility) (w : c.World)
      → context.call_cntr + n ≡ context.max_calls
      → (srf_call l c ignore visibility context w >>= λ r. srf_rows r n)
        ≡ (tids_loop l c ignore visibility n context.scroll w >>= end_array)
  unfolding srf_call tids_loop
  srf_rows-end_array zero context w h =
      let past : ltb context.call_cntr context.max_calls ≡ false = ground (arith, h) in
      rw past (done-end_array context.scroll w 0)
  srf_rows-end_array (suc n) context w h =
      let more : ltb context.call_cntr context.max_calls ≡ true = ground (arith, h) in
      rw more (
        >>=-assoc (get_next_item_pointer l.int8in c ignore true context.scroll w) _ _
        ∙ (>>=-cong (get_next_item_pointer l.int8in c ignore true context.scroll w) _ _
              (λ r. one r.0 r.1 r.2 (λ context' e. srf_rows-end_array n context' r.2 e))
            ∙ sym (>>=-assoc (get_next_item_pointer l.int8in c ignore true context.scroll w) _ _)))
    where
      one :
          (o : Option Hit) (scroll' : ScrollContext) (w' : c.World)
          → ((context' : SrfContext l c ignore visibility)
              → context'.call_cntr + n ≡ context'.max_calls
              → (srf_call l c ignore visibility context' w' >>= λ r. srf_rows r n)
                ≡ (tids_loop l c ignore visibility n context'.scroll w' >>= end_array))
          → ((elim o [
            | none ↦ srf_done l c ignore visibility scroll' w'
            | some hit ↦ found hit.ctid >>= λ ctid. ok (
                next_row ctid
                  (record context { call_cntr = context.call_cntr + 1; scroll = scroll' })
                  w')
          ])
              >>= λ r. srf_rows r (suc n))
            ≡ ((elim o [
              | none ↦ ok ([], scroll', w')
              | some hit ↦ found hit.ctid >>= λ ctid.
                  tids_loop l c ignore visibility n scroll' w' >>= λ rest.
                  ok (ctid ∷ rest.0, rest.1, rest.2)
            ])
                >>= end_array)
      one none scroll' w' later = done-end_array scroll' w' (suc n)
      one (some hit) scroll' w' later =
          >>=-assoc (found hit.ctid) _ _
          ∙ (>>=-cong (found hit.ctid) _ _ (λ ctid.
                row_step n ctid
                  (record context { call_cntr = context.call_cntr + 1; scroll = scroll' }) w'
                  (later _ (omega (arith, h))))
              ∙ sym (>>=-assoc (found hit.ctid) _ _))

  no_tids :
      (n : ℕ) (scroll : ScrollContext) (w : c.World)
      → n ≡ 0
      → tids_loop l c ignore visibility n scroll w ≡ ok ([], scroll, w)
  unfolding tids_loop
  no_tids zero scroll w e = refl
  no_tids (suc n) scroll w e = absurd (omega arith)

  -- If the search opens, then calls of the set-returning function until it has done, as many as the
  -- scroll has hits, give the same ctids, in the same order, as the array, or fail in the same way, and
  -- leave the server in the same state.
  pub zdb_query_srf-zdb_query_tids :
      (entry : IndexEntry) (rel : IndexOptions) (query : ZdbQuery) (w : c.World)
      → WhenOk
          (λ o.
            (zdb_query_srf l c ignore visibility entry rel query w >>= λ r. srf_rows r o.0.total)
            ≡ zdb_query_tids l c ignore visibility entry rel query w)
          (open_query l c ignore visibility entry rel query w)
  unfolding zdb_query_srf zdb_query_tids end_array
  zdb_query_srf-zdb_query_tids entry rel query w =
      WhenOk-mono (outcome_eq (open_query l c ignore visibility entry rel query w))
        λ o e. rw e (rows_of o.0 o.1)
    where
      rows_of :
          (scroll : ScrollContext) (w' : c.World)
          → ((if scroll.total == 0
                then srf_done l c ignore visibility scroll w'
                else srf_call l c ignore visibility
                    (record { call_cntr = 0; max_calls = scroll.total; scroll = scroll })
                    w')
              >>= λ r. srf_rows r scroll.total)
            ≡ (tids_loop l c ignore visibility scroll.total scroll w' >>= end_array)
      rows_of scroll w' = elim (Bool-cases (scroll.total == 0)) [
        | inl e ↦
            let zero_total : scroll.total ≡ 0 = ground (arith, e) in
            rw e (
              done-end_array scroll w' scroll.total
              ∙ ap (λ m. m >>= end_array) (sym (no_tids scroll.total scroll w' zero_total)))
        | inr e ↦ rw e (srf_rows-end_array scroll.total _ w' (omega arith))
      ]
