-- ===== src/Rest/Waits.antt =====
-- rest_multi_wait_for_all_done and rest_call keep what the context holds.
use zombodb.Prelude.{
  Bool-cases, Option, Outcome, WhenOk, WhenOk-bind, WhenOk-mono, hung, inl, inr, raised, returned,
  suc, zero, ℕ, ◌==◌,
}
use zombodb.Curl.{Curl, MultiCode, Net, PostDataEntry, accepted, call_again, failed}
use zombodb.Rest.Calls.{perform-Kept}
use zombodb.Rest.Own.{Kept, Kept-trans, Kept-world, Own}
use zombodb.Rest.Single.{rest_multi_wait_for_all_done, wait_loop, wait_step}

module _ (c : Curl) where
  wait_step-Kept :
      (held : Option PostDataEntry) (repeats still : ℕ) (n : Net c) (r : MultiCode × ℕ × c.World)
      (again : ℕ → Net c → Outcome (Net c))
      → Own held n
      → ((k : ℕ) (m : Net c) → Own held m → WhenOk (Kept held m) (again k m))
      → WhenOk (Kept held n) (wait_step c repeats still n r again)
  wait_step-Kept held repeats still n (accepted, numfds, w) again o ih =
      let here : Kept held n (record n { world = w }) = Kept-world held n w o in
      elim (Bool-cases (still == 0)) [
        | inl e ↦ rw e (returned here)
        | inr e ↦ rw e (WhenOk-mono (ih _ _ here.own) λ m k. Kept-trans here k)
      ]
  wait_step-Kept held repeats still n (call_again, numfds, w) again o ih = raised
  wait_step-Kept held repeats still n (failed, numfds, w) again o ih = raised

  wait_loop-Kept :
      (held : Option PostDataEntry) (f repeats : ℕ) (n : Net c)
      → Own held n
      → WhenOk (Kept held n) (wait_loop c f repeats n)
  unfolding wait_loop
  wait_loop-Kept held zero repeats n o = hung
  wait_loop-Kept held (suc f) repeats n o = WhenOk-bind (perform-Kept c held n o) λ (still, m) k.
      WhenOk-mono
        (wait_step-Kept held repeats still m (c.multi_wait m.world) (wait_loop c f) k.own
          (wait_loop-Kept held f))
        λ m' k'. Kept-trans k k'

  pub wait-Kept :
      (held : Option PostDataEntry) (n : Net c)
      → Own held n
      → WhenOk (Kept held n) (rest_multi_wait_for_all_done c n)
  unfolding rest_multi_wait_for_all_done
  wait-Kept held n o = wait_loop-Kept held (suc (c.work n.world)) 0 n o
