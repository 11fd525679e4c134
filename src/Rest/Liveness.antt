-- ===== src/Rest/Liveness.antt =====
-- The loops of rest.c end, if libcurl's transfers do.
use zombodb.Prelude.{
  Bool, Bool-cases, Ends, Ends-bind, Ends-bind_ok, Ends-if, List, Option, Outcome, WhenOk,
  WhenOk-bind, WhenOk-mono, WhenOk-then, ap, arith, false, hung, inl, inr, none, not, ok, raised,
  refl, require, require-Ends, returned, some, suc, true, with_error, with_value, zero, ℕ, ◌<◌,
  ◌==◌, ◌>>=◌, ◌≡◌, ◌≤◌,
}
use zombodb.Curl.{Curl, IsLive, Message, MultiCode, Net, Slot, accepted, call_again, failed}
use zombodb.Rest.{
  await_slot, check_reply, cleanup_loop, cleanup_step, curl_error, finish_message, finish_taken,
  is_failure, perform_loop, perform_step, release, rest_multi_partial_cleanup, rest_multi_perform,
  take_slot,
}
use zombodb.Rest.Conflicts.{contains_version_conflict_error-Ends}
use zombodb.Rest.Single.{rest_multi_wait_for_all_done, wait_loop, wait_step}

-- A poll is progress: with something still running, work was done.
pub record Progress (c : Curl) (w : c.World) (still : ℕ) (w' : c.World) : Type 0 where
  pub work_le : c.work w' ≤ c.work w
  pub work_less : 0 < still → c.work w' < c.work w

module _ (c : Curl) (live : IsLive c) where
  perform_step-Progress :
      (w : c.World) (r : MultiCode × ℕ × c.World) (again : c.World → Outcome (ℕ × c.World))
      → c.multi_perform w ≡ r
      → ((w' : c.World) → WhenOk (λ x. Progress c w' x.0 x.1) (again w'))
      → WhenOk (λ x. Progress c w x.0 x.1) (perform_step c r again)
  perform_step-Progress w (accepted, still, w') again e next =
      returned
        (record { work_le = rw e at (live.poll_le w); work_less = rw e at (live.poll_less w) })
  perform_step-Progress w (call_again, still, w') again e next = WhenOk-mono (next w') λ x p.
      record {
        work_le = omega (arith, p.work_le, rw e at (live.poll_le w));
        work_less = λ h. omega (arith, p.work_less h, rw e at (live.poll_le w));
      }
  perform_step-Progress w (failed, still, w') again e next = raised

  perform_loop-Progress :
      (f : ℕ) (w : c.World) → WhenOk (λ x. Progress c w x.0 x.1) (perform_loop c f w)
  unfolding perform_loop
  perform_loop-Progress zero w = hung
  perform_loop-Progress (suc f) w =
      perform_step-Progress w (c.multi_perform w) (perform_loop c f) refl (perform_loop-Progress f)

  perform_step-Ends :
      (w : c.World) (r : MultiCode × ℕ × c.World) (again : c.World → Outcome (ℕ × c.World))
      → c.multi_perform w ≡ r
      → ((w' : c.World) → c.work w' < c.work w → Ends (again w'))
      → Ends (perform_step c r again)
  perform_step-Ends w (accepted, still, w') again e next = with_value
  perform_step-Ends w (call_again, still, w') again e next =
      next w' (rw e at (live.again_less w (ap (λ r. r.0) e)))
  perform_step-Ends w (failed, still, w') again e next = with_error

  perform_loop-Ends : (f : ℕ) (w : c.World) → c.work w < f → Ends (perform_loop c f w)
  unfolding perform_loop
  perform_loop-Ends zero w h = absurd (omega arith)
  perform_loop-Ends (suc f) w h =
      perform_step-Ends w (c.multi_perform w) (perform_loop c f) refl
        λ w' k. perform_loop-Ends f w' (omega arith)

  pub rest_multi_perform-Ends : (n : Net c) → Ends (rest_multi_perform c n)
  unfolding rest_multi_perform
  rest_multi_perform-Ends n =
      Ends-bind (perform_loop-Ends (suc (c.work n.world)) n.world (omega arith)) λ x. with_value

  -- A poll of a MultiRestState.
  record Polled (n : Net c) (still : ℕ) (m : Net c) : Type 0 where
    progress : Progress c n.world still m.world
    nhandles : m.nhandles ≡ n.nhandles

  rest_multi_perform-Polled : (n : Net c) → WhenOk (λ x. Polled n x.0 x.1) (rest_multi_perform c n)
  unfolding rest_multi_perform
  rest_multi_perform-Polled n =
      WhenOk-bind (perform_loop-Progress (suc (c.work n.world)) n.world)
        λ x p. returned (record { progress = p; nhandles = refl })

  pub await_slot-Ends :
      (f : ℕ) (n : Net c) → 0 < n.nhandles → c.work n.world < f → Ends (await_slot c f n)
  unfolding await_slot
  await_slot-Ends zero n some_handle h = absurd (omega arith)
  await_slot-Ends (suc f) n some_handle h =
      Ends-bind_ok (rest_multi_perform-Ends n) (rest_multi_perform-Polled n) λ (still, m) p.
        elim (Bool-cases (still == m.nhandles)) [
          | inl e ↦
              let busy : 0 < still = ground (arith, p.nhandles) in
              rw e (
                await_slot-Ends f m (omega (arith, p.nhandles))
                  (omega (arith, p.progress.work_less busy)))
          | inr e ↦ rw e with_value
        ]

  wait_step-Ends :
      (repeats still : ℕ) (m : Net c) (r : MultiCode × ℕ × c.World)
      (again : ℕ → Net c → Outcome (Net c))
      → c.multi_wait m.world ≡ r
      → (0 < still → (k : ℕ) (m' : Net c) → c.work m'.world ≤ c.work m.world → Ends (again k m'))
      → Ends (wait_step c repeats still m r again)
  wait_step-Ends repeats still m (accepted, numfds, w) again e next =
      elim (Bool-cases (still == 0)) [
        | inl z ↦ rw z with_value
        | inr z ↦
            rw z (next (ground arith) _ (record m { world = w }) rw e at (live.wait_le m.world))
      ]
  wait_step-Ends repeats still m (call_again, numfds, w) again e next = with_error
  wait_step-Ends repeats still m (failed, numfds, w) again e next = with_error

  wait_loop-Ends : (f repeats : ℕ) (n : Net c) → c.work n.world < f → Ends (wait_loop c f repeats n)
  unfolding wait_loop
  wait_loop-Ends zero repeats n h = absurd (omega arith)
  wait_loop-Ends (suc f) repeats n h =
      Ends-bind_ok (rest_multi_perform-Ends n) (rest_multi_perform-Polled n) λ (still, m) p.
        wait_step-Ends repeats still m (c.multi_wait m.world) (wait_loop c f) refl
          λ busy k m' le. wait_loop-Ends f k m' (omega (arith, p.progress.work_less busy))

  -- The wait for all requests ends, if libcurl's transfers end.
  pub rest_multi_wait_for_all_done-Ends : (n : Net c) → Ends (rest_multi_wait_for_all_done c n)
  unfolding rest_multi_wait_for_all_done
  rest_multi_wait_for_all_done-Ends n = wait_loop-Ends (suc (c.work n.world)) 0 n (omega arith)

  check_reply-Ends : (msg : Message) (s : Slot) → Ends msg.response.json → Ends (check_reply msg s)
  unfolding check_reply
  check_reply-Ends msg s parsed = Ends-if (not (is_failure msg)) with_value (
      Ends-if (not s.vconflict) with_error (
        Ends-bind (contains_version_conflict_error-Ends msg.response.json parsed)
          λ ignore. require-Ends ignore curl_error))

  finish_taken-Ends :
      (msg : Message) (n : Net c) (r : Option (Slot × List Slot))
      → Ends msg.response.json
      → Ends (finish_taken c msg n r)
  unfolding finish_taken
  finish_taken-Ends msg n none parsed = with_error
  finish_taken-Ends msg n (some (s, slots)) parsed =
      Ends-bind (require-Ends msg.info_ok "problem getting response code")
        λ a. Ends-bind (check_reply-Ends msg s parsed) λ b. with_value

  finish_taken-pending :
      (msg : Message) (n : Net c) (r : Option (Slot × List Slot))
      → WhenOk (λ m. c.pending m.world ≤ c.pending n.world) (finish_taken c msg n r)
  unfolding finish_taken release
  finish_taken-pending msg n none = raised
  finish_taken-pending msg n (some (s, slots)) =
      WhenOk-then (require msg.info_ok "problem getting response code")
        (WhenOk-then (check_reply msg s) (returned (live.remove_le msg.handle n.world)))

  cleanup_step-Ends :
      (fast : Bool) (n : Net c) (r : Option Message × c.World) (again : Net c → Outcome (Net c))
      → c.info_read n.world ≡ r
      → ((m : Net c) → c.pending m.world < c.pending n.world → Ends (again m))
      → Ends (cleanup_step c fast n again r)
  unfolding finish_message
  cleanup_step-Ends fast n (none, w) again e next = with_value
  cleanup_step-Ends fast n (some msg, w) again e next =
      let less : c.pending w < c.pending n.world =
        rw e at (live.read_less n.world msg (ap (λ r. r.0) e)) in
      let parsed : Ends msg.response.json = live.parse_ends n.world msg (ap (λ r. r.0) e) in
      go msg.is_done less parsed
    where
      done :
          (b : Bool) (m : Net c) → Ends (again m) → Ends (elim b [ true ↦ ok m | false ↦ again m ])
      done true m x = with_value
      done false m x = x

      go :
          (b : Bool)
          → c.pending w < c.pending n.world
          → Ends msg.response.json
          → Ends (elim b [
            | false ↦ again (record n { world = w })
            | true ↦ finish_message c msg (record n { world = w }) >>= λ m. elim fast [
              | true ↦ ok m
              | false ↦ again m
            ]
          ])
      go false less parsed = next (record n { world = w }) less
      go true less parsed =
          Ends-bind_ok
            (finish_taken-Ends msg (record n { world = w }) (take_slot msg.handle n.slots) parsed)
            (finish_taken-pending msg (record n { world = w }) (take_slot msg.handle n.slots))
            λ m le. done fast m (next m (omega (arith, le, less)))

  cleanup_loop-Ends :
      (f : ℕ) (fast : Bool) (n : Net c) → c.pending n.world < f → Ends (cleanup_loop c f fast n)
  unfolding cleanup_loop
  cleanup_loop-Ends zero fast n h = absurd (omega arith)
  cleanup_loop-Ends (suc f) fast n h =
      cleanup_step-Ends fast n (c.info_read n.world) (cleanup_loop c f fast) refl
        λ m less. cleanup_loop-Ends f fast m (omega (arith, less))

  -- A clean-up ends, if libcurl's queue of finished transfers does and the JSON parser returns.
  pub rest_multi_partial_cleanup-Ends :
      (n : Net c) (finalize fast : Bool) → Ends (rest_multi_partial_cleanup c n finalize fast)
  unfolding rest_multi_partial_cleanup
  rest_multi_partial_cleanup-Ends n finalize fast =
      Ends-bind (cleanup_loop-Ends (suc (c.pending n.world)) fast n (omega arith)) λ m. with_value
