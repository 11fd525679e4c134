-- ===== src/Bulk/Finishing.antt =====
-- ElasticsearchFinishBulkProcess ends at a commit, if libcurl's transfers do.
use zombodb.Prelude.{
  Bool, Ends, Ends-bind, Ends-if, arith, false, length, ltb, not, refl, some, true, with_value,
  ◌&&◌, ◌+◌, ◌<◌, ◌≡◌,
}
use zombodb.Bulk.{BulkContext, current_text}
use zombodb.Bulk.Finish.{
  bulk_finish, is_idle, mark_all_committed, marks_fit, plan_commit, refresh, restart, send_marks,
  send_rest, settle,
}
use zombodb.Bulk.Liveness.{bulk_prologue-Ends, checkout_batch_pool-Ends}
use zombodb.Bulk.Ownership.{IsWell}
use zombodb.Bulk.Sends.{Marked, mark_all-Marked}
use zombodb.Curl.{Curl, IsLive}
use zombodb.Index.{Session}
use zombodb.Rest.Liveness.{rest_multi_partial_cleanup-Ends, rest_multi_wait_for_all_done-Ends}
use zombodb.Rest.Own.{Own}
use zombodb.Rest.Progress.{rest_call-Ends, rest_call_empty-Ends}

module _ (c : Curl) (live : IsLive c) where
  send_rest-Ends :
      (s : Session) (ctx : BulkContext c)
      → Own (some ctx.current) ctx.net
      → 0 < ctx.net.nhandles
      → Ends (send_rest c s ctx)
  unfolding send_rest
  send_rest-Ends s ctx o h =
      Ends-if (ltb 0 (length (current_text c ctx))) (bulk_prologue-Ends c live s true ctx o h)
        with_value

  settle-Ends : (ctx : BulkContext c) → Ends (settle c ctx)
  unfolding settle
  settle-Ends ctx =
      Ends-bind
        (Ends-if (ltb 0 ctx.nrequests) (rest_multi_wait_for_all_done-Ends c live ctx.net)
          with_value)
        λ net. Ends-bind (rest_multi_partial_cleanup-Ends c live net true false) λ n. with_value

  send_marks-Ends : (s : Session) (ctx : BulkContext c) → Ends (send_marks c s ctx)
  unfolding send_marks
  send_marks-Ends s ctx =
      Ends-bind (checkout_batch_pool-Ends c ctx.net)
        λ r. Ends-bind (rest_call-Ends c live _ _ _ _ _) λ net. with_value

  refresh-Ends : (ctx : BulkContext c) → Ends (refresh c ctx)
  unfolding refresh
  refresh-Ends ctx = Ends-bind (rest_call_empty-Ends c live _ _ ctx.net) λ net. with_value

  planned-Ends :
      (s : Session) (ctx : BulkContext c) (idle fit : Bool)
      → Own (some ctx.current) ctx.net
      → 0 < ctx.net.nhandles
      → is_idle c ctx ≡ idle
      → marks_fit c ctx ≡ fit
      → Ends (send_rest c s (plan_commit c s true ctx).0)
  unfolding plan_commit
  planned-Ends s ctx true true o h e f =
      let m : Marked s ctx.used_xids ctx (mark_all_committed c s ctx.used_xids ctx) =
        mark_all-Marked c s ctx.used_xids ctx in
      rw (e, f) (send_rest-Ends s _ (m.own o) (omega (arith, m.nhandles)))
  planned-Ends s ctx true false o h e f =
      rw (e, f) (send_rest-Ends s (record ctx { nrequests = ctx.nrequests + 1 }) o h)
  planned-Ends s ctx false fit o h e f = rw e (send_rest-Ends s ctx o h)

  -- A commit ends, with a value, an error or undefined behaviour, and not in an endless loop, if
  -- the context is well formed and has a handle, and libcurl's transfers end.
  pub bulk_finish-Ends :
      (s : Session) (ctx : BulkContext c)
      → IsWell ctx
      → 0 < ctx.net.nhandles
      → Ends (bulk_finish c s true ctx)
  unfolding bulk_finish restart
  bulk_finish-Ends s ctx w h = Ends-bind (planned-Ends s ctx _ _ w.own h refl refl) λ ctx1.
      Ends-bind (settle-Ends ctx1) λ ctx2.
        Ends-bind
          (Ends-if (true && not (plan_commit c s true ctx).1) (send_marks-Ends s ctx2) with_value)
          λ ctx3.
            Ends-if (ctx3.should_refresh && ltb 1 ctx3.nrequests) (refresh-Ends ctx3) with_value
