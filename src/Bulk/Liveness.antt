-- ===== src/Bulk/Liveness.antt =====
-- The row operations end, if libcurl's transfers do.
use zombodb.Prelude.{
  Bool, Bool-cases, Ends, Ends-bind, Ends-bind_ok, Ends-if, List, Option, [], arith, error, false,
  if◌then◌else◌, inl, inr, none, ok, refl, some, true, with_error, with_fault, with_value, ℕ, ◌+◌,
  ◌<◌, ◌==◌, ◌||◌, ◌∷◌, ◌≡◌,
}
use zombodb.Bulk.{
  BulkContext, append_current, bulk_prologue, bulk_url, flush, is_full, is_known_xid,
  mark_transaction_in_progress, poll, remember_curr_xid,
}
use zombodb.Bulk.Batches.{
  RowOp, apply_op, apply_op-Applied, delete_by_xmax, delete_by_xmin, insert, run_ops, update,
  vacuum,
}
use zombodb.Bulk.Ownership.{IsWell, poll-Kept}
use zombodb.Bulk.Rows.{
  bulk_delete_row_by_xmax, bulk_delete_row_by_xmin, bulk_insert_row, bulk_update_tuple,
  bulk_vacuum_xmax, row_json,
}
use zombodb.Curl.{Curl, IsLive, Net, PostDataEntry}
use zombodb.Index.{Session}
use zombodb.Rest.{checkout, checkout_batch_pool}
use zombodb.Rest.Liveness.{rest_multi_partial_cleanup-Ends, rest_multi_perform-Ends}
use zombodb.Rest.Own.{Kept, Own}
use zombodb.Rest.Progress.{rest_multi_call-Ends}
use zombodb.Text.{Text, codes, replace_line_breaks, strip_json_ending, strip_last}

checkout-Ends :
    (c : Curl) (n : Net c) (r : Option (PostDataEntry × List (Option ℕ)))
    → Ends {A = PostDataEntry × Net c} (elim r [
      | none ↦ error "Unable to checkout from batch pool"
      | some (e, pool') ↦ ok (e, record n { pool = pool' })
    ])
checkout-Ends c n none = with_error
checkout-Ends c n (some (e, pool)) = with_value

pub checkout_batch_pool-Ends : (c : Curl) (n : Net c) → Ends (checkout_batch_pool c n)
unfolding checkout_batch_pool
checkout_batch_pool-Ends c n = checkout-Ends c n (checkout (n.nhandles + 1) 0 n.pool)

row_json-Ends : (contains_json : Bool) (json : Text) → Ends (row_json contains_json json)
unfolding row_json strip_json_ending
row_json-Ends contains_json json =
    go (if contains_json then replace_line_breaks json b' ' else json)
  where
    stripped :
        (c : ℕ) (r : Option Text)
        → Ends (elim r [ some str' ↦ ok (c ∷ str') | none ↦ error "improper JSON format" ])
    stripped c none = with_error
    stripped c (some t) = with_value

    go : (t : Text) → Ends (strip_json_ending t)
    go [] = with_fault
    go (c ∷ t) = stripped c (strip_last t)

module _ (c : Curl) (live : IsLive c) where
  poll-Ends : (n : Net c) → Ends (poll c n)
  unfolding poll
  poll-Ends n = Ends-bind (rest_multi_perform-Ends c live n) λ (still, m).
      Ends-if (still == 0) with_value (rest_multi_partial_cleanup-Ends c live m false true)

  flush-Ends :
      (is_final : Bool) (ctx : BulkContext c) → 0 < ctx.net.nhandles → Ends (flush c is_final ctx)
  unfolding flush
  flush-Ends is_final ctx h =
      Ends-bind
        (rest_multi_call-Ends c live ctx.net (codes "POST") (bulk_url c ctx is_final) ctx.current
          ctx.compression_level h)
        λ net.
          Ends-if is_final with_value (Ends-bind (checkout_batch_pool-Ends c net) λ r. with_value)

  remember-nhandles :
      (s : Session) (ctx : BulkContext c)
      → (remember_curr_xid c s ctx).net.nhandles ≡ ctx.net.nhandles
  unfolding remember_curr_xid mark_transaction_in_progress append_current
  remember-nhandles s ctx = elim (Bool-cases (is_known_xid c s ctx)) [
    | inl e ↦ rw e refl
    | inr e ↦ rw e refl
  ]

  -- A prologue ends, its request included.
  pub bulk_prologue-Ends :
      (s : Session) (is_final : Bool) (ctx : BulkContext c)
      → Own (some ctx.current) ctx.net
      → 0 < ctx.net.nhandles
      → Ends (bulk_prologue c s is_final ctx)
  unfolding bulk_prologue
  bulk_prologue-Ends s is_final ctx o h =
      Ends-bind_ok (poll-Ends ctx.net) (poll-Kept c (some ctx.current) ctx.net o) λ net k.
        let ctx' : BulkContext c =
          if is_final
          then record ctx { net = net }
          else remember_curr_xid c s (record ctx { net = net }) in
        Ends-if (is_full c ctx' || is_final) (flush-Ends is_final ctx' (same is_final net k))
          with_value
    where
      same :
          (b : Bool) (net : Net c)
          → Kept (some ctx.current) ctx.net net
          → 0
            < (if b
                then record ctx { net = net }
                else remember_curr_xid c s (record ctx { net = net })).net.nhandles
      same true net k = omega (arith, k.nhandles)
      same false net k = omega (arith, k.nhandles, remember-nhandles s (record ctx { net = net }))

  -- A row operation ends.
  apply_op-Ends :
      (s : Session) (op : RowOp) (ctx : BulkContext c)
      → IsWell ctx
      → 0 < ctx.net.nhandles
      → Ends (apply_op c s op ctx)
  unfolding apply_op bulk_insert_row bulk_update_tuple bulk_vacuum_xmax bulk_delete_row_by_xmin
      bulk_delete_row_by_xmax
  apply_op-Ends s (insert ctid json cmin cmax xmin xmax) ctx w h =
      Ends-bind (bulk_prologue-Ends s false ctx w.own h)
        λ ctx'. Ends-bind (row_json-Ends ctx'.contains_json json) λ row. with_value
  apply_op-Ends s (update ctid llapi_id cmax xmax) ctx w h =
      Ends-bind (bulk_prologue-Ends s false ctx w.own h) λ ctx'. with_value
  apply_op-Ends s (vacuum doc xmax) ctx w h =
      Ends-bind (bulk_prologue-Ends s false ctx w.own h) λ ctx'. with_value
  apply_op-Ends s (delete_by_xmin doc xmin) ctx w h =
      Ends-bind (bulk_prologue-Ends s false (record ctx { wait_for_active_shards = true }) w.own h)
        λ ctx'. with_value
  apply_op-Ends s (delete_by_xmax doc xmax) ctx w h =
      Ends-bind (bulk_prologue-Ends s false (record ctx { wait_for_active_shards = true }) w.own h)
        λ ctx'. with_value

  -- A run of row operations ends, with a value, an error or undefined behaviour, and not in an
  -- endless loop, if the context is well formed and has a handle, and libcurl's transfers end.
  pub run_ops-Ends :
      (ops : List (Session × RowOp)) (ctx : BulkContext c)
      → IsWell ctx
      → 0 < ctx.net.nhandles
      → Ends (run_ops c ops ctx)
  unfolding run_ops
  run_ops-Ends [] ctx w h = with_value
  run_ops-Ends ((s, op) ∷ ops) ctx w h =
      Ends-bind_ok (apply_op-Ends s op ctx w h) (apply_op-Applied c s op ctx w)
        λ ctx' a. run_ops-Ends ops ctx' a.well (omega (arith, a.nhandles))
