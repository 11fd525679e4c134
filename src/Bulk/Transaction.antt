-- ===== src/Bulk/Transaction.antt =====
-- A whole transaction on an index: the start of its bulk process, its row operations, its commit.
use zombodb.Prelude.{
  Bool, Ends, Ends-bind_ok, Ends-of_Returns, List, Option, Outcome, Returns, WhenOk, WhenOk-bind,
  WhenOk-mono, WhenOk-of_Returns, [], ap₂, arith, ok, true, ◌++◌, ◌<◌, ◌>>=◌, ◌∙◌, ◌≡◌,
}
use zombodb.Bulk.{BulkContext}
use zombodb.Bulk.Batches.{RowOp, expected, remembered, run_ops}
use zombodb.Bulk.Commit.{bulk_finish-bodies}
use zombodb.Bulk.Finish.{bulk_finish}
use zombodb.Bulk.Finishing.{bulk_finish-Ends}
use zombodb.Bulk.Liveness.{run_ops-Ends}
use zombodb.Bulk.Ownership.{wire}
use zombodb.Bulk.Rows.{bulk_start, choose_name, has_json}
use zombodb.Bulk.Runs.{Ran, run_ops-Ran}
use zombodb.Bulk.Sends.{commit_marks}
use zombodb.Bulk.Start.{Started, bulk_start-Started}
use zombodb.Curl.{Curl, IsLive}
use zombodb.Index.{IndexOptions, Session, TupleDesc}
use zombodb.Rest.{max_curl_handles}
use zombodb.Rest.Sent.{bodies}
use zombodb.Text.{Text}

module _ (c : Curl) where
  unfoldable pub run_transaction :
      IndexOptions
      → Option Text
      → Option TupleDesc
      → Bool
      → List (Session × RowOp)
      → Session
      → c.World
      → Outcome (BulkContext c)
  unfolding bulk_start run_ops bulk_finish
  run_transaction rel index_name tupdesc ignore ops s world =
      bulk_start c rel index_name tupdesc ignore world >>= λ ctx.
      run_ops c ops ctx >>= λ ctx'. bulk_finish c s true ctx'

  pub after_start :
      (rel : IndexOptions) (tupdesc : Option TupleDesc) (name : Text) (ops : List (Session × RowOp))
      (s : Session) (ctx : BulkContext c)
      → Started c rel name tupdesc ctx
      → WhenOk
          (λ done.
            bodies done.net.sent
            ≡ expected (has_json tupdesc) 0 [] ops ++ commit_marks s (remembered 0 [] ops))
          (run_ops c ops ctx >>= λ ctx'. bulk_finish c s true ctx')
  after_start rel tupdesc name ops s ctx start =
      WhenOk-bind (run_ops-Ran c ops ctx start.well) λ ctx' r.
        WhenOk-mono (bulk_finish-bodies c s ctx' r.well) λ done e.
          e ∙ ap₂ (λ a b. a ++ commit_marks s b) (sent ctx ctx' start r) (used ctx ctx' start r)
    where
      sent :
          (ctx ctx' : BulkContext c)
          → Started c rel name tupdesc ctx
          → Ran c ops ctx ctx'
          → wire ctx' ≡ expected (has_json tupdesc) 0 [] ops
      sent ctx ctx' start r =
          rw (r.same_wire, start.nothing, start.contains_json, start.last_used_xid, start.no_rows.2)

      used :
          (ctx ctx' : BulkContext c)
          → Started c rel name tupdesc ctx
          → Ran c ops ctx ctx'
          → ctx'.used_xids ≡ remembered 0 [] ops
      used ctx ctx' start r = rw (r.used_xids, start.last_used_xid, start.no_rows.2)

  -- A whole transaction over fewer than 1,024 handles, under the given name or else the index's
  -- `uuid`, if it returns, has sent exactly this, in this order, whatever the batch size, the
  -- concurrency and the moments at which requests finish: the action of each row operation, each
  -- new transaction id's mark before its first action, and at the end the mark that each of them is
  -- committed.
  pub run_transaction-bodies :
      (rel : IndexOptions) (index_name : Option Text) (tupdesc : Option TupleDesc) (ignore : Bool)
      (ops : List (Session × RowOp)) (s : Session) (world : c.World) (name : Text)
      → rel.bulk_concurrency < max_curl_handles
      → choose_name index_name rel.index_name ≡ ok name
      → WhenOk
          (λ done.
            bodies done.net.sent
            ≡ expected (has_json tupdesc) 0 [] ops ++ commit_marks s (remembered 0 [] ops))
          (run_transaction rel index_name tupdesc ignore ops s world)
  unfolding run_transaction
  run_transaction-bodies rel index_name tupdesc ignore ops s world name few named =
      WhenOk-bind
        (WhenOk-of_Returns
          (bulk_start-Started c rel index_name tupdesc ignore world name few named))
        λ ctx start. after_start rel tupdesc name ops s ctx start

  -- If libcurl's transfers end, and the bulk process has at least one handle, such a transaction
  -- ends, with a value, an error or undefined behaviour, and not in an endless loop.
  pub run_transaction-Ends :
      (rel : IndexOptions) (index_name : Option Text) (tupdesc : Option TupleDesc) (ignore : Bool)
      (ops : List (Session × RowOp)) (s : Session) (world : c.World) (name : Text)
      → IsLive c
      → 0 < rel.bulk_concurrency
      → rel.bulk_concurrency < max_curl_handles
      → choose_name index_name rel.index_name ≡ ok name
      → Ends (run_transaction rel index_name tupdesc ignore ops s world)
  unfolding run_transaction
  run_transaction-Ends rel index_name tupdesc ignore ops s world name live some_handle few named =
      let start : Returns (Started c rel name tupdesc)
          (bulk_start c rel index_name tupdesc ignore world) =
        bulk_start-Started c rel index_name tupdesc ignore world name few named in
      Ends-bind_ok (Ends-of_Returns start) (WhenOk-of_Returns start) λ ctx st.
        Ends-bind_ok (run_ops-Ends c live ops ctx st.well (omega (arith, st.nhandles)))
          (run_ops-Ran c ops ctx st.well)
          λ ctx' r. bulk_finish-Ends c live s ctx' r.well (omega (arith, r.nhandles, st.nhandles))
