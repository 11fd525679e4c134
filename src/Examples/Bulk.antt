-- ===== src/Examples/Bulk.antt =====
-- Concrete bulk processes.
use zombodb.Prelude.{
  Ends, List, Outcome, Returns, WhenOk, [], arith, false, none, ok, refl, some, true, ℕ, ◌++◌, ◌∷◌,
  ◌≡◌,
}
use zombodb.Bulk.{BulkContext, append_current, bulk_prologue}
use zombodb.Bulk.Batches.{
  Applied, RowOp, apply_op, apply_op-Applied, delete_by_xmin, expected, insert, remembered, run_ops,
  update,
}
use zombodb.Bulk.Commit.{bulk_finish-bodies, bulk_finish-bodies_midway}
use zombodb.Bulk.Finish.{bulk_finish}
use zombodb.Bulk.Ownership.{IsWell, Prologued, wire}
use zombodb.Bulk.Prologue.{bulk_prologue-Prologued}
use zombodb.Bulk.Rows.{bulk_start, new_context}
use zombodb.Bulk.Runs.{Ran, run_ops-Ran}
use zombodb.Bulk.Sends.{commit_marks}
use zombodb.Bulk.Start.{Started, bulk_start-Started}
use zombodb.Bulk.Transaction.{run_transaction, run_transaction-Ends, run_transaction-bodies}
use zombodb.Examples.Contexts.{
  demo-IsWell, demo_context, demo_dirty, demo_dirty-Own, demo_name, demo_options, demo_session,
  demo_world,
}
use zombodb.Examples.DemoCurl.{demo_curl, demo_curl-IsLive}
use zombodb.Index.{Session}
use zombodb.Rest.{is_failure, perform_loop}
use zombodb.Rest.Pool.{pooled_at}
use zombodb.Rest.Sent.{bodies}
use zombodb.Text.{codes}

-- An insert, an update, and a delete of a second transaction, over a batch size of 40 bytes.
abbrev demo_ops : List (Session × RowOp)
demo_ops =
    (
      demo_session 900,
      insert (some (record { block = 0; offset = 1 })) (codes "{\"a\":1}") 0 0 900 0,
    )
    ∷ (demo_session 900, update (some (record { block = 0; offset = 1 })) [] 1 900)
    ∷ (demo_session 901, delete_by_xmin (codes "1") 900)
    ∷ []

run_ops-Ran_example :
    WhenOk (Ran demo_curl demo_ops demo_context) (run_ops demo_curl demo_ops demo_context)
run_ops-Ran_example = run_ops-Ran demo_curl demo_ops demo_context demo-IsWell

bulk_prologue-Prologued_example :
    WhenOk
      (Prologued (demo_session 900) demo_context)
      (bulk_prologue demo_curl (demo_session 900) false demo_context)
bulk_prologue-Prologued_example =
    bulk_prologue-Prologued demo_curl (demo_session 900) demo_context demo-IsWell

apply_op-Applied_example :
    WhenOk
      (Applied (demo_session 901) (delete_by_xmin (codes "1") 900) demo_context)
      (apply_op demo_curl (demo_session 901) (delete_by_xmin (codes "1") 900) demo_context)
apply_op-Applied_example =
    apply_op-Applied demo_curl (demo_session 901) (delete_by_xmin (codes "1") 900) demo_context
      demo-IsWell

bulk_start-Started_example :
    Returns
      (Started demo_curl demo_options (codes "uuid") none)
      (bulk_start demo_curl demo_options none none false demo_world)
bulk_start-Started_example =
    bulk_start-Started demo_curl demo_options none none false demo_world (codes "uuid")
      (omega arith) demo_name

abbrev demo_finishing : BulkContext demo_curl
demo_finishing = record demo_dirty { used_xids = 900 ∷ 901 ∷ [] }

demo_finishing-IsWell : IsWell demo_finishing
unfolding append_current new_context
demo_finishing-IsWell = record { own = demo_dirty-Own; few = omega arith }

bulk_finish-bodies_example :
    WhenOk
      (λ ctx.
        bodies ctx.net.sent
        ≡ wire demo_finishing ++ commit_marks (demo_session 901) (900 ∷ 901 ∷ []))
      (bulk_finish demo_curl (demo_session 901) true demo_finishing)
bulk_finish-bodies_example =
    bulk_finish-bodies demo_curl (demo_session 901) demo_finishing demo_finishing-IsWell

-- What a flush in the middle of a transaction leaves behind: the context still holds buffer 0, and
-- buffer 0 is in the pool.
abbrev aliased : Outcome (BulkContext demo_curl) → ℕ × ℕ
aliased (ok ctx) = (ctx.current.buff, pooled_at ctx.current.pool_idx ctx.net.pool)
aliased _ = (0, 0)

bulk_finish_aliases : aliased (bulk_finish demo_curl (demo_session 901) false demo_dirty) ≡ (0, 1)
unfolding bulk_finish new_context codes perform_loop is_failure
bulk_finish_aliases = refl

run_transaction-bodies_example :
    WhenOk
      (λ done.
        bodies done.net.sent
        ≡ expected false 0 [] demo_ops
          ++ commit_marks (demo_session 901) (remembered 0 [] demo_ops))
      (run_transaction demo_curl demo_options none none false demo_ops
        (demo_session 901)
        demo_world)
run_transaction-bodies_example =
    run_transaction-bodies demo_curl demo_options none none false demo_ops (demo_session 901)
      demo_world (codes "uuid") (omega arith) demo_name

run_transaction-Ends_example :
    Ends (
      run_transaction demo_curl demo_options none none false demo_ops (demo_session 901) demo_world)
run_transaction-Ends_example =
    run_transaction-Ends demo_curl demo_options none none false demo_ops (demo_session 901)
      demo_world (codes "uuid") demo_curl-IsLive (omega arith) (omega arith) demo_name

bulk_finish-bodies_midway_example :
    WhenOk
      (λ ctx. bodies ctx.net.sent ≡ wire demo_finishing)
      (bulk_finish demo_curl (demo_session 901) false demo_finishing)
bulk_finish-bodies_midway_example =
    bulk_finish-bodies_midway demo_curl (demo_session 901) demo_finishing demo_finishing-IsWell
