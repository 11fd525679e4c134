-- ===== src/Bulk/Finish.antt =====
-- ElasticsearchFinishBulkProcess and mark_transaction_committed of
-- src/c/elasticsearch/elasticsearch.c.
use zombodb.Prelude.{
  Bool, List, Outcome, [], false, if◌then◌else◌, length, ltb, not, ok, true, ℕ, ◌&&◌, ◌++◌, ◌+◌,
  ◌==◌, ◌>>=◌, ◌∷◌,
}
use zombodb.Bulk.{
  BulkContext, append_current, bulk_prologue, bulk_response_filter, current_text,
  max_docs_per_request,
}
use zombodb.Curl.{Curl}
use zombodb.Index.{Session}
use zombodb.Rest.{checkout_batch_pool, rest_multi_init, rest_multi_partial_cleanup}
use zombodb.Rest.Single.{rest_call, rest_call_empty, rest_multi_wait_for_all_done}
use zombodb.Text.{Text, codes, decimal}
use zombodb.Xid.{convert_xid}

unfoldable pub mark_committed_lines : ℕ → Text
mark_committed_lines xid =
    codes
      "{\"update\":{\"_id\":\"zdb_aborted_xids\",\"_retry_on_conflict\":128}}\n{\"script\":{\"source\":\"ctx._source.zdb_aborted_xids.remove(ctx._source.zdb_aborted_xids.indexOf(params.XID));\",\"params\":{\"XID\":"
    ++ (decimal xid ++ codes "},\"lang\":\"painless\"}}\n")

module _ (c : Curl) where
  unfoldable pub mark_transaction_committed : Session → ℕ → BulkContext c → BulkContext c
  unfolding append_current mark_committed_lines convert_xid
  mark_transaction_committed s which_xid ctx =
      let ctx' =
        append_current c (mark_committed_lines (convert_xid s.tests s.next which_xid)) ctx in
      record ctx' { nxid = ctx'.nxid + 1 }

  -- `foreach (lc, context->usedXids) mark_transaction_committed(context, ...)`.
  unfoldable pub mark_all_committed : Session → List ℕ → BulkContext c → BulkContext c
  unfolding mark_transaction_committed
  mark_all_committed s [] ctx = ctx
  mark_all_committed s (xid ∷ xids) ctx =
      mark_all_committed s xids (mark_transaction_committed s xid ctx)

  -- Do the commit marks fit into the current request?
  unfoldable pub marks_fit : BulkContext c → Bool
  marks_fit ctx =
      ltb (ctx.nindex + ctx.nupdate + ctx.nxid + length ctx.used_xids) max_docs_per_request

  unfoldable pub is_idle : BulkContext c → Bool
  is_idle ctx = ctx.net.available == ctx.net.nhandles

  -- The marks, if they can go into the current request; the flag is `did_xids`.
  unfoldable pub plan_commit : Session → Bool → BulkContext c → BulkContext c × Bool
  unfolding mark_all_committed marks_fit is_idle
  plan_commit s is_commit ctx =
      if is_commit && is_idle ctx
      then (if marks_fit ctx
          then (mark_all_committed s ctx.used_xids ctx, true)
          else (record ctx { nrequests = ctx.nrequests + 1 }, false))
      else (ctx, false)

  unfoldable pub send_rest : Session → BulkContext c → Outcome (BulkContext c)
  unfolding current_text bulk_prologue
  send_rest s ctx =
      if ltb 0 (length (current_text c ctx)) then bulk_prologue c s true ctx else ok ctx

  -- Waiting for the outstanding requests, and the clean-up of all of them.
  unfoldable pub settle : BulkContext c → Outcome (BulkContext c)
  unfolding rest_multi_wait_for_all_done rest_multi_partial_cleanup
  settle ctx = do
    net ← if ltb 0 ctx.nrequests then rest_multi_wait_for_all_done c ctx.net else ok ctx.net
    net ← rest_multi_partial_cleanup c net true false
    ok (record ctx { net = net })

  -- A process that goes on gets a new MultiRestState over the same pool.
  unfoldable pub restart : Bool → BulkContext c → Outcome (BulkContext c)
  unfolding rest_multi_init
  restart true ctx = ok ctx
  restart false ctx =
      rest_multi_init c ctx.bulk_concurrency ctx.ignore_version_conflicts ctx.net >>= λ net.
      ok (record ctx { net = net })

  -- The marks in a request of their own, through rest_call's global handle; it is listed with the other
  -- requests of this bulk process.
  unfoldable pub send_marks : Session → BulkContext c → Outcome (BulkContext c)
  unfolding checkout_batch_pool mark_all_committed current_text rest_call
  send_marks s ctx = do
    r ← checkout_batch_pool c ctx.net
    let marked = mark_all_committed s ctx.used_xids (record ctx { net = r.1; current = r.0 })
    net ←
        rest_call c (codes "POST")
          (ctx.url
            ++ (ctx.es_index_name
                ++ (codes "/"
                    ++ (ctx.type_name ++ (codes "/_bulk?filter_path=" ++ bulk_response_filter)))))
          (current_text c marked) ctx.compression_level marked.net
    ok (record marked { net = net })

  -- This one as well goes through the global handle.
  unfoldable pub refresh : BulkContext c → Outcome (BulkContext c)
  unfolding rest_call_empty
  refresh ctx =
      rest_call_empty c (codes "POST") (ctx.url ++ (ctx.es_index_name ++ codes "/_refresh")) ctx.net
      >>= λ net. ok (record ctx { net = net })

  -- After a commit the C code frees the context that is returned here.
  unfoldable pub bulk_finish : Session → Bool → BulkContext c → Outcome (BulkContext c)
  unfolding plan_commit send_rest settle restart send_marks refresh
  bulk_finish s is_commit ctx =
      let (planned, did_xids) = plan_commit s is_commit ctx in
      do
        ctx ← send_rest s planned
        ctx ← settle ctx
        ctx ← restart is_commit ctx
        ctx ← if is_commit && not did_xids then send_marks s ctx else ok ctx
        if ctx.should_refresh && ltb 1 ctx.nrequests then refresh ctx else ok ctx
