-- ===== src/Bulk.antt =====
-- The bulk indexing process of src/c/elasticsearch/elasticsearch.c: the context, its start, the
-- batching of every call (bulk_prologue) and its accounting (bulk_epilogue).
pub mod Rows
pub mod Commit
pub mod Finishing
pub mod Liveness
pub mod Sends
pub mod Finish
pub mod Batches
pub mod Ownership
pub mod Prologue
pub mod Runs
pub mod Start
pub mod Transaction
use zombodb.Prelude.{
  Bool, List, Option, Outcome, [], error, false, if◌then◌else◌, leb, length, ok, some, suc, true,
  zero, ℕ, ◌&&◌, ◌*◌, ◌++◌, ◌+◌, ◌/◌, ◌==◌, ◌>>=◌, ◌>>◌, ◌||◌, ◌∷◌,
}
use zombodb.Curl.{Curl, Net, PostDataEntry}
use zombodb.Index.{Session, TupleDesc}
use zombodb.Rest.{
  checkout_batch_pool, rest_multi_call, rest_multi_partial_cleanup, rest_multi_perform, write,
}
use zombodb.Text.{Text, codes, decimal}
use zombodb.Xid.{convert_xid}

abbrev pub max_docs_per_request : ℕ
max_docs_per_request = 10000

-- The counters are C ints; a transaction is assumed to stay below 2^31 rows.
pub record BulkContext (c : Curl) : Type 0 where
  pub url : Text
  pub pg_index_name : Text
  pub es_index_name : Text
  pub type_name : Text
  pub batch_size : ℕ
  pub bulk_concurrency : ℕ
  pub compression_level : ℕ
  pub wait_for_active_shards : Bool
  pub contains_json : Bool
  pub contains_json_is_set : Bool
  pub tupdesc : Option TupleDesc
  pub should_refresh : Bool
  pub ignore_version_conflicts : Bool
  pub net : Net c
  pub current : PostDataEntry
  pub nrequests : ℕ
  pub nrows : ℕ
  pub ntotal : ℕ
  pub nindex : ℕ
  pub nupdate : ℕ
  pub ndelete : ℕ
  pub nvacuum : ℕ
  pub nxid : ℕ
  pub last_used_xid : ℕ
  pub used_xids : List ℕ

unfoldable pub list_member_int : ℕ → List ℕ → Bool
list_member_int x [] = false
list_member_int x (y ∷ ys) = x == y || list_member_int x ys

-- `pool[i] = makeStringInfo()` for `n` indices from `i` on; the buffer of index `i` has address `i`.
unfoldable pub make_pool : ℕ → ℕ → List (Option ℕ)
make_pool zero i = []
make_pool (suc n) i = some i ∷ make_pool n (i + 1)

abbrev pub bulk_response_filter : Text
bulk_response_filter = codes "errors,items.*.error"

unfoldable pub mark_in_progress_lines : ℕ → Text
mark_in_progress_lines xid =
    codes "{\"update\":{\"_id\":\"zdb_aborted_xids\",\"_retry_on_conflict\":128}}\n"
    ++ (codes "{\"upsert\":{\"zdb_aborted_xids\":["
        ++ (decimal xid
            ++ (codes
                  "]},\"script\":{\"source\":\"ctx._source.zdb_aborted_xids.add(params.XID);\",\"lang\":\"painless\",\"params\":{\"XID\":"
                ++ (decimal xid ++ codes "}}}\n"))))

-- Equality of texts, as strcmp decides it.
unfoldable pub text_eq : Text → Text → Bool
text_eq [] [] = true
text_eq [] (y ∷ ys) = false
text_eq (x ∷ xs) [] = false
text_eq (x ∷ xs) (y ∷ ys) = x == y && text_eq xs ys

module _ (c : Curl) where
  -- What the current buffer holds.
  unfoldable pub current_text : BulkContext c → Text
  current_text ctx = ctx.net.buffers ctx.current.buff

  -- appendStringInfo(context->current->buff, ...).
  unfoldable pub append_current : Text → BulkContext c → BulkContext c
  unfolding current_text write
  append_current str ctx = record ctx {
    net = record ctx.net {
      buffers = write ctx.net.buffers ctx.current.buff (current_text ctx ++ str);
    };
  }

  unfoldable pub mark_transaction_in_progress : Session → ℕ → BulkContext c → BulkContext c
  unfolding append_current mark_in_progress_lines convert_xid
  mark_transaction_in_progress s curr_xid ctx =
      let ctx' =
        append_current (mark_in_progress_lines (convert_xid s.tests s.next curr_xid)) ctx in
      record ctx' { nxid = ctx'.nxid + 1 }

  -- Is this transaction id already among those that the context remembers?
  unfoldable pub is_known_xid : Session → BulkContext c → Bool
  unfolding list_member_int
  is_known_xid s ctx = ctx.last_used_xid == s.curr_xid || list_member_int s.curr_xid ctx.used_xids

  unfoldable pub remember_curr_xid : Session → BulkContext c → BulkContext c
  unfolding is_known_xid mark_transaction_in_progress
  remember_curr_xid s ctx =
      if is_known_xid s ctx
      then ctx
      else mark_transaction_in_progress s s.curr_xid (record ctx {
        used_xids = ctx.used_xids ++ (s.curr_xid ∷ []);
        last_used_xid = s.curr_xid;
      })

  -- `if (rest_multi_perform(rest)) rest_multi_partial_cleanup(rest, false, true);`
  unfoldable pub poll : Net c → Outcome (Net c)
  unfolding rest_multi_perform rest_multi_partial_cleanup
  poll n = rest_multi_perform c n >>= λ (still, n').
      if still == 0 then ok n' else rest_multi_partial_cleanup c n' false true

  unfoldable pub is_full : BulkContext c → Bool
  unfolding current_text
  is_full ctx = leb ctx.batch_size (length (current_text ctx)) || ctx.nrows == max_docs_per_request

  unfoldable pub bulk_url : BulkContext c → Bool → Text
  bulk_url ctx is_final =
      ctx.url
      ++ (ctx.es_index_name
          ++ (codes "/"
              ++ (ctx.type_name
                  ++ (codes "/_bulk?filter_path="
                      ++ (bulk_response_filter
                          ++ ((if ctx.wait_for_active_shards
                                then codes "&wait_for_active_shards=all"
                                else [])
                              ++ (if is_final && (ctx.should_refresh && ctx.nrequests == 0)
                                  then codes "&refresh=true"
                                  else [])))))))

  unfoldable pub flush : Bool → BulkContext c → Outcome (BulkContext c)
  unfolding bulk_url rest_multi_call checkout_batch_pool
  flush is_final ctx = do
    net ←
        rest_multi_call c ctx.net (codes "POST") (bulk_url ctx is_final) ctx.current
          ctx.compression_level
    let ctx' = record ctx { net = net; nrows = 0; nrequests = ctx.nrequests + 1 }
    if is_final
        then ok ctx'
        else (checkout_batch_pool c net >>= λ (e, net').
            ok (record ctx' { net = net'; current = e }))

  unfoldable pub bulk_prologue : Session → Bool → BulkContext c → Outcome (BulkContext c)
  unfolding poll remember_curr_xid is_full flush
  bulk_prologue s is_final ctx = do
    net ← poll ctx.net
    let polled = record ctx { net = net }
    let ctx' = if is_final then polled else remember_curr_xid s polled
    if is_full ctx' || is_final then flush is_final ctx' else ok ctx'

  unfoldable pub bulk_epilogue : BulkContext c → BulkContext c
  bulk_epilogue ctx = record ctx { nrows = ctx.nrows + 1; ntotal = ctx.ntotal + 1 }
