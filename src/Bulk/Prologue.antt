-- ===== src/Bulk/Prologue.antt =====
-- bulk_prologue for a row: batching is transparent.
use zombodb.Prelude.{WhenOk, WhenOk-bind, WhenOk-mono, ap₂, false, some, ◌++◌, ◌∙◌}
use zombodb.Bulk.{BulkContext, bulk_prologue, is_known_xid, remember_curr_xid}
use zombodb.Bulk.Ownership.{
  IsWell, Prologued, flush_if_full, mark_text, poll-Kept, remember-Ready, wire,
}
use zombodb.Curl.{Curl, Net}
use zombodb.Index.{Session}
use zombodb.Rest.Own.{Kept}
use zombodb.Rest.Sent.{bodies}

module _ (c : Curl) where
  polled-Prologued :
      (s : Session) (ctx : BulkContext c) (net : Net c) (ctx' : BulkContext c)
      → Kept (some ctx.current) ctx.net net
      → Prologued s (record ctx { net = net }) ctx'
      → Prologued s ctx ctx'
  unfolding wire mark_text is_known_xid
  polled-Prologued s ctx net ctx' k p = record {
    well = p.well;
    room = p.room;
    same_wire = p.same_wire ∙ ap₂ (λ b t. (bodies b ++ t) ++ mark_text s ctx) k.sent k.text;
    book = record {
      contains_json = p.book.contains_json;
      ntotal = p.book.ntotal;
      nindex = p.book.nindex;
      nupdate = p.book.nupdate;
      ndelete = p.book.ndelete;
      nvacuum = p.book.nvacuum;
      nhandles = p.book.nhandles ∙ k.nhandles;
      contains_json_is_set = p.book.contains_json_is_set;
      tupdesc = p.book.tupdesc;
    };
    memory = record { last_used_xid = p.memory.last_used_xid; used_xids = p.memory.used_xids };
  }

  -- A row's prologue, if it returns, keeps the context well formed: every buffer at one place,
  -- the pool's buffers empty, and at most 10,000 rows in a request, with room for this one. What
  -- has been handed over is kept, in order, whether or not a request goes out; only the mark of
  -- a transaction that the context has not seen yet is added, and that transaction is
  -- remembered.
  pub bulk_prologue-Prologued :
      (s : Session) (ctx : BulkContext c)
      → IsWell ctx
      → WhenOk (Prologued s ctx) (bulk_prologue c s false ctx)
  unfolding bulk_prologue
  bulk_prologue-Prologued s ctx w =
      WhenOk-bind (poll-Kept c (some ctx.current) ctx.net w.own) λ net k.
        WhenOk-mono
          (flush_if_full c s (record ctx { net = net })
            (remember_curr_xid c s (record ctx { net = net }))
            (remember-Ready c s (record ctx { net = net }) (record { own = k.own; few = w.few })))
          λ ctx' p. polled-Prologued s ctx net ctx' k p
