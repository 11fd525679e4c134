-- ===== src/Bulk/Ownership.antt =====
-- bulk_prologue keeps the context well formed and loses nothing of what is to be sent.
use zombodb.Prelude.{
  ==_refl, Bool, Bool-cases, Option, Outcome, Returns, WhenOk, WhenOk-bind, WhenOk-mono, [],
  append-nil, append_assoc, arith, false, if◌then◌else◌, inl, inr, ok, refl, returned, returns,
  some, sym, true, ◌++◌, ◌+◌, ◌<◌, ◌==◌, ◌>>=◌, ◌||◌, ◌∙◌, ◌∷◌, ◌≡◌, ◌≤◌,
}
use zombodb.Bulk.{
  BulkContext, append_current, bulk_url, flush, is_full, is_known_xid, mark_in_progress_lines,
  mark_transaction_in_progress, max_docs_per_request, poll, remember_curr_xid,
}
use zombodb.Curl.{Curl, Net, PostDataEntry}
use zombodb.Index.{Session}
use zombodb.Rest.{checkout_batch_pool, rest_multi_partial_cleanup, write}
use zombodb.Rest.Calls.{Called, cleanup-Kept, perform-Kept, rest_multi_call-Called}
use zombodb.Rest.Checkout.{Refilled, checkout_batch_pool-Refilled}
use zombodb.Rest.Own.{Kept, Kept-trans, Own}
use zombodb.Rest.Pool.{ArePooled-write}
use zombodb.Rest.Sent.{bodies, bodies-append}
use zombodb.Text.{Text, codes}
use zombodb.Xid.{convert_xid}

-- Everything handed over so far: sent, or still in the current buffer.
unfoldable pub wire : {c : Curl} → BulkContext c → Text
wire ctx = bodies ctx.net.sent ++ ctx.net.buffers ctx.current.buff

pub record IsWell {c : Curl} (ctx : BulkContext c) : Type 0 where
  pub own : Own (some ctx.current) ctx.net
  pub few : ctx.nrows ≤ max_docs_per_request

-- What marks the transaction in progress, unless the context already knows it.
unfoldable pub mark_text : {c : Curl} → Session → BulkContext c → Text
mark_text {c} s ctx =
    if is_known_xid c s ctx
    then []
    else mark_in_progress_lines (convert_xid s.tests s.next s.curr_xid)

-- The fields that batching leaves alone.
pub record SameBook {c : Curl} (ctx ctx' : BulkContext c) : Type 0 where
  pub contains_json : ctx'.contains_json ≡ ctx.contains_json
  pub ntotal : ctx'.ntotal ≡ ctx.ntotal
  pub nindex : ctx'.nindex ≡ ctx.nindex
  pub nupdate : ctx'.nupdate ≡ ctx.nupdate
  pub ndelete : ctx'.ndelete ≡ ctx.ndelete
  pub nvacuum : ctx'.nvacuum ≡ ctx.nvacuum
  pub nhandles : ctx'.net.nhandles ≡ ctx.net.nhandles
  pub contains_json_is_set : ctx'.contains_json_is_set ≡ ctx.contains_json_is_set
  pub tupdesc : ctx'.tupdesc ≡ ctx.tupdesc

module _ {c : Curl} where
  pub append_current-Own :
      (str : Text) (ctx : BulkContext c)
      → Own (some ctx.current) ctx.net
      → Own (some ctx.current) (append_current c str ctx).net
  unfolding append_current
  append_current-Own str ctx o = record {
    slots_length = o.slots_length;
    free = o.free;
    pool_length = o.pool_length;
    slots_ok = o.slots_ok;
    pool_ok =
        ArePooled-write 0 ctx.current.buff _ ctx.net.buffers ctx.net.pool
          (λ j e. ground (arith, o.once ctx.current.buff)) o.pool_ok;
    held_ok = o.held_ok;
    once = o.once;
  }

  pub append_current-wire :
      (str : Text) (ctx : BulkContext c) → wire (append_current c str ctx) ≡ wire ctx ++ str
  unfolding wire append_current write
  append_current-wire str ctx =
      rw (==_refl ctx.current.buff)
        (sym (append_assoc (bodies ctx.net.sent) (ctx.net.buffers ctx.current.buff) str))

  -- What the memory of transaction ids becomes.
  pub record Remembered (s : Session) (ctx ctx' : BulkContext c) : Type 0 where
    pub last_used_xid :
        ctx'.last_used_xid ≡ (if is_known_xid c s ctx then ctx.last_used_xid else s.curr_xid)
    pub used_xids :
        ctx'.used_xids
        ≡ (if is_known_xid c s ctx then ctx.used_xids else ctx.used_xids ++ (s.curr_xid ∷ []))

  -- What bulk_prologue does for a row: the context is well formed with room for one more row, the
  -- transaction's mark is added if it is new, and nothing else changes what is to be sent.
  pub record Prologued (s : Session) (ctx ctx' : BulkContext c) : Type 0 where
    pub well : IsWell ctx'
    pub room : ctx'.nrows < max_docs_per_request
    pub same_wire : wire ctx' ≡ wire ctx ++ mark_text s ctx
    pub book : SameBook ctx ctx'
    pub memory : Remembered s ctx ctx'

  pub record Flushed (ctx ctx' : BulkContext c) : Type 0 where
    pub well : IsWell ctx'
    pub nrows : ctx'.nrows ≡ 0
    pub same_wire : wire ctx' ≡ wire ctx
    pub book : SameBook ctx ctx'
    pub last_used_xid : ctx'.last_used_xid ≡ ctx.last_used_xid
    pub used_xids : ctx'.used_xids ≡ ctx.used_xids

  -- Before the test for a full batch.
  pub record Ready (s : Session) (ctx ctx' : BulkContext c) : Type 0 where
    pub well : IsWell ctx'
    pub same_wire : wire ctx' ≡ wire ctx ++ mark_text s ctx
    pub book : SameBook ctx ctx'
    pub memory : Remembered s ctx ctx'

module _ (c : Curl) where
  marked-Ready :
      (s : Session) (ctx : BulkContext c)
      → IsWell ctx
      → is_known_xid c s ctx ≡ false
      → Ready s ctx (
          mark_transaction_in_progress c s s.curr_xid (record ctx {
            used_xids = ctx.used_xids ++ (s.curr_xid ∷ []);
            last_used_xid = s.curr_xid;
          }))
  unfolding mark_transaction_in_progress mark_text wire
  marked-Ready s ctx w e = record {
    well = record { own = append_current-Own _ ctx w.own; few = w.few };
    same_wire = rw e (append_current-wire _ ctx);
    book = record {
      contains_json = refl;
      ntotal = refl;
      nindex = refl;
      nupdate = refl;
      ndelete = refl;
      nvacuum = refl;
      nhandles = refl;
      contains_json_is_set = refl;
      tupdesc = refl;
    };
    memory = record { last_used_xid = rw e refl; used_xids = rw e refl };
  }

  pub remember-Ready :
      (s : Session) (ctx : BulkContext c) → IsWell ctx → Ready s ctx (remember_curr_xid c s ctx)
  unfolding remember_curr_xid
  remember-Ready s ctx w = elim (Bool-cases (is_known_xid c s ctx)) [
    | inl e ↦ rw e (record {
      well = w;
      same_wire = unfold mark_text in rw e (sym (append-nil (wire ctx)));
      book = record {
        contains_json = refl;
        ntotal = refl;
        nindex = refl;
        nupdate = refl;
        ndelete = refl;
        nvacuum = refl;
        nhandles = refl;
        contains_json_is_set = refl;
        tupdesc = refl;
      };
      memory = record { last_used_xid = rw e refl; used_xids = rw e refl };
    })
    | inr e ↦ rw e (marked-Ready s ctx w e)
  ]

  pub poll-Kept :
      (held : Option PostDataEntry) (n : Net c) → Own held n → WhenOk (Kept held n) (poll c n)
  unfolding poll
  poll-Kept held n o = WhenOk-bind (perform-Kept c held n o) λ (still, m) k. next (still == 0) m k
    where
      next :
          (b : Bool) (m : Net c)
          → Kept held n m
          → WhenOk (Kept held n) (if b then ok m else rest_multi_partial_cleanup c m false true)
      next true m k = returned k
      next false m k = WhenOk-mono (cleanup-Kept c held m false true k.own) λ m' k'. Kept-trans k k'

  flushed :
      (is_final : Bool) (ctx : BulkContext c) (net : Net c) (e : PostDataEntry) (net' : Net c)
      → Called (bulk_url c ctx is_final) ctx.current ctx.net net
      → Refilled net e net'
      → wire (record ctx { net = net'; current = e; nrows = 0; nrequests = ctx.nrequests + 1 })
        ≡ wire ctx
  unfolding wire
  flushed is_final ctx net e net' k r =
      rw (r.sent, k.sent, r.empty, bodies-append, k.body, append-nil)

  pub flush-wire : (ctx : BulkContext c) → IsWell ctx → WhenOk (Flushed ctx) (flush c false ctx)
  unfolding flush
  flush-wire ctx w =
      WhenOk-bind
        (rest_multi_call-Called c (bulk_url c ctx false) ctx.current ctx.compression_level
          (codes "POST") ctx.net w.own)
        λ net k. next net k (checkout_batch_pool c net) (checkout_batch_pool-Refilled c net k.own)
    where
      next :
          (net : Net c)
          → Called (bulk_url c ctx false) ctx.current ctx.net net
          → (r : Outcome (PostDataEntry × Net c)) → Returns (λ x. Refilled net x.0 x.1) r
          → WhenOk (Flushed ctx) (
              r >>= λ (e, net').
              ok (record ctx { net = net'; current = e; nrows = 0; nrequests = ctx.nrequests + 1 }))
      next net k r (returns {a = x} f) = returned (record {
        well = record { own = f.own; few = omega arith };
        nrows = refl;
        same_wire = flushed false ctx net x.0 x.1 k f;
        book = record {
          contains_json = refl;
          ntotal = refl;
          nindex = refl;
          nupdate = refl;
          ndelete = refl;
          nvacuum = refl;
          nhandles = f.nhandles ∙ k.nhandles;
          contains_json_is_set = refl;
          tupdesc = refl;
        };
        last_used_xid = refl;
        used_xids = refl;
      })

  Ready-Prologued :
      (s : Session) (ctx ctx' ctx'' : BulkContext c)
      → Ready s ctx ctx'
      → Flushed ctx' ctx''
      → Prologued s ctx ctx''
  Ready-Prologued s ctx ctx' ctx'' r f = record {
    well = f.well;
    room = omega (arith, f.nrows);
    same_wire = f.same_wire ∙ r.same_wire;
    book = record {
      contains_json = f.book.contains_json ∙ r.book.contains_json;
      ntotal = f.book.ntotal ∙ r.book.ntotal;
      nindex = f.book.nindex ∙ r.book.nindex;
      nupdate = f.book.nupdate ∙ r.book.nupdate;
      ndelete = f.book.ndelete ∙ r.book.ndelete;
      nvacuum = f.book.nvacuum ∙ r.book.nvacuum;
      nhandles = f.book.nhandles ∙ r.book.nhandles;
      contains_json_is_set = f.book.contains_json_is_set ∙ r.book.contains_json_is_set;
      tupdesc = f.book.tupdesc ∙ r.book.tupdesc;
    };
    memory = record {
      last_used_xid = f.last_used_xid ∙ r.memory.last_used_xid;
      used_xids = f.used_xids ∙ r.memory.used_xids;
    };
  }

  pub flush_if_full :
      (s : Session) (ctx ctx' : BulkContext c)
      → Ready s ctx ctx'
      → WhenOk (Prologued s ctx) (if is_full c ctx' || false then flush c false ctx' else ok ctx')
  unfolding is_full
  flush_if_full s ctx ctx' r = elim (Bool-cases (is_full c ctx')) [
    | inl e ↦
        rw e (WhenOk-mono (flush-wire ctx' r.well) λ ctx'' f. Ready-Prologued s ctx ctx' ctx'' r f)
    | inr e ↦ rw e (
        returned (record {
          well = r.well;
          room = ground (arith, r.well.few, e);
          same_wire = r.same_wire;
          book = r.book;
          memory = r.memory;
        }))
  ]
