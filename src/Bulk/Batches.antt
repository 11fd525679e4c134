-- ===== src/Bulk/Batches.antt =====
-- A run of row operations against what it is to send, written down without batches, pools or
-- requests.
use zombodb.Prelude.{
  Bool, List, Option, Outcome, WhenOk, WhenOk-bind, [], ap, append_assoc, arith, error, fault,
  faulted, hang, hung, if◌then◌else◌, ok, raised, refl, returned, true, ℕ, ◌++◌, ◌+◌, ◌==◌, ◌>>=◌,
  ◌||◌, ◌∙◌, ◌∷◌, ◌≡◌,
}
use zombodb.Bulk.{
  BulkContext, append_current, bulk_epilogue, is_known_xid, list_member_int, mark_in_progress_lines,
}
use zombodb.Bulk.Ownership.{
  IsWell, Prologued, Remembered, append_current-Own, append_current-wire, mark_text, wire,
}
use zombodb.Bulk.Prologue.{bulk_prologue-Prologued}
use zombodb.Bulk.Rows.{
  bulk_delete_row_by_xmax, bulk_delete_row_by_xmin, bulk_insert_row, bulk_update_tuple,
  bulk_vacuum_xmax, delete_by_xmax_lines, delete_by_xmin_lines, index_action, row_columns, row_json,
  update_lines, vacuum_lines,
}
use zombodb.Curl.{Curl}
use zombodb.Index.{Session}
use zombodb.Text.{Text}
use zombodb.Xid.{ItemPointer, convert_xid}

-- One call of a row operation, with its arguments.
pub data RowOp : Type 0 where
  insert : Option ItemPointer → Text → ℕ → ℕ → ℕ → ℕ → RowOp
  update : Option ItemPointer → Text → ℕ → ℕ → RowOp
  vacuum : Text → ℕ → RowOp
  delete_by_xmin : Text → ℕ → RowOp
  delete_by_xmax : Text → ℕ → RowOp

unfoldable pub row_or_empty : Outcome Text → Text
row_or_empty (ok row) = row
row_or_empty _ = []

-- The bulk action of a call.
unfoldable pub op_text : Bool → RowOp → Text
op_text contains_json (insert ctid json cmin cmax xmin xmax) =
    index_action ctid
    ++ (row_or_empty (row_json contains_json json) ++ row_columns ctid cmin cmax xmin xmax)
op_text contains_json (update ctid llapi_id cmax xmax) = update_lines ctid llapi_id cmax xmax
op_text contains_json (vacuum doc xmax) = vacuum_lines doc xmax
op_text contains_json (delete_by_xmin doc xmin) = delete_by_xmin_lines doc xmin
op_text contains_json (delete_by_xmax doc xmax) = delete_by_xmax_lines doc xmax

unfoldable pub is_known : ℕ → List ℕ → ℕ → Bool
is_known last used xid = last == xid || list_member_int xid used

-- What a run is to send: each call's action, the first of a transaction that is not known behind
-- the mark that it is in progress.
unfoldable pub expected : Bool → ℕ → List ℕ → List (Session × RowOp) → Text
expected contains_json last used [] = []
expected contains_json last used ((s, op) ∷ ops) =
    if is_known last used s.curr_xid
    then op_text contains_json op ++ expected contains_json last used ops
    else mark_in_progress_lines (convert_xid s.tests s.next s.curr_xid)
      ++ (op_text contains_json op
          ++ expected contains_json s.curr_xid (used ++ (s.curr_xid ∷ [])) ops)

-- The transactions that a run has seen, in the order of first use.
unfoldable pub remembered : ℕ → List ℕ → List (Session × RowOp) → List ℕ
remembered last used [] = used
remembered last used ((s, op) ∷ ops) =
    if is_known last used s.curr_xid
    then remembered last used ops
    else remembered s.curr_xid (used ++ (s.curr_xid ∷ [])) ops

module _ (c : Curl) where
  unfoldable pub apply_op : Session → RowOp → BulkContext c → Outcome (BulkContext c)
  unfolding bulk_insert_row bulk_update_tuple bulk_vacuum_xmax bulk_delete_row_by_xmin
      bulk_delete_row_by_xmax
  apply_op s (insert ctid json cmin cmax xmin xmax) ctx =
      bulk_insert_row c s ctid json cmin cmax xmin xmax ctx
  apply_op s (update ctid llapi_id cmax xmax) ctx =
      bulk_update_tuple c s ctid llapi_id cmax xmax ctx
  apply_op s (vacuum doc xmax) ctx = bulk_vacuum_xmax c s doc xmax ctx
  apply_op s (delete_by_xmin doc xmin) ctx = bulk_delete_row_by_xmin c s doc xmin ctx
  apply_op s (delete_by_xmax doc xmax) ctx = bulk_delete_row_by_xmax c s doc xmax ctx

  unfoldable pub run_ops : List (Session × RowOp) → BulkContext c → Outcome (BulkContext c)
  unfolding apply_op
  run_ops [] ctx = ok ctx
  run_ops ((s, op) ∷ ops) ctx = apply_op s op ctx >>= run_ops ops

module _ {c : Curl} where
  -- The counters of the kinds of rows add up to the number of rows.
  abbrev pub kinds : BulkContext c → ℕ
  kinds ctx = ctx.nindex + ctx.nupdate + ctx.ndelete + ctx.nvacuum

  pub record Applied (s : Session) (op : RowOp) (ctx ctx' : BulkContext c) : Type 0 where
    pub well : IsWell ctx'
    pub same_wire : wire ctx' ≡ wire ctx ++ (mark_text s ctx ++ op_text ctx.contains_json op)
    pub contains_json : ctx'.contains_json ≡ ctx.contains_json
    pub ntotal : ctx'.ntotal ≡ ctx.ntotal + 1
    pub kinds_one : kinds ctx' ≡ kinds ctx + 1
    pub memory : Remembered s ctx ctx'
    pub nhandles : ctx'.net.nhandles ≡ ctx.net.nhandles
    pub contains_json_is_set : ctx'.contains_json_is_set ≡ ctx.contains_json_is_set
    pub tupdesc : ctx'.tupdesc ≡ ctx.tupdesc

module _ (c : Curl) where
  appended-wire :
      (s : Session) (ctx ctx' : BulkContext c) (str : Text)
      → Prologued s ctx ctx'
      → wire (append_current c str ctx') ≡ wire ctx ++ (mark_text s ctx ++ str)
  appended-wire s ctx ctx' str p =
      append_current-wire str ctx'
      ∙ (ap (λ t. t ++ str) p.same_wire ∙ append_assoc (wire ctx) (mark_text s ctx) str)

  applied :
      (s : Session) (op : RowOp) (ctx ctx' : BulkContext c) (str : Text) (a b d v : ℕ)
      → Prologued s ctx ctx'
      → str ≡ op_text ctx.contains_json op
      → a + b + d + v ≡ kinds ctx' + 1
      → Applied s op ctx (record (append_current c str ctx') {
        nindex = a;
        nupdate = b;
        ndelete = d;
        nvacuum = v;
        nrows = ctx'.nrows + 1;
        ntotal = ctx'.ntotal + 1;
      })
  unfolding append_current wire
  applied s op ctx ctx' str a b d v p e sum = record {
    well = record { own = append_current-Own str ctx' p.well.own; few = omega (arith, p.room) };
    same_wire = appended-wire s ctx ctx' str p ∙ ap (λ t. wire ctx ++ (mark_text s ctx ++ t)) e;
    contains_json = p.book.contains_json;
    ntotal = omega (arith, p.book.ntotal);
    kinds_one = omega (arith, sum, p.book.nindex, p.book.nupdate, p.book.ndelete, p.book.nvacuum);
    memory = record { last_used_xid = p.memory.last_used_xid; used_xids = p.memory.used_xids };
    nhandles = p.book.nhandles;
    contains_json_is_set = p.book.contains_json_is_set;
    tupdesc = p.book.tupdesc;
  }

  -- The flag of a delete goes into the URL alone.
  waiting-Prologued :
      (s : Session) (ctx ctx' : BulkContext c)
      → Prologued s (record ctx { wait_for_active_shards = true }) ctx'
      → Prologued s ctx ctx'
  unfolding wire mark_text is_known_xid
  waiting-Prologued s ctx ctx' p = record {
    well = p.well;
    room = p.room;
    same_wire = p.same_wire;
    book = record {
      contains_json = p.book.contains_json;
      ntotal = p.book.ntotal;
      nindex = p.book.nindex;
      nupdate = p.book.nupdate;
      ndelete = p.book.ndelete;
      nvacuum = p.book.nvacuum;
      nhandles = p.book.nhandles;
      contains_json_is_set = p.book.contains_json_is_set;
      tupdesc = p.book.tupdesc;
    };
    memory = record { last_used_xid = p.memory.last_used_xid; used_xids = p.memory.used_xids };
  }

  insert-Applied :
      (s : Session) (ctid : Option ItemPointer) (json : Text) (cmin cmax xmin xmax : ℕ)
      (ctx : BulkContext c)
      → IsWell ctx
      → WhenOk
          (Applied s (insert ctid json cmin cmax xmin xmax) ctx)
          (bulk_insert_row c s ctid json cmin cmax xmin xmax ctx)
  unfolding bulk_insert_row op_text row_or_empty
  insert-Applied s ctid json cmin cmax xmin xmax ctx w =
      WhenOk-bind (bulk_prologue-Prologued c s ctx w) λ ctx' p.
        go ctx' p (row_json ctx'.contains_json json)
          (ap (λ b. row_json b json) p.book.contains_json)
    where
      text : Text → Text
      text row = index_action ctid ++ (row ++ row_columns ctid cmin cmax xmin xmax)

      go :
          (ctx' : BulkContext c)
          → Prologued s ctx ctx'
          → (r : Outcome Text) → r ≡ row_json ctx.contains_json json
          → WhenOk (Applied s (insert ctid json cmin cmax xmin xmax) ctx) (
              r >>= λ row.
              let done = append_current c (text row) ctx' in
              ok (bulk_epilogue c (record done { nindex = done.nindex + 1 })))
      go ctx' p (ok row) e = returned (
          applied s (insert ctid json cmin cmax xmin xmax) ctx ctx' (text row) (ctx'.nindex + 1)
            ctx'.nupdate ctx'.ndelete ctx'.nvacuum p (ap (λ r. text (row_or_empty r)) e)
            (omega arith))
      go ctx' p (error x) e = raised
      go ctx' p fault e = faulted
      go ctx' p hang e = hung

  -- A row operation on a well-formed context, if it returns, hands over exactly its own action,
  -- behind the mark if the transaction is new. It counts one row, of one kind, and the context
  -- stays well formed.
  pub apply_op-Applied :
      (s : Session) (op : RowOp) (ctx : BulkContext c)
      → IsWell ctx
      → WhenOk (Applied s op ctx) (apply_op c s op ctx)
  unfolding apply_op op_text
  apply_op-Applied s (insert ctid json cmin cmax xmin xmax) ctx w =
      insert-Applied s ctid json cmin cmax xmin xmax ctx w
  apply_op-Applied s (update ctid llapi_id cmax xmax) ctx w =
      WhenOk-bind (bulk_prologue-Prologued c s ctx w) λ ctx' p. returned (
        applied s (update ctid llapi_id cmax xmax) ctx ctx' _ ctx'.nindex (ctx'.nupdate + 1)
          ctx'.ndelete ctx'.nvacuum p refl (omega arith))
  apply_op-Applied s (vacuum doc xmax) ctx w =
      WhenOk-bind (bulk_prologue-Prologued c s ctx w) λ ctx' p. returned (
        applied s (vacuum doc xmax) ctx ctx' _ ctx'.nindex ctx'.nupdate ctx'.ndelete
          (ctx'.nvacuum + 1) p refl (omega arith))
  apply_op-Applied s (delete_by_xmin doc xmin) ctx w =
      WhenOk-bind
        (bulk_prologue-Prologued c s (record ctx { wait_for_active_shards = true })
          (record { own = w.own; few = w.few }))
        λ ctx' p. returned (
          applied s (delete_by_xmin doc xmin) ctx ctx' _ ctx'.nindex ctx'.nupdate (ctx'.ndelete + 1)
            ctx'.nvacuum (waiting-Prologued s ctx ctx' p) refl (omega arith))
  apply_op-Applied s (delete_by_xmax doc xmax) ctx w =
      WhenOk-bind
        (bulk_prologue-Prologued c s (record ctx { wait_for_active_shards = true })
          (record { own = w.own; few = w.few }))
        λ ctx' p. returned (
          applied s (delete_by_xmax doc xmax) ctx ctx' _ ctx'.nindex ctx'.nupdate (ctx'.ndelete + 1)
            ctx'.nvacuum (waiting-Prologued s ctx ctx' p) refl (omega arith))
