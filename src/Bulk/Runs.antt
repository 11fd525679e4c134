-- ===== src/Bulk/Runs.antt =====
-- Runs of row operations.
use zombodb.Prelude.{
  Bool-cases, List, WhenOk, WhenOk-bind, WhenOk-mono, [], ap, append-nil, append_assoc, arith, inl,
  inr, length, refl, returned, sym, ◌++◌, ◌+◌, ◌==◌, ◌||◌, ◌∙◌, ◌∷◌, ◌≡◌,
}
use zombodb.Bulk.{BulkContext, is_known_xid, list_member_int}
use zombodb.Bulk.Batches.{
  Applied, RowOp, apply_op-Applied, expected, is_known, kinds, op_text, remembered, run_ops,
}
use zombodb.Bulk.Ownership.{IsWell, mark_text, wire}
use zombodb.Curl.{Curl}
use zombodb.Index.{Session}

module _ (c : Curl) where
  -- What a run comes to, in terms of the context that it starts from.
  pub record Ran (ops : List (Session × RowOp)) (ctx ctx' : BulkContext c) : Type 0 where
    pub well : IsWell ctx'
    pub same_wire :
        wire ctx' ≡ wire ctx ++ expected ctx.contains_json ctx.last_used_xid ctx.used_xids ops
    pub ntotal : ctx'.ntotal ≡ ctx.ntotal + length ops
    pub all_kinds : kinds ctx' ≡ kinds ctx + length ops
    pub nhandles : ctx'.net.nhandles ≡ ctx.net.nhandles
    pub used_xids : ctx'.used_xids ≡ remembered ctx.last_used_xid ctx.used_xids ops

module _ (c : Curl) where
  expected-cons :
      (s : Session) (op : RowOp) (ops : List (Session × RowOp)) (ctx ctx' : BulkContext c)
      → Applied s op ctx ctx'
      → expected ctx.contains_json ctx.last_used_xid ctx.used_xids ((s, op) ∷ ops)
        ≡ (mark_text s ctx ++ op_text ctx.contains_json op)
          ++ expected ctx'.contains_json ctx'.last_used_xid ctx'.used_xids ops
  unfolding expected mark_text is_known is_known_xid
  expected-cons s op ops ctx ctx' a =
      elim (Bool-cases
        (ctx.last_used_xid == s.curr_xid || list_member_int s.curr_xid ctx.used_xids)) [
          | inl e ↦ rw (a.contains_json, a.memory.last_used_xid, a.memory.used_xids, e) refl
          | inr e ↦
              rw (a.contains_json, a.memory.last_used_xid, a.memory.used_xids, e)
                (sym (append_assoc _ (op_text ctx.contains_json op) _))
        ]

  remembered-cons :
      (s : Session) (op : RowOp) (ops : List (Session × RowOp)) (ctx ctx' : BulkContext c)
      → Applied s op ctx ctx'
      → remembered ctx.last_used_xid ctx.used_xids ((s, op) ∷ ops)
        ≡ remembered ctx'.last_used_xid ctx'.used_xids ops
  unfolding remembered is_known is_known_xid
  remembered-cons s op ops ctx ctx' a =
      elim (Bool-cases
        (ctx.last_used_xid == s.curr_xid || list_member_int s.curr_xid ctx.used_xids)) [
          | inl e ↦ rw (a.memory.last_used_xid, a.memory.used_xids, e) refl
          | inr e ↦ rw (a.memory.last_used_xid, a.memory.used_xids, e) refl
        ]

  pub Ran-nil : (ctx : BulkContext c) → IsWell ctx → Ran c [] ctx ctx
  Ran-nil ctx w = record {
    well = w;
    same_wire = unfold expected in sym (append-nil (wire ctx));
    ntotal = omega arith;
    all_kinds = omega arith;
    nhandles = refl;
    used_xids = unfold remembered in refl;
  }

  pub Ran-cons :
      (s : Session) (op : RowOp) (ops : List (Session × RowOp)) (ctx ctx' ctx'' : BulkContext c)
      → Applied s op ctx ctx'
      → Ran c ops ctx' ctx''
      → Ran c ((s, op) ∷ ops) ctx ctx''
  Ran-cons s op ops ctx ctx' ctx'' a r = record {
    well = r.well;
    same_wire =
        r.same_wire
        ∙ (ap (λ t. t ++ expected ctx'.contains_json ctx'.last_used_xid ctx'.used_xids ops)
              a.same_wire
            ∙ (append_assoc (wire ctx) (mark_text s ctx ++ op_text ctx.contains_json op)
                  (expected ctx'.contains_json ctx'.last_used_xid ctx'.used_xids ops)
                ∙ ap (λ t. wire ctx ++ t) (sym (expected-cons s op ops ctx ctx' a))));
    ntotal = omega (arith, r.ntotal, a.ntotal);
    all_kinds = omega (arith, r.all_kinds, a.kinds_one);
    nhandles = r.nhandles ∙ a.nhandles;
    used_xids = r.used_xids ∙ sym (remembered-cons s op ops ctx ctx' a);
  }

  -- From a well-formed context, whatever the batch size, the pool and the concurrency, and
  -- whenever requests go out: if a run of row operations returns, the requests sent and the
  -- current buffer hold, in order, each operation's action once and each new transaction's mark
  -- once, before its first row. Every operation is counted, and the context stays well formed.
  pub run_ops-Ran :
      (ops : List (Session × RowOp)) (ctx : BulkContext c)
      → IsWell ctx
      → WhenOk (Ran c ops ctx) (run_ops c ops ctx)
  unfolding run_ops
  run_ops-Ran [] ctx w = returned (Ran-nil ctx w)
  run_ops-Ran ((s, op) ∷ ops) ctx w = WhenOk-bind (apply_op-Applied c s op ctx w) λ ctx' a.
      WhenOk-mono (run_ops-Ran ops ctx' a.well) λ ctx'' r. Ran-cons s op ops ctx ctx' ctx'' a r
