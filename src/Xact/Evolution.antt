-- ===== src/Xact/Evolution.antt =====
-- What the events of a transaction make of each index's context.
use Prim.Native.String.{String}
use zombodb.Prelude.{
  Bool, Bool-cases, List, Option, Outcome, WhenOk, WhenOk-bind, WhenOk-mono, [], ap, append-nil,
  append_assoc, arith, error, false, if◌then◌else◌, inl, inr, none, not, raised, refl, returned,
  some, some-injective, subst, sym, true, ℕ, ◌++◌, ◌==◌, ◌∙◌, ◌∷◌, ◌≡◌,
}
use zombodb.Bulk.{BulkContext}
use zombodb.Bulk.Batches.{RowOp, apply_op, insert, update}
use zombodb.Bulk.Rows.{has_json, invalid_command_id, invalid_xid}
use zombodb.Bulk.Runs.{Ran, Ran-cons, Ran-nil}
use zombodb.Bulk.Start.{Started}
use zombodb.Curl.{Curl}
use zombodb.Index.{IndexOptions, Session}
use zombodb.Text.{Text}
use zombodb.Xact.{
  XactState, aminsert, handle_trigger, index_record, llapi_direct_delete, llapi_direct_insert,
  subxact_abort,
}
use zombodb.Xact.Contexts.{AreReady, IsReady, Started-IsReady, lookup}
use zombodb.Xact.Events.{
  Event, aborted_of, add_op, direct_delete, direct_insert, event_op, happen, has_json_at,
  has_json_of, inserted, ops_of, run_events, sub_aborted, triggered,
}
use zombodb.Xact.Writes.{Applied-IsReady, Touched, Written, began, on_index-Written, went_on}

module _ {c : Curl} where
  -- An event's effect on the contexts.
  pub data Did (st st' : XactState c)
      : Option (IndexOptions × (Session × RowOp)) → List ℕ → Type 0 where
    no_write :
        (aborted : List ℕ)
        → ((q : ℕ) → lookup q st'.insert_contexts ≡ lookup q st.insert_contexts)
        → st'.aborted_xids ≡ st.aborted_xids ++ aborted
        → Did st st' none aborted
    wrote :
        (rel : IndexOptions) (s : Session) (op : RowOp)
        → Written rel s op st st'
        → Did st st' (some (rel, (s, op))) []

  -- An index's context before a run of its row operations and after it. Without one before it, the
  -- first of them started one.
  pub data Evolved (json : Bool)
      : List (Session × RowOp) → Option (BulkContext c) → Option (BulkContext c) → Type 0 where
    untouched : Evolved json [] none none
    started :
        (ops : List (Session × RowOp)) (rel : IndexOptions) (name : Text) (ctx ctx' : BulkContext c)
        → has_json (some rel.tupdesc) ≡ json
        → Started c rel name (some rel.tupdesc) ctx
        → Ran c ops ctx ctx'
        → Evolved json ops none (some ctx')
    kept :
        (ops : List (Session × RowOp)) (ctx ctx' : BulkContext c)
        → Ran c ops ctx ctx'
        → Evolved json ops (some ctx) (some ctx')

  pub record Evolution (es : List Event) (st st' : XactState c) : Type 0 where
    pub ready : AreReady st'.insert_contexts
    pub evolved :
        (q : ℕ)
        → Evolved
            (has_json_of q es)
            (ops_of q es)
            (lookup q st.insert_contexts)
            (lookup q st'.insert_contexts)
    pub aborted_xids : st'.aborted_xids ≡ st.aborted_xids ++ aborted_of es

module _ (c : Curl) where
  refused_or_wrote :
      (b : Bool) (e : String) (rel : IndexOptions) (s : Session) (op : RowOp) (st : XactState c)
      (m : Outcome (XactState c))
      → WhenOk (Written rel s op st) m
      → WhenOk (λ st'. Did st st' (some (rel, (s, op))) []) (if b then error e else m)
  refused_or_wrote true e rel s op st m w = raised
  refused_or_wrote false e rel s op st m w = WhenOk-mono w λ st' x. wrote rel s op x

  happen-Did :
      (e : Event) (st : XactState c)
      → AreReady st.insert_contexts
      → WhenOk (λ st'. Did st st' (event_op e) (aborted_of (e ∷ []))) (happen c e st)
  unfolding happen event_op aborted_of aminsert handle_trigger llapi_direct_insert
      llapi_direct_delete subxact_abort index_record apply_op
  happen-Did (inserted rel s cid none row ctid) st r = elim (Bool-cases rel.llapi) [
    | inl e ↦ rw e raised
    | inr e ↦ rw e raised
  ]
  happen-Did (inserted rel s cid (some x) none ctid) st r = elim (Bool-cases rel.llapi) [
    | inl e ↦ rw e raised
    | inr e ↦ rw e raised
  ]
  happen-Did (inserted rel s cid (some x) (some json) ctid) st r =
      refused_or_wrote rel.llapi _ rel s _ st _ (on_index-Written c rel s _ st r)
  happen-Did (triggered rel s cid ctid) st r =
      WhenOk-mono (on_index-Written c rel s (update (some ctid) [] cid _) st r)
        λ st' x. wrote rel s _ x
  happen-Did (direct_insert rel s cid json) st r =
      refused_or_wrote (not rel.llapi) _ rel s _ st _
        (on_index-Written c rel s (insert none json cid invalid_command_id _ invalid_xid) st r)
  happen-Did (direct_delete rel s cid id) st r =
      refused_or_wrote (not rel.llapi) _ rel s _ st _
        (on_index-Written c rel s (update none id cid _) st r)
  happen-Did (sub_aborted xid) st r = elim (Bool-cases (xid == invalid_xid)) [
    | inl e ↦ rw e (returned (no_write [] (λ q. refl) (sym (append-nil st.aborted_xids))))
    | inr e ↦ rw e (returned (no_write (xid ∷ []) (λ q. refl) refl))
  ]

  Touched-IsReady :
      (rel : IndexOptions) (s : Session) (op : RowOp) (ctx' : BulkContext c)
      (before after : Option (BulkContext c))
      → Touched rel s op before after
      → after ≡ some ctx'
      → IsReady ctx'
  Touched-IsReady rel s op ctx' before after (began ctx ctx'' name st a) e =
      subst IsReady (some-injective e) (Applied-IsReady c s op ctx ctx'' (Started-IsReady st) a)
  Touched-IsReady rel s op ctx' before after (went_on ctx ctx'' r a) e =
      subst IsReady (some-injective e) (Applied-IsReady c s op ctx ctx'' r a)

  Did-AreReady :
      (st st' : XactState c) (o : Option (IndexOptions × (Session × RowOp))) (aborted : List ℕ)
      → Did st st' o aborted
      → AreReady st.insert_contexts
      → AreReady st'.insert_contexts
  unfolding AreReady
  Did-AreReady st st' o aborted (no_write xs same e) ready =
      λ q ctx at. ready q ctx (sym (same q) ∙ at)
  Did-AreReady st st' o aborted (wrote rel s op w) ready = λ q ctx at.
      elim (Bool-cases (rel.relid == q)) [
        | inl e ↦
            let here : lookup rel.relid st'.insert_contexts ≡ some ctx =
              ap (λ k. lookup k st'.insert_contexts) (ground (arith, e)) ∙ at in
            Touched-IsReady rel s op ctx _ _ w.own here
        | inr e ↦ ready q ctx (sym (w.others q e) ∙ at)
      ]

  aborted_of-cons :
      (e : Event) (es : List Event) → aborted_of (e ∷ es) ≡ aborted_of (e ∷ []) ++ aborted_of es
  unfolding aborted_of
  aborted_of-cons (inserted rel s cid x row ctid) es = refl
  aborted_of-cons (triggered rel s cid ctid) es = refl
  aborted_of-cons (direct_insert rel s cid json) es = refl
  aborted_of-cons (direct_delete rel s cid id) es = refl
  aborted_of-cons (sub_aborted xid) es = elim (Bool-cases (xid == invalid_xid)) [
    | inl e ↦ rw e refl
    | inr e ↦ rw e refl
  ]

  Did-aborted :
      (st st' : XactState c) (o : Option (IndexOptions × (Session × RowOp))) (aborted : List ℕ)
      → Did st st' o aborted
      → st'.aborted_xids ≡ st.aborted_xids ++ aborted
  Did-aborted st st' o aborted (no_write xs same e) = e
  Did-aborted st st' o aborted (wrote rel s op w) =
      w.same.aborted_xids ∙ sym (append-nil st.aborted_xids)

  Touched-Evolved :
      (json : Bool) (rel : IndexOptions) (s : Session) (op : RowOp) (ops : List (Session × RowOp))
      (before between after : Option (BulkContext c))
      → Touched rel s op before between
      → Evolved json ops between after
      → Evolved (has_json (some rel.tupdesc)) ((s, op) ∷ ops) before after
  Touched-Evolved json rel s op ops before between after (began ctx ctx' name st a)
        (kept _ _ ctx'' r) =
      started ((s, op) ∷ ops) rel name ctx ctx'' refl st (Ran-cons c s op ops ctx ctx' ctx'' a r)
  Touched-Evolved json rel s op ops before between after (went_on ctx ctx' ready a)
        (kept _ _ ctx'' r) =
      kept ((s, op) ∷ ops) ctx ctx'' (Ran-cons c s op ops ctx ctx' ctx'' a r)

  Evolved-refl :
      (json : Bool) (o : Option (BulkContext c))
      → ((ctx : BulkContext c) → o ≡ some ctx → IsReady ctx)
      → Evolved json [] o o
  Evolved-refl json none ready = untouched
  Evolved-refl json (some ctx) ready = kept [] ctx ctx (Ran-nil c ctx (ready ctx refl).well)

  Did-Evolved :
      (q : ℕ) (e : Event) (es : List Event) (st st1 st2 : XactState c)
      (o : Option (IndexOptions × (Session × RowOp))) (aborted : List ℕ)
      → event_op e ≡ o
      → Did st st1 o aborted
      → Evolved
          (has_json_of q es)
          (ops_of q es)
          (lookup q st1.insert_contexts)
          (lookup q st2.insert_contexts)
      → Evolved
          (has_json_of q (e ∷ es))
          (ops_of q (e ∷ es))
          (lookup q st.insert_contexts)
          (lookup q st2.insert_contexts)
  unfolding has_json_of ops_of has_json_at add_op
  Did-Evolved q e es st st1 st2 o aborted at (no_write xs same a) later =
      rw (at, sym (same q)) later
  Did-Evolved q e es st st1 st2 o aborted at (wrote rel s op w) later =
      elim (Bool-cases (rel.relid == q)) [
        | inl here ↦
            let own : Touched rel s op (lookup q st.insert_contexts)
                (lookup q st1.insert_contexts) =
              subst
                (λ k. Touched rel s op (lookup k st.insert_contexts) (lookup k st1.insert_contexts))
                (ground (arith, here)) w.own in
            rw (at, here) (Touched-Evolved _ rel s op _ _ _ _ own later)
        | inr there ↦ rw (at, there, sym (w.others q there)) later
      ]

  -- The writes and the aborted subtransactions of a transaction, in any order and on any indices, if
  -- they return: each index's context holds, in order, the actions of that index's row operations
  -- and no others, with the marks of their transactions. An index gets a context at its first row
  -- operation. The ids of the subtransactions that aborted are collected in order.
  pub run_events-Evolution :
      (es : List Event) (st : XactState c)
      → AreReady st.insert_contexts
      → WhenOk (Evolution es st) (run_events c es st)
  unfolding run_events AreReady has_json_of ops_of aborted_of
  run_events-Evolution [] st ready = returned (record {
    ready = ready;
    evolved = λ q. Evolved-refl _ _ (λ ctx at. ready q ctx at);
    aborted_xids = sym (append-nil st.aborted_xids);
  })
  run_events-Evolution (e ∷ es) st ready = WhenOk-bind (happen-Did e st ready) λ st1 d.
      WhenOk-mono (run_events-Evolution es st1 (Did-AreReady st st1 _ _ d ready)) λ st2 v. record {
        ready = v.ready;
        evolved = λ q. Did-Evolved q e es st st1 st2 _ _ refl d (v.evolved q);
        aborted_xids =
            v.aborted_xids
            ∙ (ap (λ t. t ++ aborted_of es) (Did-aborted st st1 _ _ d)
                ∙ (append_assoc st.aborted_xids (aborted_of (e ∷ [])) (aborted_of es)
                    ∙ ap (λ t. st.aborted_xids ++ t) (sym (aborted_of-cons e es))));
      }
