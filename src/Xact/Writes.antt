-- ===== src/Xact/Writes.antt =====
-- A row operation of a transaction on an index: what it makes of the contexts.
use zombodb.Prelude.{
  List, Option, WhenOk, WhenOk-bind, WhenOk-mono, ap, false, none, refl, returned, some,
  some-injective, subst, sym, ℕ, ◌==◌, ◌∙◌, ◌≡◌,
}
use zombodb.Bulk.{BulkContext, is_known_xid}
use zombodb.Bulk.Batches.{Applied, RowOp, apply_op, apply_op-Applied}
use zombodb.Bulk.Ownership.{IsWell, mark_text, wire}
use zombodb.Bulk.Rows.{is_set}
use zombodb.Bulk.Start.{Started}
use zombodb.Curl.{Curl, Net}
use zombodb.Index.{IndexOptions, Session}
use zombodb.Text.{Text}
use zombodb.Xact.{IndexChange, XactState, enter, on_index}
use zombodb.Xact.Contexts.{
  AreReady, ContextOut, IsReady, checkout_insert_context-ContextOut, enter-IsWell, had_context,
  lookup, new_context_begun, on_context-Changed,
}

module _ {c : Curl} where
  -- The index's context before a write and after it.
  pub data Touched (rel : IndexOptions) (s : Session) (op : RowOp)
      : Option (BulkContext c) → Option (BulkContext c) → Type 0 where
    began :
        (ctx ctx' : BulkContext c) (name : Text)
        → Started c rel name (some rel.tupdesc) ctx
        → Applied s op ctx ctx'
        → Touched rel s op none (some ctx')
    went_on :
        (ctx ctx' : BulkContext c)
        → IsReady ctx
        → Applied s op ctx ctx'
        → Touched rel s op (some ctx) (some ctx')

  -- What a write leaves alone.
  pub record SameXact (st st' : XactState c) : Type 0 where
    pub to_drop : st'.to_drop ≡ st.to_drop
    pub created_indices_urls : st'.created_indices_urls ≡ st.created_indices_urls
    pub aborted_xids : st'.aborted_xids ≡ st.aborted_xids
    pub executor_depth : st'.executor_depth ≡ st.executor_depth
    pub query_stack : st'.query_stack ≡ st.query_stack

  pub record Written (rel : IndexOptions) (s : Session) (op : RowOp) (st st' : XactState c)
      : Type 0 where
    pub own :
        Touched rel s op
          (lookup rel.relid st.insert_contexts)
          (lookup rel.relid st'.insert_contexts)
    pub others :
        (q : ℕ)
        → (rel.relid == q) ≡ false
        → lookup q st'.insert_contexts ≡ lookup q st.insert_contexts
    pub same : SameXact st st'

module _ (c : Curl) where
  pub Applied-IsReady :
      (s : Session) (op : RowOp) (ctx ctx' : BulkContext c)
      → IsReady ctx
      → Applied s op ctx ctx'
      → IsReady ctx'
  Applied-IsReady s op ctx ctx' r a = record {
    well = a.well;
    has_tupdesc = ap is_set a.tupdesc ∙ r.has_tupdesc;
    json_known = a.contains_json_is_set ∙ r.json_known;
  }

  pub Applied-enter :
      (s : Session) (op : RowOp) (n : Net c) (ctx ctx' : BulkContext c)
      → Applied s op (enter c n ctx) ctx'
      → Applied s op ctx ctx'
  unfolding enter wire mark_text is_known_xid
  Applied-enter s op n ctx ctx' a = record {
    well = a.well;
    same_wire = a.same_wire;
    contains_json = a.contains_json;
    ntotal = a.ntotal;
    kinds_one = a.kinds_one;
    memory = record { last_used_xid = a.memory.last_used_xid; used_xids = a.memory.used_xids };
    nhandles = a.nhandles;
    contains_json_is_set = a.contains_json_is_set;
    tupdesc = a.tupdesc;
  }

  Touched-after :
      (rel : IndexOptions) (s : Session) (op : RowOp) (xs ys : List (IndexChange c))
      → ContextOut rel xs ys
      → (before after : BulkContext c) → lookup rel.relid ys ≡ some before
      → AreReady xs
      → Applied s op before after
      → Touched rel s op (lookup rel.relid xs) (some after)
  unfolding AreReady
  Touched-after rel s op xs ys (had_context ctx n at at' others) before after now ready a =
      let same : enter c n ctx ≡ before = some-injective (sym at' ∙ now) in
      rw at (
        went_on ctx after (ready rel.relid ctx at)
          (Applied-enter s op n ctx after (subst (λ x. Applied s op x after) (sym same) a)))
  Touched-after rel s op xs ys (new_context_begun ctx name at at' st others) before after now ready
        a =
      let same : ctx ≡ before = some-injective (sym at' ∙ now) in
      rw at (began ctx after name st (subst (λ x. Applied s op x after) (sym same) a))

  ContextOut-IsWell :
      (rel : IndexOptions) (xs ys : List (IndexChange c)) (ctx : BulkContext c)
      → ContextOut rel xs ys
      → AreReady xs
      → lookup rel.relid ys ≡ some ctx
      → IsWell ctx
  unfolding AreReady
  ContextOut-IsWell rel xs ys ctx (had_context x n at at' others) ready now =
      subst IsWell (some-injective (sym at' ∙ now)) (enter-IsWell c n x (ready rel.relid x at).well)
  ContextOut-IsWell rel xs ys ctx (new_context_begun x name at at' st others) ready now =
      subst IsWell (some-injective (sym at' ∙ now)) st.well

  ContextOut-others :
      (rel : IndexOptions) (xs ys : List (IndexChange c))
      → ContextOut rel xs ys
      → (q : ℕ) → (rel.relid == q) ≡ false
      → lookup q ys ≡ lookup q xs
  ContextOut-others rel xs ys (had_context x n at at' others) = others
  ContextOut-others rel xs ys (new_context_begun x name at at' st others) = others

  -- A row operation of a transaction, if it returns, has handed over its action to its own index's
  -- context, which is the one the transaction has for it or else a new one, and no other index's
  -- context has changed.
  pub on_index-Written :
      (rel : IndexOptions) (s : Session) (op : RowOp) (st : XactState c)
      → AreReady st.insert_contexts
      → WhenOk (Written rel s op st) (on_index c rel (apply_op c s op) st)
  unfolding on_index
  on_index-Written rel s op st ready =
      WhenOk-bind (checkout_insert_context-ContextOut c rel st.insert_contexts st.rest ready) λ r k.
        WhenOk-bind
          (on_context-Changed c rel.relid (apply_op c s op) (Applied s op) r.0 r.1 (λ ctx at.
            WhenOk-mono
              (apply_op-Applied c s op (enter c r.1 ctx) (
                enter-IsWell c r.1 ctx
                  (ContextOut-IsWell rel st.insert_contexts r.0 ctx k ready at)))
              λ ctx' a. Applied-enter s op r.1 ctx ctx' a))
          λ r' k'. returned (record {
            own = subst (Touched rel s op (lookup rel.relid st.insert_contexts)) (sym k'.after_at) (
                Touched-after rel s op st.insert_contexts r.0 k k'.before k'.after k'.before_at
                  ready k'.change);
            others = λ q ne. k'.others q ne ∙ ContextOut-others rel st.insert_contexts r.0 k q ne;
            same = record {
              to_drop = refl;
              created_indices_urls = refl;
              aborted_xids = refl;
              executor_depth = refl;
              query_stack = refl;
            };
          })
