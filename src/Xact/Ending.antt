-- ===== src/Xact/Ending.antt =====
-- The end of a transaction: every index's context is finished, and what has gone out to it.
use zombodb.Prelude.{
  Bool, Bool-cases, List, Option, WhenOk, WhenOk-bind, WhenOk-each, WhenOk-mono, [], any_outcome,
  ap, ap₂, inl, inr, none, refl, returned, some, subst, true, ℕ, ◌++◌, ◌==◌, ◌>>=◌, ◌∙◌, ◌∷◌, ◌≡◌,
}
use zombodb.Bulk.{BulkContext}
use zombodb.Bulk.Batches.{RowOp, expected, remembered}
use zombodb.Bulk.Commit.{bulk_finish-bodies}
use zombodb.Bulk.Finish.{bulk_finish}
use zombodb.Bulk.Ownership.{IsWell, wire}
use zombodb.Bulk.Sends.{commit_marks}
use zombodb.Curl.{Curl, Net}
use zombodb.Index.{Session}
use zombodb.Rest.Sent.{bodies}
use zombodb.Xact.{
  IndexChange, XactState, before_end, delete_xids, drop_indices, enter, finish_contexts,
  finish_inserts, leave, pre_commit, xact_commit_callback,
}
use zombodb.Xact.Contexts.{AreReady, enter-IsWell, lookup}
use zombodb.Xact.Events.{Event, aborted_of, has_json_of, ops_of, run_events}
use zombodb.Xact.Evolution.{Evolved, run_events-Evolution, started, untouched}

module _ {c : Curl} where
  -- An index's context before the commit and after it.
  pub data Finished (s : Session) (aborted : List ℕ)
      : Option (BulkContext c) → Option (BulkContext c) → Type 0 where
    absent : Finished s aborted none none
    finished :
        (ctx ctx' : BulkContext c)
        → bodies ctx'.net.sent ≡ wire ctx ++ commit_marks s (delete_xids ctx.used_xids aborted)
        → Finished s aborted (some ctx) (some ctx')

  -- What has gone out to an index when the transaction is committed: nothing, without a row
  -- operation on it, or else all of it.
  pub data Delivered (json : Bool) (ops : List (Session × RowOp)) (s : Session) (aborted : List ℕ)
      : Option (BulkContext c) → Type 0 where
    silent : ops ≡ [] → Delivered json ops s aborted none
    delivered :
        (ctx : BulkContext c)
        → bodies ctx.net.sent
          ≡ expected json 0 [] ops ++ commit_marks s (delete_xids (remembered 0 [] ops) aborted)
        → Delivered json ops s aborted (some ctx)

module _ (c : Curl) where
  cleared-bodies :
      (s : Session) (n : Net c) (xids : List ℕ) (ctx : BulkContext c)
      → IsWell ctx
      → WhenOk
          (λ ctx'. bodies ctx'.net.sent ≡ wire ctx ++ commit_marks s xids)
          (bulk_finish c s true (enter c n (record ctx { used_xids = xids })))
  unfolding wire enter
  cleared-bodies s n xids ctx w =
      bulk_finish-bodies c s _ (enter-IsWell c n _ (record { own = w.own; few = w.few }))

  finish_contexts-Finished :
      (s : Session) (aborted : List ℕ) (q : ℕ) (xs : List (IndexChange c)) (n : Net c)
      → ((ctx : BulkContext c) → lookup q xs ≡ some ctx → IsWell ctx)
      → WhenOk
          (λ r. Finished s aborted (lookup q xs) (lookup q r.0))
          (finish_contexts c s true aborted xs n)
  unfolding finish_contexts lookup
  finish_contexts-Finished s aborted q [] n well = returned absent
  finish_contexts-Finished s aborted q (x ∷ xs) n well = elim (Bool-cases (x.index_relid == q)) [
    | inl e ↦
        WhenOk-bind
          (cleared-bodies s n (delete_xids x.es.used_xids aborted) x.es (well x.es (rw e refl)))
          λ es sent.
            WhenOk-bind (any_outcome (finish_contexts c s true aborted xs (leave c n es)))
              λ r u. returned (rw e (finished x.es es sent))
    | inr e ↦
        WhenOk-bind
          (any_outcome (
            bulk_finish c s true
              (enter c n (record x.es { used_xids = delete_xids x.es.used_xids aborted }))))
          λ es u.
            WhenOk-bind
              (finish_contexts-Finished s aborted q xs (leave c n es)
                (λ ctx at. well ctx (rw e at)))
              λ r f. returned {a = (record x { es = es } ∷ r.0, r.1)} (rw e f)
  ]

  pub before_end-Finished :
      (s : Session) (st : XactState c)
      → AreReady st.insert_contexts
      → WhenOk
          (λ st'.
            (q : ℕ)
            → Finished s st.aborted_xids
                (lookup q st.insert_contexts)
                (lookup q st'.insert_contexts))
          (before_end c s st)
  unfolding before_end finish_inserts AreReady
  before_end-Finished s st ready = WhenOk-each λ q.
      WhenOk-bind
        {Q = λ st'.
          Finished s st.aborted_xids (lookup q st.insert_contexts) (lookup q st'.insert_contexts)}
        (WhenOk-bind
          (finish_contexts-Finished s st.aborted_xids q st.insert_contexts st.rest
            (λ ctx at. (ready q ctx at).well))
          λ r f. returned f)
        λ st' f. WhenOk-bind (any_outcome (drop_indices c st'.to_drop st'.rest)) λ n u. returned f

  Evolved-Delivered :
      (json : Bool) (ops : List (Session × RowOp)) (s : Session) (aborted : List ℕ)
      (between after : Option (BulkContext c))
      → Evolved json ops none between
      → Finished s aborted between after
      → Delivered json ops s aborted after
  Evolved-Delivered json ops s aborted between after untouched absent = silent refl
  Evolved-Delivered json ops s aborted between after (started _ rel name ctx ctx' at st r)
        (finished _ ctx'' e) =
      delivered ctx'' (
        e
        ∙ ap₂ (λ a b. a ++ commit_marks s (delete_xids b aborted))
            (rw (r.same_wire, st.nothing, st.contains_json, st.last_used_xid, st.no_rows.2, at)
              refl)
            (rw (r.used_xids, st.last_used_xid, st.no_rows.2) refl))

  -- A transaction of any writes, on any indices, and of aborted subtransactions, that starts with no
  -- contexts and no aborted ids: if it reaches its commit and that returns, each index has been
  -- sent exactly the actions of its own row operations, in order, with the marks of their
  -- transactions, and at the end the mark that each transaction id that wrote to it is committed, but
  -- for those of aborted subtransactions. An index without row operations has been sent nothing.
  pub pre_commit-Delivered :
      (es : List Event) (s : Session) (st : XactState c)
      → st.insert_contexts ≡ []
      → st.aborted_xids ≡ []
      → WhenOk
          (λ st'.
            (q : ℕ)
            → Delivered
                (has_json_of q es)
                (ops_of q es)
                s
                (aborted_of es)
                (lookup q st'.insert_contexts))
          (run_events c es st >>= xact_commit_callback c s pre_commit)
  unfolding xact_commit_callback AreReady lookup
  pre_commit-Delivered es s st no_contexts no_aborted =
      WhenOk-bind (run_events-Evolution c es st ready) λ st1 v.
        WhenOk-mono (before_end-Finished s st1 v.ready) λ st2 f q.
          Evolved-Delivered _ _ s (aborted_of es) _ _
            (subst
              (λ xs.
                Evolved (has_json_of q es) (ops_of q es) (lookup q xs)
                  (lookup q st1.insert_contexts))
              no_contexts (v.evolved q))
            (subst
              (λ xs. Finished s xs (lookup q st1.insert_contexts) (lookup q st2.insert_contexts))
              (aborted st1 v.aborted_xids) (f q))
    where
      ready : AreReady st.insert_contexts
      ready = λ q ctx at. cc (ap (lookup q) no_contexts, at)

      aborted :
          (st1 : XactState c)
          → st1.aborted_xids ≡ st.aborted_xids ++ aborted_of es
          → st1.aborted_xids ≡ aborted_of es
      aborted st1 e = e ∙ ap (λ xs. xs ++ aborted_of es) no_aborted
