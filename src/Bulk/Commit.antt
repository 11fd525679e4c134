-- ===== src/Bulk/Commit.antt =====
-- ElasticsearchFinishBulkProcess at a commit: what has gone out when it returns.
use zombodb.Prelude.{
  Bool, Bool-cases, List, Option, Outcome, WhenOk, WhenOk-bind, WhenOk-mono, [], ap, append-nil,
  ap₂, arith, error, false, if◌then◌else◌, inl, inr, ltb, none, not, ok, raised, refl, returned,
  some, sym, true, ℕ, ◌&&◌, ◌++◌, ◌+◌, ◌∙◌, ◌≡◌,
}
use zombodb.Bulk.{BulkContext, current_text}
use zombodb.Bulk.Finish.{
  bulk_finish, is_idle, mark_all_committed, marks_fit, plan_commit, refresh, restart, send_marks,
  send_rest,
}
use zombodb.Bulk.Ownership.{IsWell, wire}
use zombodb.Bulk.Sends.{Marked, Sent, commit_marks, mark_all-Marked, send_rest-Sent, settle-Sent}
use zombodb.Curl.{Curl, Net, PostDataEntry}
use zombodb.Index.{Session}
use zombodb.Rest.{checkout, checkout_batch_pool, max_curl_handles, rest_multi_init}
use zombodb.Rest.Own.{Own}
use zombodb.Rest.Pool.{CheckedOutOr, checkout-CheckedOut}
use zombodb.Rest.Sent.{bodies, rest_call-bodies, rest_call_empty-bodies}
use zombodb.Text.{Text}

module _ (c : Curl) where
  checkout-empty :
      (held : Option PostDataEntry) (n : Net c)
      → Own held n
      → WhenOk (λ r. (r.1.sent ≡ n.sent) × (r.1.buffers r.0.buff ≡ [])) (checkout_batch_pool c n)
  unfolding checkout_batch_pool
  checkout-empty held n o = go (checkout (n.nhandles + 1) 0 n.pool) (
      checkout-CheckedOut (n.nhandles + 1) 0 n.buffers n.pool (omega (arith, o.pool_length))
        o.pool_ok)
    where
      go :
          (r : Option (PostDataEntry × List (Option ℕ)))
          → CheckedOutOr 0 n.buffers n.pool r
          → WhenOk {A = PostDataEntry × Net c}
              (λ r. (r.1.sent ≡ n.sent) × (r.1.buffers r.0.buff ≡ []))
              (elim r [
                | none ↦ error "Unable to checkout from batch pool"
                | some (e, pool') ↦ ok (e, record n { pool = pool' })
              ])
      go none out = raised
      go (some (e, pool)) k = returned (refl, k.empty)

  fresh-wire :
      (ctx : BulkContext c) (r : PostDataEntry × Net c)
      → r.1.sent ≡ ctx.net.sent
      → r.1.buffers r.0.buff ≡ []
      → wire (record ctx { net = r.1; current = r.0 }) ≡ bodies ctx.net.sent
  unfolding wire
  fresh-wire ctx r e empty = rw (e, empty) (append-nil (bodies ctx.net.sent))

  -- The marks in a request of their own, from a fresh buffer.
  pub send_marks-bodies :
      (s : Session) (t : Text) (used : List ℕ) (ctx : BulkContext c)
      → Sent t used ctx
      → WhenOk (λ ctx'. bodies ctx'.net.sent ≡ t ++ commit_marks s used) (send_marks c s ctx)
  unfolding send_marks current_text wire
  send_marks-bodies s t used ctx x = WhenOk-bind (checkout-empty x.held ctx.net x.own) λ r k.
      let fresh : BulkContext c = record ctx { net = r.1; current = r.0 } in
      let m : Marked s ctx.used_xids fresh (mark_all_committed c s ctx.used_xids fresh) =
        mark_all-Marked c s ctx.used_xids fresh in
      WhenOk-bind (rest_call-bodies c _ _ _ _ _) λ net e. returned (
        e
        ∙ (m.same_wire
            ∙ ap₂ (λ a b. a ++ commit_marks s b) (fresh-wire ctx r k.0 k.1 ∙ x.out) x.used_xids))

  recast :
      {t t' : Text} {u u' : List ℕ} (m : Outcome (BulkContext c))
      → t ≡ t'
      → u ≡ u'
      → WhenOk (Sent t u) m
      → WhenOk (Sent t' u') m
  recast m e f x =
      WhenOk-mono x
        λ ctx y. record { out = y.out ∙ e; used_xids = y.used_xids ∙ f; held = y.held; own = y.own }

  plan_commit-Sent :
      (s : Session) (ctx : BulkContext c) (idle fit : Bool)
      → Own (some ctx.current) ctx.net
      → is_idle c ctx ≡ idle
      → marks_fit c ctx ≡ fit
      → WhenOk
          (Sent
            (wire ctx
              ++ (if (plan_commit c s true ctx).1 then commit_marks s ctx.used_xids else []))
            ctx.used_xids)
          (send_rest c s (plan_commit c s true ctx).0)
  unfolding plan_commit wire
  plan_commit-Sent s ctx true true o e f =
      let m : Marked s ctx.used_xids ctx (mark_all_committed c s ctx.used_xids ctx) =
        mark_all-Marked c s ctx.used_xids ctx in
      rw (e, f) (recast _ m.same_wire m.used_xids (send_rest-Sent c s _ (m.own o)))
  plan_commit-Sent s ctx true false o e f =
      rw (e, f)
        (recast _ (sym (append-nil (wire ctx))) refl
          (send_rest-Sent c s (record ctx { nrequests = ctx.nrequests + 1 }) o))
  plan_commit-Sent s ctx false fit o e f =
      rw e (recast _ (sym (append-nil (wire ctx))) refl (send_rest-Sent c s ctx o))

  -- The rest of the marks.
  marks-bodies :
      (s : Session) (t : Text) (used : List ℕ) (did_xids : Bool) (ctx : BulkContext c)
      → Sent (t ++ (if did_xids then commit_marks s used else [])) used ctx
      → WhenOk
          (λ ctx'. bodies ctx'.net.sent ≡ t ++ commit_marks s used)
          (if true && not did_xids then send_marks c s ctx else ok ctx)
  marks-bodies s t used true ctx x = returned x.out
  marks-bodies s t used false ctx x =
      WhenOk-mono (send_marks-bodies s (t ++ []) used ctx x)
        λ ctx' e. e ∙ ap (λ a. a ++ commit_marks s used) (append-nil t)

  refreshed-bodies :
      (b : Bool) (ctx : BulkContext c)
      → WhenOk
          (λ ctx'. bodies ctx'.net.sent ≡ bodies ctx.net.sent)
          (if b then refresh c ctx else ok ctx)
  unfolding refresh
  refreshed-bodies true ctx = WhenOk-bind (rest_call_empty-bodies c _ _ ctx.net) λ net e. returned e
  refreshed-bodies false ctx = returned refl

  -- A commit of a well-formed context, if it returns, has sent everything: the requests' bodies,
  -- in order, are what was handed over before it, then the mark of each transaction that the
  -- context remembers, in the order of first use. It is so whether the marks go into the last
  -- request or into one of their own.
  pub bulk_finish-bodies :
      (s : Session) (ctx : BulkContext c)
      → IsWell ctx
      → WhenOk
          (λ ctx'. bodies ctx'.net.sent ≡ wire ctx ++ commit_marks s ctx.used_xids)
          (bulk_finish c s true ctx)
  unfolding bulk_finish restart
  bulk_finish-bodies s ctx w = WhenOk-bind (plan_commit-Sent s ctx _ _ w.own refl refl) λ ctx1 x1.
      WhenOk-bind (settle-Sent c _ _ ctx1 x1) λ ctx2 x2.
        WhenOk-bind (marks-bodies s (wire ctx) ctx.used_xids (plan_commit c s true ctx).1 ctx2 x2)
          λ ctx3 e. WhenOk-mono (refreshed-bodies _ ctx3) λ ctx4 e'. e' ∙ e

  restart-bodies :
      (ctx : BulkContext c)
      → WhenOk (λ ctx'. bodies ctx'.net.sent ≡ bodies ctx.net.sent) (restart c false ctx)
  unfolding restart rest_multi_init
  restart-bodies ctx = elim (Bool-cases (ltb max_curl_handles ctx.bulk_concurrency)) [
    | inl e ↦ rw e raised
    | inr e ↦ rw e (returned refl)
  ]

  -- A finish in the middle of a transaction, from a well-formed context, has sent everything that
  -- was handed over, and no more, if it returns: no transaction is marked as committed.
  pub bulk_finish-bodies_midway :
      (s : Session) (ctx : BulkContext c)
      → IsWell ctx
      → WhenOk (λ ctx'. bodies ctx'.net.sent ≡ wire ctx) (bulk_finish c s false ctx)
  unfolding bulk_finish plan_commit
  bulk_finish-bodies_midway s ctx w = WhenOk-bind (send_rest-Sent c s ctx w.own) λ ctx1 x1.
      WhenOk-bind (settle-Sent c _ _ ctx1 x1) λ ctx2 x2.
        WhenOk-bind (restart-bodies ctx2)
          λ ctx3 e. WhenOk-mono (refreshed-bodies _ ctx3) λ ctx4 e'. e' ∙ (e ∙ x2.out)
