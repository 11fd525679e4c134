-- ===== src/Bulk/Sends.antt =====
-- The steps of ElasticsearchFinishBulkProcess up to the clean-up: the marks of a commit, the last
-- request, and the wait for all requests.
use zombodb.Prelude.{
  Bool, Bool-cases, List, Option, WhenOk, WhenOk-bind, WhenOk-mono, [], ap, append-nil,
  append_assoc, ap₂, arith, false, if◌then◌else◌, inl, inr, length, ltb, none, ok, refl, returned,
  some, sym, true, ℕ, ◌++◌, ◌||◌, ◌∙◌, ◌∷◌, ◌≡◌,
}
use zombodb.Bulk.{
  BulkContext, append_current, bulk_prologue, bulk_url, current_text, flush, is_full,
}
use zombodb.Bulk.Finish.{
  mark_all_committed, mark_committed_lines, mark_transaction_committed, send_rest, settle,
}
use zombodb.Bulk.Ownership.{append_current-Own, append_current-wire, poll-Kept, wire}
use zombodb.Curl.{Curl, Net, PostDataEntry}
use zombodb.Index.{Session}
use zombodb.Rest.Calls.{cleanup-Kept, rest_multi_call-Called}
use zombodb.Rest.Own.{Kept, Kept-refl, Own}
use zombodb.Rest.Sent.{bodies, bodies-append}
use zombodb.Rest.Single.{rest_multi_wait_for_all_done}
use zombodb.Rest.Waits.{wait-Kept}
use zombodb.Text.{Text, codes}
use zombodb.Xid.{convert_xid}

-- The marks that the used transactions are committed, in the order of their first use.
unfoldable pub commit_marks : Session → List ℕ → Text
commit_marks s [] = []
commit_marks s (xid ∷ xids) =
    mark_committed_lines (convert_xid s.tests s.next xid) ++ commit_marks s xids

module _ {c : Curl} where
  -- The marks go to the end of the current buffer.
  pub record Marked (s : Session) (xids : List ℕ) (ctx ctx' : BulkContext c) : Type 0 where
    pub own : Own (some ctx.current) ctx.net → Own (some ctx'.current) ctx'.net
    pub same_wire : wire ctx' ≡ wire ctx ++ commit_marks s xids
    pub used_xids : ctx'.used_xids ≡ ctx.used_xids
    pub nhandles : ctx'.net.nhandles ≡ ctx.net.nhandles

  -- All of `t` has gone out.
  pub record Sent (t : Text) (used : List ℕ) (ctx : BulkContext c) : Type 0 where
    pub out : bodies ctx.net.sent ≡ t
    pub used_xids : ctx.used_xids ≡ used
    pub held : Option PostDataEntry
    pub own : Own held ctx.net

module _ (c : Curl) where
  mark_one-wire :
      (s : Session) (xid : ℕ) (ctx : BulkContext c)
      → wire (mark_transaction_committed c s xid ctx)
        ≡ wire ctx ++ mark_committed_lines (convert_xid s.tests s.next xid)
  unfolding mark_transaction_committed wire
  mark_one-wire s xid ctx = append_current-wire _ ctx

  mark_one-Own :
      (s : Session) (xid : ℕ) (ctx : BulkContext c)
      → Own (some ctx.current) ctx.net
      → Own (some ctx.current) (mark_transaction_committed c s xid ctx).net
  unfolding mark_transaction_committed
  mark_one-Own s xid ctx o = append_current-Own _ ctx o

  mark_one-nhandles :
      (s : Session) (xid : ℕ) (ctx : BulkContext c)
      → (mark_transaction_committed c s xid ctx).net.nhandles ≡ ctx.net.nhandles
  unfolding mark_transaction_committed append_current
  mark_one-nhandles s xid ctx = refl

  pub mark_all-Marked :
      (s : Session) (xids : List ℕ) (ctx : BulkContext c)
      → Marked s xids ctx (mark_all_committed c s xids ctx)
  unfolding mark_all_committed commit_marks
  mark_all-Marked s [] ctx = record {
    own = λ o. o;
    same_wire = sym (append-nil (wire ctx));
    used_xids = refl;
    nhandles = refl;
  }
  mark_all-Marked s (xid ∷ xids) ctx =
      let next : BulkContext c = mark_transaction_committed c s xid ctx in
      let rest : Marked s xids next (mark_all_committed c s xids next) =
        mark_all-Marked s xids next in
      record {
        own = λ o. rest.own (mark_one-Own s xid ctx o);
        same_wire =
            rest.same_wire
            ∙ (ap (λ t. t ++ commit_marks s xids) (mark_one-wire s xid ctx)
                ∙ append_assoc (wire ctx) (mark_committed_lines (convert_xid s.tests s.next xid))
                    (commit_marks s xids));
        used_xids = rest.used_xids;
        nhandles = rest.nhandles ∙ mark_one-nhandles s xid ctx;
      }

  pub settle-Sent :
      (t : Text) (used : List ℕ) (ctx : BulkContext c)
      → Sent t used ctx
      → WhenOk (Sent t used) (settle c ctx)
  unfolding settle
  settle-Sent t used ctx x = WhenOk-bind (waited (ltb 0 ctx.nrequests)) λ net k.
      WhenOk-bind (cleanup-Kept c x.held net true false k.own) λ net' k'. returned (record {
        out = ap bodies (k'.sent ∙ k.sent) ∙ x.out;
        used_xids = x.used_xids;
        held = x.held;
        own = k'.own;
      })
    where
      waited :
          (b : Bool)
          → WhenOk
              (Kept x.held ctx.net)
              (if b then rest_multi_wait_for_all_done c ctx.net else ok ctx.net)
      waited true = wait-Kept c x.held ctx.net x.own
      waited false = returned (Kept-refl x.own)

  empty_text : (t : Text) → ltb 0 (length t) ≡ false → t ≡ []
  empty_text [] e = refl
  empty_text (x ∷ t) e = absurd (ground (arith, e))

  or_true : (b : Bool) → (b || true) ≡ true
  or_true true = refl
  or_true false = refl

  final_flush-Sent :
      (ctx : BulkContext c)
      → Own (some ctx.current) ctx.net
      → WhenOk (Sent (wire ctx) ctx.used_xids) (flush c true ctx)
  unfolding flush wire
  final_flush-Sent ctx o =
      WhenOk-bind
        (rest_multi_call-Called c (bulk_url c ctx true) ctx.current ctx.compression_level
          (codes "POST") ctx.net o)
        λ net k. returned (record {
          out = rw (k.sent, bodies-append, k.body) refl;
          used_xids = refl;
          held = none;
          own = k.own;
        })

  polled-wire :
      (ctx : BulkContext c) (net : Net c)
      → Kept (some ctx.current) ctx.net net
      → wire (record ctx { net = net }) ≡ wire ctx
  unfolding wire
  polled-wire ctx net k = ap₂ (λ b t. bodies b ++ t) k.sent k.text

  final_prologue-Sent :
      (s : Session) (ctx : BulkContext c)
      → Own (some ctx.current) ctx.net
      → WhenOk (Sent (wire ctx) ctx.used_xids) (bulk_prologue c s true ctx)
  unfolding bulk_prologue
  final_prologue-Sent s ctx o = WhenOk-bind (poll-Kept c (some ctx.current) ctx.net o) λ net k.
      let polled : BulkContext c = record ctx { net = net } in
      rw (or_true (is_full c polled)) (
        WhenOk-mono (final_flush-Sent polled k.own) λ ctx' x. record {
          out = x.out ∙ polled-wire ctx net k;
          used_xids = x.used_xids;
          held = x.held;
          own = x.own;
        })

  pub send_rest-Sent :
      (s : Session) (ctx : BulkContext c)
      → Own (some ctx.current) ctx.net
      → WhenOk (Sent (wire ctx) ctx.used_xids) (send_rest c s ctx)
  unfolding send_rest wire current_text
  send_rest-Sent s ctx o = elim (Bool-cases (ltb 0 (length (ctx.net.buffers ctx.current.buff)))) [
    | inl e ↦ rw e (final_prologue-Sent s ctx o)
    | inr e ↦ rw e (
        returned (record {
          out =
              sym (append-nil (bodies ctx.net.sent))
              ∙ ap (◌++◌ (bodies ctx.net.sent)) (sym (empty_text _ e));
          used_xids = refl;
          held = some ctx.current;
          own = o;
        }))
  ]
