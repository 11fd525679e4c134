-- ===== src/Xact/Marks.antt =====
-- Which transaction ids a commit marks.
use zombodb.Prelude.{
  Bool, Bool-cases, List, Option, WhenOk, WhenOk-mono, [], ap, arith, false, inl, inr, none, not,
  refl, some, sym, true, ℕ, ◌&&◌, ◌++◌, ◌<◌, ◌==◌, ◌>>=◌, ◌||◌, ◌∙◌, ◌∷◌, ◌≡◌,
}
use zombodb.Bulk.{BulkContext, list_member_int}
use zombodb.Bulk.Batches.{RowOp, expected, is_known, remembered}
use zombodb.Bulk.Sends.{commit_marks}
use zombodb.Curl.{Curl}
use zombodb.Index.{Session}
use zombodb.Rest.Sent.{bodies}
use zombodb.Xact.{XactState, delete_xids, list_delete_int, pre_commit, xact_commit_callback}
use zombodb.Xact.Contexts.{lookup}
use zombodb.Xact.Ending.{Delivered, delivered, pre_commit-Delivered, silent}
use zombodb.Xact.Events.{Event, aborted_of, has_json_of, ops_of, run_events}

-- No id twice.
unfoldable pub IsUnique : List ℕ → Type 0
IsUnique [] = Unit
IsUnique (x ∷ xs) = (list_member_int x xs ≡ false) × IsUnique xs

member-append :
    (x y : ℕ) (xs : List ℕ) → list_member_int x (xs ++ (y ∷ [])) ≡ (list_member_int x xs || x == y)
unfolding list_member_int
member-append x y [] = ground arith
member-append x y (z ∷ xs) = ground (arith, member-append x y xs)

append-IsUnique :
    (x : ℕ) (xs : List ℕ) → list_member_int x xs ≡ false → IsUnique xs → IsUnique (xs ++ (x ∷ []))
unfolding IsUnique list_member_int
append-IsUnique x [] e u = (refl, tt)
append-IsUnique x (y ∷ xs) e u =
    (member-append y x xs ∙ ground (arith, e, u.0), append-IsUnique x xs (ground arith) u.1)

pub remembered-IsUnique :
    (last : ℕ) (used : List ℕ) (ops : List (Session × RowOp))
    → IsUnique used
    → IsUnique (remembered last used ops)
unfolding remembered is_known
remembered-IsUnique last used [] u = u
remembered-IsUnique last used ((s, op) ∷ ops) u =
    elim (Bool-cases (last == s.curr_xid || list_member_int s.curr_xid used)) [
      | inl e ↦ rw e (remembered-IsUnique last used ops u)
      | inr e ↦
          let new : list_member_int s.curr_xid used ≡ false = ground arith in
          rw e (remembered-IsUnique s.curr_xid _ ops (append-IsUnique s.curr_xid used new u))
    ]

member-delete :
    (x y : ℕ) (xs : List ℕ)
    → IsUnique xs
    → list_member_int x (list_delete_int xs y) ≡ (list_member_int x xs && not (x == y))
unfolding list_delete_int list_member_int IsUnique
member-delete x y [] u = refl
member-delete x y (z ∷ xs) u = ground (arith, member-delete x y xs u.1, u.0)

delete-IsUnique : (y : ℕ) (xs : List ℕ) → IsUnique xs → IsUnique (list_delete_int xs y)
unfolding list_delete_int IsUnique
delete-IsUnique y [] u = tt
delete-IsUnique y (z ∷ xs) u = elim (Bool-cases (z == y)) [
  | inl e ↦ rw e u.1
  | inr e ↦
      rw e (member-delete z y xs u.1 ∙ ap (λ b. b && not (z == y)) u.0, delete-IsUnique y xs u.1)
]

pub member-delete_xids :
    (x : ℕ) (used aborted : List ℕ)
    → IsUnique used
    → list_member_int x (delete_xids used aborted)
      ≡ (list_member_int x used && not (list_member_int x aborted))
unfolding delete_xids list_member_int
member-delete_xids x used [] u = ground arith
member-delete_xids x used (y ∷ aborted) u =
    member-delete_xids x (list_delete_int used y) aborted (delete-IsUnique y used u)
    ∙ ground (arith, member-delete x y used u)

-- Whether the run has a row operation of the transaction id.
unfoldable pub writes : ℕ → List (Session × RowOp) → Bool
writes x [] = false
writes x ((s, op) ∷ ops) = x == s.curr_xid || writes x ops

member-remembered :
    (x last : ℕ) (used : List ℕ) (ops : List (Session × RowOp))
    → 0 < x
    → (0 < last → list_member_int last used ≡ true)
    → list_member_int x (remembered last used ops) ≡ (list_member_int x used || writes x ops)
unfolding remembered is_known writes
member-remembered x last used [] some_xid known = ground arith
member-remembered x last used ((s, op) ∷ ops) some_xid known =
    elim (Bool-cases (last == s.curr_xid || list_member_int s.curr_xid used)) [
      | inl e ↦ rw e (member-remembered x last used ops some_xid known ∙ old e)
      | inr e ↦ rw e (
          member-remembered x s.curr_xid (used ++ (s.curr_xid ∷ [])) ops some_xid
            (λ h. member-append s.curr_xid s.curr_xid used ∙ ground arith)
          ∙ ground (arith, member-append x s.curr_xid used))
    ]
  where
    there :
        (last == s.curr_xid || list_member_int s.curr_xid used) ≡ true
        → x ≡ s.curr_xid
        → list_member_int x used ≡ true
    there e same = elim (Bool-cases (last == s.curr_xid)) [
      | inl l ↦
          let it : last ≡ x = ground (arith, l, same) in
          ap (λ k. list_member_int k used) (sym it) ∙ known (omega (arith, it, some_xid))
      | inr l ↦
          let it : list_member_int s.curr_xid used ≡ true = ground (arith, e, l) in
          ap (λ k. list_member_int k used) same ∙ it
    ]

    old :
        (last == s.curr_xid || list_member_int s.curr_xid used) ≡ true
        → (list_member_int x used || writes x ops)
          ≡ (list_member_int x used || (x == s.curr_xid || writes x ops))
    old e = elim (Bool-cases (x == s.curr_xid)) [
      | inl h ↦ rw (there e (ground (arith, h))) refl
      | inr h ↦ rw h refl
    ]

-- Among the ids to be marked is every one with a row operation that is not an aborted subtransaction's.
committed-member :
    (x : ℕ) (ops : List (Session × RowOp)) (aborted : List ℕ)
    → 0 < x
    → list_member_int x (delete_xids (remembered 0 [] ops) aborted)
      ≡ (writes x ops && not (list_member_int x aborted))
unfolding IsUnique list_member_int
committed-member x ops aborted some_xid =
    member-delete_xids x (remembered 0 [] ops) aborted (remembered-IsUnique 0 [] ops tt)
    ∙ ap (λ b. b && not (list_member_int x aborted))
        (member-remembered x 0 [] ops some_xid (λ h. absurd (omega arith)))

delete_xids-IsUnique : (used aborted : List ℕ) → IsUnique used → IsUnique (delete_xids used aborted)
unfolding delete_xids
delete_xids-IsUnique used [] u = u
delete_xids-IsUnique used (y ∷ aborted) u =
    delete_xids-IsUnique (list_delete_int used y) aborted (delete-IsUnique y used u)

-- What an index has been sent at the end of a transaction: its row operations and marks of some ids.
pub data CommitMarked {c : Curl} (json : Bool) (ops : List (Session × RowOp)) (s : Session)
    (aborted : List ℕ) : Option (BulkContext c) → Type 0 where
  unused : ops ≡ [] → CommitMarked json ops s aborted none
  marked :
      (ctx : BulkContext c) (xids : List ℕ)
      → bodies ctx.net.sent ≡ expected json 0 [] ops ++ commit_marks s xids
      → IsUnique xids
      → ((x : ℕ)
          → 0 < x
          → list_member_int x xids ≡ (writes x ops && not (list_member_int x aborted)))
      → CommitMarked json ops s aborted (some ctx)

Delivered-CommitMarked :
    {c : Curl} (json : Bool) (ops : List (Session × RowOp)) (s : Session) (aborted : List ℕ)
    (o : Option (BulkContext c))
    → Delivered json ops s aborted o
    → CommitMarked json ops s aborted o
unfolding IsUnique
Delivered-CommitMarked json ops s aborted none (silent e) = unused e
Delivered-CommitMarked json ops s aborted (some ctx) (delivered ctx' e) =
    marked ctx (delete_xids (remembered 0 [] ops) aborted) e
      (delete_xids-IsUnique (remembered 0 [] ops) aborted (remembered-IsUnique 0 [] ops tt))
      (λ x some_xid. committed-member x ops aborted some_xid)

-- If a transaction that had no contexts and no aborted subtransactions runs and reaches its commit, and
-- both return, then each index that it wrote to has been sent its row operations and, behind them, the
-- marks of some ids, none of them twice. A transaction id that is not 0 is among them exactly when one
-- of the index's row operations was made under it and it is not the id of an aborted subtransaction.
pub pre_commit-CommitMarked :
    (c : Curl) (es : List Event) (s : Session) (st : XactState c)
    → st.insert_contexts ≡ []
    → st.aborted_xids ≡ []
    → WhenOk
        (λ st'.
          (q : ℕ)
          → CommitMarked
              (has_json_of q es)
              (ops_of q es)
              s
              (aborted_of es)
              (lookup q st'.insert_contexts))
        (run_events c es st >>= xact_commit_callback c s pre_commit)
pre_commit-CommitMarked c es s st no_contexts no_aborted =
    WhenOk-mono (pre_commit-Delivered c es s st no_contexts no_aborted)
      λ st' h q. Delivered-CommitMarked _ _ s (aborted_of es) _ (h q)
