-- ===== src/Vacuum/Safety.antt =====
-- What a vacuum does with the rows that its scans find.
use Prim.Native.String.{String}
use zombodb.Prelude.{
  Bool, List, Option, Outcome, WhenOk, WhenOk-bind, [], append_assoc, arith, if◌then◌else◌, none,
  ok, refl, returned, some, subst, sym, ℕ, ◌%◌, ◌++◌, ◌+◌, ◌∷◌, ◌≡◌,
}
use zombodb.Bulk.{BulkContext}
use zombodb.Bulk.Batches.{
  Applied, RowOp, apply_op-Applied, delete_by_xmax, delete_by_xmin, insert, update, vacuum,
}
use zombodb.Bulk.Ownership.{IsWell}
use zombodb.Bulk.Runs.{Ran, Ran-cons}
use zombodb.Curl.{Curl, Net}
use zombodb.Index.{Session}
use zombodb.Query.{JsonText}
use zombodb.Scroll.{Hit, found}
use zombodb.Text.{Text, codes}
use zombodb.Vacuum.{
  VacInfo, VacState, aborted_xmax_op, counted, hit_uint64, is_aborted, is_committed, to_xid64,
  vac_hit, write_op, xmax_op, xmin_op,
}
use zombodb.Vacuum.Aborted.{outcome_eq}
use zombodb.Xact.Contexts.{enter-IsWell}
use zombodb.Xact.Writes.{Applied-enter}
use zombodb.Xid.{u32}

-- What one of the three scans is for: the field of a row that it looks at, the transactions whose rows
-- it treats, and the row operation for a document with such a transaction's 64-bit id.
pub record Rule : Type 0 where
  pub key : String
  pub is_due : ℕ → Bool
  pub make : Text → ℕ → RowOp

-- Rows that an aborted transaction inserted are deleted.
unfoldable pub xmin_rule : VacInfo → Rule
xmin_rule v = record {
  key = "zdb_xmin";
  is_due = is_aborted v;
  make = λ doc xid64. delete_by_xmin doc (to_xid64 v (xid64 % u32));
}

-- Rows that a committed transaction deleted are deleted.
unfoldable pub xmax_rule : VacInfo → Rule
xmax_rule v = record {
  key = "zdb_xmax";
  is_due = is_committed v;
  make = λ doc xid64. delete_by_xmax doc (to_xid64 v (xid64 % u32));
}

-- Of rows that an aborted transaction tried to delete the mark is reset.
unfoldable pub reset_rule : VacInfo → Rule
reset_rule v = record { key = "zdb_xmax"; is_due = is_aborted v; make = vacuum }

-- The row operation for a hit, or none, is the one that the rule asks for.
pub record Follows (l : JsonText) (r : Rule) (hit : Hit) (o : Option RowOp) : Type 0 where
  pub id : String
  pub named : hit.es_id ≡ some id
  pub xid64 : ℕ
  pub read : hit_uint64 l r.key hit ≡ ok xid64
  pub does : o ≡ (if r.is_due (xid64 % u32) then some (r.make (codes id) xid64) else none)

unfoldable pub deletions : List (Session × RowOp) → ℕ
deletions [] = 0
deletions ((s, delete_by_xmin doc xid) ∷ ops) = 1 + deletions ops
deletions ((s, delete_by_xmax doc xid) ∷ ops) = 1 + deletions ops
deletions ((s, _) ∷ ops) = deletions ops

deletions-append :
    (xs ys : List (Session × RowOp)) → deletions (xs ++ ys) ≡ deletions xs + deletions ys
unfolding deletions
deletions-append [] ys = omega arith
deletions-append ((s, insert a b d e f g) ∷ xs) ys = deletions-append xs ys
deletions-append ((s, update a b d e) ∷ xs) ys = deletions-append xs ys
deletions-append ((s, vacuum a b) ∷ xs) ys = deletions-append xs ys
deletions-append ((s, delete_by_xmin a b) ∷ xs) ys = omega (arith, deletions-append xs ys)
deletions-append ((s, delete_by_xmax a b) ∷ xs) ys = omega (arith, deletions-append xs ys)

-- A part of a vacuum, by the row operations that it made: what it has run, and its counter.
pub record Cleaned (c : Curl) (ops : List (Session × RowOp)) (st st' : VacState c) : Type 0 where
  pub well : IsWell st'.bulk
  pub ran_then :
      (later : List (Session × RowOp)) (ctx : BulkContext c)
      → Ran c later st'.bulk ctx
      → Ran c (ops ++ later) st.bulk ctx
  pub deleted : st'.deleted ≡ st.deleted + deletions ops

unfoldable pub op_list : VacInfo → Option RowOp → List (Session × RowOp)
op_list v none = []
op_list v (some op) = (v.session, op) ∷ []

module _ (c : Curl) where
  pub same-Cleaned :
      (st st' : VacState c)
      → IsWell st.bulk
      → st'.bulk ≡ st.bulk
      → st'.deleted ≡ st.deleted
      → Cleaned c [] st st'
  unfolding deletions
  same-Cleaned st st' w same e = record {
    well = subst IsWell (sym same) w;
    ran_then = λ later ctx r. subst (λ b. Ran c later b ctx) same r;
    deleted = omega (arith, e);
  }

  pub trans-Cleaned :
      (xs ys : List (Session × RowOp)) (st st1 st2 : VacState c)
      → Cleaned c xs st st1
      → Cleaned c ys st1 st2
      → Cleaned c (xs ++ ys) st st2
  trans-Cleaned xs ys st st1 st2 a b = record {
    well = b.well;
    ran_then = λ later ctx r.
        subst (λ ops. Ran c ops st.bulk ctx) (sym (append_assoc xs ys later))
          (a.ran_then (ys ++ later) ctx (b.ran_then later ctx r));
    deleted = omega (arith, a.deleted, b.deleted, deletions-append xs ys);
  }

  counted-deletions :
      (s : Session) (op : RowOp) (st : VacState c)
      → (counted op st).deleted ≡ st.deleted + deletions ((s, op) ∷ [])
  unfolding counted deletions
  counted-deletions s (insert a b d e f g) st = omega arith
  counted-deletions s (update a b d e) st = omega arith
  counted-deletions s (vacuum a b) st = omega arith
  counted-deletions s (delete_by_xmin a b) st = omega arith
  counted-deletions s (delete_by_xmax a b) st = omega arith

  counted-bulk : (op : RowOp) (st : VacState c) → (counted op st).bulk ≡ st.bulk
  unfolding counted
  counted-bulk (insert a b d e f g) st = refl
  counted-bulk (update a b d e) st = refl
  counted-bulk (vacuum a b) st = refl
  counted-bulk (delete_by_xmin a b) st = refl
  counted-bulk (delete_by_xmax a b) st = refl

  one-Cleaned :
      (v : VacInfo) (op : RowOp) (st : VacState c) (bulk : BulkContext c) (net : Net c)
      → Applied v.session op st.bulk bulk
      → Cleaned c ((v.session, op) ∷ []) st (counted op (record st { bulk = bulk; net = net }))
  one-Cleaned v op st bulk net a =
      let same = counted-bulk op (record st { bulk = bulk; net = net }) in
      record {
        well = subst IsWell (sym same) a.well;
        ran_then = λ later ctx r.
            Ran-cons c v.session op later st.bulk bulk ctx a
              (subst (λ b. Ran c later b ctx) same r);
        deleted = counted-deletions v.session op (record st { bulk = bulk; net = net });
      }

module _ (l : JsonText) (c : Curl) (v : VacInfo) where
  -- What is done with a hit.
  pub record HitDone (r : Rule) (hit : Hit) (st st' : VacState c) : Type 0 where
    pub chosen : Option RowOp
    pub follows : Follows l r hit chosen
    pub clean : Cleaned c (op_list v chosen) st st'

  pub vac_hit-HitDone :
      (r : Rule) (choose : Hit → Outcome (Option RowOp)) (hit : Hit) (st : VacState c)
      → IsWell st.bulk
      → WhenOk (Follows l r hit) (choose hit)
      → WhenOk (HitDone r hit st) (vac_hit l c v choose hit st)
  unfolding vac_hit write_op op_list
  vac_hit-HitDone r choose hit st w h = WhenOk-bind h λ o f. go o f
    where
      go :
          (o : Option RowOp)
          → Follows l r hit o
          → WhenOk (HitDone r hit st) (elim o [ none ↦ ok st | some op ↦ write_op l c v op st ])
      go none f =
          returned (record { chosen = none; follows = f; clean = same-Cleaned c st st w refl refl })
      go (some op) f =
          WhenOk-bind (apply_op-Applied c v.session op _ (enter-IsWell c st.net st.bulk w))
            λ bulk a. returned (record {
              chosen = some op;
              follows = f;
              clean =
                  one-Cleaned c v op st bulk _ (Applied-enter c v.session op st.net st.bulk bulk a);
            })

  found-some : {A : Type 0} (o : Option A) (a : A) → found o ≡ ok a → o ≡ some a
  found-some none a e = cc
  found-some (some x) a e = cc

  pub xmin_op-Follows : (hit : Hit) → WhenOk (Follows l (xmin_rule v) hit) (xmin_op l v hit)
  unfolding xmin_op xmin_rule
  xmin_op-Follows hit = WhenOk-bind (outcome_eq (found hit.es_id)) λ id e.
      WhenOk-bind (outcome_eq (hit_uint64 l "zdb_xmin" hit)) λ x f.
        returned
          (record { id = id; named = found-some hit.es_id id e; xid64 = x; read = f; does = refl })

  pub xmax_op-Follows : (hit : Hit) → WhenOk (Follows l (xmax_rule v) hit) (xmax_op l v hit)
  unfolding xmax_op xmax_rule
  xmax_op-Follows hit = WhenOk-bind (outcome_eq (found hit.es_id)) λ id e.
      WhenOk-bind (outcome_eq (hit_uint64 l "zdb_xmax" hit)) λ x f.
        returned
          (record { id = id; named = found-some hit.es_id id e; xid64 = x; read = f; does = refl })

  pub aborted_xmax_op-Follows :
      (hit : Hit) → WhenOk (Follows l (reset_rule v) hit) (aborted_xmax_op l v hit)
  unfolding aborted_xmax_op reset_rule
  aborted_xmax_op-Follows hit = WhenOk-bind (outcome_eq (found hit.es_id)) λ id e.
      WhenOk-bind (outcome_eq (hit_uint64 l "zdb_xmax" hit)) λ x f.
        returned
          (record { id = id; named = found-some hit.es_id id e; xid64 = x; read = f; does = refl })
