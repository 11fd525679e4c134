-- ===== src/Visibility/Mvcc.antt =====
-- The documents that the visibility clause matches, and the rows that Postgres' snapshots see.
use zombodb.Prelude.{
  Bool, Bool-cases, List, Option, arith, false, if◌then◌else◌, inl, inr, is_some, leb, ltb, none,
  not, refl, some, true, ℕ, ◌&&◌, ◌||◌, ◌∙◌, ◌≡◌,
}
use zombodb.Bulk.{list_member_int}
use zombodb.Text.{Text}
use zombodb.Visibility.{
  Clause, Clauses, Column, clause_then, has_column, is_aborted_list, is_at_least, is_less_than,
  is_listed_in, is_one_of, must, must_not, no_clause, no_xmax, others_unseen_xmax, own_later_xmax,
  own_row, seen_row, should, visibility_clause, zdb_cmax, zdb_cmin, zdb_xmax, zdb_xmin,
}

-- A document, with the columns that it has.
pub record Document : Type 0 where
  pub is_list : Bool
  pub column : Column → Option ℕ

unfoldable pub holds {ℓ} : {A : Type ℓ} → (A → Bool) → Option A → Bool
holds p none = false
holds p (some a) = p a

-- What Elasticsearch documents of the queries: a bool query with `must` matches where all its clauses
-- do, with `should` where one does, with `must_not` where none does; the others match a document that
-- has the column with such a value. `listed` is the list in the document zdb_aborted_xids of an index.
module _ (listed : Text → Text → List ℕ) (doc : Document) where
  unfoldable mutual
    unfolding holds list_member_int

    pub matches : Clause → Bool
    matches (must clauses) = match_all clauses
    matches (should clauses) = match_one clauses
    matches (must_not clauses) = not (match_one clauses)
    matches (is_one_of column xids) = holds (λ n. list_member_int n xids) (doc.column column)
    matches (is_listed_in column index_name type_name) =
        holds (λ n. list_member_int n (listed index_name type_name)) (doc.column column)
    matches (is_less_than column n) = holds (λ m. ltb m n) (doc.column column)
    matches (is_at_least column n) = holds (λ m. leb n m) (doc.column column)
    matches (has_column column) = holds (λ m. true) (doc.column column)
    matches is_aborted_list = doc.is_list

    pub match_all : Clauses → Bool
    match_all no_clause = true
    match_all (clause_then clause clauses) = matches clause && match_all clauses

    pub match_one : Clauses → Bool
    match_one no_clause = false
    match_one (clause_then clause clauses) = matches clause || match_one clauses

-- A row version: who inserted it, by which command, and who deleted it, if anyone, by which command.
-- The document of a row that nobody deleted may have a `zdb_cmax` nevertheless: an INSERT writes one.
pub record RowVersion : Type 0 where
  pub xmin : ℕ
  pub cmin : ℕ
  pub xmax : Option ℕ
  pub cmax : ℕ
  pub keeps_cmax : Bool

unfoldable pub row_column : RowVersion → Column → Option ℕ
row_column version zdb_xmin = some version.xmin
row_column version zdb_cmin = some version.cmin
row_column version zdb_xmax = version.xmax
row_column version zdb_cmax =
    if is_some version.xmax || version.keeps_cmax then some version.cmax else none

unfoldable pub row_document : RowVersion → Document
row_document version = record { is_list = false; column = row_column version }

-- What a snapshot knows: the ids of its own transaction, those of the other active ones, the aborted
-- ones, the current command, and the first id that was not assigned.
pub record Seen : Type 0 where
  pub mine : List ℕ
  pub active : List ℕ
  pub aborted : List ℕ
  pub command_id : ℕ
  pub xmax : ℕ

-- Committed before the snapshot was taken.
unfoldable pub sees_committed : Seen → ℕ → Bool
sees_committed k xid =
    not (list_member_int xid k.aborted) && (not (list_member_int xid k.active) && ltb xid k.xmax)

-- The effect of a transaction's command is visible: that of its own transaction if the command is an
-- earlier one, that of another if it committed.
unfoldable pub sees : Seen → ℕ → ℕ → Bool
unfolding sees_committed
sees k xid cid = if list_member_int xid k.mine then ltb cid k.command_id else sees_committed k xid

-- Postgres' rule: the insertion is visible, and no deletion is.
unfoldable pub is_visible : Seen → RowVersion → Bool
unfolding sees holds
is_visible k version =
    sees k version.xmin version.cmin && not (holds (λ xid. sees k xid version.cmax) version.xmax)

-- What the clause relies on: the transaction's own ids are on the index's list of aborted ids or past
-- the snapshot's end, and only the transaction itself has tried to delete a row of its own.
pub record IsOwn (k : Seen) (version : RowVersion) : Type 0 where
  pub own_listed :
      list_member_int version.xmin k.mine ≡ true
      → (list_member_int version.xmin k.aborted || leb k.xmax version.xmin) ≡ true
  pub own_deleted :
      (xid : ℕ)
      → list_member_int version.xmin k.mine ≡ true
      → version.xmax ≡ some xid
      → list_member_int xid k.mine ≡ true

unfoldable pub clause_of : Seen → Text → Text → Clause
unfolding visibility_clause
clause_of k index_name type_name =
    visibility_clause k.mine k.active k.command_id k.xmax index_name type_name

-- The clause on the document of a row, by its parts.
unfoldable pub matches_own : Seen → RowVersion → Bool
unfolding holds
matches_own k v =
    list_member_int v.xmin k.mine
    && (ltb v.cmin k.command_id
        && (not (is_some v.xmax)
            || (holds (λ x. list_member_int x k.mine) v.xmax && leb k.command_id v.cmax)))

unfoldable pub matches_seen : Seen → RowVersion → Bool
unfolding holds sees_committed
matches_seen k v =
    sees_committed k v.xmin
    && (not (is_some v.xmax)
        || ((holds (λ x. list_member_int x k.mine) v.xmax && leb k.command_id v.cmax)
            || holds (λ x. not (list_member_int x k.mine) && not (sees_committed k x)) v.xmax))

pub matches-parts :
    (k : Seen) (index_name type_name : Text) (v : RowVersion) (xmax : Option ℕ)
    → v.xmax ≡ xmax
    → matches (λ i t. k.aborted) (row_document v) (clause_of k index_name type_name)
      ≡ (matches_own k v || matches_seen k v)
unfolding matches row_document row_column clause_of visibility_clause own_row seen_row no_xmax
    own_later_xmax others_unseen_xmax matches_own matches_seen holds sees_committed
matches-parts k index_name type_name v none e = rw (e) (ground arith)
matches-parts k index_name type_name v (some x) e = rw (e) (ground arith)

matches_own-sees :
    (k : Seen) (v : RowVersion) → IsOwn k v → (matches_own k v || matches_seen k v) ≡ is_visible k v
unfolding matches_own matches_seen is_visible sees sees_committed holds
matches_own-sees k v own = go v.xmax refl (λ x mine. own.own_deleted x mine)
  where
    go :
        (xmax : Option ℕ)
        → v.xmax ≡ xmax
        → ((x : ℕ)
            → list_member_int v.xmin k.mine ≡ true
            → v.xmax ≡ some x
            → list_member_int x k.mine ≡ true)
        → (matches_own k v || matches_seen k v) ≡ is_visible k v
    go none e deleted = rw e (elim (Bool-cases (list_member_int v.xmin k.mine)) [
      | inl mine ↦ let listed = own.own_listed mine in ground (arith, mine, listed)
      | inr other ↦ ground (arith, other)
    ])
    go (some x) e deleted = rw e (elim (Bool-cases (list_member_int v.xmin k.mine)) [
      | inl mine ↦
          let listed = own.own_listed mine in
          let also = deleted x mine e in ground (arith, mine, listed, also)
      | inr other ↦ ground (arith, other)
    ])

-- If a transaction's own ids are on the index's list of aborted ids or past the snapshot's end, and
-- only the transaction itself has tried to delete a row that it inserted, then the clause matches the
-- row's document exactly when Postgres' snapshot sees the row: its insertion is by an earlier command
-- of the transaction or committed before the snapshot, and its deletion, if there is one, is not.
pub matches-is_visible :
    (k : Seen) (index_name type_name : Text) (v : RowVersion)
    → IsOwn k v
    → matches (λ i t. k.aborted) (row_document v) (clause_of k index_name type_name)
      ≡ is_visible k v
matches-is_visible k index_name type_name v own =
    matches-parts k index_name type_name v v.xmax refl ∙ matches_own-sees k v own
