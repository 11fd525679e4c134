-- ===== src/Visibility/Lost.antt =====
-- A row of the transaction's own that the visibility clause loses.
use zombodb.Prelude.{arith, false, leb, ltb, refl, some, true, ℕ, ◌||◌, ◌∙◌, ◌≡◌}
use zombodb.Bulk.{list_member_int}
use zombodb.Text.{Text}
use zombodb.Visibility.Mvcc.{
  RowVersion, Seen, clause_of, holds, is_visible, matches, matches-parts, matches_own, matches_seen,
  row_document, sees, sees_committed,
}

-- A row that the transaction inserted by an earlier command, and that an aborted subtransaction tried
-- to delete.
pub record IsUndeleted (k : Seen) (v : RowVersion) : Type 0 where
  pub own : list_member_int v.xmin k.mine ≡ true
  pub own_listed : (list_member_int v.xmin k.aborted || leb k.xmax v.xmin) ≡ true
  pub earlier : ltb v.cmin k.command_id ≡ true
  pub deleter : ℕ
  pub tried : v.xmax ≡ some deleter
  pub not_mine : list_member_int deleter k.mine ≡ false
  pub has_aborted : list_member_int deleter k.aborted ≡ true

-- Postgres sees such a row, whose deletion was rolled back, and the clause does not match its
-- document: the part for the transaction's own rows asks for no `zdb_xmax` or one of its own ids.
pub matches-IsUndeleted :
    (k : Seen) (index_name type_name : Text) (v : RowVersion)
    → IsUndeleted k v
    → (is_visible k v ≡ true)
      × (matches (λ i t. k.aborted) (row_document v) (clause_of k index_name type_name) ≡ false)
unfolding is_visible sees sees_committed holds matches_own matches_seen
matches-IsUndeleted k index_name type_name v u = (
  rw (u.tried, u.own, u.earlier, u.not_mine) (ground (arith, u.has_aborted)),
  matches-parts k index_name type_name v v.xmax refl
      ∙ rw (u.tried, u.own, u.earlier, u.not_mine) (ground (arith, u.own_listed, u.has_aborted)),
)
