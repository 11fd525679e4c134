-- ===== src/Examples/Views.antt =====
-- Concrete snapshots and rows.
use zombodb.Prelude.{[], false, refl, some, true, ◌∷◌, ◌≡◌}
use zombodb.Bulk.{list_member_int}
use zombodb.Text.{codes}
use zombodb.Visibility.Lost.{IsUndeleted, matches-IsUndeleted}
use zombodb.Visibility.Mvcc.{
  IsOwn, RowVersion, Seen, clause_of, holds, is_visible, matches, matches-is_visible, row_document,
  sees, sees_committed,
}

-- Transaction 900, with the aborted subtransaction 901, at its fifth command; 800 is active.
abbrev demo_seen : Seen
demo_seen = record {
  mine = 900 ∷ [];
  active = 800 ∷ [];
  aborted = 900 ∷ 901 ∷ 700 ∷ [];
  command_id = 5;
  xmax = 950;
}

-- A row that a committed transaction inserted and that 800 is deleting.
abbrev demo_version : RowVersion
demo_version = record { xmin = 600; cmin = 0; xmax = some 800; cmax = 3; keeps_cmax = true }

demo_version-IsOwn : IsOwn demo_seen demo_version
unfolding list_member_int
demo_version-IsOwn = record { own_listed = λ h. cc; own_deleted = λ x h e. cc }

matches-is_visible_example :
    matches
      (λ i t. demo_seen.aborted)
      (row_document demo_version)
      (clause_of demo_seen (codes "uuid") (codes "doc"))
    ≡ is_visible demo_seen demo_version
matches-is_visible_example =
    matches-is_visible demo_seen (codes "uuid") (codes "doc") demo_version demo_version-IsOwn

demo_visible : is_visible demo_seen demo_version ≡ true
unfolding is_visible sees sees_committed holds list_member_int
demo_visible = refl

-- A row of 900's own that 901 tried to delete.
abbrev demo_undeleted : RowVersion
demo_undeleted = record { xmin = 900; cmin = 1; xmax = some 901; cmax = 2; keeps_cmax = true }

demo_undeleted-IsUndeleted : IsUndeleted demo_seen demo_undeleted
unfolding list_member_int
demo_undeleted-IsUndeleted = record {
  own = refl;
  own_listed = refl;
  earlier = refl;
  deleter = 901;
  tried = refl;
  not_mine = refl;
  has_aborted = refl;
}

matches-IsUndeleted_example :
    (is_visible demo_seen demo_undeleted ≡ true)
    × (matches
          (λ i t. demo_seen.aborted)
          (row_document demo_undeleted)
          (clause_of demo_seen (codes "uuid") (codes "doc"))
        ≡ false)
matches-IsUndeleted_example =
    matches-IsUndeleted demo_seen (codes "uuid") (codes "doc") demo_undeleted
      demo_undeleted-IsUndeleted
