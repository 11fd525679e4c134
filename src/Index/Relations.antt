-- ===== src/Index/Relations.antt =====
-- The indices of a table, as src/c/utils/utils.c looks for ZomboDB's among them.
use zombodb.Prelude.{
  Bool, Bool-cases, List, Outcome, [], arith, error, false, if◌then◌else◌, inl, inr, none, not, ok,
  refl, some, true, ℕ, ◌&&◌, ◌==◌, ◌||◌, ◌∷◌, ◌≡◌,
}
use zombodb.Index.{IndexOptions}

-- An index of a table; one that cannot be opened counts as another access method's.
pub record IndexEntry : Type 0 where
  pub oid : ℕ
  pub is_zombodb : Bool

-- The oid of the index that is opened.
unfoldable pub find_zombodb_index : List IndexEntry → Outcome ℕ
find_zombodb_index [] = error "Unable to locate zombodb index"
find_zombodb_index (entry ∷ entries) =
    if entry.is_zombodb then ok entry.oid else find_zombodb_index entries

-- `cnt` stands at 0 wherever the loop goes on.
unfoldable pub already_has_zdb_index : List IndexEntry → ℕ → Bool
already_has_zdb_index [] relid = false
already_has_zdb_index (entry ∷ entries) relid =
    if entry.oid == relid
    then already_has_zdb_index entries relid
    else entry.is_zombodb || already_has_zdb_index entries relid

-- zdb_open_index.
unfoldable pub open_index : IndexEntry → IndexOptions → Outcome IndexOptions
open_index entry rel =
    if not entry.is_zombodb then error "not a ZomboDB index" else elim rel.index_name [
      | none ↦ error "missing the 'uuid' property and cannot be used."
      | some name ↦ ok rel
    ]

unfoldable pub holds_zdb_index : ℕ → List IndexEntry → Bool
holds_zdb_index relid [] = false
holds_zdb_index relid (entry ∷ entries) =
    (entry.oid == relid && entry.is_zombodb) || holds_zdb_index relid entries

-- If a ZomboDB index is among a table's indices, and the check for another one that every build makes
-- finds none, then the search for the table's ZomboDB index finds that one.
pub find_zombodb_index-already_has_zdb_index :
    (entries : List IndexEntry) (relid : ℕ)
    → holds_zdb_index relid entries ≡ true
    → already_has_zdb_index entries relid ≡ false
    → find_zombodb_index entries ≡ ok relid
unfolding find_zombodb_index already_has_zdb_index holds_zdb_index
find_zombodb_index-already_has_zdb_index [] relid h k = cc
find_zombodb_index-already_has_zdb_index (entry ∷ entries) relid h k =
    elim (Bool-cases entry.is_zombodb) [
      | inl e ↦ let same : entry.oid ≡ relid = ground (arith, e, h, k) in rw (e, same) refl
      | inr e ↦
          let later : holds_zdb_index relid entries ≡ true = ground (arith, e, h) in
          let none_else : already_has_zdb_index entries relid ≡ false = ground (arith, e, k) in
          rw (e, find_zombodb_index-already_has_zdb_index entries relid later none_else) refl
    ]
