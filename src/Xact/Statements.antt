-- ===== src/Xact/Statements.antt =====
-- The statements that zdb_process_utility_hook of src/c/indexam/zdbam.c treats for a transaction's
-- indices in Elasticsearch: DROP and ROLLBACK. What Postgres finds for a dropped object is given.
pub mod Drops
use zombodb.Prelude.{
  Bool, List, Option, Outcome, [], if◌then◌else◌, none, not, ok, some, ◌&&◌, ◌++◌, ◌>>=◌, ◌∷◌,
}
use zombodb.Admin.{index_url}
use zombodb.Curl.{Curl}
use zombodb.Index.{IndexOptions}
use zombodb.Text.{Text}
use zombodb.Xact.{XactState, drop_indices}

-- An index that a DROP reaches.
pub record DropIndex : Type 0 where
  pub is_zombodb : Bool
  pub options : IndexOptions

-- An object of a DROP: one that is missing, a table or a materialized view with its indices, which
-- may be gone, an index, a schema with its ZomboDB indices, and any other.
pub data DropObject : Type 0 where
  not_found : DropObject
  dropped_table : List (Option DropIndex) → DropObject
  dropped_index : DropIndex → DropObject
  dropped_schema : List DropIndex → DropObject
  dropped_other : DropObject

-- The URL of an index that ZomboDB itself has made.
unfoldable pub dropped_url : DropIndex → List Text
dropped_url i = if i.is_zombodb && not i.options.llapi then index_url i.options [] ∷ [] else []

unfoldable pub table_urls : List (Option DropIndex) → List Text
unfolding dropped_url
table_urls [] = []
table_urls (none ∷ indices) = table_urls indices
table_urls (some i ∷ indices) = dropped_url i ++ table_urls indices

unfoldable pub schema_urls : List DropIndex → List Text
unfolding dropped_url
schema_urls [] = []
schema_urls (i ∷ indices) = dropped_url i ++ schema_urls indices

unfoldable pub object_urls : DropObject → List Text
unfolding table_urls schema_urls
object_urls not_found = []
object_urls (dropped_table indices) = table_urls indices
object_urls (dropped_index i) = dropped_url i
object_urls (dropped_schema indices) = schema_urls indices
object_urls dropped_other = []

module _ (c : Curl) where
  -- What a DROP has done when Postgres comes to execute it.
  unfoldable pub before_drop : List DropObject → XactState c → XactState c
  unfolding object_urls
  before_drop [] st = st
  before_drop (o ∷ objects) st =
      before_drop objects (record st { to_drop = st.to_drop ++ object_urls o })

  -- What a ROLLBACK has done then.
  unfoldable pub before_rollback : XactState c → Outcome (XactState c)
  unfolding drop_indices
  before_rollback st =
      drop_indices c st.created_indices_urls st.rest >>= λ n. ok (record st { rest = n })
