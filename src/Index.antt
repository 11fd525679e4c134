-- ===== src/Index.antt =====
-- Index options (src/c/indexam/zdb_index_options.h), tuple descriptors, and the session's
-- transaction ids, as far as the code looks at them.
pub mod Options
pub mod Relations
pub mod Urls
use zombodb.Prelude.{Bool, List, Option, [], false, ℕ, ◌==◌, ◌||◌, ◌∷◌}
use zombodb.Text.{Text}
use zombodb.Xid.{TxidEpoch, XidTests}

-- Postgres' oid of the type ::json.
abbrev pub json_oid : ℕ
json_oid = 114

pub record Attribute : Type 0 where
  pub name : Text
  pub type_oid : ℕ
  pub type_mod : ℕ
  pub is_dropped : Bool

abbrev pub TupleDesc : Type 0
TupleDesc = List Attribute

-- tuple_desc_contains_json of src/c/utils/utils.c.
unfoldable pub tuple_desc_contains_json : TupleDesc → Bool
tuple_desc_contains_json [] = false
tuple_desc_contains_json (attr ∷ tupdesc) =
    attr.type_oid == json_oid || tuple_desc_contains_json tupdesc

-- The options of an index. `index_name` is its `uuid` option.
pub record IndexOptions : Type 0 where
  pub relid : ℕ
  pub rel_name : Text
  pub url : Text
  pub type_name : Text
  pub index_name : Option Text
  pub refresh_interval : Text
  pub batch_size : ℕ
  pub bulk_concurrency : ℕ
  pub compression_level : ℕ
  pub llapi : Bool
  pub shards : ℕ
  pub replicas : ℕ
  pub alias : Option Text
  pub tupdesc : TupleDesc

-- What Postgres says about transaction ids; `curr_xid` is GetCurrentTransactionId().
pub record Session : Type 0 where
  pub tests : XidTests
  pub next : TxidEpoch
  pub curr_xid : ℕ
