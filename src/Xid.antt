-- ===== src/Xid.antt =====
-- src/c/utils/utils.c (convert_xid) and utils.h (ItemPointerToUint64), and the way back that
-- ElasticsearchGetNextItemPointer of src/c/elasticsearch/elasticsearch.c takes.
pub mod Laws
use zombodb.Prelude.{Bool, if◌then◌else◌, ltb, not, ℕ, ◌%◌, ◌&&◌, ◌*◌, ◌+◌, ◌-◌, ◌/◌, ◌==◌, ◌^◌}

abbrev pub u32 : ℕ
u32 = 2 ^ 32

abbrev pub u64 : ℕ
u64 = 2 ^ 64

-- `(hi << 32) | lo` on uint64, for a uint32 `lo`: the two operands share no bit.
unfoldable pub shift_or : ℕ → ℕ → ℕ
shift_or hi lo = hi * u32 % u64 + lo % u32

-- What Postgres' `GetNextXidAndEpoch` stores.
pub record TxidEpoch : Type 0 where
  pub last_xid : ℕ
  pub epoch : ℕ

-- Postgres' tests on 32-bit transaction ids.
pub record XidTests : Type 0 where
  pub is_normal : ℕ → Bool
  pub precedes : ℕ → ℕ → Bool
  pub follows : ℕ → ℕ → Bool

-- The epoch counter is a uint64, so both steps wrap.
unfoldable pub adjust_epoch : XidTests → TxidEpoch → ℕ → ℕ
adjust_epoch t state xid =
    if ltb state.last_xid xid && t.precedes xid state.last_xid
    then (state.epoch + u64 - 1) % u64
    else if ltb xid state.last_xid && t.follows xid state.last_xid
    then (state.epoch + 1) % u64
    else state.epoch

unfoldable pub convert_xid : XidTests → TxidEpoch → ℕ → ℕ
unfolding adjust_epoch shift_or
convert_xid t state xid =
    if not (t.is_normal xid) then xid else shift_or (adjust_epoch t state xid) xid

-- A heap position: a 32-bit block and a 16-bit offset.
pub record ItemPointer : Type 0 where
  pub block : ℕ
  pub offset : ℕ

unfoldable pub ctid_eq : ItemPointer → ItemPointer → Bool
ctid_eq a b = a.block == b.block && a.offset == b.offset

unfoldable pub item_pointer_to_uint64 : ItemPointer → ℕ
unfolding shift_or
item_pointer_to_uint64 ctid = shift_or ctid.block ctid.offset

-- `ItemPointerSet(ctid, (BlockNumber) (c >> 32), (OffsetNumber) c)`.
unfoldable pub uint64_to_item_pointer : ℕ → ItemPointer
uint64_to_item_pointer c = record { block = c / u32 % u32; offset = c % 2 ^ 16 }
