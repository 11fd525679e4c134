-- ===== src/Xid/Laws.antt =====
-- What convert_xid and the packing of a ctid into 64 bits guarantee.
use zombodb.Prelude.{arith, true, ℕ, ◌%◌, ◌*◌, ◌+◌, ◌-◌, ◌<◌, ◌^◌, ◌↔◌, ◌≡◌, ◌≤◌}
use zombodb.Xid.{
  ItemPointer, TxidEpoch, XidTests, convert_xid, item_pointer_to_uint64, u32,
  uint64_to_item_pointer,
}

-- How Postgres documents its tests: ids below 3 are special, and two normal ids compare by their
-- signed 32-bit difference.
pub record IsModular (t : XidTests) : Type 0 where
  pub normal : (a : ℕ) → (t.is_normal a ≡ true) ↔ (3 ≤ a)
  pub before : (a b : ℕ) → 3 ≤ a → 3 ≤ b → (t.precedes a b ≡ true) ↔ (2 ^ 31 ≤ (a + u32 - b) % u32)
  pub after :
      (a b : ℕ)
      → 3 ≤ a
      → 3 ≤ b
      → (t.follows a b ≡ true) ↔ ((0 < (a + u32 - b) % u32) × ((a + u32 - b) % u32 < 2 ^ 31))

-- A ctid of a 32-bit block and a 16-bit offset survives the trip through the 64-bit `zdb_ctid`
-- of its document.
pub uint64_to_item_pointer-item_pointer_to_uint64 :
    (ctid : ItemPointer)
    → ctid.block < u32
    → ctid.offset < 2 ^ 16
    → uint64_to_item_pointer (item_pointer_to_uint64 ctid) ≡ ctid
unfolding item_pointer_to_uint64 uint64_to_item_pointer
uint64_to_item_pointer-item_pointer_to_uint64 ctid hb ho = ground arith

-- With Postgres' tests on transaction ids, a 64-bit transaction id less than 2^31 away from the
-- next one is recovered from its lower half, if that is a normal id.
pub convert_xid_recovers :
    (t : XidTests) (state : TxidEpoch) (epoch xid : ℕ)
    → IsModular t
    → 3 ≤ xid
    → xid < u32
    → 3 ≤ state.last_xid
    → state.last_xid < u32
    → epoch < u32
    → state.epoch < u32
    → epoch * u32 + xid < state.epoch * u32 + state.last_xid + 2 ^ 31
    → state.epoch * u32 + state.last_xid < epoch * u32 + xid + 2 ^ 31
    → convert_xid t state xid ≡ epoch * u32 + xid
unfolding convert_xid
convert_xid_recovers t state epoch xid m hn hx hl hl' he he' above below =
    ground
      (arith, m.normal xid, m.before xid state.last_xid hn hl, m.after xid state.last_xid hn hl)
