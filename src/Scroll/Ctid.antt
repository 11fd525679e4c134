-- ===== src/Scroll/Ctid.antt =====
-- The ctid of a hit.
use Prim.Native.String.{String}
use zombodb.Prelude.{Option, ap, ok, refl, some, ℕ, ◌<◌, ◌^◌, ◌≡◌}
use zombodb.Json.{
  Fields, Items, array, as_array, as_uint64, cons, field, find_key, get_json_array_element_object,
  get_json_array_element_uint64, get_json_object_array, get_json_object_object, lookup_key, number,
  object, or_missing,
}
use zombodb.Scroll.{read_ctid}
use zombodb.Xid.{ItemPointer, item_pointer_to_uint64, u32}
use zombodb.Xid.Laws.{uint64_to_item_pointer-item_pointer_to_uint64}

module _ (int8in : String → Option ℕ) where
  as_uint64-number :
      (digits : String) (v : ℕ) → int8in digits ≡ some v → as_uint64 int8in (number digits) ≡ ok v
  unfolding as_uint64
  as_uint64-number digits v e = rw (e, as_uint64) refl

  -- The ctid that a scroll reads from a hit's `zdb_ctid` is the one that the row was indexed with, if
  -- it has a 32-bit block and a 16-bit offset and `int8in` reads the 64-bit number back: whatever
  -- other fields stand behind it.
  pub read_ctid-item_pointer_to_uint64 :
      (ctid : ItemPointer) (digits : String) (fields : Fields) (rest : Items)
      → ctid.block < u32
      → ctid.offset < 2 ^ 16
      → int8in digits ≡ some (item_pointer_to_uint64 ctid)
      → read_ctid int8in (object (field "zdb_ctid" (array (cons (number digits) rest)) fields))
        ≡ ok ctid
  unfolding read_ctid get_json_object_array get_json_object_object lookup_key find_key or_missing
      as_array get_json_array_element_uint64 get_json_array_element_object
  read_ctid-item_pointer_to_uint64 ctid digits fields rest hb ho e =
      rw (as_uint64-number digits _ e)
        (ap ok (uint64_to_item_pointer-item_pointer_to_uint64 ctid hb ho))
