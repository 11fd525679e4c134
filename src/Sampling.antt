-- ===== src/Sampling.antt =====
-- The table samplers of src/c/tablesamplers/common.c: the sample that an aggregate's response holds,
-- and the blocks and tuples that Postgres' sample scan asks for. The estimate of the sample's size is
-- left out.
pub mod Buckets
pub mod Rows
use Prim.Native.String.{String}
use zombodb.Prelude.{
  Option, Outcome, false, if◌then◌else◌, none, ok, some, true, ℕ, ◌%◌, ◌+◌, ◌/◌, ◌==◌, ◌>>=◌, ◌>>◌,
  ◌^◌,
}
use zombodb.Json.{
  Items, Json, get_json_array_element_object, get_json_array_length, get_json_object_array,
  get_json_object_object, get_json_object_uint64,
}
use zombodb.Scroll.{found}
use zombodb.Xid.{u32}

abbrev pub invalid_block_number : ℕ
invalid_block_number = 4294967295

abbrev pub invalid_offset_number : ℕ
invalid_offset_number = 0

-- ZDBTableSampleContext.
pub record SampleContext : Type 0 where
  pub nelems : ℕ
  pub currelem : ℕ
  pub buckets : Option Items
  pub block : ℕ

-- A member of an object, if there is an object and it has it.
unfoldable pub member_of : Option Json → String → Outcome (Option Json)
unfolding get_json_object_object
member_of none key = ok none
member_of (some j) key = get_json_object_object j key true

unfoldable pub sample_of : Option Items → SampleContext
unfolding get_json_array_length
sample_of none = record { nelems = 0; currelem = 0; buckets = none; block = invalid_block_number }
sample_of (some items) = record {
  nelems = get_json_array_length items;
  currelem = 0;
  buckets = some items;
  block = invalid_block_number;
}

unfoldable pub buckets_of : Option Json → Option Json → Outcome (Option Items)
unfolding get_json_object_array
buckets_of none sub_agg = ok none
buckets_of (some the_agg) none = get_json_object_array the_agg "buckets" true
buckets_of (some the_agg) (some sub_agg) = get_json_object_array sub_agg "buckets" true

-- `json` is the parsed response.
unfoldable pub make_table_sample_context : Json → Outcome SampleContext
unfolding member_of sample_of buckets_of
make_table_sample_context json = do
  aggregations ← member_of (some json) "aggregations"
  the_agg ← member_of aggregations "the_agg"
  sub_agg ← member_of the_agg "sub_agg"
  buckets ← buckets_of the_agg sub_agg
  ok (sample_of buckets)

module _ (int8in : String → Option ℕ) where
  -- The ctid of the current bucket.
  unfoldable pub current_ctid : SampleContext → Outcome ℕ
  unfolding get_json_array_element_object get_json_object_uint64
  current_ctid context = found context.buckets >>= λ items.
      get_json_array_element_object items context.currelem >>= λ elem.
      get_json_object_uint64 int8in elem "key" false

  unfoldable pub next_sample_block : SampleContext → Outcome (ℕ × SampleContext)
  unfolding current_ctid
  next_sample_block context =
      if context.currelem == context.nelems
      then ok (invalid_block_number, context)
      else (current_ctid context >>= λ ctid.
          ok (ctid / u32 % u32, record context { block = ctid / u32 % u32 }))

  unfoldable pub next_sample_tuple : SampleContext → Outcome (ℕ × SampleContext)
  unfolding current_ctid
  next_sample_tuple context =
      if context.currelem == context.nelems
      then ok (invalid_offset_number, context)
      else (current_ctid context >>= λ ctid.
          if context.block == ctid / u32 % u32
          then ok (ctid % 2 ^ 16, record context { currelem = context.currelem + 1 })
          else ok (invalid_offset_number, context))
