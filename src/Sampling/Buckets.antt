-- ===== src/Sampling/Buckets.antt =====
-- The buckets of a sample, and what one call reads of them.
use Prim.Native.String.{String}
use zombodb.Prelude.{
  ==_refl, Bool, List, Option, Outcome, WhenOk, WhenOk-bind, [], ap, arith, false, get_elem?, hang,
  if◌then◌else◌, length, none, not, ok, refl, returned, some, suc, true, zero, ℕ, ◌%◌, ◌&&◌, ◌+◌,
  ◌/◌, ◌==◌, ◌>>=◌, ◌^◌, ◌∙◌, ◌∷◌, ◌≡◌,
}
use zombodb.Json.{
  Items, Json, cons, get_json_array_element_object, get_json_array_length, get_json_object_uint64,
  nil,
}
use zombodb.Sampling.{
  SampleContext, current_ctid, invalid_block_number, invalid_offset_number, next_sample_block,
  next_sample_tuple,
}
use zombodb.Vacuum.Aborted.{outcome_eq}
use zombodb.Xid.{ItemPointer, u32, uint64_to_item_pointer}

unfoldable pub are_rows : List ItemPointer → Bool
are_rows [] = true
are_rows (ctid ∷ ctids) =
    not (ctid.offset == invalid_offset_number)
    && (not (ctid.block == invalid_block_number) && are_rows ctids)

-- The key of a bucket, as a ctid.
pub record Read (key : Outcome ℕ) (ctid : ItemPointer) : Type 0 where
  pub value : ℕ
  pub read : key ≡ ok value
  pub same : uint64_to_item_pointer value ≡ ctid

module _ (int8in : String → Option ℕ) where
  -- The calls that Postgres documents for a table sampling method: for a block, then for tuples of that
  -- block until there is none, and so on until there is no block. `block` is the block asked for last.
  unfoldable pub sample_scan : ℕ → Option ℕ → SampleContext → Outcome (List ItemPointer)
  sample_scan zero block context = hang
  sample_scan (suc n) none context = next_sample_block int8in context >>= λ r.
      if r.0 == invalid_block_number then ok [] else sample_scan n (some r.0) r.1
  sample_scan (suc n) (some block) context = next_sample_tuple int8in context >>= λ r.
      if r.0 == invalid_offset_number
      then sample_scan n none r.1
      else (sample_scan n (some block) r.1 >>= λ rows.
          ok (record { block = block; offset = r.0 } ∷ rows))

  -- The ctid of a bucket.
  unfoldable pub bucket_ctid : Json → Outcome ItemPointer
  bucket_ctid elem =
      get_json_object_uint64 int8in elem "key" false >>= λ v. ok (uint64_to_item_pointer v)

  unfoldable pub bucket_ctids : Items → Outcome (List ItemPointer)
  unfolding bucket_ctid
  bucket_ctids nil = ok []
  bucket_ctids (cons x items) =
      bucket_ctid x >>= λ ctid. bucket_ctids items >>= λ ctids. ok (ctid ∷ ctids)

  unfoldable pub key_at : Items → ℕ → Outcome ℕ
  key_at items i = get_json_array_element_object items i >>= λ elem.
      get_json_object_uint64 int8in elem "key" false

  pub key_at-bucket_ctids :
      (items : Items)
      → WhenOk
          (λ ctids.
            length ctids ≡ get_json_array_length items
            × ((i : ℕ) (ctid : ItemPointer)
                → get_elem? ctids i ≡ some ctid
                → Read (key_at items i) ctid))
          (bucket_ctids items)
  unfolding bucket_ctids bucket_ctid key_at get_json_array_length get_json_array_element_object
  key_at-bucket_ctids nil = returned (refl, λ i ctid h. cc)
  key_at-bucket_ctids (cons x items) =
      WhenOk-bind
        (WhenOk-bind (outcome_eq (get_json_object_uint64 int8in x "key" false))
          λ v e. returned (record { value = v; read = e; same = refl }))
        λ ctid (r : Read (get_json_object_uint64 int8in x "key" false) ctid).
          WhenOk-bind (key_at-bucket_ctids items)
            λ ctids k. returned (ap suc k.0, at ctid ctids r k.1)
    where
      at :
          (ctid : ItemPointer) (ctids : List ItemPointer)
          → Read (get_json_object_uint64 int8in x "key" false) ctid
          → ((i : ℕ) (c : ItemPointer) → get_elem? ctids i ≡ some c → Read (key_at items i) c)
          → (i : ℕ) (c : ItemPointer) → get_elem? (ctid ∷ ctids) i ≡ some c
          → Read (key_at (cons x items) i) c
      at ctid ctids r k zero c h = record { value = r.value; read = r.read; same = r.same ∙ cc }
      at ctid ctids r k (suc i) c h = k i c h

  -- A sample with these buckets, at the bucket `i` and in the block `b`.
  unfoldable pub at_bucket : Items → ℕ → ℕ → SampleContext
  at_bucket items i b = record {
    nelems = get_json_array_length items;
    currelem = i;
    buckets = some items;
    block = b;
  }

  module _ (items : Items) (i b : ℕ) where
    pub tuple_at_end :
        i ≡ get_json_array_length items
        → next_sample_tuple int8in (at_bucket items i b)
          ≡ ok (invalid_offset_number, at_bucket items i b)
    unfolding next_sample_tuple at_bucket
    tuple_at_end e = rw (e, ==_refl (get_json_array_length items)) refl

    pub block_at_end :
        i ≡ get_json_array_length items
        → next_sample_block int8in (at_bucket items i b)
          ≡ ok (invalid_block_number, at_bucket items i b)
    unfolding next_sample_block at_bucket
    block_at_end e = rw (e, ==_refl (get_json_array_length items)) refl

    module _ (ctid : ItemPointer) (r : Read (key_at items i) ctid)
        (more : (i == get_json_array_length items) ≡ false) where
      same_block : r.value / u32 % u32 ≡ ctid.block
      unfolding uint64_to_item_pointer
      same_block = ap (λ (p : ItemPointer). p.block) r.same

      same_offset : r.value % 2 ^ 16 ≡ ctid.offset
      unfolding uint64_to_item_pointer
      same_offset = ap (λ (p : ItemPointer). p.offset) r.same

      pub next_block :
          next_sample_block int8in (at_bucket items i b)
          ≡ ok (ctid.block, at_bucket items i ctid.block)
      unfolding next_sample_block at_bucket current_ctid key_at
      next_block = rw (more, r.read, same_block) refl

      next_tuple :
          (b == ctid.block) ≡ true
          → next_sample_tuple int8in (at_bucket items i b)
            ≡ ok (ctid.offset, at_bucket items (i + 1) b)
      unfolding next_sample_tuple at_bucket current_ctid key_at
      next_tuple e = rw (more, r.read, same_block, same_offset, e) refl

      pub other_block :
          (b == ctid.block) ≡ false
          → next_sample_tuple int8in (at_bucket items i b)
            ≡ ok (invalid_offset_number, at_bucket items i b)
      unfolding next_sample_tuple at_bucket current_ctid key_at
      other_block e = rw (more, r.read, same_block, e) refl

      -- A row of the block that the scan is in.
      pub take_row :
          (f : ℕ)
          → (b == ctid.block) ≡ true
          → (ctid.offset == invalid_offset_number) ≡ false
          → sample_scan (suc f) (some b) (at_bucket items i b)
            ≡ (sample_scan f (some b) (at_bucket items (i + 1) b) >>= λ rows. ok (ctid ∷ rows))
      unfolding sample_scan
      take_row f e valid =
          let same : b ≡ ctid.block = ground (arith, e) in
          rw (next_tuple e, valid)
            (ap
              (λ block. sample_scan f (some b) (at_bucket items (i + 1) b) >>= λ rows.
                ok (record { block = block; offset = ctid.offset } ∷ rows))
              same)
