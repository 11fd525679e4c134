-- ===== src/Sampling/Rows.antt =====
-- The rows of a sample scan.
use Prim.Native.String.{String}
use zombodb.Prelude.{
  ==_refl, Bool-cases, List, Option, WhenOk, WhenOk-mono, [], arith, false, get_elem?, inl, inr,
  length, none, ok, refl, some, subst, suc, true, zero, ℕ, ◌*◌, ◌+◌, ◌==◌, ◌>>=◌, ◌∙◌, ◌∷◌, ◌≡◌,
  ◌≤◌,
}
use zombodb.Json.{Items, get_json_array_length}
use zombodb.Sampling.{invalid_block_number, invalid_offset_number, sample_of}
use zombodb.Sampling.Buckets.{
  Read, are_rows, at_bucket, block_at_end, bucket_ctids, key_at, key_at-bucket_ctids, next_block,
  other_block, sample_scan, take_row, tuple_at_end,
}
use zombodb.Xid.{ItemPointer}

module _ (int8in : String → Option ℕ) where
  -- The first row of the next block.
  enter_block :
      (items : Items) (i b : ℕ) (ctid : ItemPointer)
      → Read (key_at int8in items i) ctid
      → (i == get_json_array_length items) ≡ false
      → (ctid.offset == invalid_offset_number) ≡ false
      → (ctid.block == invalid_block_number) ≡ false
      → (f : ℕ)
      → sample_scan int8in (suc (suc f)) none (at_bucket int8in items i b) ≡ (
          sample_scan int8in f (some ctid.block) (at_bucket int8in items (i + 1) ctid.block)
          >>= λ rows. ok (ctid ∷ rows))
  unfolding sample_scan
  enter_block items i b ctid r more valid known f =
      rw (next_block int8in items i b ctid r more, known)
        (take_row int8in items i ctid.block ctid r more f (==_refl ctid.block) valid)

  scan_ends :
      (items : Items) (i b f : ℕ)
      → i ≡ get_json_array_length items
      → 2 ≤ f
      → sample_scan int8in f (some b) (at_bucket int8in items i b) ≡ ok []
  unfolding sample_scan
  scan_ends items i b zero e h = absurd (omega arith)
  scan_ends items i b (suc zero) e h = absurd (omega arith)
  scan_ends items i b (suc (suc f)) e h =
      rw (tuple_at_end int8in items i b e, block_at_end int8in items i b e) refl

  -- The buckets from `i` on hold these ctids.
  record Left (items : Items) (i : ℕ) (ctids : List ItemPointer) : Type 0 where
    counted : i + length ctids ≡ get_json_array_length items
    reads :
        (j : ℕ) (ctid : ItemPointer)
        → get_elem? ctids j ≡ some ctid
        → Read (key_at int8in items (i + j)) ctid
    valid : are_rows ctids ≡ true

  module _ (items : Items) (i : ℕ) (ctid : ItemPointer) (ctids : List ItemPointer)
      (left : Left items i (ctid ∷ ctids)) where
    first-Read : Read (key_at int8in items i) ctid
    first-Read =
        subst (λ j. Read (key_at int8in items j) ctid) (omega arith) (left.reads 0 ctid refl)

    has_more : (i == get_json_array_length items) ≡ false
    has_more =
        let n : i + length (ctid ∷ ctids) ≡ get_json_array_length items = left.counted in
        ground arith

    has_offset : (ctid.offset == invalid_offset_number) ≡ false
    unfolding are_rows
    has_offset = ground (arith, left.valid)

    has_block : (ctid.block == invalid_block_number) ≡ false
    unfolding are_rows
    has_block = ground (arith, left.valid)

    others-Left : Left items (i + 1) ctids
    unfolding are_rows
    others-Left = record {
      counted = omega (arith, left.counted);
      reads = λ j c h.
          subst (λ n. Read (key_at int8in items n) c) (omega arith) (left.reads (suc j) c h);
      valid = ground (arith, left.valid);
    }

  scan_rows :
      (items : Items) (ctids : List ItemPointer) (i b f : ℕ)
      → Left items i ctids
      → 3 * length ctids + 2 ≤ f
      → sample_scan int8in f (some b) (at_bucket int8in items i b) ≡ ok ctids
  unfolding sample_scan
  scan_rows items [] i b f left h =
      scan_ends items i b f (omega (arith, left.counted)) (omega arith)
  scan_rows items (c ∷ ctids) i b zero left h = absurd (omega arith)
  scan_rows items (c ∷ ctids) i b (suc zero) left h = absurd (omega arith)
  scan_rows items (c ∷ ctids) i b (suc (suc zero)) left h = absurd (omega arith)
  scan_rows items (c ∷ ctids) i b (suc (suc (suc f))) left h =
      let r = first-Read items i c ctids left in
      let more = has_more items i c ctids left in
      let valid = has_offset items i c ctids left in
      let later = others-Left items i c ctids left in
      elim (Bool-cases (b == c.block)) [
        | inl e ↦
            take_row int8in items i b c r more (suc (suc f)) e valid
            ∙ rw (scan_rows items ctids (i + 1) b (suc (suc f)) later (omega arith)) refl
        | inr e ↦ rw (other_block int8in items i b c r more e) (
            enter_block items i b c r more valid (has_block items i c ctids left) f
            ∙ rw (scan_rows items ctids (i + 1) c.block f later (omega arith)) refl)
      ]

  scan_all :
      (items : Items) (ctids : List ItemPointer) (i b f : ℕ)
      → Left items i ctids
      → 3 * length ctids + 2 ≤ f
      → sample_scan int8in f none (at_bucket int8in items i b) ≡ ok ctids
  unfolding sample_scan
  scan_all items ctids i b zero left h = absurd (omega arith)
  scan_all items ctids i b (suc zero) left h = absurd (omega arith)
  scan_all items [] i b (suc (suc f)) left h =
      rw (block_at_end int8in items i b (omega (arith, left.counted))) refl
  scan_all items (c ∷ ctids) i b (suc (suc f)) left h =
      enter_block items i b c (first-Read items i c ctids left) (has_more items i c ctids left)
        (has_offset items i c ctids left) (has_block items i c ctids left) f
      ∙ rw
          (scan_rows items ctids (i + 1) c.block f (others-Left items i c ctids left) (omega arith))
          refl

  -- If the key of every bucket of a response reads as a number, and none of the numbers is that of an
  -- invalid block or an invalid offset, then to ask for a block and then for its tuples until there is
  -- none, and so on until there is no block, ends after at most three calls for each bucket and two
  -- more, and gives the ctid of each bucket once, in the buckets' order.
  pub sample_scan-bucket_ctids :
      (items : Items)
      → WhenOk
          (λ ctids.
            are_rows ctids ≡ true
            → sample_scan int8in (3 * get_json_array_length items + 2) none (sample_of (some items))
              ≡ ok ctids)
          (bucket_ctids int8in items)
  unfolding sample_of at_bucket
  sample_scan-bucket_ctids items = WhenOk-mono (key_at-bucket_ctids int8in items) λ ctids k v.
      scan_all items ctids 0 invalid_block_number _
        (record {
          counted = omega (arith, k.0);
          reads = λ j c h. subst (λ n. Read (key_at int8in items n) c) (omega arith) (k.1 j c h);
          valid = v;
        })
        (omega (arith, k.0))
