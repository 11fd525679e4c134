-- ===== src/Examples/Samples.antt =====
-- Concrete samples, and the highlights of a hit.
use Prim.Native.String.{String}
use zombodb.Prelude.{
  Option, WhenOk, [], arith, length, none, ok, refl, replicate, some, true, ℕ, ◌*◌, ◌+◌, ◌<◌, ◌>>=◌,
  ◌∷◌, ◌≡◌, ◌≤◌,
}
use zombodb.Bulk.{text_eq}
use zombodb.Highlights.{
  HighlightKey, asked_field, element_strings, enter_highlights, find_highlights, fragments,
  highlight_field_max_length, highlight_key_eq, name_datalen, save_fields, save_highlights,
  saved_key,
}
use zombodb.Highlights.Saved.{after_save, save_highlights-find, save_highlights-long}
use zombodb.Json.{
  Items, Json, array, as_array, as_uint64, cons, element_string, end, field, find_key,
  get_json_array_element_object, get_json_array_element_string, get_json_array_length,
  get_json_object_object, get_json_object_uint64, lookup_key, nil, number, object, or_missing,
  string, uint64_or_zero,
}
use zombodb.Sampling.{current_ctid, next_sample_block, next_sample_tuple, sample_of}
use zombodb.Sampling.Buckets.{are_rows, bucket_ctids, sample_scan}
use zombodb.Sampling.Rows.{sample_scan-bucket_ctids}
use zombodb.Text.{Text, codes}
use zombodb.Xid.{ItemPointer, ctid_eq}

-- Every number reads as the ctid (1,1).
unfoldable one_ctid : String → Option ℕ
one_ctid s = some 4294967297

abbrev demo_buckets : Items
demo_buckets =
    cons (object (field "key" (number "4294967297") end))
      (cons (object (field "key" (number "4294967297") end)) nil)

sample_scan-bucket_ctids_example :
    WhenOk
      (λ ctids.
        are_rows ctids ≡ true
        → sample_scan one_ctid
            (3 * get_json_array_length demo_buckets + 2)
            none
            (sample_of (some demo_buckets))
          ≡ ok ctids)
      (bucket_ctids one_ctid demo_buckets)
sample_scan-bucket_ctids_example = sample_scan-bucket_ctids one_ctid demo_buckets

demo_sample :
    sample_scan one_ctid 8 none (sample_of (some demo_buckets))
    ≡ ok (record { block = 1; offset = 1 } ∷ record { block = 1; offset = 1 } ∷ [])
unfolding sample_scan sample_of next_sample_block next_sample_tuple current_ctid
    get_json_array_length get_json_array_element_object get_json_object_uint64 or_missing find_key
    uint64_or_zero as_uint64 one_ctid lookup_key get_json_object_object
demo_sample = refl

abbrev demo_highlight : Option Json
demo_highlight = some (object (field "title" (array (cons (string "a <em>beer</em>") nil)) end))

abbrev demo_row : ItemPointer
demo_row = record { block = 1; offset = 1 }

abbrev title_key : HighlightKey
title_key = record { ctid = demo_row; field_data = codes "title" }

save_highlights-find_example :
    WhenOk
      (λ table.
        find_highlights title_key table
        ≡ after_save demo_row demo_highlight title_key (find_highlights title_key []))
      (save_highlights demo_row demo_highlight [])
save_highlights-find_example = save_highlights-find demo_row demo_highlight title_key []

demo_saved :
    (save_highlights demo_row demo_highlight [] >>= λ table. ok (find_highlights title_key table))
    ≡ ok (some (codes "a <em>beer</em>" ∷ []))
unfolding save_highlights save_fields fragments as_array element_strings get_json_array_length
    get_json_array_element_string get_json_array_element_object element_string find_highlights
    enter_highlights saved_key highlight_key_eq ctid_eq text_eq codes
demo_saved = refl

-- A field with a name of 65 bytes.
abbrev long_name : Text
long_name = replicate 65 b'f'

save_highlights-long_example :
    WhenOk
      (λ table.
        find_highlights (record { ctid = demo_row; field_data = asked_field long_name }) table
        ≡ find_highlights (record { ctid = demo_row; field_data = asked_field long_name }) [])
      (save_highlights demo_row demo_highlight [])
save_highlights-long_example =
    save_highlights-long demo_row demo_row demo_highlight long_name [] longer bounded
  where
    longer : name_datalen < length long_name
    longer = omega arith

    bounded : length long_name ≤ highlight_field_max_length
    bounded = omega arith
