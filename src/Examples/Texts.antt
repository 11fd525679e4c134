-- ===== src/Examples/Texts.antt =====
-- Concrete ids, texts and JSON values.
use zombodb.Prelude.{arith, error, ok, ◌*◌, ◌++◌, ◌+◌, ◌∷◌, ◌≡◌, ◌⊎◌}
use zombodb.Examples.Contexts.{demo_tests, demo_tests-IsModular}
use zombodb.Text.{Text, codes, strip_json_ending}
use zombodb.Text.Edits.{NoBrace, strip_json_ending_lem}
use zombodb.Xid.{convert_xid, item_pointer_to_uint64, u32, uint64_to_item_pointer}
use zombodb.Xid.Laws.{convert_xid_recovers, uint64_to_item_pointer-item_pointer_to_uint64}

convert_xid_recovers_example :
    convert_xid demo_tests (record { last_xid = 1000; epoch = 1 }) 4294967000 ≡ 0 * u32 + 4294967000
convert_xid_recovers_example =
    convert_xid_recovers demo_tests (record { last_xid = 1000; epoch = 1 }) 0 4294967000
      demo_tests-IsModular (omega arith) (omega arith) (omega arith) (omega arith) (omega arith)
      (omega arith) (omega arith) (omega arith)

uint64_to_item_pointer-item_pointer_to_uint64_example :
    uint64_to_item_pointer (item_pointer_to_uint64 (record { block = 70000; offset = 12 }))
    ≡ record { block = 70000; offset = 12 }
uint64_to_item_pointer-item_pointer_to_uint64_example =
    uint64_to_item_pointer-item_pointer_to_uint64 (record { block = 70000; offset = 12 })
      (omega arith) (omega arith)

strip_json_ending_lem_example :
    (NoBrace (codes "\"a\":1}")
      × (strip_json_ending (b'{' ∷ codes "\"a\":1}") ≡ error "improper JSON format"))
    ⊎ ((head : Text) × (tail : Text) × (codes "\"a\":1}" ≡ head ++ (b'}' ∷ tail))
        × NoBrace tail
        × (strip_json_ending (b'{' ∷ codes "\"a\":1}") ≡ ok (b'{' ∷ head ++ (b' ' ∷ tail))))
strip_json_ending_lem_example = strip_json_ending_lem b'{' (codes "\"a\":1}")
