-- ===== src/Examples/Contexts.antt =====
-- The states that the concrete runs start from.
use zombodb.Prelude.{
  Bool, List, Option, Returns-of_ok, [], arith, false, leb, ltb, none, ok, refl, some, ℕ, ◌%◌, ◌&&◌,
  ◌+◌, ◌-◌, ◌^◌, ◌∷◌, ◌≡◌,
}
use zombodb.Bulk.{BulkContext, append_current, make_pool}
use zombodb.Bulk.Ownership.{IsWell, append_current-Own}
use zombodb.Bulk.Rows.{bulk_start, choose_name, new_context}
use zombodb.Bulk.Start.{bulk_start-Started}
use zombodb.Curl.{Net, PostDataEntry}
use zombodb.Examples.DemoCurl.{Server, demo_curl}
use zombodb.Index.{IndexOptions, Session}
use zombodb.Rest.{checkout, checkout_batch_pool, free_slot, rest_multi_init}
use zombodb.Rest.Own.{Own}
use zombodb.Text.{codes}
use zombodb.Xid.{XidTests, u32}
use zombodb.Xid.Laws.{IsModular}

abbrev pub demo_before : ℕ → ℕ → Bool
demo_before a b = leb (2 ^ 31) ((a + u32 - b) % u32)

abbrev pub demo_after : ℕ → ℕ → Bool
demo_after a b = ltb 0 ((a + u32 - b) % u32) && ltb ((a + u32 - b) % u32) (2 ^ 31)

abbrev pub demo_tests : XidTests
demo_tests = record { is_normal = leb 3; precedes = demo_before; follows = demo_after }

pub demo_tests-IsModular : IsModular demo_tests
demo_tests-IsModular = record {
  normal = λ a. ground arith;
  before = λ a b ha hb. ground arith;
  after = λ a b ha hb. ground arith;
}

abbrev pub demo_session : ℕ → Session
demo_session xid = record {
  tests = demo_tests;
  next = record { last_xid = 1000; epoch = 1 };
  curr_xid = xid;
}

abbrev pub demo_options : IndexOptions
demo_options = record {
  relid = 1;
  rel_name = codes "idx";
  url = codes "http://localhost:9200/";
  type_name = codes "doc";
  index_name = some (codes "uuid");
  refresh_interval = codes "-1";
  batch_size = 40;
  bulk_concurrency = 2;
  compression_level = 0;
  llapi = false;
  shards = 5;
  replicas = 0;
  alias = none;
  tupdesc = [];
}

abbrev pub demo_world : Server
demo_world = record { next = 0; running = []; finished = [] }

-- Two handles; the first of three buffers is the context's.
abbrev pub demo_entry : PostDataEntry
demo_entry = record { pool_idx = 0; buff = 0; compressed_data = false }

abbrev pub demo_net : List (Option ℕ) → Net demo_curl
demo_net pool = record {
  nhandles = 2;
  slots = free_slot false ∷ free_slot false ∷ [];
  available = 2;
  pool = pool;
  buffers = λ b. [];
  sent = [];
  world = demo_world;
}

abbrev pub demo_context : BulkContext demo_curl
demo_context =
    new_context demo_curl demo_options (codes "uuid") none false
      (demo_entry, demo_net (none ∷ some 1 ∷ some 2 ∷ []))

pub demo_start : bulk_start demo_curl demo_options none none false demo_world ≡ ok demo_context
unfolding bulk_start choose_name rest_multi_init make_pool checkout_batch_pool checkout
demo_start = refl

pub demo_name : choose_name none demo_options.index_name ≡ ok (codes "uuid")
unfolding choose_name
demo_name = refl

pub demo-IsWell : IsWell demo_context
demo-IsWell =
    (Returns-of_ok
      (bulk_start-Started demo_curl demo_options none none false demo_world (codes "uuid")
        (omega arith) demo_name)
      demo_start).well

-- A context with a transaction to mark, and text to send.
abbrev pub demo_dirty : BulkContext demo_curl
demo_dirty = append_current demo_curl (codes "{}") demo_context

pub demo_dirty-Own : Own (some demo_entry) demo_dirty.net
unfolding new_context
demo_dirty-Own = append_current-Own (codes "{}") demo_context demo-IsWell.own
