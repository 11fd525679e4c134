-- ===== src/Examples/Searches.antt =====
-- Concrete scrolls.
use Prim.Native.String.{String}
use zombodb.Prelude.{
  Option, WhenOk, [], ap, arith, false, none, ok, refl, some, some-injective, true, ℕ, ◌≡◌,
}
use zombodb.Examples.DemoCurl.{Server, demo_curl}
use zombodb.Json.{Items, array, cons, end, field, get_json_array_length, nil, number, object}
use zombodb.Scroll.{ScrollContext, get_next_item_pointer, read_ctid}
use zombodb.Scroll.Bounds.{IsScroll, Next, get_next_item_pointer-Next}
use zombodb.Scroll.Ctid.{read_ctid-item_pointer_to_uint64}
use zombodb.Scroll.Open.{Search, open_scroll}
use zombodb.Scroll.Started.{IsOpened, open_scroll-IsOpened}
use zombodb.Text.{codes}
use zombodb.Xid.{item_pointer_to_uint64}

abbrev demo_int8in : String → Option ℕ
demo_int8in s = some 4294967297

-- A page of a hit without fields and a hit of the ctid (1,1).
abbrev demo_hits : Items
demo_hits = cons (object end) (
    cons
      (object (
        field "fields" (object (field "zdb_ctid" (array (cons (number "4294967297") nil)) end))
          end))
      nil)

abbrev pub demo_scroll : ScrollContext
demo_scroll = record {
  url = codes "http://localhost:9200/";
  compression_level = 0;
  using_id = false;
  scroll_id = codes "abc";
  has_highlights = false;
  need_score = false;
  total = 2;
  cnt = 0;
  nhits = 2;
  currpos = 0;
  hits = some demo_hits;
}

pub demo_scroll-IsScroll : IsScroll demo_scroll
unfolding get_json_array_length
demo_scroll-IsScroll = record {
  in_page = omega arith;
  page = λ items e. ap get_json_array_length (some-injective e);
  cnt_le = omega arith;
}

abbrev demo_world : Server
demo_world = record { next = 0; running = []; finished = [] }

abbrev demo_search : Search
demo_search = record {
  url = codes "http://localhost:9200/";
  es_index_name = codes "uuid";
  type_name = codes "doc";
  compression_level = 0;
  query_dsl = codes "{\"match_all\":{}}";
  query_limit = 10;
  wants_score = false;
  offset = 3;
  sort_json = none;
  min_score = none;
  use_id = false;
  limit = 0;
  highlights = none;
  extra_fields = [];
}

get_next_item_pointer-Next_example :
    WhenOk
      (λ r. Next demo_scroll r.0 r.1)
      (get_next_item_pointer demo_int8in demo_curl false true demo_scroll demo_world)
get_next_item_pointer-Next_example =
    get_next_item_pointer-Next demo_int8in demo_curl false true demo_scroll demo_world
      demo_scroll-IsScroll

open_scroll-IsOpened_example :
    WhenOk
      (λ r. IsOpened demo_search r.0)
      (open_scroll demo_int8in demo_curl false demo_search demo_world)
open_scroll-IsOpened_example =
    open_scroll-IsOpened demo_int8in demo_curl false demo_search demo_world

demo_digits :
    demo_int8in "4294967297" ≡ some (item_pointer_to_uint64 (record { block = 1; offset = 1 }))
unfolding item_pointer_to_uint64
demo_digits = refl

read_ctid-item_pointer_to_uint64_example :
    read_ctid demo_int8in (object (field "zdb_ctid" (array (cons (number "4294967297") nil)) end))
    ≡ ok (record { block = 1; offset = 1 })
read_ctid-item_pointer_to_uint64_example =
    read_ctid-item_pointer_to_uint64 demo_int8in (record { block = 1; offset = 1 }) "4294967297" end
      nil (omega arith) (omega arith) demo_digits
