-- ===== src/Examples/Scans.antt =====
-- Concrete index scans.
use zombodb.Prelude.{
  Ends, List, Outcome, WhenOk, [], false, map, none, ok, refl, some, true, ℕ, ◌>>=◌, ◌∷◌, ◌≡◌,
}
use zombodb.Bulk.{text_eq}
use zombodb.Examples.Contexts.{demo_options, demo_world}
use zombodb.Examples.DemoCurl.{demo_curl, demo_curl-IsLive}
use zombodb.Examples.Searches.{demo_scroll, demo_scroll-IsScroll}
use zombodb.Examples.Vacuums.{demo_json, vacuum_curl}
use zombodb.Functions.{open_query, zdb_query_srf, zdb_query_tids}
use zombodb.Functions.Rows.{srf_rows, zdb_query_srf-zdb_query_tids}
use zombodb.Highlights.{save_highlights}
use zombodb.Index.Relations.{IndexEntry}
use zombodb.IndexScan.{
  ScanPlan, ScanState, amgetbitmap, amrescan, bitmap_loop, close_old, do_search_for_scan,
  hit_highlights, hit_outputs, hit_score, keep_highlights, save_hit, save_score,
  scoring_register_callback, search_for_scan, take_hit,
}
use zombodb.IndexScan.Bitmaps.{amgetbitmap-gather, are_valid, gather}
use zombodb.IndexScan.Liveness.{amgetbitmap-Ends}
use zombodb.IndexScan.Scores.{rescans}
use zombodb.Json.{
  as_bool, as_uint64, end, field, find_key, get_json_array_element_uint64, get_json_object_array,
  get_json_object_bool, get_json_object_string, get_json_object_uint64, json_true, object,
  or_missing,
}
use zombodb.Query.{JsonText, ZdbQuery, zdbquery_get_wants_score}
use zombodb.Query.Dsl.{ScanKey, scan_keys_to_query_dsl, single, strategy_single}
use zombodb.Query.Searching.{search_of}
use zombodb.Rest.{encode, is_failure}
use zombodb.Rest.Single.{reply_error}
use zombodb.Scroll.{get_next_item_pointer}
use zombodb.Scroll.Open.{close_scroll, open_scroll}
use zombodb.Text.{codes, decimal}
use zombodb.Xid.{ItemPointer, uint64_to_item_pointer}

abbrev pub scan_json : JsonText
scan_json = record demo_json { int8in = λ s. some 4294967297 }

abbrev pub demo_plan : ScanPlan
demo_plan = record {
  index = demo_options;
  heap_relid = 7;
  limit = 0;
  highlights = none;
  ignore_visibility = false;
  visibility = record { json = [] };
}

-- A scan that keeps scores, with two entries to look at: one without fields, and a row.
abbrev demo_scan : ScanState scan_json demo_curl
demo_scan = record {
  context = record {
    needs_init = false;
    scroll = some demo_scroll;
    score_lookup = some [];
    highlight_lookup = some [];
    want_scores = true;
    want_highlights = true;
    query = record { json = [] };
  };
  world = demo_world;
  entries = [];
  highlight_entries = [];
}

unfoldable found_rows :
    Outcome (List ItemPointer × ℕ × ScanState scan_json demo_curl) → List ItemPointer × ℕ
found_rows (ok r) = (r.0, r.1)
found_rows _ = ([], 0)

demo_bitmap :
    found_rows (amgetbitmap scan_json demo_curl demo_plan 1 demo_scan)
    ≡ (record { block = 1; offset = 1 } ∷ [], 1)
unfolding found_rows amgetbitmap do_search_for_scan bitmap_loop take_hit get_next_item_pointer
    get_json_object_array as_uint64 hit_outputs hit_score hit_highlights save_hit save_score
    keep_highlights save_highlights or_missing find_key get_json_array_element_uint64
    uint64_to_item_pointer
demo_bitmap = refl

amgetbitmap-gather_example :
    WhenOk
      (λ r.
        are_valid r.0 ≡ true → gather scan_json demo_curl demo_plan 1 2 demo_scan ≡ ok (r.0, r.2))
      (amgetbitmap scan_json demo_curl demo_plan 1 demo_scan)
amgetbitmap-gather_example =
    amgetbitmap-gather scan_json demo_curl demo_plan 1 demo_scan demo_scroll refl refl

amgetbitmap-Ends_example : Ends (amgetbitmap scan_json demo_curl demo_plan 1 demo_scan)
amgetbitmap-Ends_example =
    amgetbitmap-Ends scan_json demo_curl demo_curl-IsLive demo_plan 1 demo_scan demo_scroll refl
      refl demo_scroll-IsScroll

-- An index with its options, and a query for everything.
abbrev pub demo_entry_zdb : IndexEntry
demo_entry_zdb = record { oid = 1; is_zombodb = true }

abbrev pub demo_query_all : ZdbQuery
demo_query_all = record { json = codes "{}" }

-- A scan that asks for scores, started twice.
abbrev scored_json : JsonText
scored_json = record scan_json {
  parse = λ t. some (object (field "query_dsl" (object end) (field "wants_score" json_true end)));
}

abbrev unstarted_scan : ScanState scored_json vacuum_curl
unstarted_scan = record {
  context = record {
    needs_init = true;
    scroll = none;
    score_lookup = none;
    highlight_lookup = none;
    want_scores = false;
    want_highlights = false;
    query = demo_query_all;
  };
  world = demo_world;
  entries = [];
  highlight_entries = [];
}

abbrev demo_keys : List ScanKey
demo_keys =
    record { search_array = false; strategy = strategy_single; argument = single demo_query_all }
    ∷ []

-- Both starts return, and the callback is registered twice.
unfoldable callbacks_of : Outcome (ScanState scored_json vacuum_curl) → List (List ℕ)
callbacks_of (ok st) = map (λ e. e.callbacks) st.entries
callbacks_of _ = []

demo_rescans :
    callbacks_of (rescans scored_json vacuum_curl 2 demo_plan 1 demo_keys unstarted_scan)
    ≡ (1 ∷ 1 ∷ []) ∷ []
unfolding callbacks_of rescans amrescan do_search_for_scan search_for_scan scan_keys_to_query_dsl
    zdbquery_get_wants_score find_key scoring_register_callback search_of open_scroll close_old
    or_missing as_uint64 close_scroll codes get_json_object_string get_json_object_uint64 encode
    reply_error decimal as_bool get_json_object_bool is_failure text_eq get_json_object_array
demo_rescans = refl

zdb_query_srf-zdb_query_tids_example :
    WhenOk
      (λ o.
        (zdb_query_srf scan_json demo_curl true demo_query_all demo_entry_zdb demo_options
            demo_query_all demo_world
          >>= λ r. srf_rows scan_json demo_curl true demo_query_all r o.0.total)
        ≡ zdb_query_tids scan_json demo_curl true demo_query_all demo_entry_zdb demo_options
            demo_query_all demo_world)
      (open_query scan_json demo_curl true demo_query_all demo_entry_zdb demo_options demo_query_all
        demo_world)
zdb_query_srf-zdb_query_tids_example =
    zdb_query_srf-zdb_query_tids scan_json demo_curl true demo_query_all demo_entry_zdb demo_options
      demo_query_all demo_world
