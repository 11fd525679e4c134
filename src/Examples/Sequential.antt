-- ===== src/Examples/Sequential.antt =====
-- Concrete sequential scans.
use zombodb.Prelude.{WhenOk, [], false, none, ok, refl, some, true, ◌∷◌, ◌≡◌}
use zombodb.Examples.Contexts.{demo_world}
use zombodb.Examples.DemoCurl.{demo_curl}
use zombodb.Examples.Scans.{demo_entry_zdb, demo_plan, demo_query_all, scan_json}
use zombodb.IndexScan.{ScanState, amgetbitmap}
use zombodb.Query.{zdbquery_get_query}
use zombodb.SeqScan.{SeqState, cmp_key, do_cmpfunc, find_map}
use zombodb.SeqScan.Operator.{IsFresh, do_cmpfunc-amgetbitmap}
use zombodb.SeqScan.Same.{has_ctid}
use zombodb.Text.{codes}
use zombodb.Xid.{ItemPointer}

abbrev demo_seq : SeqState scan_json demo_curl
demo_seq = record { maps = []; world = demo_world; score_entries = []; highlight_entries = [] }

abbrev fresh_scan : ScanState scan_json demo_curl
fresh_scan = record {
  context = record {
    needs_init = true;
    scroll = none;
    score_lookup = none;
    highlight_lookup = none;
    want_scores = false;
    want_highlights = false;
    query = demo_query_all;
  };
  world = demo_world;
  entries = [];
  highlight_entries = [];
}

abbrev demo_row : ItemPointer
demo_row = record { block = 1; offset = 1 }

abbrev other_row : ItemPointer
other_row = record { block = 1; offset = 2 }

fresh_scan-IsFresh : IsFresh scan_json demo_curl demo_query_all demo_world fresh_scan
fresh_scan-IsFresh = record { needed = refl; asked = refl; closed = refl; served = refl }

demo_query_text : zdbquery_get_query scan_json demo_query_all ≡ ok (some (codes "{}"))
unfolding zdbquery_get_query
demo_query_text = refl

no_table : find_map scan_json demo_curl (cmp_key (some (codes "{}"))) [] ≡ none
unfolding find_map
no_table = refl

do_cmpfunc-amgetbitmap_example :
    WhenOk
      (λ r.
        WhenOk
          (λ s.
            WhenOk
              (λ b. (r.0 ≡ has_ctid demo_row b.0) × (s.0 ≡ has_ctid other_row b.0) × (s.1 ≡ r.1))
              (amgetbitmap scan_json demo_curl demo_plan 1 fresh_scan))
          (do_cmpfunc scan_json demo_curl demo_plan
            (demo_entry_zdb ∷ [])
            other_row
            demo_query_all
            r.1))
      (do_cmpfunc scan_json demo_curl demo_plan
        (demo_entry_zdb ∷ [])
        demo_row
        demo_query_all
        demo_seq)
do_cmpfunc-amgetbitmap_example =
    do_cmpfunc-amgetbitmap scan_json demo_curl demo_plan 1 (demo_entry_zdb ∷ []) demo_query_all
      (some (codes "{}")) demo_seq fresh_scan demo_row other_row refl demo_query_text no_table
      fresh_scan-IsFresh
