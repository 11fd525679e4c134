-- ===== src/SeqScan.antt =====
-- Sequential scans with the operator of src/c/indexam/seqscan.c: the tables that a query's hits go
-- into, one for each text of a query, and the test of a row's ctid.
pub mod Same
pub mod Operator
use zombodb.Prelude.{
  Bool, List, Option, Outcome, [], false, hang, if◌then◌else◌, in_bounds, is_some, leb, length, ltb,
  none, not, ok, require, some, suc, take, true, zero, ℕ, ◌-◌, ◌==◌, ◌>>=◌, ◌>>◌, ◌∷◌,
}
use zombodb.Admin.{print_name}
use zombodb.Bulk.{text_eq}
use zombodb.Curl.{Curl}
use zombodb.Highlights.{
  HighlightEntry, HighlightTable, highlight_register_callback, save_highlights,
}
use zombodb.Index.Relations.{IndexEntry, find_zombodb_index}
use zombodb.IndexScan.{
  ScanPlan, ScoreEntry, ScoreTable, enter_score, find_score, hit_outputs, scoring_register_callback,
}
use zombodb.Json.{Json}
use zombodb.Query.{JsonText, ZdbQuery, query_text, zdbquery_get_query}
use zombodb.Query.Dsl.{array_to_must_query_dsl, array_to_not_query_dsl, array_to_should_query_dsl}
use zombodb.Query.Searching.{search_of}
use zombodb.Scroll.{ScrollContext, found, get_next_item_pointer}
use zombodb.Scroll.Open.{close_scroll, open_scroll}
use zombodb.Text.{Text}
use zombodb.Xid.{ItemPointer}

abbrev pub cmp_func_entry_keysize : ℕ
cmp_func_entry_keysize = 8192

-- The key of a query's table: its text, with snprintf's room for the end.
unfoldable pub cmp_key : Option Text → Text
cmp_key query_text = take (cmp_func_entry_keysize - 1) (print_name query_text)

-- How the operator is called: an expression `ctid ==> query` in a running query.
pub record OperatorCall : Type 0 where
  pub has_fn_info : Bool
  pub is_op_expr : Bool
  pub has_query : Bool
  pub left_is_var : Bool
  pub left_is_tid : Bool

module _ (l : JsonText) (c : Curl) where
  -- The two tables of a query.
  pub record CtidMap : Type 0 where
    pub scores : ScoreTable l.Real
    pub highlights : HighlightTable

  -- The tables by key, the last entry first; this is what the operator keeps in `fn_extra`.
  unfoldable pub find_map : Text → List (Text × CtidMap) → Option CtidMap
  unfolding text_eq
  find_map key [] = none
  find_map key ((k, ctids) ∷ maps) = if text_eq k key then some ctids else find_map key maps

  unfoldable pub save_ctid : ItemPointer → l.Real × Option Json → CtidMap → Outcome CtidMap
  unfolding enter_score save_highlights
  save_ctid ctid outputs ctids = save_highlights ctid outputs.1 ctids.highlights >>= λ highlights.
      ok (record { scores = enter_score ctid outputs.0 ctids.scores; highlights = highlights })

  -- `while (scroll->cnt < scroll->total)`.
  unfoldable pub ctid_loop :
      Bool → ℕ → ScrollContext → c.World → CtidMap → Outcome (CtidMap × ScrollContext × c.World)
  unfolding get_next_item_pointer hit_outputs save_ctid
  ctid_loop ignore_visibility zero scroll w ctids =
      if ltb scroll.cnt scroll.total then hang else ok (ctids, scroll, w)
  ctid_loop ignore_visibility (suc n) scroll w ctids =
      if leb scroll.total scroll.cnt
      then ok (ctids, scroll, w)
      else (get_next_item_pointer l.int8in c ignore_visibility true scroll w >>= λ r. elim r.0 [
        | none ↦ ok (ctids, r.1, r.2)
        | some hit ↦ (do
          ctid ← found hit.ctid
          outputs ← hit_outputs l c r.1 hit
          ctids' ← save_ctid ctid outputs ctids
          ctid_loop ignore_visibility n r.1 r.2 ctids')
      ])

  unfoldable pub empty_map : CtidMap
  empty_map = record { scores = []; highlights = [] }

  -- The query's tables. The callbacks that it registers for them are left to the state below.
  unfoldable pub create_ctid_map : ScanPlan → ZdbQuery → c.World → Outcome (CtidMap × c.World)
  unfolding search_of open_scroll ctid_loop close_scroll empty_map
  create_ctid_map plan query w = do
    search ←
        search_of l plan.ignore_visibility plan.visibility plan.index query false 0 plan.highlights
          []
    o ← open_scroll l.int8in c plan.ignore_visibility search w
    r ← ctid_loop plan.ignore_visibility o.0.total o.0 o.1 empty_map
    closed ← close_scroll c r.1 r.2
    ok (r.0, closed.1)

  -- `fn_extra`, the server, and the callbacks, which are the numbers of their tables.
  pub record SeqState : Type 0 where
    pub maps : List (Text × CtidMap)
    pub world : c.World
    pub score_entries : List ScoreEntry
    pub highlight_entries : List HighlightEntry

  unfoldable pub add_map : ScanPlan → Text → CtidMap × c.World → SeqState → SeqState
  unfolding scoring_register_callback highlight_register_callback
  add_map plan key made st = record {
    maps = (key, made.0) ∷ st.maps;
    world = made.1;
    score_entries = scoring_register_callback plan.heap_relid (length st.maps) st.score_entries;
    highlight_entries =
        highlight_register_callback plan.heap_relid (length st.maps) st.highlight_entries;
  }

  -- The test with the table for a key, which is made if there is none.
  unfoldable pub test_ctid :
      ScanPlan
      → List IndexEntry
      → ItemPointer
      → ZdbQuery
      → Text
      → SeqState
      → Outcome (Bool × SeqState)
  unfolding find_map create_ctid_map find_zombodb_index add_map find_score
  test_ctid plan indices ctid query key st = elim (find_map key st.maps) [
    | some ctids ↦ ok (is_some (find_score ctid ctids.scores), st)
    | none ↦ find_zombodb_index indices >>= λ index. create_ctid_map plan query st.world >>= λ made.
        ok (is_some (find_score ctid made.0.scores), add_map plan key made st)
  ]

  -- Whether the row is among the query's hits.
  unfoldable pub do_cmpfunc :
      ScanPlan → List IndexEntry → ItemPointer → ZdbQuery → SeqState → Outcome (Bool × SeqState)
  unfolding zdbquery_get_query cmp_key test_ctid
  do_cmpfunc plan indices ctid query st =
      zdbquery_get_query l query >>= λ text. test_ctid plan indices ctid query (cmp_key text) st

  unfoldable pub zdb_tid_cmpfunc :
      ScanPlan
      → List IndexEntry
      → OperatorCall
      → ItemPointer
      → ZdbQuery
      → SeqState
      → Outcome (Bool × SeqState)
  unfolding do_cmpfunc
  zdb_tid_cmpfunc plan indices call ctid query st = do
    require (not (ctid.offset == 0)) "Invalid ItemPointer passed to zombodb comparision function"
    in_bounds call.has_fn_info
    require call.is_op_expr "zdb_tid_cmpfunc() not called as an operator expression"
    require call.has_query "zdb_tid_cmpfunc() called in invalid context"
    require call.left_is_var "lhs of zdb_tid_cmpfunc() is not a Var"
    require call.left_is_tid "lhs of zdb_tid_cmpfunc() is not of type 'tid'"
    do_cmpfunc plan indices ctid query st

  -- `direct` is how DirectFunctionCall2 calls a function.
  unfoldable pub zdb_tid_cmpfunc_array_should :
      ScanPlan
      → List IndexEntry
      → OperatorCall
      → ItemPointer
      → List (Option ZdbQuery)
      → SeqState
      → Outcome (Bool × SeqState)
  unfolding array_to_should_query_dsl zdb_tid_cmpfunc
  zdb_tid_cmpfunc_array_should plan indices direct ctid queries st =
      array_to_should_query_dsl l queries >>= λ query.
      zdb_tid_cmpfunc plan indices direct ctid query st

  unfoldable pub zdb_tid_cmpfunc_array_must :
      ScanPlan
      → List IndexEntry
      → OperatorCall
      → ItemPointer
      → List (Option ZdbQuery)
      → SeqState
      → Outcome (Bool × SeqState)
  unfolding array_to_must_query_dsl zdb_tid_cmpfunc
  zdb_tid_cmpfunc_array_must plan indices direct ctid queries st =
      array_to_must_query_dsl l queries >>= λ query.
      zdb_tid_cmpfunc plan indices direct ctid query st

  unfoldable pub zdb_tid_cmpfunc_array_not :
      ScanPlan
      → List IndexEntry
      → OperatorCall
      → ItemPointer
      → List (Option ZdbQuery)
      → SeqState
      → Outcome (Bool × SeqState)
  unfolding array_to_not_query_dsl zdb_tid_cmpfunc
  zdb_tid_cmpfunc_array_not plan indices direct ctid queries st =
      array_to_not_query_dsl l queries >>= λ query.
      zdb_tid_cmpfunc plan indices direct ctid query st
