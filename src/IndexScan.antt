-- ===== src/IndexScan.antt =====
-- Index scans: amrescan, do_search_for_scan, amgettuple, amgetbitmap and amendscan of
-- src/c/indexam/zdbam.c, with the tables of scores of src/c/scoring/scoring.c and of highlights. The
-- limit and the highlights that a scan asks for, which are read off Postgres' plan trees, are arguments.
pub mod Bitmaps
pub mod Scores
pub mod Kept
pub mod Liveness
use zombodb.Prelude.{
  Bool, List, Option, Outcome, [], false, fault, hang, if◌then◌else◌, is_some, leb, length, ltb,
  none, not, ok, require, some, suc, true, zero, ℕ, ◌++◌, ◌==◌, ◌>>=◌, ◌>>◌, ◌∷◌,
}
use zombodb.Curl.{Curl}
use zombodb.Highlights.{
  HighlightEntry, HighlightTable, find_highlights, highlight_register_callback, save_highlights,
}
use zombodb.Index.{IndexOptions}
use zombodb.Json.{Json, get_json_object_object}
use zombodb.Query.{JsonText, ZdbQuery, get_json_object_real, zdbquery_get_wants_score}
use zombodb.Query.Dsl.{ScanKey, scan_keys_to_query_dsl}
use zombodb.Query.Searching.{search_of}
use zombodb.Scroll.{Hit, ScrollContext, found, get_next_item_pointer}
use zombodb.Scroll.Open.{close_scroll, open_scroll}
use zombodb.Text.{Text}
use zombodb.Xid.{ItemPointer, ctid_eq}

-- A hash table of scores by ctid, the last entry first.
abbrev pub ScoreTable : Type 0 → Type 0
ScoreTable Score = List (ItemPointer × Score)

module _ {S : Type 0} where
  unfoldable pub find_score : ItemPointer → ScoreTable S → Option S
  unfolding ctid_eq
  find_score ctid [] = none
  find_score ctid ((c, score) ∷ table) =
      if ctid_eq c ctid then some score else find_score ctid table

  -- HASH_ENTER, and the new score.
  unfoldable pub enter_score : ItemPointer → S → ScoreTable S → ScoreTable S
  enter_score ctid score table = (ctid, score) ∷ table

-- ZDBScanContext; `scroll` is none before the first search.
pub record ScanContext (S : Type 0) : Type 0 where
  pub needs_init : Bool
  pub scroll : Option ScrollContext
  pub score_lookup : Option (ScoreTable S)
  pub highlight_lookup : Option HighlightTable
  pub want_scores : Bool
  pub want_highlights : Bool
  pub query : ZdbQuery

-- What the plan asks for, and the session.
pub record ScanPlan : Type 0 where
  pub index : IndexOptions
  pub heap_relid : ℕ
  pub limit : ℕ
  pub highlights : Option (List (Text × Text))
  pub ignore_visibility : Bool
  pub visibility : ZdbQuery

-- A scan with the callbacks that are registered, by the heap's oid: a callback is the number of the
-- scan whose table it looks into.
pub record ScoreEntry : Type 0 where
  pub heap_oid : ℕ
  pub callbacks : List ℕ

unfoldable pub scoring_register_callback : ℕ → ℕ → List ScoreEntry → List ScoreEntry
scoring_register_callback heap_oid callback [] =
    record { heap_oid = heap_oid; callbacks = callback ∷ [] } ∷ []
scoring_register_callback heap_oid callback (e ∷ es) =
    if heap_oid == e.heap_oid
    then record e { callbacks = e.callbacks ++ (callback ∷ []) } ∷ es
    else e ∷ scoring_register_callback heap_oid callback es

-- `call` gives a callback's score for the ctid.
module _ {S : Type 0} (zero_score : S) (add : S → S → S) (call : ℕ → S) where
  unfoldable pub add_scores : S → List ℕ → S
  add_scores score [] = score
  add_scores score (callback ∷ callbacks) = add_scores (add score (call callback)) callbacks

  unfoldable pub lookup_entries : ℕ → S → List ScoreEntry → S
  unfolding add_scores
  lookup_entries heap_oid score [] = score
  lookup_entries heap_oid score (e ∷ es) =
      lookup_entries heap_oid
        (if heap_oid == e.heap_oid then add_scores score e.callbacks else score) es

  unfoldable pub scoring_lookup_score : ℕ → List ScoreEntry → S
  unfolding lookup_entries
  scoring_lookup_score heap_oid entries = lookup_entries heap_oid zero_score entries

module _ (l : JsonText) (c : Curl) where
  pub record ScanState : Type 0 where
    pub context : ScanContext l.Real
    pub world : c.World
    pub entries : List ScoreEntry
    pub highlight_entries : List HighlightEntry

  -- scoring_cb: 0 without an entry.
  unfoldable pub scoring_cb : ItemPointer → ScanContext l.Real → l.Real
  unfolding find_score
  scoring_cb ctid context = elim context.score_lookup [
    | none ↦ l.real_zero
    | some table ↦ elim (find_score ctid table) [ none ↦ l.real_zero | some score ↦ score ]
  ]

  -- highlight_cb: nothing without an entry.
  unfoldable pub highlight_cb : ItemPointer → Text → ScanContext l.Real → List Text
  unfolding find_highlights
  highlight_cb ctid field_name context = elim context.highlight_lookup [
    | none ↦ []
    | some table ↦ elim (find_highlights (record { ctid = ctid; field_data = field_name }) table) [
      | none ↦ []
      | some texts ↦ texts
    ]
  ]

  unfoldable pub amrescan : List ScanKey → ScanState → Outcome ScanState
  unfolding scan_keys_to_query_dsl
  amrescan keys st = scan_keys_to_query_dsl l keys >>= λ query.
      ok (record st { context = record st.context { query = query; needs_init = true } })

  unfoldable pub close_old : Option ScrollContext → c.World → Outcome c.World
  unfolding close_scroll
  close_old none w = ok w
  close_old (some scroll) w = close_scroll c scroll w >>= λ r. ok r.1

  unfoldable pub search_for_scan : ScanPlan → ℕ → ScanState → Outcome ScanState
  unfolding zdbquery_get_wants_score close_old search_of open_scroll scoring_register_callback
      highlight_register_callback
  search_for_scan plan id st = do
    want_scores ← zdbquery_get_wants_score l st.context.query
    w ← close_old st.context.scroll st.world
    search ←
        search_of l plan.ignore_visibility plan.visibility plan.index st.context.query false
          plan.limit plan.highlights []
    o ← open_scroll l.int8in c plan.ignore_visibility search w
    ok (record {
      context = record st.context {
        needs_init = false;
        scroll = some o.0;
        want_scores = want_scores;
        want_highlights = is_some plan.highlights;
        score_lookup = if want_scores then some [] else st.context.score_lookup;
        highlight_lookup = if is_some plan.highlights then some [] else st.context.highlight_lookup;
      };
      world = o.1;
      entries =
          if want_scores
          then scoring_register_callback plan.heap_relid id st.entries
          else st.entries;
      highlight_entries =
          if is_some plan.highlights
          then highlight_register_callback plan.heap_relid id st.highlight_entries
          else st.highlight_entries;
    })

  unfoldable pub do_search_for_scan : ScanPlan → ℕ → ScanState → Outcome ScanState
  do_search_for_scan plan id st =
      if st.context.needs_init then search_for_scan plan id st else ok st

  -- The score of a hit, as a float4.
  unfoldable pub hit_score : Hit → Outcome l.Real
  unfolding get_json_object_real
  hit_score hit = get_json_object_real l hit.entry "_score" >>= λ x. ok (l.float4 x)

  unfoldable pub save_score :
      ItemPointer → l.Real → ScanContext l.Real → Outcome (ScanContext l.Real)
  unfolding enter_score
  save_score ctid score context =
      if context.want_scores
      then elim context.score_lookup [
        | none ↦ fault
        | some table ↦ ok (record context { score_lookup = some (enter_score ctid score table) })
      ]
      else ok context

  -- The highlights of a hit, which are NULL if the scroll has not asked for them.
  unfoldable pub hit_highlights : ScrollContext → Hit → Outcome (Option Json)
  unfolding get_json_object_object
  hit_highlights scroll hit =
      if scroll.has_highlights then get_json_object_object hit.entry "highlight" true else ok none

  unfoldable pub keep_highlights :
      ItemPointer → Option Json → ScanContext l.Real → Outcome (ScanContext l.Real)
  unfolding save_highlights
  keep_highlights ctid highlights context =
      if context.want_highlights
      then elim context.highlight_lookup [
        | none ↦ fault
        | some table ↦ save_highlights ctid highlights table >>= λ table'.
            ok (record context { highlight_lookup = some table' })
      ]
      else ok context

  -- What ElasticsearchGetNextItemPointer puts into `score` and `highlights`.
  unfoldable pub hit_outputs : ScrollContext → Hit → Outcome (l.Real × Option Json)
  unfolding hit_score hit_highlights
  hit_outputs scroll hit = do
    score ← hit_score hit
    highlights ← hit_highlights scroll hit
    ok (score, highlights)

  unfoldable pub save_hit :
      ItemPointer → l.Real × Option Json → ScanContext l.Real → Outcome (ScanContext l.Real)
  unfolding save_score keep_highlights
  save_hit ctid outputs context =
      save_score ctid outputs.0 context >>= keep_highlights ctid outputs.1

  -- The next hit of the scroll with its ctid, and its score and highlights in the tables; `none` at the end.
  unfoldable pub take_hit :
      Bool
      → (ItemPointer → Outcome (Unit {0}))
      → ScanState
      → Outcome (Option ItemPointer × ScanState)
  take_hit ignore_visibility check st = found st.context.scroll >>= λ scroll.
      if leb scroll.total scroll.cnt
      then ok (none, st)
      else (get_next_item_pointer l.int8in c ignore_visibility true scroll st.world >>= λ r.
          elim r.0 [
            | none ↦
                ok (
                  none,
                  record st { context = record st.context { scroll = some r.1 }; world = r.2 },
                )
            | some hit ↦ (do
              ctid ← found hit.ctid
              outputs ← hit_outputs r.1 hit
              check ctid
              context ← save_hit ctid outputs (record st.context { scroll = some r.1 })
              ok (some ctid, record st { context = context; world = r.2 }))
          ])

  -- ItemPointerIsValid.
  unfoldable pub check_ctid : ItemPointer → Outcome (Unit {0})
  check_ctid ctid = require (not (ctid.offset == 0)) "Encounted an invalid item pointer"

  unfoldable pub amgettuple : ScanPlan → ℕ → ScanState → Outcome (Option ItemPointer × ScanState)
  amgettuple plan id st =
      do_search_for_scan plan id st >>= take_hit plan.ignore_visibility check_ctid

  -- `while (scroll->cnt < scroll->total)`, with the ctids that go into the bitmap.
  unfoldable pub bitmap_loop : Bool → ℕ → ScanState → Outcome (List ItemPointer × ScanState)
  unfolding take_hit
  bitmap_loop ignore_visibility zero st = found st.context.scroll >>= λ scroll.
      if ltb scroll.cnt scroll.total then hang else ok ([], st)
  bitmap_loop ignore_visibility (suc n) st = take_hit ignore_visibility (λ ctid. ok tt) st >>= λ r.
      elim r.0 [
        | none ↦ ok ([], r.1)
        | some ctid ↦ bitmap_loop ignore_visibility n r.1 >>= λ rest. ok (ctid ∷ rest.0, rest.1)
      ]

  -- The ctids of the bitmap; the function returns how many.
  unfoldable pub amgetbitmap : ScanPlan → ℕ → ScanState → Outcome (List ItemPointer × ℕ × ScanState)
  amgetbitmap plan id st = do
    st' ← do_search_for_scan plan id st
    scroll ← found st'.context.scroll
    r ← bitmap_loop plan.ignore_visibility scroll.total st'
    ok (r.0, length r.0, r.1)

  unfoldable pub amendscan : ScanState → Outcome ScanState
  unfolding close_old
  amendscan st = close_old st.context.scroll st.world >>= λ w.
      ok (record st {
        context = record st.context { scroll = none; score_lookup = none };
        world = w;
      })
