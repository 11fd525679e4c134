-- ===== src/SeqScan/Operator.antt =====
-- The operator of a sequential scan answers what an index scan would have given.
use zombodb.Prelude.{
  Bool, List, Option, Outcome, WhenOk, WhenOk-and, WhenOk-bind, WhenOk-mono, WhenOk-of_ok, [],
  any_outcome, ap, arith, false, is_some, none, ok, refl, returned, some, true, ℕ, ◌>>=◌, ◌||◌, ◌∙◌,
  ◌∷◌, ◌≡◌,
}
use zombodb.Bulk.{text_eq}
use zombodb.Curl.{Curl}
use zombodb.Index.Relations.{IndexEntry, find_zombodb_index}
use zombodb.IndexScan.{
  ScanPlan, ScanState, amgetbitmap, close_old, do_search_for_scan, find_score, search_for_scan,
}
use zombodb.Query.{JsonText, ZdbQuery, zdbquery_get_query, zdbquery_get_wants_score}
use zombodb.Query.Searching.{search_of}
use zombodb.Scroll.{ScrollContext, found}
use zombodb.Scroll.Open.{Search, close_scroll, open_scroll}
use zombodb.SeqScan.{
  CtidMap, SeqState, add_map, cmp_key, create_ctid_map, ctid_loop, do_cmpfunc, empty_map, find_map,
  test_ctid,
}
use zombodb.SeqScan.Same.{AreSame, ctid_loop-bitmap_loop, has_ctid, keeps}
use zombodb.Text.{Text}
use zombodb.Vacuum.Aborted.{outcome_eq}
use zombodb.Xid.{ItemPointer}

or_false : (a : Bool) → (a || false) ≡ a
or_false true = refl
or_false false = refl

text_eq_refl : (a : Text) → text_eq a a ≡ true
unfolding text_eq
text_eq_refl [] = refl
text_eq_refl (ch ∷ a) = let rest = text_eq_refl a in ground (arith, rest)

module _ (l : JsonText) (c : Curl) where
  -- A scan of a table that is to search.
  pub record IsFresh (query : ZdbQuery) (w : c.World) (st : ScanState l c) : Type 0 where
    pub needed : st.context.needs_init ≡ true
    pub asked : st.context.query ≡ query
    pub closed : st.context.scroll ≡ none
    pub served : st.world ≡ w

  do_search_for_scan-opened :
      (plan : ScanPlan) (id : ℕ) (query : ZdbQuery) (w : c.World) (st : ScanState l c)
      (search : Search) (o : ScrollContext × c.World)
      → plan.limit ≡ 0
      → IsFresh query w st
      → search_of l plan.ignore_visibility plan.visibility plan.index query false 0 plan.highlights
          []
        ≡ ok search
      → open_scroll l.int8in c plan.ignore_visibility search w ≡ ok o
      → WhenOk
          (λ st'. (st'.context.scroll ≡ some o.0) × (st'.world ≡ o.1))
          (do_search_for_scan l c plan id st)
  unfolding do_search_for_scan search_for_scan close_old
  do_search_for_scan-opened plan id query w st search o unlimited fresh e f =
      rw (fresh.needed, fresh.closed, fresh.asked, fresh.served, unlimited, e)
        (WhenOk-bind (any_outcome (zdbquery_get_wants_score l query))
          λ wanted u. rw f (returned (refl, refl)))

  create_ctid_map-amgetbitmap :
      (plan : ScanPlan) (id : ℕ) (query : ZdbQuery) (w : c.World) (st : ScanState l c)
      (row : ItemPointer)
      → plan.limit ≡ 0
      → IsFresh query w st
      → WhenOk
          (λ r.
            WhenOk
              (λ b. is_some (find_score row r.0.scores) ≡ has_ctid row b.0)
              (amgetbitmap l c plan id st))
          (create_ctid_map l c plan query w)
  unfolding create_ctid_map amgetbitmap empty_map keeps AreSame find_score
  create_ctid_map-amgetbitmap plan id query w st row unlimited fresh =
      WhenOk-bind
        (outcome_eq (
          search_of l plan.ignore_visibility plan.visibility plan.index query false 0
            plan.highlights []))
        λ search e.
          WhenOk-bind (outcome_eq (open_scroll l.int8in c plan.ignore_visibility search w)) λ o f.
            WhenOk-bind
              (outcome_eq (ctid_loop l c plan.ignore_visibility o.0.total o.0 o.1 (empty_map l c)))
              λ r g. WhenOk-bind (any_outcome (close_scroll c r.1 r.2)) λ closed u. returned (
                WhenOk-bind
                  (do_search_for_scan-opened plan id query w st search o unlimited fresh e f)
                  λ st' k. rw (ap found k.0) (
                    WhenOk-bind
                      (WhenOk-of_ok
                        (ctid_loop-bitmap_loop l c plan.ignore_visibility o.0.total row o.0 o.1
                          (empty_map l c) st' k.0 k.1)
                        g)
                      λ b h. returned (h ∙ or_false (has_ctid row b.0))))

  find_map-added :
      (key : Text) (ctids : CtidMap l c) (maps : List (Text × CtidMap l c))
      → find_map l c key ((key, ctids) ∷ maps) ≡ some ctids
  unfolding find_map
  find_map-added key ctids maps = rw (text_eq_refl key) refl

  test_ctid-new :
      (plan : ScanPlan) (indices : List IndexEntry) (query : ZdbQuery) (key : Text)
      (st : SeqState l c) (row : ItemPointer)
      → find_map l c key st.maps ≡ none
      → test_ctid l c plan indices row query key st ≡ (
          find_zombodb_index indices >>= λ index.
          create_ctid_map l c plan query st.world >>= λ made.
          ok (is_some (find_score row made.0.scores), add_map l c plan key made st))
  unfolding test_ctid
  test_ctid-new plan indices query key st row = go (find_map l c key st.maps)
    where
      go :
          (o : Option (CtidMap l c))
          → o ≡ none
          → ◌≡◌ {A = Outcome (Bool × SeqState l c)}
              (elim o [
                | some ctids ↦ ok (is_some (find_score row ctids.scores), st)
                | none ↦ find_zombodb_index indices >>= λ index.
                    create_ctid_map l c plan query st.world >>= λ made.
                    ok (is_some (find_score row made.0.scores), add_map l c plan key made st)
              ])
              ((find_zombodb_index indices >>= λ index.
                create_ctid_map l c plan query st.world >>= λ made.
                ok (is_some (find_score row made.0.scores), add_map l c plan key made st)))
      go none e = refl
      go (some ctids) e = cc

  test_ctid-known :
      (plan : ScanPlan) (indices : List IndexEntry) (query : ZdbQuery) (key : Text)
      (st : SeqState l c) (row : ItemPointer) (ctids : CtidMap l c)
      → find_map l c key st.maps ≡ some ctids
      → test_ctid l c plan indices row query key st ≡ ok (is_some (find_score row ctids.scores), st)
  unfolding test_ctid
  test_ctid-known plan indices query key st row ctids = go (find_map l c key st.maps)
    where
      go :
          (o : Option (CtidMap l c))
          → o ≡ some ctids
          → ◌≡◌ {A = Outcome (Bool × SeqState l c)}
              (elim o [
                | some ctids ↦ ok (is_some (find_score row ctids.scores), st)
                | none ↦ find_zombodb_index indices >>= λ index.
                    create_ctid_map l c plan query st.world >>= λ made.
                    ok (is_some (find_score row made.0.scores), add_map l c plan key made st)
              ])
              (ok (is_some (find_score row ctids.scores), st))
      go none e = cc
      go (some x) e = cc

  do_cmpfunc-read :
      (plan : ScanPlan) (indices : List IndexEntry) (query : ZdbQuery) (text : Option Text)
      (st : SeqState l c) (row : ItemPointer)
      → zdbquery_get_query l query ≡ ok text
      → do_cmpfunc l c plan indices row query st
        ≡ test_ctid l c plan indices row query (cmp_key text) st
  unfolding do_cmpfunc
  do_cmpfunc-read plan indices query text st row =
      ap (λ m. m >>= λ text. test_ctid l c plan indices row query (cmp_key text) st)

  find_map-add_map :
      (plan : ScanPlan) (key : Text) (made : CtidMap l c × c.World) (st : SeqState l c)
      → find_map l c key (add_map l c plan key made st).maps ≡ some made.0
  unfolding add_map
  find_map-add_map plan key made st = find_map-added key made.0 st.maps

  -- In a query that the operator has no table for yet, a row passes the operator just when a bitmap scan
  -- of the same query, with no limit, gives its ctid, if the scans return. Any row that is tested after it
  -- also passes just then, and its test changes nothing.
  pub do_cmpfunc-amgetbitmap :
      (plan : ScanPlan) (id : ℕ) (indices : List IndexEntry) (query : ZdbQuery) (text : Option Text)
      (st : SeqState l c) (fresh : ScanState l c) (row later : ItemPointer)
      → plan.limit ≡ 0
      → zdbquery_get_query l query ≡ ok text
      → find_map l c (cmp_key text) st.maps ≡ none
      → IsFresh query st.world fresh
      → WhenOk
          (λ r.
            WhenOk
              (λ s.
                WhenOk
                  (λ b. (r.0 ≡ has_ctid row b.0) × (s.0 ≡ has_ctid later b.0) × (s.1 ≡ r.1))
                  (amgetbitmap l c plan id fresh))
              (do_cmpfunc l c plan indices later query r.1))
          (do_cmpfunc l c plan indices row query st)
  do_cmpfunc-amgetbitmap plan id indices query text st fresh row later unlimited read new is_fresh =
      rw
        (
          do_cmpfunc-read plan indices query text st row read,
          test_ctid-new plan indices query (cmp_key text) st row new,
        )
        (WhenOk-bind (any_outcome (find_zombodb_index indices)) λ index u.
          WhenOk-bind
            (WhenOk-and
              (create_ctid_map-amgetbitmap plan id query st.world fresh row unlimited is_fresh)
              (create_ctid_map-amgetbitmap plan id query st.world fresh later unlimited is_fresh))
            λ made h. returned (
              rw
                (
                  do_cmpfunc-read plan indices query text (add_map l c plan (cmp_key text) made st)
                      later read,
                  test_ctid-known plan indices query (cmp_key text)
                      (add_map l c plan (cmp_key text) made st) later made.0
                      (find_map-add_map plan (cmp_key text) made st),
                )
                (returned (WhenOk-mono (WhenOk-and h.0 h.1) λ b k. (k.0, k.1, refl)))))
