-- ===== src/IndexScan/Liveness.antt =====
-- A bitmap scan ends.
use Prim.Native.String.{String}
use zombodb.Prelude.{
  Bool, Ends, Ends-bind, Ends-bind_ok, Ends-if, List, Option, WhenOk, WhenOk-bind, [], any_outcome,
  ap, arith, false, fault, if◌then◌else◌, leb, ltb, none, ok, refl, returned, some, suc, true,
  with_error, with_fault, with_value, zero, ℕ, ◌+◌, ◌<◌, ◌>>=◌, ◌>>◌, ◌∷◌, ◌≡◌, ◌≢◌, ◌≤◌,
}
use zombodb.Curl.{Curl, IsLive}
use zombodb.Highlights.{HighlightTable, save_highlights}
use zombodb.Highlights.Saved.{save_highlights-Ends}
use zombodb.IndexScan.{
  ScanContext, ScanPlan, ScanState, ScoreTable, amgetbitmap, bitmap_loop, enter_score,
  hit_highlights, hit_outputs, hit_score, keep_highlights, save_hit, save_score, take_hit,
}
use zombodb.IndexScan.Bitmaps.{already_searched}
use zombodb.IndexScan.Kept.{save_hit-scroll}
use zombodb.Json.{
  Json, array, get_json_object_object, json_false, json_null, json_true, number, object, or_missing,
  string,
}
use zombodb.Json.Laws.{lookup_key-Ends}
use zombodb.Query.{JsonText, as_real, get_json_object_real, or_error}
use zombodb.Scroll.{Hit, ScrollContext, found, get_next_item_pointer}
use zombodb.Scroll.Bounds.{IsScroll, Next, get_next_item_pointer-Next}
use zombodb.Scroll.Liveness.{found-Ends, get_next_item_pointer-Ends}
use zombodb.Xid.{ItemPointer}

module _ (l : JsonText) (c : Curl) (live : IsLive c) where
  or_error-Ends : {A : Type 0} (o : Option A) (e : String) → Ends (or_error o e)
  or_error-Ends none e = with_error
  or_error-Ends (some a) e = with_value

  as_real-Ends : (v : Option Json) → Ends (as_real l v)
  unfolding as_real
  as_real-Ends none = with_value
  as_real-Ends (some (number n)) = or_error-Ends (l.float8in n) "invalid input syntax"
  as_real-Ends (some json_null) = with_value
  as_real-Ends (some json_true) = with_value
  as_real-Ends (some json_false) = with_value
  as_real-Ends (some (object fields)) = with_fault
  as_real-Ends (some (array items)) = with_fault
  as_real-Ends (some (string s)) = with_fault

  hit_score-Ends : (hit : Hit) → Ends (hit_score l c hit)
  unfolding hit_score get_json_object_real
  hit_score-Ends hit =
      Ends-bind (Ends-bind (lookup_key-Ends "_score" hit.entry) λ v. as_real-Ends v) λ x. with_value

  save_score-Ends :
      (ctid : ItemPointer) (score : l.Real) (ctx : ScanContext l.Real)
      → Ends (save_score l c ctid score ctx)
  unfolding save_score
  save_score-Ends ctid score ctx = Ends-if ctx.want_scores (go ctx.score_lookup) with_value
    where
      go :
          (t : Option (ScoreTable l.Real))
          → Ends {A = ScanContext l.Real} (elim t [
            | none ↦ fault
            | some table ↦ ok (record ctx { score_lookup = some (enter_score ctid score table) })
          ])
      go none = with_fault
      go (some table) = with_value

  keep_highlights-Ends :
      (ctid : ItemPointer) (highlights : Option Json) (ctx : ScanContext l.Real)
      → Ends (keep_highlights l c ctid highlights ctx)
  unfolding keep_highlights
  keep_highlights-Ends ctid highlights ctx =
      Ends-if ctx.want_highlights (go ctx.highlight_lookup) with_value
    where
      go :
          (t : Option HighlightTable)
          → Ends {A = ScanContext l.Real} (elim t [
            | none ↦ fault
            | some table ↦ save_highlights ctid highlights table >>= λ table'.
                ok (record ctx { highlight_lookup = some table' })
          ])
      go none = with_fault
      go (some table) = Ends-bind (save_highlights-Ends ctid highlights table) λ t. with_value

  save_hit-Ends :
      (ctid : ItemPointer) (outputs : l.Real × Option Json) (ctx : ScanContext l.Real)
      → Ends (save_hit l c ctid outputs ctx)
  unfolding save_hit
  save_hit-Ends ctid outputs ctx =
      Ends-bind (save_score-Ends ctid outputs.0 ctx)
        λ ctx'. keep_highlights-Ends ctid outputs.1 ctx'

  hit_highlights-Ends : (scroll : ScrollContext) (hit : Hit) → Ends (hit_highlights l c scroll hit)
  unfolding hit_highlights get_json_object_object
  hit_highlights-Ends scroll hit =
      Ends-if scroll.has_highlights
        (Ends-bind (lookup_key-Ends "highlight" hit.entry) λ v. or_missing-Ends v) with_value
    where
      or_missing-Ends : (v : Option Json) → Ends (or_missing true v)
      or_missing-Ends none = with_value
      or_missing-Ends (some v) = with_value

  hit_outputs-Ends : (scroll : ScrollContext) (hit : Hit) → Ends (hit_outputs l c scroll hit)
  unfolding hit_outputs
  hit_outputs-Ends scroll hit =
      Ends-bind (hit_score-Ends hit)
        λ score. Ends-bind (hit_highlights-Ends scroll hit) λ highlights. with_value

  -- The scroll of a scan, in its bounds, with at most `n` hits left.
  record HasLeft (n : ℕ) (st : ScanState l c) : Type 0 where
    scroll : ScrollContext
    at : st.context.scroll ≡ some scroll
    well : IsScroll scroll
    left : scroll.total ≤ scroll.cnt + n

  take_hit-Ends :
      (ignore : Bool) (n : ℕ) (st : ScanState l c)
      → HasLeft n st
      → Ends (take_hit l c ignore (λ ctid. ok tt) st)
  unfolding take_hit
  take_hit-Ends ignore n st h = rw (ap found h.at) (
      Ends-if (leb h.scroll.total h.scroll.cnt) with_value (
        Ends-bind (get_next_item_pointer-Ends l.int8in c live ignore true h.scroll st.world h.well)
          λ r. go r.0 r.1 r.2))
    where
      go :
          (o : Option Hit) (scroll' : ScrollContext) (w : c.World)
          → Ends {A = Option ItemPointer × ScanState l c} (elim o [
            | none ↦ ok (
              none,
              record st { context = record st.context { scroll = some scroll' }; world = w },
            )
            | some hit ↦ (do
              ctid ← found hit.ctid
              outputs ← hit_outputs l c scroll' hit
              ok tt
              context ← save_hit l c ctid outputs (record st.context { scroll = some scroll' })
              ok (some ctid, record st { context = context; world = w }))
          ])
      go none scroll' w = with_value
      go (some hit) scroll' w = Ends-bind (found-Ends hit.ctid) λ ctid.
          Ends-bind (hit_outputs-Ends scroll' hit)
            λ outputs. Ends-bind (save_hit-Ends ctid outputs _) λ ctx. with_value

  take_hit-HasLeft :
      (ignore : Bool) (n : ℕ) (st : ScanState l c)
      → HasLeft (suc n) st
      → WhenOk (λ r. r.0 ≢ none → HasLeft n r.1) (take_hit l c ignore (λ ctid. ok tt) st)
  unfolding take_hit
  take_hit-HasLeft ignore n st h = rw (ap found h.at) (go (leb h.scroll.total h.scroll.cnt))
    where
      hit_left :
          (o : Option Hit) (scroll' : ScrollContext) (w : c.World)
          → Next h.scroll o scroll'
          → WhenOk {A = Option ItemPointer × ScanState l c}
              (λ r. r.0 ≢ none → HasLeft n r.1)
              (elim o [
                | none ↦ ok (
                  none,
                  record st { context = record st.context { scroll = some scroll' }; world = w },
                )
                | some hit ↦ (do
                  ctid ← found hit.ctid
                  outputs ← hit_outputs l c scroll' hit
                  ok tt
                  context ← save_hit l c ctid outputs (record st.context { scroll = some scroll' })
                  ok (some ctid, record st { context = context; world = w }))
              ])
      hit_left none scroll' w k = returned (λ z. absurd (z refl))
      hit_left (some hit) scroll' w k = WhenOk-bind (any_outcome (found hit.ctid)) λ ctid u.
          WhenOk-bind (any_outcome (hit_outputs l c scroll' hit)) λ outputs u'.
            WhenOk-bind (save_hit-scroll l c ctid outputs _) λ ctx e. returned (λ z. record {
              scroll = scroll';
              at = e;
              well = k.well;
              left =
                  let more : h.scroll.cnt < scroll'.cnt = k.counted (λ q. cc) in
                  omega (arith, more, k.total, h.left);
            })

      go :
          (b : Bool)
          → WhenOk {A = Option ItemPointer × ScanState l c}
              (λ r. r.0 ≢ none → HasLeft n r.1)
              (if b
                then ok (none, st)
                else (get_next_item_pointer l.int8in c ignore true h.scroll st.world >>= λ r.
                    elim r.0 [
                      | none ↦ ok (
                        none,
                        record st {
                          context = record st.context { scroll = some r.1 };
                          world = r.2;
                        },
                      )
                      | some hit ↦ (do
                        ctid ← found hit.ctid
                        outputs ← hit_outputs l c r.1 hit
                        ok tt
                        context ←
                            save_hit l c ctid outputs (record st.context { scroll = some r.1 })
                        ok (some ctid, record st { context = context; world = r.2 }))
                    ]))
      go true = returned (λ z. absurd (z refl))
      go false =
          WhenOk-bind (get_next_item_pointer-Next l.int8in c ignore true h.scroll st.world h.well)
            λ r k. hit_left r.0 r.1 r.2 k

  bitmap_loop-Ends :
      (ignore : Bool) (n : ℕ) (st : ScanState l c)
      → HasLeft n st
      → Ends (bitmap_loop l c ignore n st)
  unfolding bitmap_loop
  bitmap_loop-Ends ignore zero st h =
      let done : ltb h.scroll.cnt h.scroll.total ≡ false = ground (arith, h.left) in
      rw (ap found h.at, done) with_value
  bitmap_loop-Ends ignore (suc n) st h =
      Ends-bind_ok (take_hit-Ends ignore (suc n) st h) (take_hit-HasLeft ignore n st h)
        λ r k. go r.0 r.1 (λ more. bitmap_loop-Ends ignore n r.1 (k more))
    where
      go :
          (o : Option ItemPointer) (st' : ScanState l c)
          → (o ≢ none → Ends (bitmap_loop l c ignore n st'))
          → Ends {A = List ItemPointer × ScanState l c} (elim o [
            | none ↦ ok ([], st')
            | some ctid ↦ bitmap_loop l c ignore n st' >>= λ rest. ok (ctid ∷ rest.0, rest.1)
          ])
      go none st' later = with_value
      go (some ctid) st' later = Ends-bind (later (λ q. cc)) λ rest. with_value

  -- If libcurl's transfers end and the JSON parser returns, a bitmap scan of a search that is open,
  -- with its scroll in its bounds, ends, with a value, an error or undefined behaviour.
  pub amgetbitmap-Ends :
      (plan : ScanPlan) (id : ℕ) (st : ScanState l c) (scroll : ScrollContext)
      → st.context.needs_init ≡ false
      → st.context.scroll ≡ some scroll
      → IsScroll scroll
      → Ends (amgetbitmap l c plan id st)
  unfolding amgetbitmap
  amgetbitmap-Ends plan id st scroll init opened w =
      rw (already_searched l c plan id st init, ap found opened)
        (Ends-bind
          (bitmap_loop-Ends plan.ignore_visibility scroll.total st
            (record { scroll = scroll; at = opened; well = w; left = omega arith }))
          λ r. with_value)
