-- ===== src/Scroll/Started.antt =====
-- A scroll that is opened is in its bounds.
use Prim.Native.String.{String}
use zombodb.Prelude.{
  Bool, Bool-cases, Option, Outcome, WhenOk, WhenOk-bind, WhenOk-then, any_outcome, ap, arith,
  false, if◌then◌else◌, inl, inr, ltb, none, ok, returned, some, some-injective, suc, true, zero, ℕ,
  ◌<◌, ◌≤◌,
}
use zombodb.Curl.{Curl}
use zombodb.Json.{
  Items, Json, get_json_array_length, get_json_object_array, get_json_object_object,
  get_json_object_string, get_json_object_uint64,
}
use zombodb.Scroll.{Hit, ScrollContext, found, no_error, rest_call_response}
use zombodb.Scroll.Bounds.{IsScroll, get_next_item_pointer-Next}
use zombodb.Scroll.Open.{
  Search, empty_scroll, fast_forward, first_page, limit_and_offset, open_scroll, read_search,
  search_limit, search_total,
}
use zombodb.Text.{Text, codes}

pub record IsOpened (q : Search) (ctx : ScrollContext) : Type 0 where
  pub well : IsScroll ctx
  pub limited : 0 < search_limit q → ctx.total ≤ limit_and_offset q

first_page-IsOpened :
    (q : Search) (scroll_id : Text) (found_total : ℕ) (hits_object : Json)
    → WhenOk (IsOpened q) (first_page q scroll_id (search_total q found_total) hits_object)
unfolding first_page empty_scroll search_total
first_page-IsOpened q scroll_id found_total hits_object =
    elim (Bool-cases (ltb q.offset (search_total q found_total))) [
      | inl e ↦ rw e (
          WhenOk-bind (any_outcome (get_json_object_array hits_object "hits" false))
            λ hits _. paged hits)
      | inr e ↦ rw e (
          returned (record {
            well = record { in_page = omega arith; page = λ items h. cc; cnt_le = omega arith };
            limited = λ h. omega arith;
          }))
    ]
  where
    paged :
        (hits : Option Items)
        → WhenOk (IsOpened q) (
            ok (record (empty_scroll q scroll_id) {
              total = search_total q found_total;
              hits = hits;
              nhits = elim hits [ none ↦ 0 | some items ↦ get_json_array_length items ];
            }))
    paged none = returned (record {
      well = record { in_page = omega arith; page = λ items h. cc; cnt_le = omega arith };
      limited = λ h. ground arith;
    })
    paged (some items) = returned (record {
      well = record {
        in_page = omega arith;
        page = λ items' h. ap get_json_array_length (some-injective h);
        cnt_le = omega arith;
      };
      limited = λ h. ground arith;
    })

module _ (int8in : String → Option ℕ) where
  read_search-IsOpened :
      (q : Search) (json : Json) → WhenOk (IsOpened q) (read_search int8in q json)
  unfolding read_search
  read_search-IsOpened q json =
      WhenOk-bind (any_outcome (get_json_object_object json "error" true)) λ e _.
        WhenOk-then (no_error e) (
          WhenOk-bind (any_outcome (get_json_object_object json "hits" false)) λ h _.
            WhenOk-bind (any_outcome (found h)) λ hits_object _.
              WhenOk-bind (any_outcome (get_json_object_string json "_scroll_id" false)) λ s _.
                WhenOk-bind (any_outcome (found s)) λ scroll_id _.
                  WhenOk-bind
                    (any_outcome (get_json_object_uint64 int8in hits_object "total" false))
                    λ found_total _.
                      first_page-IsOpened q (codes scroll_id) found_total hits_object)

module _ (int8in : String → Option ℕ) (c : Curl) (ignore_visibility : Bool) where
  forward-IsOpened :
      (q : Search) (hit : Option Hit) (ctx : ScrollContext) (w : c.World)
      (rest : Outcome (ScrollContext × c.World))
      → IsOpened q ctx
      → WhenOk (λ r. IsOpened q r.0) rest
      → WhenOk {A = ScrollContext × c.World}
          (λ r. IsOpened q r.0)
          (elim hit [ none ↦ ok (ctx, w) | some h ↦ rest ])
  forward-IsOpened q none ctx w rest o p = returned o
  forward-IsOpened q (some h) ctx w rest o p = p

  fast_forward-IsOpened :
      (q : Search) (n : ℕ) (ctx : ScrollContext) (w : c.World)
      → IsOpened q ctx
      → WhenOk (λ r. IsOpened q r.0) (fast_forward int8in c ignore_visibility n ctx w)
  unfolding fast_forward
  fast_forward-IsOpened q zero ctx w o = returned o
  fast_forward-IsOpened q (suc n) ctx w o =
      WhenOk-bind (get_next_item_pointer-Next int8in c ignore_visibility false ctx w o.well) λ r k.
        let o' : IsOpened q r.1 = record {
          well = k.well;
          limited = λ h. omega (arith, k.total, o.limited h);
        } in
        forward-IsOpened q r.0 r.1 r.2 _ o' (fast_forward-IsOpened q n r.1 r.2 o')

  -- A scroll that is opened, if the call returns, is in its bounds, after the hits of the offset are
  -- passed over too. Its total is at most the limit, where there is one, plus the offset.
  pub open_scroll-IsOpened :
      (q : Search) (w : c.World)
      → WhenOk (λ r. IsOpened q r.0) (open_scroll int8in c ignore_visibility q w)
  unfolding open_scroll
  open_scroll-IsOpened q w = WhenOk-bind (any_outcome (rest_call_response c _ _ _ _ w)) λ r _.
      WhenOk-bind (any_outcome r.0.json) λ json _.
        WhenOk-bind (read_search-IsOpened int8in q json) λ ctx o.
          go (ltb q.offset ctx.total) ctx r.1 o (fast_forward-IsOpened q q.offset ctx r.1 o)
    where
      go :
          (b : Bool) (ctx : ScrollContext) (w' : c.World)
          → IsOpened q ctx
          → WhenOk (λ r. IsOpened q r.0) (fast_forward int8in c ignore_visibility q.offset ctx w')
          → WhenOk {A = ScrollContext × c.World}
              (λ r. IsOpened q r.0)
              (if b then fast_forward int8in c ignore_visibility q.offset ctx w' else ok (ctx, w'))
      go true ctx w' o p = p
      go false ctx w' o p = returned o
