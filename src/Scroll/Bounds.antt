-- ===== src/Scroll/Bounds.antt =====
-- A scroll stays within its pages and its total, and ends.
use Prim.Native.String.{String}
use zombodb.Prelude.{
  Bool, Bool-cases, Option, Outcome, WhenOk, WhenOk-bind, WhenOk-mono, WhenOk-then, any_outcome, ap,
  arith, error, false, faulted, hung, if◌then◌else◌, inl, inr, leb, none, ok, raised, refl,
  returned, some, suc, true, zero, ℕ, ◌+◌, ◌-◌, ◌<◌, ◌==◌, ◌>>=◌, ◌∙◌, ◌≡◌, ◌≢◌, ◌≤◌,
}
use zombodb.Curl.{Curl}
use zombodb.Json.{
  Items, Json, cons, get_json_array_element_object, get_json_array_length, get_json_object_array,
  get_json_object_object, get_json_object_string, nil,
}
use zombodb.Scroll.{
  Hit, ScrollContext, advance, after_entry, current_hit, found, get_next_item_pointer, load_more,
  look, new_hits, next_loop, next_page, no_error, read_entry, rest_call_response, turn_page,
}
use zombodb.Text.{codes}

pub record IsScroll (ctx : ScrollContext) : Type 0 where
  pub in_page : ctx.currpos ≤ ctx.nhits
  pub page : (items : Items) → ctx.hits ≡ some items → ctx.nhits ≡ get_json_array_length items
  pub cnt_le : ctx.cnt ≤ ctx.total

-- Another page, or none needed: nothing is counted.
pub record Turned (ctx ctx' : ScrollContext) : Type 0 where
  pub well : IsScroll ctx'
  pub total : ctx'.total ≡ ctx.total
  pub cnt : ctx'.cnt ≡ ctx.cnt

-- A call counts each entry that it looks at. A hit is one of them.
pub record Next (ctx : ScrollContext) (hit : Option Hit) (ctx' : ScrollContext) : Type 0 where
  pub well : IsScroll ctx'
  pub total : ctx'.total ≡ ctx.total
  pub cnt_le : ctx.cnt ≤ ctx'.cnt
  pub counted : hit ≢ none → ctx.cnt < ctx'.cnt

new_hits-Turned :
    (ignore_visibility : Bool) (ctx : ScrollContext) (hits : Option Items)
    → ctx.cnt ≤ ctx.total
    → ctx.currpos ≡ 0
    → WhenOk (λ r. Turned ctx r.1) (new_hits ignore_visibility ctx hits)
unfolding new_hits
new_hits-Turned ignore_visibility ctx (some items) le start = returned (record {
  well = record {
    in_page = omega (arith, start);
    page = λ items' e. ap get_json_array_length (some-injective e);
    cnt_le = le;
  };
  total = refl;
  cnt = refl;
})
  where
    some-injective : {a b : Items} → some a ≡ some b → a ≡ b
    some-injective e = cc
new_hits-Turned true ctx none le start = returned (record {
  well = record { in_page = omega (arith, start); page = λ items e. cc; cnt_le = le };
  total = refl;
  cnt = refl;
})
new_hits-Turned false ctx none le start = raised

turn_page-Turned :
    (ignore_visibility : Bool) (ctx : ScrollContext) (json : Json)
    → ctx.cnt ≤ ctx.total
    → WhenOk (λ r. Turned ctx r.1) (turn_page ignore_visibility ctx json)
unfolding turn_page
turn_page-Turned ignore_visibility ctx json le =
    WhenOk-bind (any_outcome (get_json_object_object json "error" true)) λ e _.
      WhenOk-then (no_error e) (
        WhenOk-bind (any_outcome (get_json_object_object json "hits" false)) λ h _.
          WhenOk-bind (any_outcome (found h)) λ hits_object _.
            WhenOk-bind (any_outcome (get_json_object_string json "_scroll_id" false)) λ s _.
              WhenOk-bind (any_outcome (found s)) λ scroll_id _.
                WhenOk-bind (any_outcome (get_json_object_array hits_object "hits" true)) λ hits _.
                  WhenOk-mono
                    (new_hits-Turned ignore_visibility
                      (record ctx { scroll_id = codes scroll_id; currpos = 0 }) hits le refl)
                    λ r t. record { well = t.well; total = t.total; cnt = t.cnt })

module _ (c : Curl) where
  pub load_more-Turned :
      (ignore_visibility : Bool) (ctx : ScrollContext) (w : c.World)
      → IsScroll ctx
      → WhenOk (λ r. Turned ctx r.1) (load_more c ignore_visibility ctx w)
  unfolding load_more next_page
  load_more-Turned ignore_visibility ctx w s = elim (Bool-cases (ctx.currpos == ctx.nhits)) [
    | inl e ↦ rw e (
        WhenOk-bind (any_outcome (rest_call_response c _ _ _ _ w)) λ r _.
          WhenOk-bind (any_outcome r.0.json) λ json _.
            WhenOk-bind (turn_page-Turned ignore_visibility ctx json s.cnt_le) λ t p. returned p)
    | inr e ↦ rw e (returned (record { well = s; total = refl; cnt = refl }))
  ]

element-in_page :
    (items : Items) (i : ℕ)
    → WhenOk (λ entry. i < get_json_array_length items) (get_json_array_element_object items i)
unfolding get_json_array_element_object get_json_array_length
element-in_page nil i = faulted
element-in_page (cons x items) zero = returned (omega arith)
element-in_page (cons x items) (suc i) =
    WhenOk-mono (element-in_page items i) λ entry h. omega (arith, h)

module _ (int8in : String → Option ℕ) where
  hit-in_page :
      (want_ctid using_id : Bool) (hits : Option Items) (currpos nhits : ℕ)
      → ((items : Items) → hits ≡ some items → nhits ≡ get_json_array_length items)
      → WhenOk
          (λ h. currpos < nhits)
          (elim hits [
            | none ↦ error "No results found when loading next scroll context"
            | some items ↦
                get_json_array_element_object items currpos >>= read_entry int8in using_id want_ctid
          ])
  hit-in_page want_ctid using_id none currpos nhits page = raised
  hit-in_page want_ctid using_id (some items) currpos nhits page =
      WhenOk-bind (element-in_page items currpos) λ entry h.
        WhenOk-mono (any_outcome (read_entry int8in using_id want_ctid entry))
          λ r _. omega (arith, h, page items refl)

  pub current_hit-in_page :
      (want_ctid : Bool) (ctx : ScrollContext)
      → IsScroll ctx
      → WhenOk (λ h. ctx.currpos < ctx.nhits) (current_hit int8in want_ctid ctx)
  unfolding current_hit
  current_hit-in_page want_ctid ctx s =
      hit-in_page want_ctid ctx.using_id ctx.hits ctx.currpos ctx.nhits s.page

  pub advance-IsScroll :
      (ctx : ScrollContext)
      → IsScroll ctx
      → ctx.currpos < ctx.nhits
      → ctx.cnt < ctx.total
      → IsScroll (advance ctx)
  advance-IsScroll ctx s p t = record {
    in_page = omega (arith, p);
    page = s.page;
    cnt_le = omega (arith, t);
  }

module _ (int8in : String → Option ℕ) (c : Curl) (ignore_visibility want_ctid : Bool) where
  after_entry-Next :
      (ctx : ScrollContext) (w : c.World) (hit : Option Hit)
      (again : ScrollContext → c.World → Outcome (Option Hit × ScrollContext × c.World))
      → IsScroll (advance ctx)
      → ((ctx' : ScrollContext) (w' : c.World)
          → IsScroll ctx'
          → WhenOk (λ r. Next ctx' r.0 r.1) (again ctx' w'))
      → WhenOk (λ r. Next ctx r.0 r.1) (after_entry int8in c ctx w again hit)
  after_entry-Next ctx w (some hit) again s next =
      returned (record { well = s; total = refl; cnt_le = omega arith; counted = λ h. omega arith })
  after_entry-Next ctx w none again s next = go (leb ctx.total (ctx.cnt + 1))
    where
      go :
          (b : Bool)
          → WhenOk
              (λ r. Next ctx r.0 r.1)
              (elim b [ true ↦ ok (none, advance ctx, w) | false ↦ again (advance ctx) w ])
      go true =
          returned
            (record { well = s; total = refl; cnt_le = omega arith; counted = λ h. omega arith })
      go false = WhenOk-mono (next (advance ctx) w s) λ r n. record {
        well = n.well;
        total = n.total;
        cnt_le = omega (arith, n.cnt_le);
        counted = λ h. omega (arith, n.cnt_le);
      }

  look-Next :
      (ctx0 : ScrollContext)
      (again : ScrollContext → c.World → Outcome (Option Hit × ScrollContext × c.World))
      (r : Bool × ScrollContext × c.World)
      → Turned ctx0 r.1
      → ctx0.cnt < ctx0.total
      → ((ctx' : ScrollContext) (w' : c.World)
          → IsScroll ctx'
          → WhenOk (λ r. Next ctx' r.0 r.1) (again ctx' w'))
      → WhenOk (λ r. Next ctx0 r.0 r.1) (look int8in c want_ctid again r)
  look-Next ctx0 again (false, ctx, w) t less next = returned (record {
    well = t.well;
    total = t.total;
    cnt_le = omega (arith, t.cnt);
    counted = λ h. absurd (h refl);
  })
  look-Next ctx0 again (true, ctx, w) t less next =
      WhenOk-bind (current_hit-in_page int8in want_ctid ctx t.well) λ hit p.
        WhenOk-mono
          (after_entry-Next ctx w hit again
            (advance-IsScroll int8in ctx t.well p (omega (arith, less, t.cnt, t.total))) next)
          λ r n. record {
            well = n.well;
            total = n.total ∙ t.total;
            cnt_le = omega (arith, n.cnt_le, t.cnt);
            counted = λ h. omega (arith, n.counted h, t.cnt);
          }

  next_loop-Next :
      (f : ℕ) (ctx : ScrollContext) (w : c.World)
      → IsScroll ctx
      → WhenOk (λ r. Next ctx r.0 r.1) (next_loop int8in c ignore_visibility want_ctid f ctx w)
  unfolding next_loop
  next_loop-Next zero ctx w s = hung
  next_loop-Next (suc f) ctx w s = elim (Bool-cases (leb ctx.total ctx.cnt)) [
    | inl e ↦ rw e (done (ctx.cnt == 0))
    | inr e ↦ rw e (
        WhenOk-bind (load_more-Turned c ignore_visibility ctx w s) λ r t.
          look-Next ctx (next_loop int8in c ignore_visibility want_ctid f) r t (ground arith)
            (next_loop-Next f))
  ]
    where
      done :
          (b : Bool)
          → WhenOk {A = Option Hit × ScrollContext × c.World}
              (λ r. Next ctx r.0 r.1)
              (if b then ok (none, ctx, w) else error "Attempt to read past total number of hits")
      done true =
          returned (record {
            well = s;
            total = refl;
            cnt_le = omega arith;
            counted = λ h. absurd (h refl);
          })
      done false = raised

  -- The next item of a scroll, if the call returns, stays in the bounds: the position is within
  -- the page, the number of entries looked at is at most the total, and the total is the same. A
  -- hit is counted, so a scroll gives at most as many hits as its total.
  pub get_next_item_pointer-Next :
      (ctx : ScrollContext) (w : c.World)
      → IsScroll ctx
      → WhenOk
          (λ r. Next ctx r.0 r.1)
          (get_next_item_pointer int8in c ignore_visibility want_ctid ctx w)
  unfolding get_next_item_pointer
  get_next_item_pointer-Next ctx w s = next_loop-Next (suc (ctx.total - ctx.cnt)) ctx w s
