-- ===== src/Vacuum/Liveness.antt =====
-- The loop over the hits of a scan ends.
use zombodb.Prelude.{
  Ends, Ends-bind, Ends-bind_ok, Ends-if, Option, Outcome, arith, false, ltb, none, ok, some, suc,
  true, with_value, zero, ℕ, ◌+◌, ◌<◌, ◌>>=◌, ◌≡◌, ◌≤◌,
}
use zombodb.Curl.{Curl, IsLive}
use zombodb.Query.{JsonText}
use zombodb.Scroll.{Hit, ScrollContext}
use zombodb.Scroll.Bounds.{IsScroll, Next, get_next_item_pointer-Next}
use zombodb.Scroll.Liveness.{get_next_item_pointer-Ends}
use zombodb.Vacuum.{VacInfo, VacState, at_world, each_hit}

module _ (l : JsonText) (c : Curl) (v : VacInfo) (live : IsLive c) where
  each_hit-Ends :
      (f : Hit → VacState c → Outcome (VacState c))
      → ((hit : Hit) (st : VacState c) → Ends (f hit st))
      → (n : ℕ) (ctx : ScrollContext) (st : VacState c) → IsScroll ctx
      → ctx.total ≤ ctx.cnt + n
      → Ends (each_hit l c v f n ctx st)
  unfolding each_hit
  each_hit-Ends f body zero ctx st w enough =
      let past : ltb ctx.cnt ctx.total ≡ false = ground arith in rw past with_value
  each_hit-Ends f body (suc n) ctx st w enough =
      Ends-if (ltb ctx.cnt ctx.total)
        (Ends-bind_ok (get_next_item_pointer-Ends l.int8in c live true false ctx st.net.world w)
          (get_next_item_pointer-Next l.int8in c true false ctx st.net.world w)
          λ r k.
            go r.0 r.1 r.2 k
              (λ st' more. each_hit-Ends f body n r.1 st' k.well (omega (arith, k.total, more))))
        with_value
    where
      go :
          (hit : Option Hit) (ctx' : ScrollContext) (w : c.World)
          → Next ctx hit ctx'
          → ((st' : VacState c) → ctx.cnt < ctx'.cnt → Ends (each_hit l c v f n ctx' st'))
          → Ends {A = ScrollContext × VacState c} (elim hit [
            | none ↦ ok (ctx', at_world w st)
            | some hit ↦ f hit (at_world w st) >>= each_hit l c v f n ctx'
          ])
      go none ctx' w k rest = with_value
      go (some hit) ctx' w k rest =
          Ends-bind (body hit (at_world w st)) λ st'. rest st' (k.counted (λ e. cc))

  -- If libcurl's transfers end and the JSON parser returns, the loop over the hits of a scroll in its
  -- bounds, on the fuel that a scan gives it, ends whenever its body does, however the pages fall.
  pub each_hit-Ends_total :
      (f : Hit → VacState c → Outcome (VacState c))
      → ((hit : Hit) (st : VacState c) → Ends (f hit st))
      → (ctx : ScrollContext) (st : VacState c) → IsScroll ctx
      → Ends (each_hit l c v f ctx.total ctx st)
  each_hit-Ends_total f body ctx st w = each_hit-Ends f body ctx.total ctx st w (omega arith)
