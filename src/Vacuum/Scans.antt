-- ===== src/Vacuum/Scans.antt =====
-- What a vacuum's last scan leaves alone.
use zombodb.Prelude.{
  Bool-cases, List, Option, Outcome, WhenOk, WhenOk-bind, any_outcome, false, hung, inl, inr, ltb,
  none, ok, returned, some, suc, true, zero, ℕ, ◌>>=◌, ◌≡◌,
}
use zombodb.Admin.{remove_aborted_transactions}
use zombodb.Bulk.{BulkContext}
use zombodb.Curl.{Curl}
use zombodb.Json.{Items, Json, get_json_array_length, get_json_object_array, get_json_object_object}
use zombodb.Query.{JsonText, ZdbQuery}
use zombodb.Query.Searching.{search_of}
use zombodb.Scroll.{Hit, ScrollContext, get_next_item_pointer}
use zombodb.Scroll.Open.{close_scroll, open_scroll}
use zombodb.Text.{Text}
use zombodb.Vacuum.{
  VacInfo, VacState, aborted_fields, aborted_hit, aborted_items, at_world, each_hit, removable,
  scan,
}

module _ (l : JsonText) (c : Curl) (v : VacInfo) where
  -- A scan keeps what its body keeps, if that does not look at libcurl's state.
  each_hit-keeps :
      (P : VacState c → Type 0) (f : Hit → VacState c → Outcome (VacState c))
      → ((w : c.World) (st : VacState c) → P st → P (at_world w st))
      → ((hit : Hit) (st : VacState c) → P st → WhenOk P (f hit st))
      → (n : ℕ) (ctx : ScrollContext) (st : VacState c) → P st
      → WhenOk {A = ScrollContext × VacState c} (λ r. P r.1) (each_hit l c v f n ctx st)
  unfolding each_hit
  each_hit-keeps P f world step zero ctx st p = elim (Bool-cases (ltb ctx.cnt ctx.total)) [
    | inl e ↦ rw e hung
    | inr e ↦ rw e (returned p)
  ]
  each_hit-keeps P f world step (suc n) ctx st p = elim (Bool-cases (ltb ctx.cnt ctx.total)) [
    | inl e ↦ rw e (
        WhenOk-bind (any_outcome (get_next_item_pointer l.int8in c true false ctx st.net.world))
          λ r u. go r.0 r.1 r.2 (λ st' p'. each_hit-keeps P f world step n r.1 st' p'))
    | inr e ↦ rw e (returned p)
  ]
    where
      go :
          (hit : Option Hit) (ctx' : ScrollContext) (w : c.World)
          → ((st' : VacState c)
              → P st'
              → WhenOk {A = ScrollContext × VacState c} (λ r. P r.1) (each_hit l c v f n ctx' st'))
          → WhenOk {A = ScrollContext × VacState c}
              (λ r. P r.1)
              (elim hit [
                | none ↦ ok (ctx', at_world w st)
                | some hit ↦ f hit (at_world w st) >>= each_hit l c v f n ctx'
              ])
      go none ctx' w rest = returned (world w st p)
      go (some hit) ctx' w rest = WhenOk-bind (step hit (at_world w st) (world w st p)) rest

  pub scan-keeps :
      (P : VacState c → Type 0) (f : Hit → VacState c → Outcome (VacState c)) (query : ZdbQuery)
      (fields : List Text)
      → ((w : c.World) (st : VacState c) → P st → P (at_world w st))
      → ((hit : Hit) (st : VacState c) → P st → WhenOk P (f hit st))
      → (st : VacState c) → P st
      → WhenOk P (scan l c v query fields f st)
  unfolding scan
  scan-keeps P f query fields world step st p =
      WhenOk-bind (any_outcome (search_of l true v.visibility v.index query true 0 none fields))
        λ search u.
          WhenOk-bind (any_outcome (open_scroll l.int8in c true search st.net.world)) λ o u'.
            WhenOk-bind (each_hit-keeps P f world step o.0.total o.0 _ (world o.1 st p)) λ r p'.
              WhenOk-bind (any_outcome (close_scroll c r.0 r.1.net.world))
                λ closed u''. returned (world closed.1 r.1 p')

  -- What the last scan, for the ids of aborted transactions, leaves alone.
  unfoldable pub Untouched : BulkContext c → ℕ → VacState c → Type 0
  Untouched bulk deleted st = (st.bulk ≡ bulk) × (st.deleted ≡ deleted)

  aborted_items-Untouched :
      (bulk : BulkContext c) (deleted : ℕ) (st : VacState c) (items : Option Items)
      → Untouched bulk deleted st
      → WhenOk (Untouched bulk deleted) (aborted_items l c v st items)
  unfolding aborted_items Untouched
  aborted_items-Untouched bulk deleted st none u = returned u
  aborted_items-Untouched bulk deleted st (some items) u =
      WhenOk-bind (any_outcome (removable l c v (get_json_array_length items) 0 items st.net.world))
        λ r z.
          WhenOk-bind
            (any_outcome
              (remove_aborted_transactions c v.index r.0 (record st.net { world = r.1 })))
            λ n z'. returned (u.0, u.1)

  pub aborted_hit-Untouched :
      (bulk : BulkContext c) (deleted : ℕ) (hit : Hit) (st : VacState c)
      → Untouched bulk deleted st
      → WhenOk (Untouched bulk deleted) (aborted_hit l c v hit st)
  unfolding aborted_hit aborted_fields
  aborted_hit-Untouched bulk deleted hit st u =
      WhenOk-bind (any_outcome (get_json_object_object hit.entry "fields" true)) λ f z. go f
    where
      go : (f : Option Json) → WhenOk (Untouched bulk deleted) (aborted_fields l c v st f)
      go none = returned u
      go (some fields) =
          WhenOk-bind (any_outcome (get_json_object_array fields "zdb_aborted_xids" true))
            λ a z. aborted_items-Untouched bulk deleted st a u
