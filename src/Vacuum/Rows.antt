-- ===== src/Vacuum/Rows.antt =====
-- What a vacuum's three scans for rows do with their hits.
use zombodb.Prelude.{
  Bool-cases, List, Option, Outcome, WhenOk, WhenOk-bind, WhenOk-mono, [], any_outcome, false, hung,
  inl, inr, ltb, none, ok, refl, returned, some, suc, true, zero, ℕ, ◌++◌, ◌>>=◌, ◌≡◌,
}
use zombodb.Bulk.Batches.{RowOp}
use zombodb.Bulk.Ownership.{IsWell}
use zombodb.Curl.{Curl}
use zombodb.Index.{Session}
use zombodb.Query.{JsonText, ZdbQuery}
use zombodb.Query.Searching.{search_of}
use zombodb.Scroll.{Hit, ScrollContext, get_next_item_pointer}
use zombodb.Scroll.Open.{Search, close_scroll, open_scroll}
use zombodb.Vacuum.{
  VacInfo, VacState, aborted_xmax_op, at_world, each_hit, scan, to_xid64, vac_hit, vacuum_rows,
  x_fields, xmax_op, xmin_op,
}
use zombodb.Vacuum.Aborted.{outcome_eq}
use zombodb.Vacuum.Safety.{
  Cleaned, Follows, Rule, aborted_xmax_op-Follows, op_list, reset_rule, same-Cleaned, trans-Cleaned,
  vac_hit-HitDone, xmax_op-Follows, xmax_rule, xmin_op-Follows, xmin_rule,
}

module _ (l : JsonText) (c : Curl) (v : VacInfo) where
  -- The hits of a scroll from here to its end, each of them once and in order, with the row operations
  -- that were made for them. In between the world moves on with the bulk requests.
  pub data Treated (r : Rule) : ScrollContext → List (Session × RowOp) → Type 0 where
    complete : (ctx : ScrollContext) → ltb ctx.cnt ctx.total ≡ false → Treated r ctx []
    ended :
        (ctx ctx' : ScrollContext) (w w' : c.World)
        → get_next_item_pointer l.int8in c true false ctx w ≡ ok (none, ctx', w')
        → Treated r ctx []
    next_hit :
        (ctx ctx' : ScrollContext) (w w' : c.World) (hit : Hit) (o : Option RowOp)
        (ops : List (Session × RowOp))
        → get_next_item_pointer l.int8in c true false ctx w ≡ ok (some hit, ctx', w')
        → Follows l r hit o
        → Treated r ctx' ops
        → Treated r ctx (op_list v o ++ ops)

  record Swept (r : Rule) (ctx : ScrollContext) (st st' : VacState c) : Type 0 where
    ops : List (Session × RowOp)
    treated : Treated r ctx ops
    clean : Cleaned c ops st st'

  -- One of the vacuum's scans: its search, from its first hit to its last.
  pub record Scanned (r : Rule) (query : ZdbQuery) (ops : List (Session × RowOp)) : Type 0 where
    pub search : Search
    pub asked : search_of l true v.visibility v.index query true 0 none (x_fields l c v) ≡ ok search
    pub before : c.World
    pub opened : ScrollContext × c.World
    pub opening : open_scroll l.int8in c true search before ≡ ok opened
    pub treated : Treated r opened.0 ops

  record RanOver (r : Rule) (query : ZdbQuery) (st st' : VacState c) : Type 0 where
    ops : List (Session × RowOp)
    scanned : Scanned r query ops
    clean : Cleaned c ops st st'

  elsewhere :
      (ops : List (Session × RowOp)) (w w' : c.World) (st st' : VacState c)
      → Cleaned c ops (at_world w st) st'
      → Cleaned c ops st (at_world w' st')
  elsewhere ops w w' st st' k = record { well = k.well; ran_then = k.ran_then; deleted = k.deleted }

  each_hit-Swept :
      (r : Rule) (choose : Hit → Outcome (Option RowOp))
      → ((hit : Hit) → WhenOk (Follows l r hit) (choose hit))
      → (n : ℕ) (ctx : ScrollContext) (st : VacState c) → IsWell st.bulk
      → WhenOk {A = ScrollContext × VacState c}
          (λ q. Swept r ctx st q.1)
          (each_hit l c v (vac_hit l c v choose) n ctx st)
  unfolding each_hit
  each_hit-Swept r choose follows zero ctx st well = elim (Bool-cases (ltb ctx.cnt ctx.total)) [
    | inl e ↦ rw e hung
    | inr e ↦ rw e (
        returned (record {
          ops = [];
          treated = complete ctx e;
          clean = same-Cleaned c st st well refl refl;
        }))
  ]
  each_hit-Swept r choose follows (suc n) ctx st well = elim (Bool-cases (ltb ctx.cnt ctx.total)) [
    | inl e ↦ rw e (
        WhenOk-bind (outcome_eq (get_next_item_pointer l.int8in c true false ctx st.net.world))
          λ q f. go q.0 q.1 q.2 f (λ st' well'. each_hit-Swept r choose follows n q.1 st' well'))
    | inr e ↦ rw e (
        returned (record {
          ops = [];
          treated = complete ctx e;
          clean = same-Cleaned c st st well refl refl;
        }))
  ]
    where
      go :
          (o : Option Hit) (ctx' : ScrollContext) (w : c.World)
          → get_next_item_pointer l.int8in c true false ctx st.net.world ≡ ok (o, ctx', w)
          → ((st' : VacState c)
              → IsWell st'.bulk
              → WhenOk {A = ScrollContext × VacState c}
                  (λ q. Swept r ctx' st' q.1)
                  (each_hit l c v (vac_hit l c v choose) n ctx' st'))
          → WhenOk {A = ScrollContext × VacState c}
              (λ q. Swept r ctx st q.1)
              (elim o [
                | none ↦ ok (ctx', at_world w st)
                | some hit ↦
                    vac_hit l c v choose hit (at_world w st)
                    >>= each_hit l c v (vac_hit l c v choose) n ctx'
              ])
      go none ctx' w f later = returned (record {
        ops = [];
        treated = ended ctx ctx' st.net.world w f;
        clean = same-Cleaned c st (at_world w st) well refl refl;
      })
      go (some hit) ctx' w f later =
          WhenOk-bind (vac_hit-HitDone l c v r choose hit (at_world w st) well (follows hit))
            λ st1 d. WhenOk-mono (later st1 d.clean.well) λ q k. record {
              ops = op_list v d.chosen ++ k.ops;
              treated = next_hit ctx ctx' st.net.world w hit d.chosen k.ops f d.follows k.treated;
              clean =
                  trans-Cleaned c (op_list v d.chosen) k.ops st st1 q.1
                    (record {
                      well = d.clean.well;
                      ran_then = d.clean.ran_then;
                      deleted = d.clean.deleted;
                    })
                    k.clean;
            }

  scan-RanOver :
      (r : Rule) (choose : Hit → Outcome (Option RowOp)) (query : ZdbQuery)
      → ((hit : Hit) → WhenOk (Follows l r hit) (choose hit))
      → (st : VacState c) → IsWell st.bulk
      → WhenOk (RanOver r query st) (scan l c v query (x_fields l c v) (vac_hit l c v choose) st)
  unfolding scan
  scan-RanOver r choose query follows st well =
      WhenOk-bind
        (outcome_eq (search_of l true v.visibility v.index query true 0 none (x_fields l c v)))
        λ search e.
          WhenOk-bind (outcome_eq (open_scroll l.int8in c true search st.net.world)) λ o f.
            WhenOk-bind (each_hit-Swept r choose follows o.0.total o.0 (at_world o.1 st) well)
              λ q k. WhenOk-bind (any_outcome (close_scroll c q.0 q.1.net.world)) λ closed u.
                returned (record {
                  ops = k.ops;
                  scanned = record {
                    search = search;
                    asked = e;
                    before = st.net.world;
                    opened = o;
                    opening = f;
                    treated = k.treated;
                  };
                  clean = elsewhere k.ops o.1 closed.1 st q.1 k.clean;
                })

  -- The three scans for rows, one after the other.
  pub record RowsDone (st st' : VacState c) : Type 0 where
    pub inserted : List (Session × RowOp)
    pub deleted : List (Session × RowOp)
    pub tried : List (Session × RowOp)
    pub first : Scanned (xmin_rule v) (v.queries.by_xmin (to_xid64 v v.oldest_xmin)) inserted
    pub second : Scanned (xmax_rule v) (v.queries.by_xmax (to_xid64 v v.oldest_xmin)) deleted
    pub third : Scanned (reset_rule v) (v.queries.aborted_xmax (to_xid64 v v.oldest_xmin)) tried
    pub clean : Cleaned c (inserted ++ (deleted ++ tried)) st st'

  pub vacuum_rows-RowsDone :
      (st : VacState c) → IsWell st.bulk → WhenOk (RowsDone st) (vacuum_rows l c v st)
  unfolding vacuum_rows
  vacuum_rows-RowsDone st well =
      WhenOk-bind (scan-RanOver (xmin_rule v) (xmin_op l v) _ (xmin_op-Follows l c v) st well)
        λ st1 a.
          WhenOk-bind
            (scan-RanOver (xmax_rule v) (xmax_op l v) _ (xmax_op-Follows l c v) st1 a.clean.well)
            λ st2 b.
              WhenOk-mono
                (scan-RanOver (reset_rule v) (aborted_xmax_op l v) _ (aborted_xmax_op-Follows l c v)
                  st2 b.clean.well)
                λ st3 d. record {
                  inserted = a.ops;
                  deleted = b.ops;
                  tried = d.ops;
                  first = a.scanned;
                  second = b.scanned;
                  third = d.scanned;
                  clean =
                      trans-Cleaned c a.ops (b.ops ++ d.ops) st st1 st3 a.clean
                        (trans-Cleaned c b.ops d.ops st1 st2 st3 b.clean d.clean);
                }
