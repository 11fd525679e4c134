-- ===== src/Vacuum.antt =====
-- The scans of zdb_vacuum_internal in src/c/indexam/zdbam.c, and what it does with their hits. The
-- session's setting to ignore visibility is on throughout, as the function sets it, and no insert
-- contexts are open.
pub mod Run
pub mod Safety
pub mod Rows
pub mod Scans
pub mod Sending
pub mod Aborted
pub mod Liveness
use Prim.Native.String.{String}
use zombodb.Prelude.{
  Bool, List, Option, Outcome, [], false, hang, if◌then◌else◌, ltb, none, not, ok, some, suc, true,
  zero, ℕ, ◌%◌, ◌&&◌, ◌++◌, ◌+◌, ◌==◌, ◌>>=◌, ◌>>◌, ◌∷◌,
}
use zombodb.Admin.{count, remove_aborted_transactions}
use zombodb.Bulk.{BulkContext}
use zombodb.Bulk.Batches.{RowOp, apply_op, delete_by_xmax, delete_by_xmin, vacuum}
use zombodb.Curl.{Curl, Net}
use zombodb.Index.{IndexOptions, Session}
use zombodb.Json.{
  Items, Json, get_json_array_element_uint64, get_json_array_length, get_json_first_array_uint64,
  get_json_object_array, get_json_object_object,
}
use zombodb.Query.{JsonText, ZdbQuery, zdbquery_in_direct}
use zombodb.Query.Dsl.{convert_to_query_dsl}
use zombodb.Query.Searching.{search_of}
use zombodb.Scroll.{Hit, ScrollContext, found, get_next_item_pointer}
use zombodb.Scroll.Open.{close_scroll, open_scroll}
use zombodb.Text.{Text, codes, decimal}
use zombodb.Xact.{enter, leave}
use zombodb.Xid.{convert_xid, u32}

-- What Postgres knows of a transaction id.
pub record XactStatus : Type 0 where
  pub did_abort : ℕ → Bool
  pub did_commit : ℕ → Bool
  pub is_in_progress : ℕ → Bool

-- The queries of the SQL functions vac_by_xmin, vac_by_xmax and vac_aborted_xmax for the oldest
-- transaction id.
pub record VacQueries : Type 0 where
  pub by_xmin : ℕ → ZdbQuery
  pub by_xmax : ℕ → ZdbQuery
  pub aborted_xmax : ℕ → ZdbQuery

-- The arguments: the index, what Postgres says of transactions, the oldest id that a snapshot needs.
pub record VacInfo : Type 0 where
  pub index : IndexOptions
  pub session : Session
  pub status : XactStatus
  pub oldest_xmin : ℕ
  pub queries : VacQueries
  pub visibility : ZdbQuery

unfoldable pub is_aborted : VacInfo → ℕ → Bool
is_aborted v xid =
    v.session.tests.precedes xid v.oldest_xmin
    && (v.status.did_abort xid
        && (not (v.status.did_commit xid) && not (v.status.is_in_progress xid)))

unfoldable pub is_committed : VacInfo → ℕ → Bool
is_committed v xid =
    v.session.tests.precedes xid v.oldest_xmin
    && (v.status.did_commit xid
        && (not (v.status.did_abort xid) && not (v.status.is_in_progress xid)))

abbrev pub to_xid64 : VacInfo → ℕ → ℕ
to_xid64 v xid = convert_xid v.session.tests v.session.next xid

module _ (l : JsonText) where
  -- A field of the hit; without fields it is a read through NULL.
  unfoldable pub hit_uint64 : String → Hit → Outcome ℕ
  unfolding get_json_first_array_uint64
  hit_uint64 key hit = do
    f ← get_json_object_object hit.entry "fields" true
    fields ← found f
    get_json_first_array_uint64 l.int8in fields key

  -- What the three scans do with a hit: the row operation, if there is one.
  unfoldable pub xmin_op : VacInfo → Hit → Outcome (Option RowOp)
  unfolding hit_uint64 is_aborted
  xmin_op v hit = do
    id ← found hit.es_id
    xmin64 ← hit_uint64 "zdb_xmin" hit
    let xmin = xmin64 % u32
    ok (if is_aborted v xmin then some (delete_by_xmin (codes id) (to_xid64 v xmin)) else none)

  unfoldable pub xmax_op : VacInfo → Hit → Outcome (Option RowOp)
  unfolding hit_uint64 is_committed
  xmax_op v hit = do
    id ← found hit.es_id
    xmax64 ← hit_uint64 "zdb_xmax" hit
    let xmax = xmax64 % u32
    ok (if is_committed v xmax then some (delete_by_xmax (codes id) (to_xid64 v xmax)) else none)

  unfoldable pub aborted_xmax_op : VacInfo → Hit → Outcome (Option RowOp)
  unfolding hit_uint64 is_aborted
  aborted_xmax_op v hit = do
    id ← found hit.es_id
    xmax64 ← hit_uint64 "zdb_xmax" hit
    ok (if is_aborted v (xmax64 % u32) then some (vacuum (codes id) xmax64) else none)

module _ (c : Curl) where
  -- The bulk process, the requests outside of it, and the counters.
  pub record VacState : Type 0 where
    pub bulk : BulkContext c
    pub net : Net c
    pub deleted : ℕ
    pub xmaxes_reset : ℕ

module _ {c : Curl} where
  abbrev pub at_world : c.World → VacState c → VacState c
  at_world w st = record st { net = record st.net { world = w } }

  unfoldable pub counted : RowOp → VacState c → VacState c
  counted (delete_by_xmin doc xmin) st = record st { deleted = st.deleted + 1 }
  counted (delete_by_xmax doc xmax) st = record st { deleted = st.deleted + 1 }
  counted (vacuum doc xmax) st = record st { xmaxes_reset = st.xmaxes_reset + 1 }
  counted _ st = st

module _ (l : JsonText) (c : Curl) (v : VacInfo) where
  unfoldable pub write_op : RowOp → VacState c → Outcome (VacState c)
  unfolding apply_op enter leave counted
  write_op op st = apply_op c v.session op (enter c st.net st.bulk) >>= λ bulk.
      ok (counted op (record st { bulk = bulk; net = leave c st.net bulk }))

  unfoldable pub vac_hit : (Hit → Outcome (Option RowOp)) → Hit → VacState c → Outcome (VacState c)
  unfolding write_op
  vac_hit choose hit st = choose hit >>= λ o. elim o [ none ↦ ok st | some op ↦ write_op op st ]

  -- `while (scroll->cnt < scroll->total)`.
  unfoldable pub each_hit :
      (Hit → VacState c → Outcome (VacState c))
      → ℕ
      → ScrollContext
      → VacState c
      → Outcome (ScrollContext × VacState c)
  unfolding get_next_item_pointer
  each_hit f zero ctx st = if ltb ctx.cnt ctx.total then hang else ok (ctx, st)
  each_hit f (suc n) ctx st =
      if ltb ctx.cnt ctx.total
      then (get_next_item_pointer l.int8in c true false ctx st.net.world >>= λ r. elim r.0 [
        | none ↦ ok (r.1, at_world r.2 st)
        | some hit ↦ f hit (at_world r.2 st) >>= each_hit f n r.1
      ])
      else ok (ctx, st)

  unfoldable pub scan :
      ZdbQuery
      → List Text
      → (Hit → VacState c → Outcome (VacState c))
      → VacState c
      → Outcome (VacState c)
  unfolding search_of open_scroll each_hit close_scroll
  scan query extra_fields f st = do
    search ← search_of l true v.visibility v.index query true 0 none extra_fields
    o ← open_scroll l.int8in c true search st.net.world
    r ← each_hit f o.0.total o.0 (at_world o.1 st)
    closed ← close_scroll c r.0 r.1.net.world
    ok (at_world closed.1 r.1)

  abbrev x_fields : List Text
  x_fields = codes "zdb_xmin" ∷ codes "zdb_xmax" ∷ []

  -- The three scans for rows.
  unfoldable pub vacuum_rows : VacState c → Outcome (VacState c)
  unfolding scan vac_hit xmin_op xmax_op aborted_xmax_op
  vacuum_rows st = do
    st1 ← scan (v.queries.by_xmin (to_xid64 v v.oldest_xmin)) x_fields (vac_hit (xmin_op l v)) st
    st2 ← scan (v.queries.by_xmax (to_xid64 v v.oldest_xmin)) x_fields (vac_hit (xmax_op l v)) st1
    scan (v.queries.aborted_xmax (to_xid64 v v.oldest_xmin)) x_fields
        (vac_hit (aborted_xmax_op l v)) st2

  -- ElasticsearchCount of `zdb_xmin:%lu` and the like.
  unfoldable pub count_text : Text → c.World → Outcome (ℕ × c.World)
  unfolding zdbquery_in_direct convert_to_query_dsl count
  count_text text w = do
    query ← zdbquery_in_direct l text
    dsl ← convert_to_query_dsl l true v.visibility query true
    count l.int8in c v.index dsl w

  -- The ids from index `i` on that can be removed.
  unfoldable pub removable : ℕ → ℕ → Items → c.World → Outcome (List ℕ × c.World)
  unfolding get_json_array_element_uint64 is_aborted count_text
  removable zero i items w = ok ([], w)
  removable (suc n) i items w = get_json_array_element_uint64 l.int8in items i >>= λ xid64.
      if is_aborted v (xid64 % u32)
      then (do
        xmin_cnt ← count_text (codes "zdb_xmin:" ++ decimal xid64) w
        xmax_cnt ← count_text (codes "zdb_xmax:" ++ decimal xid64) xmin_cnt.1
        rest ← removable n (i + 1) items xmax_cnt.1
        ok (if xmin_cnt.0 == 0 && xmax_cnt.0 == 0 then xid64 ∷ rest.0 else rest.0, rest.1))
      else removable n (i + 1) items w

  unfoldable pub aborted_items : VacState c → Option Items → Outcome (VacState c)
  unfolding removable remove_aborted_transactions get_json_array_length
  aborted_items st none = ok st
  aborted_items st (some items) = do
    r ← removable (get_json_array_length items) 0 items st.net.world
    n ← remove_aborted_transactions c v.index r.0 (record st.net { world = r.1 })
    ok (record st { net = n })

  unfoldable pub aborted_fields : VacState c → Option Json → Outcome (VacState c)
  unfolding aborted_items get_json_object_array
  aborted_fields st none = ok st
  aborted_fields st (some fields) =
      get_json_object_array fields "zdb_aborted_xids" true >>= aborted_items st

  unfoldable pub aborted_hit : Hit → VacState c → Outcome (VacState c)
  unfolding aborted_fields
  aborted_hit hit st = get_json_object_object hit.entry "fields" true >>= aborted_fields st
