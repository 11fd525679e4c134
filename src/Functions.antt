-- ===== src/Functions.antt =====
-- SQL functions of src/c/indexam/zdbfuncs.c: the options of an index, the rows that a query finds, as
-- an array and as a set, and the number of rows that zdb_restrict expects.
pub mod Rows
use zombodb.Prelude.{
  Bool, List, Outcome, [], false, if◌then◌else◌, ltb, none, ok, some, suc, true, zero, ℕ, ◌+◌, ◌==◌,
  ◌>>=◌, ◌>>◌, ◌∷◌,
}
use zombodb.Admin.{estimate_selectivity, print_name}
use zombodb.Curl.{Curl, Response}
use zombodb.Index.{IndexOptions}
use zombodb.Index.Relations.{IndexEntry, open_index}
use zombodb.Query.{JsonText, ZdbQuery, zdbquery_get_row_estimate}
use zombodb.Query.Dsl.{convert_to_query_dsl}
use zombodb.Query.Searching.{search_of}
use zombodb.Scroll.{ScrollContext, found, get_next_item_pointer}
use zombodb.Scroll.Open.{close_scroll, open_scroll}
use zombodb.Text.{Text}
use zombodb.Xid.{ItemPointer}

unfoldable pub zdb_index_name : IndexEntry → IndexOptions → Outcome Text
unfolding open_index
zdb_index_name entry rel = open_index entry rel >>= λ r. ok (print_name r.index_name)

unfoldable pub zdb_index_url : IndexEntry → IndexOptions → Outcome Text
unfolding open_index
zdb_index_url entry rel = open_index entry rel >>= λ r. ok r.url

unfoldable pub zdb_index_type_name : IndexEntry → IndexOptions → Outcome Text
unfolding open_index
zdb_index_type_name entry rel = open_index entry rel >>= λ r. ok r.type_name

-- The right argument of the operator, if it is a constant.
pub data RestrictArgument : Type 0 where
  array_constant : RestrictArgument
  query_constant : ZdbQuery → RestrictArgument
  no_constant : RestrictArgument

module _ (l : JsonText) (c : Curl) (ignore_visibility : Bool) (visibility : ZdbQuery) where
  -- A search without a limit, highlights or further fields.
  unfoldable pub open_query :
      IndexEntry → IndexOptions → ZdbQuery → c.World → Outcome (ScrollContext × c.World)
  unfolding open_index search_of open_scroll
  open_query entry rel query w = do
    rel' ← open_index entry rel
    search ← search_of l ignore_visibility visibility rel' query false 0 none []
    open_scroll l.int8in c ignore_visibility search w

  -- `for (i = 0; i < scrollContext->total; i++)`.
  unfoldable pub tids_loop :
      ℕ → ScrollContext → c.World → Outcome (List ItemPointer × ScrollContext × c.World)
  unfolding get_next_item_pointer
  tids_loop zero scroll w = ok ([], scroll, w)
  tids_loop (suc n) scroll w =
      get_next_item_pointer l.int8in c ignore_visibility true scroll w >>= λ r. elim r.0 [
        | none ↦ ok ([], r.1, r.2)
        | some hit ↦ found hit.ctid >>= λ ctid.
            tids_loop n r.1 r.2 >>= λ rest. ok (ctid ∷ rest.0, rest.1, rest.2)
      ]

  unfoldable pub zdb_query_tids :
      IndexEntry → IndexOptions → ZdbQuery → c.World → Outcome (List ItemPointer × c.World)
  unfolding open_query tids_loop close_scroll
  zdb_query_tids entry rel query w = do
    o ← open_query entry rel query w
    r ← tids_loop o.0.total o.0 o.1
    closed ← close_scroll c r.1 r.2
    ok (r.0, closed.1)

  -- The function context that Postgres keeps between the calls of a set-returning function.
  pub record SrfContext : Type 0 where
    pub call_cntr : ℕ
    pub max_calls : ℕ
    pub scroll : ScrollContext

  -- SRF_RETURN_NEXT and SRF_RETURN_DONE.
  pub data SrfResult : Type 0 where
    next_row : ItemPointer → SrfContext → c.World → SrfResult
    no_more_rows : c.World → SrfResult

  unfoldable pub srf_done : ScrollContext → c.World → Outcome SrfResult
  unfolding close_scroll
  srf_done scroll w = close_scroll c scroll w >>= λ closed. ok (no_more_rows closed.1)

  -- What every call does.
  unfoldable pub srf_call : SrfContext → c.World → Outcome SrfResult
  unfolding get_next_item_pointer srf_done
  srf_call context w =
      if ltb context.call_cntr context.max_calls
      then (get_next_item_pointer l.int8in c ignore_visibility true context.scroll w >>= λ r.
          elim r.0 [
            | none ↦ srf_done r.1 r.2
            | some hit ↦ found hit.ctid >>= λ ctid. ok (
                next_row ctid (record context { call_cntr = context.call_cntr + 1; scroll = r.1 })
                  r.2)
          ])
      else srf_done context.scroll w

  -- What the first call does before it: it opens the scroll, and has done if that is empty.
  unfoldable pub zdb_query_srf : IndexEntry → IndexOptions → ZdbQuery → c.World → Outcome SrfResult
  unfolding open_query srf_call srf_done
  zdb_query_srf entry rel query w = open_query entry rel query w >>= λ o.
      if o.0.total == 0
      then srf_done o.0 o.1
      else srf_call (record { call_cntr = 0; max_calls = o.0.total; scroll = o.0 }) o.1

  -- The count that zdb_restrict divides by the table's number of rows. `row_estimation` is the setting
  -- zdb.default_row_estimate as a uint64, and `count_property` reads the count of an answer.
  unfoldable pub count_estimate :
      (Response → Outcome ℕ) → ℕ → RestrictArgument → IndexOptions → c.World → Outcome (ℕ × c.World)
  unfolding zdbquery_get_row_estimate convert_to_query_dsl estimate_selectivity
  count_estimate count_property row_estimation array_constant rel w = ok (row_estimation, w)
  count_estimate count_property row_estimation no_constant rel w = ok (1, w)
  count_estimate count_property row_estimation (query_constant query) rel w =
      zdbquery_get_row_estimate l row_estimation query >>= λ estimate.
      if ltb estimate 1
      then (convert_to_query_dsl l ignore_visibility visibility query false >>= λ dsl.
          estimate_selectivity c count_property rel dsl w)
      else ok (estimate, w)
