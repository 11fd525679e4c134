-- ===== src/Vacuum/Run.antt =====
-- zdb_vacuum_internal and amvacuumcleanup of src/c/indexam/zdbam.c.
use zombodb.Prelude.{Option, Outcome, [], if◌then◌else◌, none, not, ok, some, true, ℕ, ◌>>=◌, ◌∷◌}
use zombodb.Admin.{arbitrary_request, force_merge}
use zombodb.Bulk.{text_eq}
use zombodb.Bulk.Finish.{bulk_finish}
use zombodb.Bulk.Rows.{bulk_start}
use zombodb.Curl.{Curl, Net}
use zombodb.Query.{JsonText, zdbquery_in_direct}
use zombodb.Text.{codes}
use zombodb.Vacuum.{VacInfo, VacState, aborted_hit, at_world, count_text, scan, vacuum_rows}
use zombodb.Xact.{enter, leave}

-- IndexBulkDeleteResult, as far as the code fills it in.
pub record BulkDeleteResult : Type 0 where
  pub tuples_removed : ℕ
  pub num_index_tuples : ℕ

abbrev pub no_stats : BulkDeleteResult
no_stats = record { tuples_removed = 0; num_index_tuples = 0 }

-- What a vacuum leaves: the result that it returns, the statistics that it fills in, and its state.
pub record Vacuumed (c : Curl) : Type 0 where
  pub result : BulkDeleteResult
  pub stats : BulkDeleteResult
  pub state : VacState c

module _ (l : JsonText) (c : Curl) (v : VacInfo) where
  unfoldable pub refresh_index : Net c → Outcome (Net c)
  unfolding arbitrary_request text_eq
  refresh_index n =
      if not (text_eq v.index.refresh_interval (codes "-1"))
      then arbitrary_request c v.index (codes "POST") (codes "_refresh") none n
      else ok n

  unfoldable pub finish_bulk : VacState c → Outcome (VacState c)
  unfolding bulk_finish enter leave
  finish_bulk st = bulk_finish c v.session true (enter c st.net st.bulk) >>= λ bulk.
      ok (record st { bulk = bulk; net = leave c st.net bulk })

  unfoldable pub zdb_vacuum_internal : Net c → Outcome (Vacuumed c)
  unfolding refresh_index bulk_start vacuum_rows finish_bulk zdbquery_in_direct scan aborted_hit
      count_text
  zdb_vacuum_internal n = do
    n' ← refresh_index n
    bulk ← bulk_start c v.index none none true n'.world
    st ←
        vacuum_rows l c v
          (record { bulk = bulk; net = leave c n' bulk; deleted = 0; xmaxes_reset = 0 })
    ended ← finish_bulk st
    query ← zdbquery_in_direct l (codes "_id:zdb_aborted_xids")
    cleaned ← scan l c v query (codes "zdb_aborted_xids" ∷ []) (aborted_hit l c v) ended
    tuples ← count_text l c v [] cleaned.net.world
    ok (record {
      result = no_stats;
      stats = record { tuples_removed = cleaned.deleted; num_index_tuples = tuples.0 };
      state = at_world tuples.1 cleaned;
    })

  -- Without statistics from an earlier call it does the vacuum itself.
  unfoldable pub amvacuumcleanup :
      Option BulkDeleteResult → Net c → Outcome (BulkDeleteResult × Net c)
  unfolding zdb_vacuum_internal force_merge
  amvacuumcleanup (some stats) n = force_merge c v.index n >>= λ n'. ok (stats, n')
  amvacuumcleanup none n =
      zdb_vacuum_internal n >>= λ r. force_merge c v.index r.state.net >>= λ n'. ok (r.result, n')
