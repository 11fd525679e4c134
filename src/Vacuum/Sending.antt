-- ===== src/Vacuum/Sending.antt =====
-- All that a vacuum sends.
use zombodb.Prelude.{
  List, WhenOk, WhenOk-bind, [], any_outcome, append-nil, arith, false, none, refl, returned, subst,
  true, ◌++◌, ◌≡◌,
}
use zombodb.Bulk.Batches.{RowOp, expected, remembered}
use zombodb.Bulk.Commit.{bulk_finish-bodies}
use zombodb.Bulk.Ownership.{IsWell, wire}
use zombodb.Bulk.Runs.{Ran, Ran-nil}
use zombodb.Bulk.Sends.{commit_marks}
use zombodb.Bulk.Start.{Started, bulk_start-WhenOk}
use zombodb.Curl.{Curl, Net}
use zombodb.Index.{Session}
use zombodb.Query.{JsonText, zdbquery_in_direct}
use zombodb.Rest.Sent.{bodies}
use zombodb.Text.{Text}
use zombodb.Vacuum.{VacInfo, VacState, aborted_hit, count_text, to_xid64}
use zombodb.Vacuum.Rows.{Scanned, vacuum_rows-RowsDone}
use zombodb.Vacuum.Run.{Vacuumed, finish_bulk, refresh_index, zdb_vacuum_internal}
use zombodb.Vacuum.Safety.{Cleaned, deletions, reset_rule, xmax_rule, xmin_rule}
use zombodb.Vacuum.Scans.{Untouched, aborted_hit-Untouched, scan-keeps}
use zombodb.Xact.{enter}
use zombodb.Xact.Contexts.{enter-IsWell}

module _ (l : JsonText) (c : Curl) (v : VacInfo) where
  -- What a vacuum has sent to the index through its bulk process, and counted.
  pub record SentByVacuum (r : Vacuumed c) : Type 0 where
    pub inserted : List (Session × RowOp)
    pub deleted : List (Session × RowOp)
    pub tried : List (Session × RowOp)
    pub first : Scanned l c v (xmin_rule v) (v.queries.by_xmin (to_xid64 v v.oldest_xmin)) inserted
    pub second : Scanned l c v (xmax_rule v) (v.queries.by_xmax (to_xid64 v v.oldest_xmin)) deleted
    pub third :
        Scanned l c v (reset_rule v) (v.queries.aborted_xmax (to_xid64 v v.oldest_xmin)) tried
    pub sent :
        bodies r.state.bulk.net.sent
        ≡ expected false 0 [] (inserted ++ (deleted ++ tried))
          ++ commit_marks v.session (remembered 0 [] (inserted ++ (deleted ++ tried)))
    pub counted : r.stats.tuples_removed ≡ deletions (inserted ++ (deleted ++ tried))

  finish_bulk-bodies :
      (st : VacState c)
      → IsWell st.bulk
      → WhenOk
          (λ st'.
            (bodies st'.bulk.net.sent ≡ wire st.bulk ++ commit_marks v.session st.bulk.used_xids)
            × (st'.deleted ≡ st.deleted))
          (finish_bulk l c v st)
  unfolding finish_bulk enter wire
  finish_bulk-bodies st w =
      WhenOk-bind (bulk_finish-bodies c v.session _ (enter-IsWell c st.net st.bulk w))
        λ bulk e. returned (e, refl)

  whole_run :
      (ops : List (Session × RowOp)) (st st' : VacState c) (name : Text)
      → Started c v.index name none st.bulk
      → Cleaned c ops st st'
      → (wire st'.bulk ≡ expected false 0 [] ops) × (st'.bulk.used_xids ≡ remembered 0 [] ops)
  whole_run ops st st' name start k =
      let r : Ran c ops st.bulk st'.bulk =
        subst (λ ops. Ran c ops st.bulk st'.bulk) (append-nil ops)
          (k.ran_then [] st'.bulk (Ran-nil c st'.bulk k.well)) in
      (
        rw (r.same_wire, start.nothing, start.contains_json, start.last_used_xid, start.no_rows.2)
            refl,
        rw (r.used_xids, start.last_used_xid, start.no_rows.2) refl,
      )

  -- A vacuum, if it returns, has made three scans and sent to the index what they ask for, followed by
  -- the marks of its own transaction. The first scan reads zdb_xmin of its hits, and deletes a document
  -- whose inserting transaction has aborted; the second reads zdb_xmax, and deletes a document whose
  -- deleting transaction has committed; the third reads zdb_xmax, and resets it where that transaction
  -- has aborted. Each of these transactions precedes the oldest one that a snapshot needs and is not in
  -- progress. Each scan treats the hits of its search from the first to the last, every one once and
  -- in order, and sends nothing else. The number of removed tuples in the statistics that the
  -- function fills in, though it does not return them, is the number of deletions.
  pub zdb_vacuum_internal-SentByVacuum :
      (n : Net c) → WhenOk SentByVacuum (zdb_vacuum_internal l c v n)
  unfolding zdb_vacuum_internal Untouched
  zdb_vacuum_internal-SentByVacuum n = WhenOk-bind (any_outcome (refresh_index l c v n)) λ n' z.
      WhenOk-bind (bulk_start-WhenOk c v.index none none true n'.world) λ bulk start.
        WhenOk-bind (vacuum_rows-RowsDone l c v _ start.1.well) λ st k.
          WhenOk-bind (finish_bulk-bodies st k.clean.well) λ ended f.
            WhenOk-bind (any_outcome (zdbquery_in_direct l _)) λ query z'.
              WhenOk-bind
                (scan-keeps l c v (Untouched l c v ended.bulk ended.deleted) (aborted_hit l c v)
                  query _ (λ w st u. u) (aborted_hit-Untouched l c v ended.bulk ended.deleted) ended
                  (refl, refl))
                λ cleaned u.
                  WhenOk-bind (any_outcome (count_text l c v [] cleaned.net.world)) λ tuples z''.
                    returned (record {
                      inserted = k.inserted;
                      deleted = k.deleted;
                      tried = k.tried;
                      first = k.first;
                      second = k.second;
                      third = k.third;
                      sent =
                          rw
                            (
                              u.0,
                              f.0,
                              (whole_run _ _ st start.0 start.1 k.clean).0,
                              (whole_run _ _ st start.0 start.1 k.clean).1,
                            )
                            refl;
                      counted = omega (arith, u.1, f.1, k.clean.deleted);
                    })
