-- ===== src/Visibility.antt =====
-- zdb_internal_visibility_clause of src/c/indexam/zdbfuncs.c: the query for the documents whose rows a
-- snapshot sees. A query is a value of Clause, and its text is the source's without the white space
-- between the tokens.
pub mod Mvcc
pub mod Lost
use zombodb.Prelude.{List, Outcome, [], ℕ, ◌++◌, ◌∷◌}
use zombodb.Admin.{print_name, xids_array}
use zombodb.Aggs.Requests.{terms}
use zombodb.Curl.{Curl}
use zombodb.Index.{IndexOptions, Session}
use zombodb.Query.{JsonText, ZdbQuery, zdbquery_in_direct}
use zombodb.Text.{Text, codes, decimal}
use zombodb.Xact.{XactState, collect_used_xids}
use zombodb.Xid.{convert_xid}

-- The columns that ZomboDB adds to a row's document.
pub data Column : Type 0 where
  zdb_xmin zdb_cmin zdb_xmax zdb_cmax : Column

-- The queries of Elasticsearch that the clause is made of. `is_listed_in` is a terms query that looks
-- its terms up in the document zdb_aborted_xids of an index.
mutual
  pub data Clause : Type 0 where
    must : Clauses → Clause
    should : Clauses → Clause
    must_not : Clauses → Clause
    is_one_of : Column → List ℕ → Clause
    is_listed_in : Column → Text → Text → Clause
    is_less_than : Column → ℕ → Clause
    is_at_least : Column → ℕ → Clause
    has_column : Column → Clause
    is_aborted_list : Clause

  pub data Clauses : Type 0 where
    no_clause : Clauses
    clause_then : Clause → Clauses → Clauses

abbrev just : Clause → Clauses
just clause = clause_then clause no_clause

unfoldable pub column_name : Column → Text
column_name zdb_xmin = codes "zdb_xmin"
column_name zdb_cmin = codes "zdb_cmin"
column_name zdb_xmax = codes "zdb_xmax"
column_name zdb_cmax = codes "zdb_cmax"

-- `{"name":{"column":value}}`.
unfoldable pub column_query : Text → Column → Text → Text
unfolding column_name
column_query name column value =
    codes "{\""
    ++ (name ++ (codes "\":{\"" ++ (column_name column ++ (codes "\":" ++ (value ++ codes "}}")))))

unfoldable mutual
  unfolding column_query column_name xids_array

  pub clause_text : Clause → Text
  clause_text (must clauses) =
      codes "{\"bool\":{\"must\":[" ++ (clauses_text clauses ++ codes "]}}")
  clause_text (should clauses) =
      codes "{\"bool\":{\"should\":[" ++ (clauses_text clauses ++ codes "]}}")
  clause_text (must_not clauses) =
      codes "{\"bool\":{\"must_not\":[" ++ (clauses_text clauses ++ codes "]}}")
  clause_text (is_one_of column xids) =
      column_query (codes "terms") column (codes "[" ++ (xids_array xids ++ codes "]"))
  clause_text (is_listed_in column index_name type_name) = column_query (codes "terms") column (
      codes "{\"index\":\""
      ++ (index_name
          ++ (codes "\",\"type\":\""
              ++ (type_name
                  ++ codes "\",\"path\":\"zdb_aborted_xids\",\"id\":\"zdb_aborted_xids\"}"))))
  clause_text (is_less_than column n) =
      column_query (codes "range") column (codes "{\"lt\":" ++ (decimal n ++ codes "}"))
  clause_text (is_at_least column n) =
      column_query (codes "range") column (codes "{\"gte\":" ++ (decimal n ++ codes "}"))
  clause_text (has_column column) =
      codes "{\"exists\":{\"field\":\"" ++ (column_name column ++ codes "\"}}")
  clause_text is_aborted_list = codes "{\"query_string\":{\"query\":\"_id:zdb_aborted_xids\"}}"

  pub clauses_text : Clauses → Text
  clauses_text no_clause = []
  clauses_text (clause_then clause no_clause) = clause_text clause
  clauses_text (clause_then clause (clause_then clause' clauses)) =
      clause_text clause ++ (codes "," ++ clauses_text (clause_then clause' clauses))

-- The parts of the clause, over the transaction's own ids, the ids of other active transactions, the
-- current command, the snapshot's first unassigned id, and the index's name and type.
module _ (mine active : List ℕ) (command_id xmax : ℕ) (index_name type_name : Text) where
  -- Not deleted.
  unfoldable pub no_xmax : Clause
  no_xmax = must_not (just (has_column zdb_xmax))

  -- Deleted by this transaction, by the current command or a later one.
  unfoldable pub own_later_xmax : Clause
  own_later_xmax =
      must (clause_then (is_one_of zdb_xmax mine) (just (is_at_least zdb_cmax command_id)))

  -- Deleted by another transaction that the snapshot does not see as committed.
  unfoldable pub others_unseen_xmax : Clause
  others_unseen_xmax = must (
      clause_then (must_not (just (is_one_of zdb_xmax mine))) (
        just (
          should (
            clause_then (is_listed_in zdb_xmax index_name type_name)
              (clause_then (is_one_of zdb_xmax active) (just (is_at_least zdb_xmax xmax)))))))

  -- Inserted by this transaction.
  unfoldable pub own_row : Clause
  unfolding no_xmax own_later_xmax
  own_row = must (
      clause_then (is_one_of zdb_xmin mine) (
        clause_then (is_less_than zdb_cmin command_id)
          (just (should (clause_then no_xmax (just own_later_xmax))))))

  -- Inserted by a transaction that the snapshot sees as committed.
  unfoldable pub seen_row : Clause
  unfolding no_xmax own_later_xmax others_unseen_xmax
  seen_row = must (
      just (
        must (
          clause_then (must_not (just (is_listed_in zdb_xmin index_name type_name))) (
            clause_then (must_not (just (is_one_of zdb_xmin active))) (
              clause_then (must_not (just (is_at_least zdb_xmin xmax))) (
                just (
                  should (
                    clause_then no_xmax
                      (clause_then own_later_xmax (just others_unseen_xmax))))))))))

  unfoldable pub visibility_clause : Clause
  unfolding own_row seen_row
  visibility_clause = must (
      clause_then (must_not (just is_aborted_list))
        (just (should (clause_then own_row (just seen_row)))))

-- Postgres' snapshot, with 32-bit ids.
pub record Snapshot : Type 0 where
  pub xip : List ℕ
  pub xmax : ℕ

unfoldable pub active_xids : Session → List ℕ → List ℕ
unfolding convert_xid
active_xids s [] = []
active_xids s (xid ∷ xids) = convert_xid s.tests s.next xid ∷ active_xids s xids

module _ (l : JsonText) (c : Curl) where
  unfoldable pub zdb_internal_visibility_clause :
      Session → Snapshot → ℕ → ℕ → IndexOptions → XactState c → Outcome ZdbQuery
  unfolding collect_used_xids active_xids visibility_clause clause_text zdbquery_in_direct
  zdb_internal_visibility_clause s snapshot command_id xid_if_any rel st = zdbquery_in_direct l (
      clause_text (
        visibility_clause (collect_used_xids c s xid_if_any st) (active_xids s snapshot.xip)
          command_id (convert_xid s.tests s.next snapshot.xmax) (print_name rel.index_name)
          rel.type_name))
