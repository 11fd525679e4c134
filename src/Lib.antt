-- ===== src/Lib.antt =====
-- ZomboDB keeps an index of a Postgres table in Elasticsearch. A transaction that writes to the
-- table opens a bulk process for the index. Each row becomes two lines of a bulk request, the
-- requests go out through libcurl while the transaction goes on, and the end of the transaction
-- sends what is left and marks the transaction as committed.
--
-- The parts, and the files that model them:
--   Prelude    shared names; Prelude/Fallible has Outcome: a value, a Postgres ERROR, undefined
--              behaviour (fault), or a loop that is never left (hang).
--   Xid        convert_xid of src/c/utils/utils.c, and the packing of a ctid into 64 bits
--              (src/c/utils/utils.h).
--   Text       byte strings, and the edits of a row's JSON in src/c/utils/utils.c.
--   Json       the accessors of src/c/json/json_support.c over parsed values.
--   Curl       what the code uses of libcurl and zlib, as the record Curl that every definition
--              takes as an argument; IsLive says what termination relies on. Also the entries of
--              src/c/rest/curl_support.h: Slot is one index of MultiRestState's parallel arrays,
--              and Net is MultiRestState with the pool and the buffers that it shares with its
--              bulk context, and the list of the requests issued so far.
--   Rest       src/c/rest/rest.c: rest_multi_init, rest_multi_perform, rest_multi_call and
--              rest_multi_partial_cleanup; Rest/Single has rest_multi_wait_for_all_done and
--              rest_call, Rest/Conflicts contains_version_conflict_error. Rest/Slots, Rest/Pool and
--              Rest/Own state who owns which buffer; Rest/Calls, Rest/Checkout and Rest/Waits are
--              what the operations keep, Rest/Sent what they send; Rest/Liveness and Rest/Progress are
--              their termination.
--   Index      index options and tuple descriptors, and Session: the ids that Postgres gives.
--   Bulk       src/c/elasticsearch/elasticsearch.c: ElasticsearchBulkContext, bulk_prologue and
--              bulk_epilogue. Bulk/Rows is ElasticsearchStartBulkProcess and the five row
--              operations, Bulk/Finish is ElasticsearchFinishBulkProcess. Bulk/Ownership,
--              Bulk/Prologue, Bulk/Batches, Bulk/Runs, Bulk/Start, Bulk/Sends and Bulk/Commit are
--              what they guarantee, Bulk/Liveness and Bulk/Finishing that they end;
--              Bulk/Transaction puts them together.
--   Xact/Statements what zdb_process_utility_hook of src/c/indexam/zdbam.c does on DROP and ROLLBACK;
--              Xact/Statements/Drops is what a commit then deletes.
--   SeqScan    src/c/indexam/seqscan.c, the operator without an index scan. SeqScan/Same compares the
--              loops over the hits, SeqScan/Operator the answers. The fuel of ctid_loop is the
--              scroll's total, since every hit counts. How Postgres' DirectFunctionCall2 calls a
--              function is an argument.
--   Visibility zdb_internal_visibility_clause of src/c/indexam/zdbfuncs.c. Visibility/Mvcc has what
--              Elasticsearch documents of the queries, Postgres' rule, and that the two agree;
--              Visibility/Lost a case where they do not.
--   Functions  other SQL functions of src/c/indexam/zdbfuncs.c; Functions/Rows compares the set and the
--              array of a query's rows. The number of calls is the scroll's total.
--   Building   CREATE INDEX: ambuild and zdbbuildCallback of src/c/indexam/zdbam.c. Building/Rows are the
--              row operations of a build, Building/Sent what it sends. Admin/Create is
--              ElasticsearchCreateIndex, Mapping src/c/elasticsearch/mapping.c, Index/Options
--              src/c/indexam/zdb_index_options.h, Index/Urls the URLs, Index/Relations the search for
--              a table's index in src/c/utils/utils.c.
--   Sampling   src/c/tablesamplers/common.c; Sampling/Buckets is what one call reads, Sampling/Rows the
--              rows that a whole scan of a sample gives.
--   Highlights src/c/highlighting/highlighting.c; Highlights/Saved is what the table holds of a row.
--   Scroll     ElasticsearchGetNextItemPointer; Scroll/Open has ElasticsearchOpenScroll and
--              ElasticsearchCloseScroll. Scroll/Bounds, Scroll/Started and Scroll/Liveness are what
--              they guarantee, Scroll/Ctid the ctid of a hit. A call skips entries on fuel: one more
--              than the entries left.
--   Admin      the administrative requests: settings, aliases, mappings, deletion, counts.
--   Xact       src/c/indexam/zdbam.c and src/c/indexam/llapi.c: the insert contexts of a transaction,
--              aminsert, the triggers, the low-level API, and the callbacks at the end of a
--              subtransaction and of a transaction. Xact/Contexts and Xact/Writes are what a single
--              call does, Xact/Events and Xact/Evolution a whole sequence of them, Xact/Ending and
--              Xact/Marks the commit.
--   Query      src/c/type/zdbquerytype.c, the query type with its getters; Query/Dsl is
--              src/c/elasticsearch/querygen.c, Query/Options zdb_set_query_property. Their record
--              JsonText is the vendored JSON parser and printer, and Postgres' input functions.
--              Query/Setting is what zdb_set_query_property does to the options. Query/Searching
--              reads the options for a scroll.
--   Vacuum     the scans of zdb_vacuum_internal in src/c/indexam/zdbam.c; Vacuum/Run has the function
--              and amvacuumcleanup. A scan runs on fuel, the total of its scroll: every hit is
--              counted. Vacuum/Safety, Vacuum/Rows and
--              Vacuum/Sending are about the rows, Vacuum/Scans about what the last scan leaves alone, Vacuum/Aborted about the list of aborted ids,
--              Vacuum/Liveness about the loop.
--   Aggs       the aggregate requests of src/c/elasticsearch/elasticsearch.c: makeAggRequest and the
--              filter of a nested field, which walk_query makes. Aggs/Requests and Aggs/Levels have
--              the aggregates. The elements of an object are numbered, and the walk writes their
--              pointers and the object's as the source does.
--   IndexScan  the index scans of src/c/indexam/zdbam.c, on the same fuel, and src/c/scoring/scoring.c.
--              IndexScan/Bitmaps compares amgetbitmap with amgettuple, IndexScan/Liveness is its
--              termination, IndexScan/Scores the scores.
--   Examples   concrete runs.
--
-- Net.sent lists the requests that a bulk process has issued, by whichever handle, and the list of
-- XactState.rest those that the backend has issued outside of them. The source keeps no such lists.
--
-- A mutable object is passed along: an operation takes the state and returns the new one. A
-- StringInfo is an address into Net.buffers, so an alias of a buffer is seen. Every loop over
-- libcurl runs on fuel that is one more than a bound on the loop: `pending`, the finished
-- transfers not read yet, or `work`, a bound on the polls until nothing runs. Running out is
-- hang.
--
-- Counters that are C ints are natural numbers: a transaction is taken to stay below 2^31 rows.
-- Epochs, transaction ids and ctids wrap as in C. Memory management, logging, interrupts and
-- curl_easy_setopt calls that only set fixed options are left out, as are the planner hooks and the
-- SQL functions that only pass arguments on. A search in the middle of a transaction finishes its contexts first
-- (finish_inserts(false)); that is a run of Bulk/Finish, and no event of Xact/Events.
pub mod Prelude
pub mod Xid
pub mod Json
pub mod Text
pub mod Curl
pub mod Query
pub mod Rest
pub mod Index
pub mod Mapping
pub mod Highlights
pub mod IndexScan
pub mod SeqScan
pub mod Functions
pub mod Aggs
pub mod Bulk
pub mod Scroll
pub mod Sampling
pub mod Admin
pub mod Vacuum
pub mod Xact
pub mod Visibility
pub mod Building
pub mod Examples
