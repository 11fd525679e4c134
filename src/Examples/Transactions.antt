-- ===== src/Examples/Transactions.antt =====
-- Concrete transactions.
use zombodb.Prelude.{
  List, Outcome, WhenOk, [], length, none, ok, refl, some, true, ℕ, ◌>>=◌, ◌∷◌, ◌≡◌,
}
use zombodb.Admin.{index_url}
use zombodb.Examples.Contexts.{demo_context, demo_options, demo_session}
use zombodb.Examples.DemoCurl.{demo_curl}
use zombodb.Index.{IndexOptions, tuple_desc_contains_json}
use zombodb.Rest.{is_failure, perform_loop}
use zombodb.Text.{codes, decimal, strip_json_ending}
use zombodb.Xact.{XactState, pre_commit, xact_commit_callback}
use zombodb.Xact.Contexts.{AreReady, lookup}
use zombodb.Xact.Ending.{Delivered, pre_commit-Delivered}
use zombodb.Xact.Events.{
  Event, aborted_of, direct_insert, has_json_of, inserted, ops_of, run_events, sub_aborted,
  triggered,
}
use zombodb.Xact.Evolution.{Evolution, run_events-Evolution}
use zombodb.Xact.Marks.{CommitMarked, pre_commit-CommitMarked}
use zombodb.Xact.Statements.{DropObject, dropped_index, not_found, object_urls}
use zombodb.Xact.Statements.Drops.{all_urls}
use zombodb.Xid.{ItemPointer, item_pointer_to_uint64}

abbrev pub demo_xact : XactState demo_curl
demo_xact = record {
  insert_contexts = [];
  to_drop = codes "http://localhost:9200/gone" ∷ [];
  created_indices_urls = [];
  aborted_xids = [];
  executor_depth = 0;
  query_stack = [];
  rest = demo_context.net;
}

abbrev direct_options : IndexOptions
direct_options = record demo_options { relid = 2; llapi = true }

abbrev demo_ctid : ItemPointer
demo_ctid = record { block = 0; offset = 1 }

-- An INSERT, a subtransaction that deletes the row and aborts, a low-level insert into another index,
-- and a DELETE.
abbrev demo_events : List Event
demo_events =
    inserted demo_options (demo_session 900) 0 (some demo_ctid) (some (codes "{\"a\":1}")) demo_ctid
    ∷ triggered demo_options (demo_session 901) 1 demo_ctid
    ∷ sub_aborted 901
    ∷ direct_insert direct_options (demo_session 900) 2 (codes "{\"b\":2}")
    ∷ triggered demo_options (demo_session 900) 3 demo_ctid
    ∷ []

unfoldable number_sent : Outcome (XactState demo_curl) → ℕ → ℕ
unfolding lookup
number_sent (ok st) q = elim (lookup q st.insert_contexts) [
  | none ↦ 0
  | some ctx ↦ length ctx.net.sent
]
number_sent _ q = 0

unfoldable demo_end : Outcome (XactState demo_curl)
unfolding run_events xact_commit_callback
demo_end =
    run_events demo_curl demo_events demo_xact
    >>= xact_commit_callback demo_curl (demo_session 900) pre_commit

-- The transaction reaches its end: six requests go out for the first index, four for the second.
demo_end_sent_first : number_sent demo_end 1 ≡ 6
unfolding demo_end number_sent perform_loop codes decimal strip_json_ending tuple_desc_contains_json
    item_pointer_to_uint64 is_failure
demo_end_sent_first = refl

demo_end_sent_second : number_sent demo_end 2 ≡ 4
unfolding demo_end number_sent perform_loop codes decimal strip_json_ending tuple_desc_contains_json
    item_pointer_to_uint64 is_failure
demo_end_sent_second = refl

demo_AreReady : AreReady demo_xact.insert_contexts
unfolding AreReady lookup
demo_AreReady = λ q ctx at. cc

run_events-Evolution_example :
    WhenOk (Evolution demo_events demo_xact) (run_events demo_curl demo_events demo_xact)
run_events-Evolution_example = run_events-Evolution demo_curl demo_events demo_xact demo_AreReady

pre_commit-Delivered_example :
    WhenOk
      (λ st'.
        (q : ℕ)
        → Delivered
            (has_json_of q demo_events)
            (ops_of q demo_events)
            (demo_session 900)
            (aborted_of demo_events)
            (lookup q st'.insert_contexts))
      (run_events demo_curl demo_events demo_xact
        >>= xact_commit_callback demo_curl (demo_session 900) pre_commit)
pre_commit-Delivered_example =
    pre_commit-Delivered demo_curl demo_events (demo_session 900) demo_xact refl refl

pre_commit-CommitMarked_example :
    WhenOk
      (λ st'.
        (q : ℕ)
        → CommitMarked
            (has_json_of q demo_events)
            (ops_of q demo_events)
            (demo_session 900)
            (aborted_of demo_events)
            (lookup q st'.insert_contexts))
      (run_events demo_curl demo_events demo_xact
        >>= xact_commit_callback demo_curl (demo_session 900) pre_commit)
pre_commit-CommitMarked_example =
    pre_commit-CommitMarked demo_curl demo_events (demo_session 900) demo_xact refl refl

-- A DROP of the index and of a missing one, undone by the abort of a subtransaction.
abbrev demo_dropped : List DropObject
demo_dropped = dropped_index (record { is_zombodb = true; options = demo_options }) ∷ not_found ∷ []

-- The DELETE for the index that is still there goes out.
demo_lost : all_urls demo_dropped ≡ index_url demo_options [] ∷ []
unfolding all_urls object_urls
demo_lost = refl
