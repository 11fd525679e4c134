-- ===== src/Xact/Events.antt =====
-- What happens in a transaction, as a sequence of events: its writes and its aborted subtransactions.
use zombodb.Prelude.{
  Bool, List, Option, Outcome, [], false, if◌then◌else◌, none, ok, some, ℕ, ◌==◌, ◌>>=◌, ◌∷◌,
}
use zombodb.Bulk.Batches.{RowOp, insert, update}
use zombodb.Bulk.Rows.{has_json, invalid_command_id, invalid_xid}
use zombodb.Curl.{Curl}
use zombodb.Index.{IndexOptions, Session}
use zombodb.Text.{Text}
use zombodb.Xact.{
  XactState, aminsert, handle_trigger, llapi_direct_delete, llapi_direct_insert, subxact_abort,
}
use zombodb.Xid.{ItemPointer, convert_xid}

-- The calls that Postgres makes, with their arguments.
pub data Event : Type 0 where
  inserted : IndexOptions → Session → ℕ → Option ItemPointer → Option Text → ItemPointer → Event
  triggered : IndexOptions → Session → ℕ → ItemPointer → Event
  direct_insert : IndexOptions → Session → ℕ → Text → Event
  direct_delete : IndexOptions → Session → ℕ → Text → Event
  sub_aborted : ℕ → Event

-- The row operation that an event asks for, and its index.
unfoldable pub event_op : Event → Option (IndexOptions × (Session × RowOp))
event_op (inserted rel s command_id (some ctid_value) (some json) ctid) = some (
  rel,
  (
    s,
    insert (some ctid) json command_id command_id (convert_xid s.tests s.next s.curr_xid)
        invalid_xid,
  ),
)
event_op (inserted rel s command_id _ _ ctid) = none
event_op (triggered rel s command_id ctid) =
    some (rel, (s, update (some ctid) [] command_id (convert_xid s.tests s.next s.curr_xid)))
event_op (direct_insert rel s command_id json) = some (
  rel,
  (
    s,
    insert none json command_id invalid_command_id (convert_xid s.tests s.next s.curr_xid)
        invalid_xid,
  ),
)
event_op (direct_delete rel s command_id id) =
    some (rel, (s, update none id command_id (convert_xid s.tests s.next s.curr_xid)))
event_op (sub_aborted xid) = none

-- The operation in front of the others, if it is on the index.
unfoldable pub add_op :
    ℕ → Option (IndexOptions × (Session × RowOp)) → List (Session × RowOp) → List (Session × RowOp)
add_op q none ops = ops
add_op q (some (rel, op)) ops = if rel.relid == q then op ∷ ops else ops

-- The row operations on one index.
unfoldable pub ops_of : ℕ → List Event → List (Session × RowOp)
unfolding event_op add_op
ops_of q [] = []
ops_of q (e ∷ es) = add_op q (event_op e) (ops_of q es)

-- Whether the index that is written to has a ::json column, if it is the one.
unfoldable pub has_json_at : ℕ → Option (IndexOptions × (Session × RowOp)) → Bool → Bool
has_json_at q none later = later
has_json_at q (some (rel, op)) later = if rel.relid == q then has_json (some rel.tupdesc) else later

-- The same, by the index's first row operation.
unfoldable pub has_json_of : ℕ → List Event → Bool
unfolding event_op has_json_at
has_json_of q [] = false
has_json_of q (e ∷ es) = has_json_at q (event_op e) (has_json_of q es)

-- The subtransaction ids that aborted.
unfoldable pub aborted_of : List Event → List ℕ
aborted_of [] = []
aborted_of (sub_aborted xid ∷ es) =
    if xid == invalid_xid then aborted_of es else xid ∷ aborted_of es
aborted_of (_ ∷ es) = aborted_of es

module _ (c : Curl) where
  unfoldable pub happen : Event → XactState c → Outcome (XactState c)
  unfolding aminsert handle_trigger llapi_direct_insert llapi_direct_delete subxact_abort
  happen (inserted rel s command_id ctid_value row ctid) =
      aminsert c rel s command_id ctid_value row ctid
  happen (triggered rel s command_id ctid) = handle_trigger c rel s command_id ctid
  happen (direct_insert rel s command_id json) = llapi_direct_insert c rel s command_id json
  happen (direct_delete rel s command_id id) = llapi_direct_delete c rel s command_id id
  happen (sub_aborted xid) = λ st. ok (subxact_abort c xid st)

  unfoldable pub run_events : List Event → XactState c → Outcome (XactState c)
  unfolding happen
  run_events [] st = ok st
  run_events (e ∷ es) st = happen e st >>= run_events es
