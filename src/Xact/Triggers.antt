-- ===== src/Xact/Triggers.antt =====
-- zdb_delete_trigger and zdb_update_trigger of src/c/indexam/zdbam.c.
use zombodb.Prelude.{Bool, Outcome, error, if◌then◌else◌, not, ok, ℕ, ◌==◌, ◌>>=◌}
use zombodb.Curl.{Curl}
use zombodb.Index.{IndexOptions, Session}
use zombodb.Xact.{XactState, handle_trigger}
use zombodb.Xid.{ItemPointer}

-- What the trigger manager passes on.
pub record TriggerCall : Type 0 where
  pub is_trigger : Bool
  pub is_delete : Bool
  pub is_update : Bool
  pub is_after : Bool
  pub nargs : ℕ
  pub old_ctid : ItemPointer

-- The tuple that a trigger hands back.
pub data ReturnedTuple : Type 0 where
  old_tuple new_tuple : ReturnedTuple

module _ (c : Curl) where
  -- `rel` is the index that the argument names.
  unfoldable pub delete_trigger :
      TriggerCall → IndexOptions → Session → ℕ → XactState c → Outcome (ReturnedTuple × XactState c)
  unfolding handle_trigger
  delete_trigger call rel s command_id st =
      if not call.is_trigger
      then error "zdb_delete_trigger: not called by trigger manager"
      else if not call.is_delete
      then error "zdb_delete_trigger: can only be fired for DELETE triggers"
      else if call.is_after
      then error "zdb_delete_trigger: can only be fired as a BEFORE trigger"
      else if not (call.nargs == 1)
      then error "zdb_delete_trigger: called with incorrect number of arguments"
      else (handle_trigger c rel s command_id call.old_ctid st >>= λ st'. ok (old_tuple, st'))

  unfoldable pub update_trigger :
      TriggerCall → IndexOptions → Session → ℕ → XactState c → Outcome (ReturnedTuple × XactState c)
  unfolding handle_trigger
  update_trigger call rel s command_id st =
      if not call.is_trigger
      then error "zdb_update_trigger: not called by trigger manager"
      else if not call.is_update
      then error "zdb_update_trigger: can only be fired for UPDATE triggers"
      else if call.is_after
      then error "zdb_update_trigger: can only be fired as a BEFORE trigger"
      else if not (call.nargs == 1)
      then error "zdb_update_trigger: called with incorrect number of arguments"
      else (handle_trigger c rel s command_id call.old_ctid st >>= λ st'. ok (new_tuple, st'))
