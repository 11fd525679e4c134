-- ===== src/Xact.antt =====
-- The transaction's side of src/c/indexam/zdbam.c and src/c/indexam/llapi.c: the insert contexts of
-- the indices that a transaction writes to, the writes, and what its end does.
use zombodb.Prelude.{
  Bool, List, Option, Outcome, [], error, false, fault, if◌then◌else◌, none, not, ok, some, true, ℕ,
  ◌++◌, ◌==◌, ◌>>=◌, ◌||◌, ◌∷◌,
}
pub mod Contexts
pub mod Writes
pub mod Events
pub mod Triggers
pub mod Statements
pub mod Evolution
pub mod Ending
pub mod Marks
use zombodb.Admin.{delete_index_direct}
use zombodb.Bulk.{BulkContext, list_member_int}
use zombodb.Bulk.Finish.{bulk_finish}
use zombodb.Bulk.Rows.{
  bulk_insert_row, bulk_start, bulk_update_tuple, has_json, invalid_command_id, invalid_xid, is_set,
}
use zombodb.Curl.{Curl, Net}
use zombodb.Index.{IndexOptions, Session}
use zombodb.Text.{Text}
use zombodb.Xid.{ItemPointer, convert_xid}

-- ZDBIndexChangeContext.
pub record IndexChange (c : Curl) : Type 0 where
  pub index_relid : ℕ
  pub es : BulkContext c

-- The static variables of zdbam.c. `rest` lists the requests that the backend has issued outside of every
-- context's bulk process; those of rest_call within a bulk process, which go through the global handle as
-- well, are in the list of its context. Its `world` is the current state of libcurl and the servers,
-- which all contexts share.
pub record XactState (c : Curl) : Type 0 where
  pub insert_contexts : List (IndexChange c)
  pub to_drop : List Text
  pub created_indices_urls : List Text
  pub aborted_xids : List ℕ
  pub executor_depth : ℕ
  pub query_stack : List ℕ
  pub rest : Net c

pub data XactEvent : Type 0 where
  pre_commit parallel_pre_commit pre_prepare : XactEvent
  abort parallel_abort commit parallel_commit prepare : XactEvent

-- The first element that is equal to `x` is taken out.
unfoldable pub list_delete_int : List ℕ → ℕ → List ℕ
list_delete_int [] x = []
list_delete_int (y ∷ ys) x = if y == x then ys else y ∷ list_delete_int ys x

unfoldable pub delete_xids : List ℕ → List ℕ → List ℕ
unfolding list_delete_int
delete_xids used [] = used
delete_xids used (xid ∷ aborted) = delete_xids (list_delete_int used xid) aborted

module _ (c : Curl) where
  -- A context works on libcurl's current state through its own multi handle, and leaves its state
  -- behind.
  unfoldable pub enter : Net c → BulkContext c → BulkContext c
  enter n ctx = record ctx { net = record ctx.net { world = c.resume n.world ctx.net.world } }

  unfoldable pub leave : Net c → BulkContext c → Net c
  leave n ctx = record n { world = ctx.net.world }

  unfoldable pub has_context : ℕ → List (IndexChange c) → Bool
  has_context relid [] = false
  has_context relid (x ∷ xs) = x.index_relid == relid || has_context relid xs

  -- A context that was started without a tuple descriptor gets it, and its flag.
  unfoldable pub complete : IndexOptions → BulkContext c → BulkContext c
  complete rel ctx =
      let ctx' = if is_set ctx.tupdesc then ctx else record ctx { tupdesc = some rel.tupdesc } in
      if ctx'.contains_json_is_set
      then ctx'
      else record ctx' { contains_json = has_json ctx'.tupdesc; contains_json_is_set = true }

  -- `f` on the first context of the index.
  unfoldable pub on_context :
      ℕ
      → (BulkContext c → Outcome (BulkContext c))
      → List (IndexChange c)
      → Net c
      → Outcome (List (IndexChange c) × Net c)
  unfolding enter leave
  on_context relid f [] n = fault
  on_context relid f (x ∷ xs) n = elim (x.index_relid == relid) [
    | true ↦ f (enter n x.es) >>= λ es. ok (record x { es = es } ∷ xs, leave n es)
    | false ↦ on_context relid f xs n >>= λ r. ok (x ∷ r.0, r.1)
  ]

  -- The contexts with one for the index among them.
  unfoldable pub checkout_insert_context :
      IndexOptions → List (IndexChange c) → Net c → Outcome (List (IndexChange c) × Net c)
  unfolding has_context bulk_start on_context complete
  checkout_insert_context rel xs n =
      if has_context rel.relid xs
      then on_context rel.relid (λ ctx. ok (complete rel ctx)) xs n
      else (bulk_start c rel none (some rel.tupdesc) false n.world >>= λ ctx.
          ok (xs ++ (record { index_relid = rel.relid; es = ctx } ∷ []), leave n ctx))

  -- A row operation on the index's context.
  unfoldable pub on_index :
      IndexOptions → (BulkContext c → Outcome (BulkContext c)) → XactState c → Outcome (XactState c)
  unfolding checkout_insert_context
  on_index rel f st = do
    r ← checkout_insert_context rel st.insert_contexts st.rest
    r' ← on_context rel.relid f r.0 r.1
    ok (record st { insert_contexts = r'.0; rest = r'.1 })

  -- index_record for an INSERT or an UPDATE; `json` is the row's JSON.
  unfoldable pub index_record :
      Session → ℕ → ItemPointer → Text → BulkContext c → Outcome (BulkContext c)
  unfolding bulk_insert_row convert_xid
  index_record s command_id ctid json ctx =
      bulk_insert_row c s (some ctid) json command_id command_id
        (convert_xid s.tests s.next s.curr_xid) invalid_xid ctx

  unfoldable pub aminsert :
      IndexOptions
      → Session
      → ℕ
      → Option ItemPointer
      → Option Text
      → ItemPointer
      → XactState c
      → Outcome (XactState c)
  unfolding on_index index_record
  aminsert rel s command_id ctid_value row heap_tid st =
      if rel.llapi
      then error
          "ZomboDB indexes that use its low-level API (llapi=true) cannot be directly inserted into"
      else elim ctid_value [
        | none ↦ error "ctid is null"
        | some ctid ↦ elim row [
          | none ↦ error "row is null"
          | some json ↦ on_index rel (index_record s command_id heap_tid json) st
        ]
      ]

  -- The BEFORE trigger of a delete or an update.
  unfoldable pub handle_trigger :
      IndexOptions → Session → ℕ → ItemPointer → XactState c → Outcome (XactState c)
  unfolding on_index bulk_update_tuple convert_xid
  handle_trigger rel s command_id target_ctid st =
      on_index rel
        (bulk_update_tuple c s (some target_ctid) [] command_id
          (convert_xid s.tests s.next s.curr_xid))
        st

  unfoldable pub llapi_direct_insert :
      IndexOptions → Session → ℕ → Text → XactState c → Outcome (XactState c)
  unfolding on_index bulk_insert_row convert_xid
  llapi_direct_insert rel s command_id json st =
      if not rel.llapi
      then error "To use ZomboDB's low-level API you must set llapi=true on the index"
      else on_index rel
          (bulk_insert_row c s none json command_id invalid_command_id
            (convert_xid s.tests s.next s.curr_xid) invalid_xid)
          st

  unfoldable pub llapi_direct_delete :
      IndexOptions → Session → ℕ → Text → XactState c → Outcome (XactState c)
  unfolding on_index bulk_update_tuple convert_xid
  llapi_direct_delete rel s command_id id st =
      if not rel.llapi
      then error "To use ZomboDB's low-level API you must set llapi=true on the index"
      else on_index rel
          (bulk_update_tuple c s none id command_id (convert_xid s.tests s.next s.curr_xid)) st

  -- A subtransaction aborts; `curr_xid` is its id, or 0 if it has none.
  unfoldable pub subxact_abort : ℕ → XactState c → XactState c
  subxact_abort curr_xid st =
      if curr_xid == invalid_xid
      then st
      else record st { aborted_xids = st.aborted_xids ++ (curr_xid ∷ []) }

  unfoldable pub finish_contexts :
      Session
      → Bool
      → List ℕ
      → List (IndexChange c)
      → Net c
      → Outcome (List (IndexChange c) × Net c)
  unfolding bulk_finish enter leave delete_xids
  finish_contexts s is_commit aborted [] n = ok ([], n)
  finish_contexts s is_commit aborted (x ∷ xs) n = do
    es ←
        bulk_finish c s is_commit
          (enter n (record x.es { used_xids = delete_xids x.es.used_xids aborted }))
    r ← finish_contexts s is_commit aborted xs (leave n es)
    ok (record x { es = es } ∷ r.0, r.1)

  unfoldable pub finish_inserts : Session → Bool → XactState c → Outcome (XactState c)
  unfolding finish_contexts
  finish_inserts s is_commit st = do
    r ← finish_contexts s is_commit st.aborted_xids st.insert_contexts st.rest
    ok (record st { insert_contexts = r.0; rest = r.1 })

  unfoldable pub drop_indices : List Text → Net c → Outcome (Net c)
  unfolding delete_index_direct
  drop_indices [] n = ok n
  drop_indices (url ∷ urls) n = delete_index_direct c url n >>= drop_indices urls

  unfoldable pub before_end : Session → XactState c → Outcome (XactState c)
  unfolding finish_inserts drop_indices
  before_end s st = do
    st' ← finish_inserts s true st
    n ← drop_indices st'.to_drop st'.rest
    ok (record st' { rest = n })

  unfoldable pub reset : XactState c → XactState c
  reset st = record st {
    executor_depth = 0;
    insert_contexts = [];
    to_drop = [];
    created_indices_urls = [];
    aborted_xids = [];
    query_stack = [];
  }

  unfoldable pub xact_commit_callback : Session → XactEvent → XactState c → Outcome (XactState c)
  unfolding before_end reset
  xact_commit_callback s pre_commit st = before_end s st
  xact_commit_callback s parallel_pre_commit st = before_end s st
  xact_commit_callback s pre_prepare st = before_end s st
  xact_commit_callback s abort st = ok (reset st)
  xact_commit_callback s parallel_abort st = ok (reset st)
  xact_commit_callback s commit st = ok (reset st)
  xact_commit_callback s parallel_commit st = ok (reset st)
  xact_commit_callback s prepare st = ok (reset st)

-- The 64-bit ids of a context that are not aborted.
unfoldable pub live_xids : Session → List ℕ → List ℕ → List ℕ
live_xids s aborted [] = []
live_xids s aborted (xid ∷ xids) =
    if list_member_int xid aborted
    then live_xids s aborted xids
    else convert_xid s.tests s.next xid ∷ live_xids s aborted xids

module _ (c : Curl) where
  unfoldable pub collect_contexts : Session → List ℕ → List (IndexChange c) → List ℕ
  unfolding live_xids
  collect_contexts s aborted [] = []
  collect_contexts s aborted (x ∷ xs) =
      live_xids s aborted x.es.used_xids ++ collect_contexts s aborted xs

  -- The last element is the current transaction id as it is, with 32 bits; 0 if there is none.
  unfoldable pub collect_used_xids : Session → ℕ → XactState c → List ℕ
  unfolding collect_contexts
  collect_used_xids s xid_if_any st =
      collect_contexts s st.aborted_xids st.insert_contexts ++ (xid_if_any ∷ [])
