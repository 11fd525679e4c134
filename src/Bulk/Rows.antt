-- ===== src/Bulk/Rows.antt =====
-- ElasticsearchStartBulkProcess and the row operations of src/c/elasticsearch/elasticsearch.c.
-- Each row operation is bulk_prologue, the two lines of its bulk action, its counter, and
-- bulk_epilogue.
use zombodb.Prelude.{
  Bool, Option, Outcome, [], error, false, if◌then◌else◌, in_bounds, leb, none, ok, some, true, ℕ,
  ◌++◌, ◌+◌, ◌-◌, ◌==◌, ◌>>=◌, ◌>>◌, ◌^◌,
}
use zombodb.Bulk.{BulkContext, append_current, bulk_epilogue, bulk_prologue, make_pool, text_eq}
use zombodb.Curl.{Curl, Net, PostDataEntry}
use zombodb.Index.{IndexOptions, Session, TupleDesc, tuple_desc_contains_json}
use zombodb.Rest.{checkout_batch_pool, max_curl_handles, rest_multi_init}
use zombodb.Text.{Text, codes, decimal, replace_line_breaks, strip_json_ending}
use zombodb.Xid.{ItemPointer, item_pointer_to_uint64}

-- Postgres' InvalidCommandId and InvalidTransactionId.
abbrev pub invalid_command_id : ℕ
invalid_command_id = 2 ^ 32 - 1

abbrev pub invalid_xid : ℕ
invalid_xid = 0

abbrev pub has_json : Option TupleDesc → Bool
has_json none = false
has_json (some tupdesc) = tuple_desc_contains_json tupdesc

abbrev pub is_set : Option TupleDesc → Bool
is_set none = false
is_set (some tupdesc) = true

-- `indexName`, or the `uuid` option where it is NULL.
unfoldable pub choose_name : Option Text → Option Text → Outcome Text
choose_name (some name) uuid = ok name
choose_name none (some name) = ok name
choose_name none none = error "The 'uuid' property is not set"

-- The document's lines: the action, the row with its last brace taken off, and ZomboDB's columns.
unfoldable pub index_action : Option ItemPointer → Text
index_action none = codes "{\"index\":{}}\n"
index_action (some ctid) =
    codes "{\"index\":{\"_id\":\"" ++ (decimal (item_pointer_to_uint64 ctid) ++ codes "\"}}\n")

unfoldable pub ctid_column : Option ItemPointer → Text
ctid_column none = []
ctid_column (some ctid) = codes ",\"zdb_ctid\":" ++ decimal (item_pointer_to_uint64 ctid)

unfoldable pub row_columns : Option ItemPointer → ℕ → ℕ → ℕ → ℕ → Text
unfolding ctid_column
row_columns ctid cmin cmax xmin xmax =
    ctid_column ctid
    ++ ((codes ",\"zdb_cmin\":" ++ decimal cmin)
        ++ ((if cmax == invalid_command_id then [] else codes ",\"zdb_cmax\":" ++ decimal cmax)
            ++ ((codes ",\"zdb_xmin\":" ++ decimal xmin)
                ++ ((if xmax == invalid_xid then [] else codes ",\"zdb_xmax\":" ++ decimal xmax)
                    ++ codes "}\n"))))

unfoldable pub row_json : Bool → Text → Outcome Text
row_json contains_json json =
    strip_json_ending (if contains_json then replace_line_breaks json b' ' else json)

unfoldable pub doc_id : Option ItemPointer → Text → Text
doc_id none llapi_id = llapi_id
doc_id (some ctid) llapi_id = decimal (item_pointer_to_uint64 ctid)

unfoldable pub update_lines : Option ItemPointer → Text → ℕ → ℕ → Text
unfolding doc_id
update_lines ctid llapi_id cmax xmax =
    codes "{\"update\":{\"_id\":\""
    ++ (doc_id ctid llapi_id
        ++ (codes
              "\",\"_retry_on_conflict\":1}}\n{\"script\":{\"source\":\"ctx._source.zdb_cmax=params.CMAX;ctx._source.zdb_xmax=params.XMAX;\",\"lang\":\"painless\",\"params\":{\"CMAX\":"
            ++ (decimal cmax ++ (codes ",\"XMAX\":" ++ (decimal xmax ++ codes "}}}\n")))))

unfoldable pub vacuum_lines : Text → ℕ → Text
vacuum_lines doc expected_xmax =
    codes "{\"update\":{\"_id\":\""
    ++ (doc
        ++ (codes
              "\",\"_retry_on_conflict\":0}}\n{\"script\":{\"source\":\"if (ctx._source.zdb_xmax != params.EXPECTED_XMAX) {   ctx.op='none';} else {   ctx._source.zdb_xmax=null;}\",\"lang\":\"painless\",\"params\":{\"EXPECTED_XMAX\":"
            ++ (decimal expected_xmax ++ codes "}}}\n")))

unfoldable pub delete_by_xmin_lines : Text → ℕ → Text
delete_by_xmin_lines doc xmin =
    codes "{\"update\":{\"_id\":\""
    ++ (doc
        ++ (codes
              "\"}}\n{\"script\":{\"source\":\"if (ctx._source.zdb_xmin == params.EXPECTED_XMIN) {   ctx.op='delete';} else {   ctx.op='none';}\",\"lang\":\"painless\",\"params\":{\"EXPECTED_XMIN\":"
            ++ (decimal xmin ++ codes "}}}\n")))

unfoldable pub delete_by_xmax_lines : Text → ℕ → Text
delete_by_xmax_lines doc xmax =
    codes "{\"update\":{\"_id\":\""
    ++ (doc
        ++ (codes
              "\"}}\n{\"script\":{\"source\":\"if (ctx._source.zdb_xmax == params.EXPECTED_XMAX) {   ctx.op='delete';} else {   ctx.op='none';}\",\"lang\":\"painless\",\"params\":{\"EXPECTED_XMAX\":"
            ++ (decimal xmax ++ codes "}}}\n")))

module _ (c : Curl) where
  -- The context over the buffer and the net that the checkout gave.
  unfoldable pub new_context :
      IndexOptions → Text → Option TupleDesc → Bool → PostDataEntry × Net c → BulkContext c
  unfolding text_eq
  new_context rel name tupdesc ignore_version_conflicts (current, net) = record {
    url = rel.url;
    pg_index_name = rel.rel_name;
    es_index_name = name;
    type_name = rel.type_name;
    batch_size = rel.batch_size;
    bulk_concurrency = rel.bulk_concurrency;
    compression_level = rel.compression_level;
    wait_for_active_shards = false;
    contains_json = has_json tupdesc;
    contains_json_is_set = is_set tupdesc;
    tupdesc = tupdesc;
    should_refresh = text_eq (codes "-1") rel.refresh_interval;
    ignore_version_conflicts = ignore_version_conflicts;
    net = net;
    current = current;
    nrequests = 0;
    nrows = 0;
    ntotal = 0;
    nindex = 0;
    nupdate = 0;
    ndelete = 0;
    nvacuum = 0;
    nxid = 0;
    last_used_xid = 0;
    used_xids = [];
  }

  -- The context's pool array has `max_curl_handles` entries, one short for the highest concurrency.
  unfoldable pub bulk_start :
      IndexOptions → Option Text → Option TupleDesc → Bool → c.World → Outcome (BulkContext c)
  unfolding choose_name rest_multi_init make_pool checkout_batch_pool new_context
  bulk_start rel index_name tupdesc ignore_version_conflicts world = do
    name ← choose_name index_name rel.index_name
    net ← rest_multi_init c rel.bulk_concurrency ignore_version_conflicts (record {
      nhandles = 0;
      slots = [];
      available = 0;
      pool = make_pool (rel.bulk_concurrency + 1) 0;
      buffers = λ b. [];
      sent = [];
      world = world;
    })
    in_bounds (leb (rel.bulk_concurrency + 1) max_curl_handles)
    r ← checkout_batch_pool c net
    ok (new_context rel name tupdesc ignore_version_conflicts r)

  unfoldable pub bulk_insert_row :
      Session → Option ItemPointer → Text → ℕ → ℕ → ℕ → ℕ → BulkContext c → Outcome (BulkContext c)
  unfolding bulk_prologue append_current index_action row_columns row_json bulk_epilogue
  bulk_insert_row s ctid json cmin cmax xmin xmax ctx = do
    ctx' ← bulk_prologue c s false ctx
    row ← row_json ctx'.contains_json json
    let ctx'' =
        append_current c (index_action ctid ++ (row ++ row_columns ctid cmin cmax xmin xmax)) ctx'
    ok (bulk_epilogue c (record ctx'' { nindex = ctx''.nindex + 1 }))

  unfoldable pub bulk_update_tuple :
      Session → Option ItemPointer → Text → ℕ → ℕ → BulkContext c → Outcome (BulkContext c)
  unfolding bulk_prologue append_current update_lines bulk_epilogue
  bulk_update_tuple s ctid llapi_id cmax xmax ctx = do
    ctx' ← bulk_prologue c s false ctx
    let ctx'' = append_current c (update_lines ctid llapi_id cmax xmax) ctx'
    ok (bulk_epilogue c (record ctx'' { nupdate = ctx''.nupdate + 1 }))

  unfoldable pub bulk_vacuum_xmax : Session → Text → ℕ → BulkContext c → Outcome (BulkContext c)
  unfolding bulk_prologue append_current vacuum_lines bulk_epilogue
  bulk_vacuum_xmax s doc expected_xmax ctx = do
    ctx' ← bulk_prologue c s false ctx
    let ctx'' = append_current c (vacuum_lines doc expected_xmax) ctx'
    ok (bulk_epilogue c (record ctx'' { nvacuum = ctx''.nvacuum + 1 }))

  unfoldable pub bulk_delete_row_by_xmin :
      Session → Text → ℕ → BulkContext c → Outcome (BulkContext c)
  unfolding bulk_prologue append_current delete_by_xmin_lines bulk_epilogue
  bulk_delete_row_by_xmin s doc xmin ctx = do
    ctx' ← bulk_prologue c s false (record ctx { wait_for_active_shards = true })
    let ctx'' = append_current c (delete_by_xmin_lines doc xmin) ctx'
    ok (bulk_epilogue c (record ctx'' { ndelete = ctx''.ndelete + 1 }))

  unfoldable pub bulk_delete_row_by_xmax :
      Session → Text → ℕ → BulkContext c → Outcome (BulkContext c)
  unfolding bulk_prologue append_current delete_by_xmax_lines bulk_epilogue
  bulk_delete_row_by_xmax s doc xmax ctx = do
    ctx' ← bulk_prologue c s false (record ctx { wait_for_active_shards = true })
    let ctx'' = append_current c (delete_by_xmax_lines doc xmax) ctx'
    ok (bulk_epilogue c (record ctx'' { ndelete = ctx''.ndelete + 1 }))
