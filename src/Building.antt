-- ===== src/Building.antt =====
-- CREATE INDEX: ambuild and zdbbuildCallback of src/c/indexam/zdbam.c, with the definition that
-- src/c/utils/utils.c reads off the index's expressions. What Postgres hands over, among it the rows
-- of its heap scan, is the record BuildTarget.
pub mod Rows
pub mod Sent
use Prim.Native.String.{String}
use zombodb.Prelude.{
  Bool, List, Option, Outcome, [], error, false, if◌then◌else◌, is_some, length, ltb, none, not, ok,
  returns, some, true, ℕ, ◌&&◌, ◌*◌, ◌++◌, ◌+◌, ◌==◌, ◌>>=◌, ◌>>◌, ◌∷◌,
}
use zombodb.Admin.{AliasParts, delete_index, finalize_index_creation, make_alias_name}
use zombodb.Admin.Create.{create_index}
use zombodb.Bulk.{BulkContext}
use zombodb.Bulk.Finish.{bulk_finish}
use zombodb.Bulk.Rows.{bulk_insert_row, bulk_start, invalid_xid}
use zombodb.Curl.{Curl}
use zombodb.Index.{IndexOptions, Session, TupleDesc}
use zombodb.Index.Relations.{IndexEntry, already_has_zdb_index}
use zombodb.Mapping.{Catalog}
use zombodb.Scroll.{found}
use zombodb.Text.{Text, codes, decimal}
use zombodb.Xact.{XactState, leave}
use zombodb.Xid.{ItemPointer, convert_xid}

-- The expression of an index's second column.
pub data IndexExpression : Type 0 where
  var_expression : ℕ → ℕ → IndexExpression
  function_expression : ℕ → IndexExpression
  row_expression : ℕ → IndexExpression
  other_expression : IndexExpression

-- Postgres' type cache.
pub record RowTypes : Type 0 where
  pub rowtype_tupdesc : ℕ → ℕ → TupleDesc
  pub type_tupdesc : ℕ → TupleDesc
  pub is_composite : ℕ → Bool

pub record IndexInfo : Type 0 where
  pub expressions : List IndexExpression
  pub num_index_attrs : ℕ
  pub first_is_ctid : Bool
  pub npredicates : ℕ

unfoldable pub expression_tupdesc : RowTypes → IndexExpression → Outcome (Option TupleDesc)
expression_tupdesc types (var_expression vartype vartypmod) =
    ok (some (types.rowtype_tupdesc vartype vartypmod))
expression_tupdesc types (function_expression result_type) =
    if types.is_composite result_type
    then ok (some (types.type_tupdesc result_type))
    else error
        "ZomboDB index definitions that use a function must use one that returns a composite type"
expression_tupdesc types (row_expression row_typeid) = ok (some (types.type_tupdesc row_typeid))
expression_tupdesc types other_expression = ok none

unfoldable pub extract_tuple_desc_from_index_expressions :
    RowTypes → IndexInfo → Outcome (Option TupleDesc)
unfolding expression_tupdesc
extract_tuple_desc_from_index_expressions types info =
    if not info.first_is_ctid then ok none else elim info.expressions [
      | [] ↦ ok none
      | expression ∷ more ↦ elim more [
        | [] ↦ expression_tupdesc types expression
        | expression' ∷ more' ↦ ok none
      ]
    ]

-- A tuple that the heap scan hands to the callback; `row` is the JSON of the second column.
pub record HeapTuple : Type 0 where
  pub tid : ItemPointer
  pub is_alive : Bool
  pub is_heap_only : Bool
  pub raw_command_id : ℕ
  pub xmin : ℕ
  pub ctid_is_null : Bool
  pub row : Option Text

abbrev pub one_index : String
one_index = "Relations can only have one ZomboDB index"

abbrev pub bad_definition : String
bad_definition =
    "ZomboDB index definitions must index two columns where the first is the 'ctid' system column and the second is of a record type or whole-row reference, i.e., (table_name.*)"

-- A trigger of the table: its name, its function, and the index in its argument.
pub record Trigger : Type 0 where
  pub name : Text
  pub function_name : Text
  pub index_relid : ℕ

-- What the build is given. `has_trigger` is the query of pg_trigger; `generated_name` the new name;
-- `parts` what an alias is made of.
pub record BuildTarget : Type 0 where
  pub indices : List IndexEntry
  pub info : IndexInfo
  pub types : RowTypes
  pub heap_relid : ℕ
  pub is_materialized_view : Bool
  pub generated_name : Text
  pub parts : AliasParts
  pub has_trigger : List Trigger → Text → Bool
  pub tuples : List HeapTuple
  pub reltuples : ℕ

unfoldable pub trigger_name : Text → ℕ → ℕ → Text
trigger_name kind heap_relid index_relid =
    codes "zdb_tuple_"
    ++ (kind ++ (codes "_for_" ++ (decimal heap_relid ++ (codes "_using_" ++ decimal index_relid))))

unfoldable pub create_tuple_trigger :
    (List Trigger → Text → Bool) → Text → Text → ℕ → ℕ → List Trigger → List Trigger
unfolding trigger_name
create_tuple_trigger has_trigger kind function_name heap_relid index_relid triggers =
    if has_trigger triggers (trigger_name kind heap_relid index_relid)
    then triggers
    else triggers
      ++ (record {
        name = trigger_name kind heap_relid index_relid;
        function_name = function_name;
        index_relid = index_relid;
      }
          ∷ [])

unfoldable pub create_triggers : BuildTarget → ℕ → List Trigger → List Trigger
unfolding create_tuple_trigger
create_triggers target index_relid triggers =
    if target.is_materialized_view
    then triggers
    else create_tuple_trigger target.has_trigger (codes "update") (codes "update_trigger")
        target.heap_relid index_relid
        (create_tuple_trigger target.has_trigger (codes "delete") (codes "delete_trigger")
          target.heap_relid index_relid triggers)

module _ (c : Curl) where
  -- index_record for a CREATE INDEX.
  unfoldable pub index_built_record :
      Session → HeapTuple → Text → BulkContext c → Outcome (BulkContext c)
  unfolding bulk_insert_row convert_xid
  index_built_record s tuple json es =
      bulk_insert_row c s (some tuple.tid) json tuple.raw_command_id tuple.raw_command_id
        (convert_xid s.tests s.next tuple.xmin) invalid_xid es

  -- ZDBBuildStateData.
  pub record BuildState : Type 0 where
    pub indtuples : ℕ
    pub es : BulkContext c

  unfoldable pub build_callback :
      IndexOptions → Session → HeapTuple → BuildState → Outcome BuildState
  unfolding index_built_record
  build_callback rel s tuple st =
      if not tuple.is_alive
      then ok st
      else if tuple.is_heap_only
      then error "Heap Only Tuple (HOT) found"
      else if rel.llapi
      then error
          "ZomboDB indexes that use its low-level API (llapi=true) must be created on empty tables"
      else if tuple.ctid_is_null
      then error "ctid is null"
      else elim tuple.row [
        | none ↦ error "row is null"
        | some json ↦ index_built_record s tuple json st.es >>= λ es.
            ok (record { indtuples = st.indtuples + 1; es = es })
      ]

  -- The heap scan calls the callback for each of its tuples.
  unfoldable pub build_tuples :
      IndexOptions → Session → List HeapTuple → BuildState → Outcome BuildState
  unfolding build_callback
  build_tuples rel s [] st = ok st
  build_tuples rel s (tuple ∷ tuples) st =
      build_callback rel s tuple st >>= build_tuples rel s tuples

  -- The index's options, the table's triggers, and the backend's state.
  pub record Relations : Type 0 where
    pub rel : IndexOptions
    pub triggers : List Trigger
    pub xact : XactState c

  -- IndexBuildResult, with what the build leaves; `build` is none if it did nothing.
  pub record BuildResult : Type 0 where
    pub heap_tuples : ℕ
    pub index_tuples : ℕ
    pub after : Relations
    pub build : Option BuildState

  -- The index's alias and name, as set_index_option leaves them.
  unfoldable pub named : IndexOptions → Text → Text → IndexOptions
  named rel alias_name index_name = record rel {
    alias = some alias_name;
    index_name = some index_name;
  }

  unfoldable pub remember_created : Text → Text → XactState c → XactState c
  remember_created url index_name xact = record xact {
    created_indices_urls = xact.created_indices_urls ++ ((url ++ index_name) ∷ []);
  }

  unfoldable pub build_index :
      Catalog → BuildTarget → Session → TupleDesc → Relations → Outcome BuildResult
  unfolding make_alias_name create_index named remember_created bulk_start build_tuples bulk_finish
      finalize_index_creation leave create_triggers
  build_index catalog target s tupdesc st = do
    let alias_name = make_alias_name st.rel target.parts false
    r ←
        create_index c catalog (record st.rel { alias = some alias_name }) target.heap_relid tupdesc
          target.generated_name alias_name st.xact.rest
    let rel = named st.rel alias_name r.0
    es ← bulk_start c rel (some r.0) (some tupdesc) false r.1.world
    built ← build_tuples rel s target.tuples (record { indtuples = 0; es = es })
    done ← bulk_finish c s true built.es
    n ← finalize_index_creation c rel (leave c r.1 done)
    ok (record {
      heap_tuples = target.reltuples;
      index_tuples = built.indtuples;
      after = record {
        rel = rel;
        triggers = create_triggers target rel.relid st.triggers;
        xact = record (remember_created rel.url r.0 st.xact) { rest = n };
      };
      build = some (record built { es = done });
    })

  unfoldable pub ambuild : Catalog → BuildTarget → Session → Relations → Outcome BuildResult
  unfolding already_has_zdb_index extract_tuple_desc_from_index_expressions build_index
  ambuild catalog target s st =
      if already_has_zdb_index target.indices st.rel.relid
      then error one_index
      else if ltb 0 target.info.npredicates
      then error "ZomboDB indices cannot contain WHERE clauses"
      else if is_some st.rel.index_name && st.rel.llapi
      then ok (record { heap_tuples = 0; index_tuples = 0; after = st; build = none })
      else if not (ltb 0 (length target.info.expressions))
      then error bad_definition
      else if not (target.info.num_index_attrs == 2)
      then error bad_definition
      else (extract_tuple_desc_from_index_expressions target.types target.info >>= λ o. elim o [
        | none ↦ error bad_definition
        | some tupdesc ↦ build_index catalog target s tupdesc st
      ])

  unfoldable pub ambuildempty : Relations → Outcome Relations
  unfolding delete_index
  ambuildempty st = delete_index c st.rel st.xact.rest >>= λ n.
      ok (record st { xact = record st.xact { rest = n } })
