-- ===== src/Building/Rows.antt =====
-- The rows of a build, as row operations.
use zombodb.Prelude.{
  Bool, Bool-cases, List, Option, Outcome, WhenOk, WhenOk-bind, WhenOk-mono, [], ap, arith, error,
  false, fault, hang, if◌then◌else◌, inl, inr, length, length-append, none, ok, ok-injective,
  raised, refl, returned, some, true, ◌++◌, ◌+◌, ◌>>=◌, ◌∙◌, ◌∷◌, ◌≡◌,
}
use zombodb.Building.{BuildState, HeapTuple, build_callback, build_tuples, index_built_record}
use zombodb.Bulk.{BulkContext}
use zombodb.Bulk.Batches.{RowOp, apply_op, insert, run_ops}
use zombodb.Bulk.Rows.{invalid_xid}
use zombodb.Curl.{Curl}
use zombodb.Index.{IndexOptions, Session}
use zombodb.Text.{Text}
use zombodb.Vacuum.Aborted.{outcome_eq}
use zombodb.Xid.{convert_xid}

-- The row operation of a live tuple with a row.
unfoldable built_op : Session → HeapTuple → Option Text → List (Session × RowOp)
built_op s tuple none = []
built_op s tuple (some json) =
    (
      s,
      insert (some tuple.tid) json tuple.raw_command_id tuple.raw_command_id
          (convert_xid s.tests s.next tuple.xmin) invalid_xid,
    )
    ∷ []

-- The row operations of a table's live tuples, in the order of the scan.
unfoldable pub built_ops : Session → List HeapTuple → List (Session × RowOp)
unfolding built_op
built_ops s [] = []
built_ops s (tuple ∷ tuples) =
    (if tuple.is_alive then built_op s tuple tuple.row else []) ++ built_ops s tuples

module _ (c : Curl) where
  -- A run of the callback is the run of these operations, and counts them.
  pub record IsBuilt (ops : List (Session × RowOp)) (st st' : BuildState c) : Type 0 where
    pub ran : run_ops c ops st.es ≡ ok st'.es
    pub counted : st'.indtuples ≡ st.indtuples + length ops

  build_callback-IsBuilt :
      (rel : IndexOptions) (s : Session) (tuple : HeapTuple) (st : BuildState c)
      → WhenOk
          (IsBuilt (if tuple.is_alive then built_op s tuple tuple.row else []) st)
          (build_callback c rel s tuple st)
  unfolding build_callback index_built_record run_ops apply_op built_op
  build_callback-IsBuilt rel s tuple st = elim (Bool-cases tuple.is_alive) [
    | inr dead ↦ rw dead (returned (record { ran = refl; counted = omega arith }))
    | inl alive ↦ rw alive (guarded tuple.is_heap_only rel.llapi tuple.ctid_is_null tuple.row)
  ]
    where
      guarded :
          (hot llapi null : Bool) (row : Option Text)
          → WhenOk {A = BuildState c} (IsBuilt (built_op s tuple row) st) (
              if hot
              then error "Heap Only Tuple (HOT) found"
              else if llapi
              then error
                  "ZomboDB indexes that use its low-level API (llapi=true) must be created on empty tables"
              else if null
              then error "ctid is null"
              else elim row [
                | none ↦ error "row is null"
                | some json ↦ index_built_record c s tuple json st.es >>= λ es.
                    ok (record { indtuples = st.indtuples + 1; es = es })
              ])
      guarded true llapi null row = raised
      guarded false true null row = raised
      guarded false false true row = raised
      guarded false false false none = raised
      guarded false false false (some json) =
          WhenOk-bind (outcome_eq (index_built_record c s tuple json st.es))
            λ es e. returned (record { ran = rw e refl; counted = omega arith })

  run_ops-append :
      (xs ys : List (Session × RowOp)) (ctx ctx' : BulkContext c)
      → run_ops c xs ctx ≡ ok ctx'
      → run_ops c (xs ++ ys) ctx ≡ run_ops c ys ctx'
  unfolding run_ops
  run_ops-append [] ys ctx ctx' h = ap (run_ops c ys) (ok-injective h)
  run_ops-append ((s, op) ∷ xs) ys ctx ctx' h =
      go (apply_op c s op ctx) refl h (λ mid k. run_ops-append xs ys mid ctx' k)
    where
      go :
          (o : Outcome (BulkContext c))
          → apply_op c s op ctx ≡ o
          → (o >>= run_ops c xs) ≡ ok ctx'
          → ((mid : BulkContext c)
              → run_ops c xs mid ≡ ok ctx'
              → run_ops c (xs ++ ys) mid ≡ run_ops c ys ctx')
          → (apply_op c s op ctx >>= run_ops c (xs ++ ys)) ≡ run_ops c ys ctx'
      go (ok mid) e k later = rw e (later mid k)
      go (error m) e k later = cc
      go fault e k later = cc
      go hang e k later = cc

  -- If the scan of the heap returns, it has made one row operation of each live tuple, in the order of
  -- the scan, and counted them.
  pub build_tuples-IsBuilt :
      (rel : IndexOptions) (s : Session) (tuples : List HeapTuple) (st : BuildState c)
      → WhenOk (IsBuilt (built_ops s tuples) st) (build_tuples c rel s tuples st)
  unfolding build_tuples built_ops run_ops
  build_tuples-IsBuilt rel s [] st = returned (record { ran = refl; counted = omega arith })
  build_tuples-IsBuilt rel s (tuple ∷ tuples) st =
      WhenOk-bind (build_callback-IsBuilt rel s tuple st) λ mid first.
        WhenOk-mono (build_tuples-IsBuilt rel s tuples mid) λ st' rest. record {
          ran = run_ops-append _ (built_ops s tuples) st.es mid.es first.ran ∙ rest.ran;
          counted =
              let n =
                length-append (if tuple.is_alive then built_op s tuple tuple.row else [])
                  (built_ops s tuples) in
              omega (arith, n, first.counted, rest.counted);
        }
