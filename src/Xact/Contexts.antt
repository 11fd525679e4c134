-- ===== src/Xact/Contexts.antt =====
-- A row operation of a transaction changes the context of its own index and no other.
use zombodb.Prelude.{
  ==_refl, Bool-cases, List, Option, Outcome, WhenOk, WhenOk-bind, WhenOk-mono, [], ap, arith,
  false, faulted, if◌then◌else◌, inl, inr, none, ok, refl, returned, some, true, ℕ, ◌++◌, ◌==◌, ◌∙◌,
  ◌∷◌, ◌≡◌,
}
use zombodb.Bulk.{BulkContext}
use zombodb.Bulk.Ownership.{IsWell}
use zombodb.Bulk.Rows.{is_set}
use zombodb.Bulk.Start.{Started, bulk_start-WhenOk}
use zombodb.Curl.{Curl, Net}
use zombodb.Index.{IndexOptions}
use zombodb.Text.{Text}
use zombodb.Xact.{IndexChange, checkout_insert_context, complete, enter, has_context, on_context}

module _ {c : Curl} where
  unfoldable pub lookup : ℕ → List (IndexChange c) → Option (BulkContext c)
  lookup relid [] = none
  lookup relid (x ∷ xs) = if x.index_relid == relid then some x.es else lookup relid xs

  pub record IsReady (ctx : BulkContext c) : Type 0 where
    pub well : IsWell ctx
    pub has_tupdesc : is_set ctx.tupdesc ≡ true
    pub json_known : ctx.contains_json_is_set ≡ true

  pub Started-IsReady :
      {rel : IndexOptions} {name : Text} {ctx : BulkContext c}
      → Started c rel name (some rel.tupdesc) ctx
      → IsReady ctx
  Started-IsReady st = record {
    well = st.well;
    has_tupdesc = rw st.has_tupdesc refl;
    json_known = rw st.json_known refl;
  }

  -- All contexts that the transaction can find are ready.
  unfoldable pub AreReady : List (IndexChange c) → Type 0
  unfolding lookup
  AreReady xs = (q : ℕ) (ctx : BulkContext c) → lookup q xs ≡ some ctx → IsReady ctx

  -- One context changed, by `P`.
  pub record Changed (relid : ℕ) (P : BulkContext c → BulkContext c → Type 0)
      (xs ys : List (IndexChange c)) : Type 0 where
    pub before : BulkContext c
    pub before_at : lookup relid xs ≡ some before
    pub after : BulkContext c
    pub after_at : lookup relid ys ≡ some after
    pub change : P before after
    pub others : (q : ℕ) → (relid == q) ≡ false → lookup q ys ≡ lookup q xs

  -- What checkout_insert_context makes of the contexts: it finds the index's own, as it was but for
  -- libcurl's state, or adds a new one.
  pub data ContextOut (rel : IndexOptions) (xs ys : List (IndexChange c)) : Type 0 where
    had_context :
        (ctx : BulkContext c) (n : Net c)
        → lookup rel.relid xs ≡ some ctx
        → lookup rel.relid ys ≡ some (enter c n ctx)
        → ((q : ℕ) → (rel.relid == q) ≡ false → lookup q ys ≡ lookup q xs)
        → ContextOut rel xs ys
    new_context_begun :
        (ctx : BulkContext c) (name : Text)
        → lookup rel.relid xs ≡ none
        → lookup rel.relid ys ≡ some ctx
        → Started c rel name (some rel.tupdesc) ctx
        → ((q : ℕ) → (rel.relid == q) ≡ false → lookup q ys ≡ lookup q xs)
        → ContextOut rel xs ys

module _ (c : Curl) where
  pub on_context-Changed :
      (relid : ℕ) (f : BulkContext c → Outcome (BulkContext c))
      (P : BulkContext c → BulkContext c → Type 0) (xs : List (IndexChange c)) (n : Net c)
      → ((ctx : BulkContext c) → lookup relid xs ≡ some ctx → WhenOk (P ctx) (f (enter c n ctx)))
      → WhenOk (λ r. Changed relid P xs r.0) (on_context c relid f xs n)
  unfolding on_context lookup
  on_context-Changed relid f P [] n h = faulted
  on_context-Changed relid f P (x ∷ xs) n h = elim (Bool-cases (x.index_relid == relid)) [
    | inl e ↦
        rw (e, on_context)
          (WhenOk-bind (h x.es (rw e refl)) λ es p. returned (record {
            before = x.es;
            before_at = rw e refl;
            after = es;
            after_at = rw e refl;
            change = p;
            others = λ q ne.
                let miss : (x.index_relid == q) ≡ false = ground (arith, e, ne) in rw miss refl;
          }))
    | inr e ↦
        rw (e, on_context)
          (WhenOk-bind (on_context-Changed relid f P xs n (λ ctx q. h ctx (rw e q))) λ r k.
            returned (record {
              before = k.before;
              before_at = rw e k.before_at;
              after = k.after;
              after_at = rw e k.after_at;
              change = k.change;
              others =
                  λ q ne. ap (λ o. if x.index_relid == q then some x.es else o) (k.others q ne);
            }))
  ]

  lookup-append :
      (relid q : ℕ) (ctx : BulkContext c) (xs : List (IndexChange c))
      → has_context c relid xs ≡ false
      → lookup q (xs ++ (record { index_relid = relid; es = ctx } ∷ []))
        ≡ (if relid == q then some ctx else lookup q xs)
  unfolding lookup has_context
  lookup-append relid q ctx [] h = refl
  lookup-append relid q ctx (x ∷ xs) h = elim (Bool-cases (x.index_relid == q)) [
    | inl e ↦ let miss : (relid == q) ≡ false = ground arith in rw (e, miss) refl
    | inr e ↦ rw e (lookup-append relid q ctx xs (ground arith))
  ]

  lookup-none :
      (relid : ℕ) (xs : List (IndexChange c))
      → has_context c relid xs ≡ false
      → lookup relid xs ≡ none
  unfolding lookup has_context
  lookup-none relid [] h = refl
  lookup-none relid (x ∷ xs) h =
      let miss : (x.index_relid == relid) ≡ false = ground arith in
      rw miss (lookup-none relid xs (ground arith))

  complete-id : (rel : IndexOptions) (ctx : BulkContext c) → IsReady ctx → complete c rel ctx ≡ ctx
  unfolding complete
  complete-id rel ctx r = rw (r.has_tupdesc, r.json_known) refl

  pub enter-IsWell : (n : Net c) (ctx : BulkContext c) → IsWell ctx → IsWell (enter c n ctx)
  unfolding enter
  enter-IsWell n ctx w = record {
    own = record {
      slots_length = w.own.slots_length;
      free = w.own.free;
      pool_length = w.own.pool_length;
      slots_ok = w.own.slots_ok;
      pool_ok = w.own.pool_ok;
      held_ok = w.own.held_ok;
      once = w.own.once;
    };
    few = w.few;
  }

  enter-IsReady : (n : Net c) (ctx : BulkContext c) → IsReady ctx → IsReady (enter c n ctx)
  unfolding enter
  enter-IsReady n ctx r = record {
    well = enter-IsWell n ctx r.well;
    has_tupdesc = r.has_tupdesc;
    json_known = r.json_known;
  }

  pub checkout_insert_context-ContextOut :
      (rel : IndexOptions) (xs : List (IndexChange c)) (n : Net c)
      → AreReady xs
      → WhenOk (λ r. ContextOut rel xs r.0) (checkout_insert_context c rel xs n)
  unfolding checkout_insert_context AreReady
  checkout_insert_context-ContextOut rel xs n ready =
      elim (Bool-cases (has_context c rel.relid xs)) [
        | inl e ↦ rw e (
            WhenOk-mono
              (on_context-Changed rel.relid (λ ctx. ok (complete c rel ctx))
                (λ ctx ctx'. ctx' ≡ enter c n ctx) xs n
                (λ ctx at.
                  returned (
                    complete-id rel (enter c n ctx)
                      (enter-IsReady n ctx (ready rel.relid ctx at)))))
              λ r k. had_context k.before n k.before_at (k.after_at ∙ ap some k.change) k.others)
        | inr e ↦ rw e (
            WhenOk-bind (bulk_start-WhenOk c rel none (some rel.tupdesc) false n.world) λ ctx st.
              returned (
                new_context_begun ctx st.0 (lookup-none rel.relid xs e)
                  (lookup-append rel.relid rel.relid ctx xs e ∙ rw (==_refl rel.relid) refl) st.1
                  (λ q ne. lookup-append rel.relid q ctx xs e ∙ rw ne refl)))
      ]
