-- ===== src/Bulk/Start.antt =====
-- The context that ElasticsearchStartBulkProcess makes.
use zombodb.Prelude.{
  Bool, Bool-cases, Option, Outcome, Returns, WhenOk, WhenOk-mono, WhenOk-of_Returns, [], ap, arith,
  error, false, fault, faulted, hang, hung, inl, inr, leb, length, length-replicate, ltb, none, ok,
  raised, refl, replicate, returns, subst, suc, sym, true, zero, ℕ, ◌+◌, ◌<◌, ◌>>=◌, ◌∙◌, ◌≡◌,
}
use zombodb.Bulk.{BulkContext, make_pool}
use zombodb.Bulk.Batches.{kinds}
use zombodb.Bulk.Ownership.{IsWell, wire}
use zombodb.Bulk.Rows.{bulk_start, choose_name, has_json, is_set, new_context}
use zombodb.Curl.{Curl, Net, PostDataEntry}
use zombodb.Index.{IndexOptions, TupleDesc}
use zombodb.Rest.{checkout_batch_pool, free_slot, max_curl_handles, rest_multi_init}
use zombodb.Rest.Checkout.{Refilled, checkout_batch_pool-Refilled}
use zombodb.Rest.Own.{Own}
use zombodb.Rest.Pool.{ArePooled, pooled_at}
use zombodb.Rest.Sent.{bodies}
use zombodb.Rest.Slots.{AreSlots, busy_at, free_count}
use zombodb.Text.{Text}

length-make_pool : (n i : ℕ) → length (make_pool n i) ≡ n
unfolding make_pool
length-make_pool zero i = refl
length-make_pool (suc n) i = ap suc (length-make_pool n (i + 1))

make_pool-ArePooled : (n i : ℕ) → ArePooled i (λ b. []) (make_pool n i)
unfolding make_pool
make_pool-ArePooled zero i = tt
make_pool-ArePooled (suc n) i = (
  (refl, refl),
  subst (λ k. ArePooled k (λ b. []) (make_pool n (i + 1))) (omega arith)
      (make_pool-ArePooled n (i + 1)),
)

pooled_at-make_pool : (j n i : ℕ) → j < n → pooled_at j (make_pool n i) ≡ 1
unfolding make_pool
pooled_at-make_pool j zero i h = absurd (omega arith)
pooled_at-make_pool zero (suc n) i h = refl
pooled_at-make_pool (suc j) (suc n) i h = pooled_at-make_pool j n (i + 1) (omega arith)

busy_at-free : (n i : ℕ) (b : Bool) → busy_at i (replicate n (free_slot b)) ≡ 0
busy_at-free zero i b = refl
busy_at-free (suc n) i b = omega (arith, busy_at-free n i b)

free_count-free : (n : ℕ) (b : Bool) → free_count (replicate n (free_slot b)) ≡ n
free_count-free zero b = refl
free_count-free (suc n) b = omega (arith, free_count-free n b)

AreSlots-free : (k n : ℕ) (b : Bool) → AreSlots k (replicate n (free_slot b))
AreSlots-free k zero b = tt
AreSlots-free k (suc n) b = (tt, AreSlots-free k n b)

module _ (c : Curl) where
  abbrev fresh_net : ℕ → Bool → c.World → Net c
  fresh_net n b w = record {
    nhandles = n;
    slots = replicate n (free_slot b);
    available = n;
    pool = make_pool (n + 1) 0;
    buffers = λ b. [];
    sent = [];
    world = w;
  }

  fresh-Own : (n : ℕ) (b : Bool) (w : c.World) → Own none (fresh_net n b w)
  fresh-Own n b w = record {
    slots_length = length-replicate n (free_slot b);
    free = sym (free_count-free n b);
    pool_length = length-make_pool (n + 1) 0;
    slots_ok = AreSlots-free _ n b;
    pool_ok = make_pool-ArePooled (n + 1) 0;
    held_ok = tt;
    once = λ i h. omega (
      arith,
      busy_at-free n i b,
      pooled_at-make_pool i (n + 1) 0 (subst (λ k. i < k) (length-make_pool (n + 1) 0) h),
    );
  }

  -- What a new context is.
  pub record Started (rel : IndexOptions) (name : Text) (tupdesc : Option TupleDesc)
      (ctx : BulkContext c) : Type 0 where
    pub well : IsWell ctx
    pub nothing : wire ctx ≡ []
    pub es_index_name : ctx.es_index_name ≡ name
    pub contains_json : ctx.contains_json ≡ has_json tupdesc
    pub nhandles : ctx.net.nhandles ≡ rel.bulk_concurrency
    pub last_used_xid : ctx.last_used_xid ≡ 0
    pub has_tupdesc : ctx.tupdesc ≡ tupdesc
    pub json_known : ctx.contains_json_is_set ≡ is_set tupdesc
    pub no_rows : (ctx.ntotal ≡ 0) × (kinds ctx ≡ 0) × (ctx.used_xids ≡ [])

  checked_out-Started :
      (rel : IndexOptions) (name : Text) (tupdesc : Option TupleDesc) (ignore : Bool) (net : Net c)
      → net.sent ≡ []
      → net.nhandles ≡ rel.bulk_concurrency
      → (r : Outcome (PostDataEntry × Net c)) → Returns (λ x. Refilled net x.0 x.1) r
      → Returns (Started rel name tupdesc) (r >>= λ x. ok (new_context c rel name tupdesc ignore x))
  unfolding new_context wire bodies
  checked_out-Started rel name tupdesc ignore net unsent size r (returns {a = x} f) =
      returns (record {
        well = record { own = f.own; few = omega arith };
        nothing = rw (f.sent, unsent, f.empty);
        es_index_name = refl;
        contains_json = refl;
        nhandles = f.nhandles ∙ size;
        last_used_xid = refl;
        has_tupdesc = refl;
        json_known = refl;
        no_rows = (refl, refl, refl);
      })

  -- A bulk process over fewer than 1,024 handles starts under the given name, or else the
  -- index's `uuid`, if there is one: every buffer is at one place, nothing is handed over and
  -- nothing counted.
  pub bulk_start-Started :
      (rel : IndexOptions) (index_name : Option Text) (tupdesc : Option TupleDesc) (ignore : Bool)
      (w : c.World) (name : Text)
      → rel.bulk_concurrency < max_curl_handles
      → choose_name index_name rel.index_name ≡ ok name
      → Returns (Started rel name tupdesc) (bulk_start c rel index_name tupdesc ignore w)
  unfolding bulk_start rest_multi_init
  bulk_start-Started rel index_name tupdesc ignore w name few named =
      let no_error : ltb max_curl_handles rel.bulk_concurrency ≡ false = ground arith in
      let fits : leb (rel.bulk_concurrency + 1) max_curl_handles ≡ true = ground arith in
      rw (named, no_error, fits)
        (checked_out-Started rel name tupdesc ignore net refl refl (checkout_batch_pool c net) (
          checkout_batch_pool-Refilled c net
            (fresh-Own rel.bulk_concurrency ignore (c.multi_init w))))
    where
      net : Net c
      net = fresh_net rel.bulk_concurrency ignore (c.multi_init w)

  -- Otherwise it does not return.
  pub bulk_start-WhenOk :
      (rel : IndexOptions) (index_name : Option Text) (tupdesc : Option TupleDesc) (ignore : Bool)
      (w : c.World)
      → WhenOk
          (λ ctx. (name : Text) × Started rel name tupdesc ctx)
          (bulk_start c rel index_name tupdesc ignore w)
  unfolding bulk_start rest_multi_init
  bulk_start-WhenOk rel index_name tupdesc ignore w =
      go (choose_name index_name rel.index_name) refl
    where
      too_many :
          (name : Text)
          → choose_name index_name rel.index_name ≡ ok name
          → ltb rel.bulk_concurrency max_curl_handles ≡ false
          → WhenOk
              (λ ctx. (name : Text) × Started rel name tupdesc ctx)
              (bulk_start c rel index_name tupdesc ignore w)
      too_many name named many = elim (Bool-cases (ltb max_curl_handles rel.bulk_concurrency)) [
        | inl e ↦ rw (named, e) raised
        | inr e ↦
            let full : leb (rel.bulk_concurrency + 1) max_curl_handles ≡ false = ground arith in
            rw (named, e, full) faulted
      ]

      go :
          (r : Outcome Text)
          → choose_name index_name rel.index_name ≡ r
          → WhenOk
              (λ ctx. (name : Text) × Started rel name tupdesc ctx)
              (bulk_start c rel index_name tupdesc ignore w)
      go (ok name) named = elim (Bool-cases (ltb rel.bulk_concurrency max_curl_handles)) [
        | inl e ↦
            WhenOk-mono
              (WhenOk-of_Returns
                (bulk_start-Started rel index_name tupdesc ignore w name (ground arith) named))
              λ ctx st. (name, st)
        | inr e ↦ too_many name named e
      ]
      go (error e) named = rw named raised
      go fault named = rw named faulted
      go hang named = rw named hung
