-- ===== src/Rest/Own.antt =====
-- Who holds which buffer. Every index of the pool is at one place: in the pool, with a request in
-- flight, or with the context (`held`). No operation of rest.c touches what the context holds.
use zombodb.Prelude.{
  List, Option, WhenOk, WhenOk-then, [], ap, arith, length, length-set, none, raised, refl, require,
  returned, some, subst, sym, ℕ, ◌+◌, ◌<◌, ◌∙◌, ◌≡◌, ◌≤◌,
}
use zombodb.Curl.{Curl, Message, Net, PostDataEntry, Slot}
use zombodb.Rest.{
  check_reply, finish_message, finish_taken, release, return_buffer, return_to_pool, take_slot,
  write,
}
use zombodb.Rest.Pool.{ArePooled, ArePooled-set, pooled_at, pooled_at-set}
use zombodb.Rest.Slots.{
  AreSlots, IsHome, Taken, TakenOr, busy_at, free_count, held_at, take_slot-Taken,
}
use zombodb.Text.{Text}

module _ {c : Curl} where
  pub record Own (held : Option PostDataEntry) (n : Net c) : Type 0 where
    pub slots_length : length n.slots ≡ n.nhandles
    pub free : n.available ≡ free_count n.slots
    pub pool_length : length n.pool ≡ n.nhandles + 1
    pub slots_ok : AreSlots (length n.pool) n.slots
    pub pool_ok : ArePooled 0 n.buffers n.pool
    pub held_ok : IsHome (length n.pool) held
    pub once :
        (i : ℕ) → i < length n.pool → busy_at i n.slots + (pooled_at i n.pool + held_at i held) ≡ 1

  -- The text that the context's buffer holds.
  abbrev pub held_text : Option PostDataEntry → Net c → Text
  held_text none n = []
  held_text (some e) n = n.buffers e.buff

  -- What an operation that sends nothing keeps.
  pub record Kept (held : Option PostDataEntry) (n n' : Net c) : Type 0 where
    pub own : Own held n'
    pub sent : n'.sent ≡ n.sent
    pub text : held_text held n' ≡ held_text held n
    pub nhandles : n'.nhandles ≡ n.nhandles

  pub Kept-refl : {held : Option PostDataEntry} {n : Net c} → Own held n → Kept held n n
  Kept-refl o = record { own = o; sent = refl; text = refl; nhandles = refl }

  pub Kept-trans :
      {held : Option PostDataEntry} {n m k : Net c} → Kept held n m → Kept held m k → Kept held n k
  Kept-trans a b = record {
    own = b.own;
    sent = b.sent ∙ a.sent;
    text = b.text ∙ a.text;
    nhandles = b.nhandles ∙ a.nhandles;
  }

  -- The state of libcurl is no part of it.
  pub Kept-world :
      (held : Option PostDataEntry) (n : Net c) (w : c.World)
      → Own held n
      → Kept held n (record n { world = w })
  Kept-world none n w o = record {
    own = record {
      slots_length = o.slots_length;
      free = o.free;
      pool_length = o.pool_length;
      slots_ok = o.slots_ok;
      pool_ok = o.pool_ok;
      held_ok = o.held_ok;
      once = o.once;
    };
    sent = refl;
    text = refl;
    nhandles = refl;
  }
  Kept-world (some e) n w o = record {
    own = record {
      slots_length = o.slots_length;
      free = o.free;
      pool_length = o.pool_length;
      slots_ok = o.slots_ok;
      pool_ok = o.pool_ok;
      held_ok = o.held_ok;
      once = o.once;
    };
    sent = refl;
    text = refl;
    nhandles = refl;
  }

-- The return of an entry to the pool, where its index is empty.
length-return_to_pool :
    (p : Option PostDataEntry) (pool : List (Option ℕ))
    → length (return_to_pool p pool) ≡ length pool
unfolding return_to_pool
length-return_to_pool none pool = refl
length-return_to_pool (some e) pool = length-set pool e.pool_idx (some e.buff)

pooled_at-return_to_pool :
    (i : ℕ) (p : Option PostDataEntry) (pool : List (Option ℕ))
    → IsHome (length pool) p
    → pooled_at i pool + held_at i p ≤ 1
    → pooled_at i (return_to_pool p pool) ≡ pooled_at i pool + held_at i p
unfolding return_to_pool
pooled_at-return_to_pool i none pool h le = omega arith
pooled_at-return_to_pool i (some e) pool h le =
    ground (arith, pooled_at-set i e.pool_idx e.buff pool h.1)

ArePooled-return :
    (p : Option PostDataEntry) (buffers : ℕ → Text) (pool : List (Option ℕ))
    → IsHome (length pool) p
    → ArePooled 0 buffers pool
    → ArePooled 0 (return_buffer p buffers) (return_to_pool p pool)
unfolding return_to_pool return_buffer
ArePooled-return none buffers pool h ps = ps
ArePooled-return (some e) buffers pool h ps =
    ArePooled-set 0 e.pool_idx e.buff buffers pool (omega arith) ps

return_buffer_other :
    (p : Option PostDataEntry) (buffers : ℕ → Text) (n i : ℕ)
    → IsHome n p
    → held_at i p ≡ 0
    → return_buffer p buffers i ≡ buffers i
unfolding return_buffer write
return_buffer_other none buffers n i h out = refl
return_buffer_other (some e) buffers n i h out = ground arith

held_text_other :
    (c : Curl) (held p : Option PostDataEntry) (n : Net c) (k : ℕ)
    → IsHome k p
    → IsHome (length n.pool) held
    → ((i : ℕ) → i < length n.pool → held_at i p + held_at i held ≤ 1)
    → held_text held (record n { buffers = return_buffer p n.buffers }) ≡ held_text held n
held_text_other c none p n k h o apart = refl
held_text_other c (some e) p n k h o apart =
    return_buffer_other p n.buffers k e.buff h (ground (arith, apart e.buff))

module _ (c : Curl) where
  release-Kept :
      (held : Option PostDataEntry) (h : ℕ) (n : Net c) (s : Slot) (slots : List Slot)
      → Own held n
      → Taken (length n.pool) n.slots s slots
      → Kept held n (release c h s slots n)
  unfolding release
  release-Kept held h n s slots o t = record {
    own = record {
      slots_length = t.same_length ∙ o.slots_length;
      free = omega (arith, o.free, t.freed);
      pool_length = same ∙ o.pool_length;
      slots_ok = subst (λ k. AreSlots k slots) (sym same) t.slots_ok;
      pool_ok = ArePooled-return s.post_data n.buffers n.pool t.home o.pool_ok;
      held_ok = subst (λ k. IsHome k held) (sym same) o.held_ok;
      once = once;
    };
    sent = refl;
    text = text held refl;
    nhandles = refl;
  }
    where
      same : length (return_to_pool s.post_data n.pool) ≡ length n.pool
      same = length-return_to_pool s.post_data n.pool

      once :
          (i : ℕ)
          → i < length (return_to_pool s.post_data n.pool)
          → busy_at i slots + (pooled_at i (return_to_pool s.post_data n.pool) + held_at i held) ≡ 1
      once i h =
          let before : busy_at i n.slots + (pooled_at i n.pool + held_at i held) ≡ 1 =
            o.once i (subst (λ k. i < k) same h) in
          omega (
            arith,
            before,
            t.moved i,
            pooled_at-return_to_pool i s.post_data n.pool t.home (omega (arith, before, t.moved i)),
          )

      text :
          (e : Option PostDataEntry)
          → e ≡ held
          → held_text e (release c h s slots n) ≡ held_text e n
      text none q = refl
      text (some e) q =
          held_text_other c (some e) s.post_data n (length n.pool) t.home
            (subst (IsHome (length n.pool)) (sym q) o.held_ok)
            (λ i k. omega (arith, o.once i k, t.moved i, ap (held_at i) q))

  finish_taken-Kept :
      (held : Option PostDataEntry) (msg : Message) (n : Net c) (r : Option (Slot × List Slot))
      → Own held n
      → TakenOr (length n.pool) n.slots r
      → WhenOk (Kept held n) (finish_taken c msg n r)
  unfolding finish_taken
  finish_taken-Kept held msg n none o t = raised
  finish_taken-Kept held msg n (some (s, slots)) o t =
      WhenOk-then (require msg.info_ok _)
        (WhenOk-then (check_reply msg s) (returned (release-Kept held msg.handle n s slots o t)))

  -- The clean-up of one finished request, if it returns, keeps every buffer at one place: with a
  -- request in flight, empty in the pool, or with the context. It sends nothing, and the text
  -- that the context holds stays.
  pub finish_message-Kept :
      (held : Option PostDataEntry) (msg : Message) (n : Net c)
      → Own held n
      → WhenOk (Kept held n) (finish_message c msg n)
  unfolding finish_message
  finish_message-Kept held msg n o =
      finish_taken-Kept held msg n (take_slot msg.handle n.slots) o
        (take_slot-Taken (length n.pool) msg.handle n.slots o.slots_ok)
