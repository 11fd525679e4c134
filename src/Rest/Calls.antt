-- ===== src/Rest/Calls.antt =====
-- What the operations of rest.c keep, and what a call sends.
use zombodb.Prelude.{
  Bool, Bool-cases, List, Option, Outcome, WhenOk, WhenOk-bind, WhenOk-mono, [], ap, arith, error,
  false, fault, faulted, hang, hung, if◌then◌else◌, inl, inr, length, none, not, ok, raised, refl,
  require, returned, some, suc, true, zero, ℕ, ◌++◌, ◌-◌, ◌<◌, ◌==◌, ◌>>=◌, ◌∙◌, ◌∷◌, ◌≡◌,
}
use zombodb.Curl.{Curl, Message, Net, PostDataEntry, Request, Slot}
use zombodb.Rest.{
  await_slot, cleanup_loop, cleanup_step, encode, filled_slot, has_free, issue, issue_with,
  make_room, perform_loop, place, rest_multi_call, rest_multi_partial_cleanup, rest_multi_perform,
}
use zombodb.Rest.Own.{Kept, Kept-refl, Kept-trans, Kept-world, Own, finish_message-Kept}
use zombodb.Rest.Slots.{Placed, free_count, place-Placed}
use zombodb.Text.{Text}

module _ (c : Curl) (held : Option PostDataEntry) where
  pub perform-Kept :
      (n : Net c) → Own held n → WhenOk (λ r. Kept held n r.1) (rest_multi_perform c n)
  unfolding rest_multi_perform
  perform-Kept n o = go (perform_loop c (suc (c.work n.world)) n.world)
    where
      go :
          (r : Outcome (ℕ × c.World))
          → WhenOk {A = ℕ × Net c}
              (λ x. Kept held n x.1)
              (r >>= λ (still, w). ok (still, record n { world = w }))
      go (ok (still, w)) = returned (Kept-world held n w o)
      go (error e) = raised
      go fault = faulted
      go hang = hung

  cleanup_step-Kept :
      (n : Net c) (fast : Bool) (again : Net c → Outcome (Net c)) (r : Option Message × c.World)
      → Own held n
      → ((m : Net c) → Own held m → WhenOk (Kept held m) (again m))
      → WhenOk (Kept held n) (cleanup_step c fast n again r)
  cleanup_step-Kept n fast again (none, w) o ih = returned (Kept-world held n w o)
  cleanup_step-Kept n fast again (some msg, w) o ih = elim (Bool-cases msg.is_done) [
    | inl e ↦ rw e (
        WhenOk-bind (finish_message-Kept c held msg (record n { world = w }) here.own)
          λ m k. next fast m k)
    | inr e ↦ rw e (WhenOk-mono (ih (record n { world = w }) here.own) λ m k. Kept-trans here k)
  ]
    where
      here : Kept held n (record n { world = w })
      here = Kept-world held n w o

      next :
          (f : Bool) (m : Net c)
          → Kept held (record n { world = w }) m
          → WhenOk (Kept held n) (elim f [ true ↦ ok m | false ↦ again m ])
      next true m k = returned (Kept-trans here k)
      next false m k = WhenOk-mono (ih m k.own) λ m' k'. Kept-trans here (Kept-trans k k')

  cleanup_loop-Kept :
      (f : ℕ) (fast : Bool) (n : Net c)
      → Own held n
      → WhenOk (Kept held n) (cleanup_loop c f fast n)
  unfolding cleanup_loop
  cleanup_loop-Kept zero fast n o = hung
  cleanup_loop-Kept (suc f) fast n o =
      cleanup_step-Kept n fast (cleanup_loop c f fast) (c.info_read n.world) o
        (cleanup_loop-Kept f fast)

  -- A clean-up of one or of all finished requests, if it returns, keeps every buffer at one
  -- place. It sends nothing, and the text that the context holds stays.
  pub cleanup-Kept :
      (n : Net c) (finalize fast : Bool)
      → Own held n
      → WhenOk (Kept held n) (rest_multi_partial_cleanup c n finalize fast)
  unfolding rest_multi_partial_cleanup
  cleanup-Kept n finalize fast o =
      WhenOk-bind (cleanup_loop-Kept (suc (c.pending n.world)) fast n o) λ m k. last finalize m k
    where
      last :
          (b : Bool) (m : Net c)
          → Kept held n m
          → WhenOk
              (Kept held n)
              (ok (if b then record m { world = c.multi_cleanup m.world } else m))
      last true m k = returned (Kept-trans k (Kept-world held m _ k.own))
      last false m k = returned k

  await_slot-Kept : (f : ℕ) (n : Net c) → Own held n → WhenOk (Kept held n) (await_slot c f n)
  unfolding await_slot
  await_slot-Kept zero n o = hung
  await_slot-Kept (suc f) n o =
      WhenOk-bind (perform-Kept n o)
        λ (still, m) k. next (await_slot-Kept f) (still == m.nhandles) m k
    where
      next :
          ((m : Net c) → Own held m → WhenOk (Kept held m) (await_slot c f m))
          → (b : Bool) (m : Net c) → Kept held n m
          → WhenOk (Kept held n) (elim b [ true ↦ await_slot c f m | false ↦ ok m ])
      next again true m k = WhenOk-mono (again m k.own) λ m' k'. Kept-trans k k'
      next again false m k = returned k

  -- Afterwards a slot is free.
  pub make_room-Kept :
      (n : Net c) → Own held n → WhenOk (λ m. Kept held n m × (0 < m.available)) (make_room c n)
  unfolding make_room
  make_room-Kept n o = elim (Bool-cases (n.available == 0)) [
    | inl e ↦ rw e (
        WhenOk-bind (await_slot-Kept (suc (c.work n.world)) n o)
          λ m k. WhenOk-bind (cleanup-Kept m false true k.own) λ m' k'. room m' (Kept-trans k k'))
    | inr e ↦ rw e (returned (Kept-refl o, ground arith))
  ]
    where
      room :
          (m : Net c)
          → Kept held n m
          → WhenOk
              (λ m. Kept held n m × (0 < m.available))
              (require (not (m.available == 0)) "unable to cleanup an available rest_multi slot"
                >>= λ _. ok m)
      room m k = elim (Bool-cases (m.available == 0)) [
        | inl e ↦ rw e raised
        | inr e ↦ rw e (returned (k, ground arith))
      ]

has_free_of_pos : (slots : List Slot) → 0 < free_count slots → has_free slots ≡ true
unfolding has_free
has_free_of_pos [] h = absurd (omega arith)
has_free_of_pos (s ∷ slots) h = ground (arith, has_free_of_pos slots)

module _ {c : Curl} where
  -- One request went out, with what the entry's buffer held; the entry is now with the request.
  pub record Called (url : Text) (e : PostDataEntry) (n m : Net c) : Type 0 where
    pub own : Own none m
    pub request : Request
    pub sent : m.sent ≡ n.sent ++ (request ∷ [])
    pub body : request.body ≡ n.buffers e.buff
    pub to_url : request.url ≡ url
    pub nhandles : m.nhandles ≡ n.nhandles

module _ (c : Curl) (url : Text) (e : PostDataEntry) (level : ℕ) where
  issued :
      (n : Net c) (h : ℕ) (req : Request) (w : c.World)
      → Own (some e) n
      → 0 < n.available
      → Own {c = c} none (record n {
        slots = place (filled_slot c h level e) n.slots;
        available = n.available - 1;
        sent = n.sent ++ (req ∷ []);
        world = w;
      })
  unfolding filled_slot
  issued n h req w o room = record {
    slots_length = p.same_length ∙ o.slots_length;
    free = omega (arith, o.free, p.used);
    pool_length = o.pool_length;
    slots_ok = p.slots_ok;
    pool_ok = o.pool_ok;
    held_ok = tt;
    once = λ i k. omega (arith, o.once i k, p.added i);
  }
    where
      p :
          Placed
            (length n.pool)
            (filled_slot c h level e)
            n.slots
            (place (filled_slot c h level e) n.slots)
      p =
          place-Placed (length n.pool) (filled_slot c h level e) n.slots o.slots_ok o.held_ok
            (λ q. cc) (has_free_of_pos n.slots (omega (arith, o.free, room)))

  issue_with-Called :
      (method : Text) (n : Net c) (r : Option ℕ × c.World)
      → Own (some e) n
      → 0 < n.available
      → WhenOk (Called url e n) (issue_with c method url e level n r)
  unfolding issue_with
  issue_with-Called method n (none, w) o room = raised
  issue_with-Called method n (some h, w) o room = go (encode c level (n.buffers e.buff))
    where
      req : Text → Request
      req wire = record { method = method; url = url; body = n.buffers e.buff; wire = wire }

      next : Text → Net c
      next wire = record n {
        slots = place (filled_slot c h level e) n.slots;
        available = n.available - 1;
        sent = n.sent ++ (req wire ∷ []);
        world = c.add_handle h (req wire) w;
      }

      go :
          (r : Outcome Text)
          → WhenOk (Called url e n) (r >>= λ wire. rest_multi_perform c (next wire) >>= λ x. ok x.1)
      go (ok wire) =
          WhenOk-bind
            (perform-Kept c none (next wire)
              (issued n h (req wire) (c.add_handle h (req wire) w) o room))
            λ x k. returned (record {
              own = k.own;
              request = req wire;
              sent = k.sent;
              body = refl;
              to_url = refl;
              nhandles = k.nhandles;
            })
      go (error x) = raised
      go fault = faulted
      go hang = hung

  issue-Called :
      (method : Text) (n : Net c)
      → Own (some e) n
      → 0 < n.available
      → WhenOk (Called url e n) (issue c method url e level n)
  unfolding issue
  issue-Called method n o room =
      rw (has_free_of_pos n.slots (omega (arith, o.free, room)))
        (issue_with-Called method n (c.easy_init n.world) o room)

  -- A call with a buffer that the context holds, if it returns, has sent one request: to the
  -- given URL, with what the buffer held. The buffer is the request's now, every buffer is still
  -- at one place, and whatever the call cleaned up on the way sent nothing.
  pub rest_multi_call-Called :
      (method : Text) (n : Net c)
      → Own (some e) n
      → WhenOk (Called url e n) (rest_multi_call c n method url e level)
  unfolding rest_multi_call
  rest_multi_call-Called method n o = WhenOk-bind (make_room-Kept c (some e) n o) λ m (k, room).
      WhenOk-mono (issue-Called method m k.own room) λ m' s. record {
        own = s.own;
        request = s.request;
        sent = s.sent ∙ ap (λ l. l ++ (s.request ∷ [])) k.sent;
        body = s.body ∙ k.text;
        to_url = s.to_url;
        nhandles = s.nhandles ∙ k.nhandles;
      }
