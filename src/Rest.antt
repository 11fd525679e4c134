-- ===== src/Rest.antt =====
-- src/c/rest/rest.c: the multi-handle HTTP client; and the search of checkout_batch_pool of
-- src/c/elasticsearch/elasticsearch.c, which takes a buffer from the pool that this client returns
-- buffers to.
pub mod Calls
pub mod Checkout
pub mod Conflicts
pub mod Liveness
pub mod Own
pub mod Pool
pub mod Progress
pub mod Slots
pub mod Sent
pub mod Single
pub mod Waits
use Prim.Native.String.{String}
use Conflicts.{contains_version_conflict_error}
use zombodb.Prelude.{
  Bool, List, Option, Outcome, [], error, false, hang, if◌then◌else◌, ltb, max, none, not, ok,
  replicate, require, set, some, suc, true, zero, ℕ, ◌++◌, ◌+◌, ◌-◌, ◌==◌, ◌>>=◌, ◌>>◌, ◌||◌, ◌∷◌,
}
use zombodb.Curl.{
  Curl, Message, MultiCode, Net, PostDataEntry, Request, Slot, accepted, call_again, failed,
}
use zombodb.Text.{Text, codes}

abbrev pub max_curl_handles : ℕ
max_curl_handles = 1024

-- A write to one buffer.
unfoldable pub write : (ℕ → Text) → ℕ → Text → ℕ → Text
write buffers b str a = if a == b then str else buffers a

abbrev pub free_slot : Bool → Slot
free_slot vconflict = record {
  handle = none;
  headers = [];
  errorbuff = false;
  post_data = none;
  response = false;
  vconflict = vconflict;
}

-- The first buffer among the `n` entries of the pool from index `i` on, and the pool without it.
unfoldable pub checkout : ℕ → ℕ → List (Option ℕ) → Option (PostDataEntry × List (Option ℕ))
checkout zero i pool = none
checkout (suc n) i [] = none
checkout (suc n) i (some b ∷ pool) =
    some (record { pool_idx = i; buff = b; compressed_data = false }, none ∷ pool)
checkout (suc n) i (none ∷ pool) = elim (checkout n (i + 1) pool) [
  | none ↦ none
  | some (e, pool') ↦ some (e, none ∷ pool')
]

-- Is there an index whose handle is NULL?
unfoldable pub has_free : List Slot → Bool
has_free [] = false
has_free (s ∷ slots) = elim s.handle [ none ↦ true | some h ↦ has_free slots ]

-- The first free index, filled.
unfoldable pub place : Slot → List Slot → List Slot
place new [] = []
place new (s ∷ slots) = elim s.handle [
  | none ↦ record new { vconflict = s.vconflict } ∷ slots
  | some h ↦ s ∷ place new slots
]

abbrev holds : ℕ → Option ℕ → Bool
holds h none = false
holds h (some g) = g == h

-- The first index whose handle is `h`, with the arrays after it is cleared.
unfoldable pub take_slot : ℕ → List Slot → Option (Slot × List Slot)
take_slot h [] = none
take_slot h (s ∷ slots) =
    if holds h s.handle
    then some (s, free_slot s.vconflict ∷ slots)
    else elim (take_slot h slots) [ none ↦ none | some (t, slots') ↦ some (t, s ∷ slots') ]

-- Does a finished transfer raise an error?
unfoldable pub is_failure : Message → Bool
is_failure msg = not msg.result_ok || not (msg.response_code == 200) || msg.response.has_errors

abbrev pub curl_error : String
curl_error = "libcurl error"

unfoldable pub check_reply : Message → Slot → Outcome (Unit {0})
check_reply msg s =
    if not (is_failure msg)
    then ok tt
    else if not s.vconflict
    then error curl_error
    else (contains_version_conflict_error msg.response.json >>= λ ignore. require ignore curl_error)

-- resetStringInfo on the buffer of a finished request, and its return to the pool.
unfoldable pub return_buffer : Option PostDataEntry → (ℕ → Text) → ℕ → Text
unfolding write
return_buffer none buffers = buffers
return_buffer (some e) buffers = write buffers e.buff []

unfoldable pub return_to_pool : Option PostDataEntry → List (Option ℕ) → List (Option ℕ)
return_to_pool none pool = pool
return_to_pool (some e) pool = set pool e.pool_idx (some e.buff)

module _ (c : Curl) where
  unfoldable pub checkout_batch_pool : Net c → Outcome (PostDataEntry × Net c)
  unfolding checkout
  checkout_batch_pool n = elim (checkout (n.nhandles + 1) 0 n.pool) [
    | none ↦ error "Unable to checkout from batch pool"
    | some (e, pool') ↦ ok (e, record n { pool = pool' })
  ]

  -- rest_multi_init. `n` is what is shared with the context and what came before.
  unfoldable pub rest_multi_init : ℕ → Bool → Net c → Outcome (Net c)
  rest_multi_init nhandles ignore_version_conflicts n =
      if ltb max_curl_handles nhandles
      then error "Number of curl handles is larger than max"
      else ok (record n {
        nhandles = nhandles;
        slots = replicate nhandles (free_slot ignore_version_conflicts);
        available = nhandles;
        world = c.multi_init n.world;
      })

  abbrev pub perform_step :
      MultiCode × ℕ × c.World → (c.World → Outcome (ℕ × c.World)) → Outcome (ℕ × c.World)
  perform_step (accepted, still_running, w) again = ok (still_running, w)
  perform_step (call_again, still_running, w) again = again w
  perform_step (failed, still_running, w) again = error "curl_multi_perform failed"

  unfoldable pub perform_loop : ℕ → c.World → Outcome (ℕ × c.World)
  perform_loop zero w = hang
  perform_loop (suc f) w = perform_step (c.multi_perform w) (perform_loop f)

  unfoldable pub rest_multi_perform : Net c → Outcome (ℕ × Net c)
  rest_multi_perform n = perform_loop (suc (c.work n.world)) n.world >>= λ (still, w).
      ok (still, record n { world = w })

  -- The slot is free again and its buffer is back in the pool.
  unfoldable pub release : ℕ → Slot → List Slot → Net c → Net c
  unfolding return_buffer return_to_pool
  release h s slots n = record n {
    slots = slots;
    available = n.available + 1;
    pool = return_to_pool s.post_data n.pool;
    buffers = return_buffer s.post_data n.buffers;
    world = c.remove_handle h n.world;
  }

  unfoldable pub finish_taken : Message → Net c → Option (Slot × List Slot) → Outcome (Net c)
  unfolding release check_reply
  finish_taken msg n none = error "couldn't find easy_handle"
  finish_taken msg n (some (s, slots)) = do
    require msg.info_ok "problem getting response code"
    check_reply msg s
    ok (release msg.handle s slots n)

  -- The clean-up of one finished handle.
  unfoldable pub finish_message : Message → Net c → Outcome (Net c)
  unfolding finish_taken take_slot
  finish_message msg n = finish_taken msg n (take_slot msg.handle n.slots)

  abbrev pub cleanup_step :
      Bool → Net c → (Net c → Outcome (Net c)) → Option Message × c.World → Outcome (Net c)
  cleanup_step fast n again (none, w) = ok (record n { world = w })
  cleanup_step fast n again (some msg, w) = elim msg.is_done [
    | false ↦ again (record n { world = w })
    | true ↦ finish_message msg (record n { world = w }) >>= λ n'. elim fast [
      | true ↦ ok n'
      | false ↦ again n'
    ]
  ]

  unfoldable pub cleanup_loop : ℕ → Bool → Net c → Outcome (Net c)
  unfolding finish_message
  cleanup_loop zero fast n = hang
  cleanup_loop (suc f) fast n = cleanup_step fast n (cleanup_loop f fast) (c.info_read n.world)

  unfoldable pub rest_multi_partial_cleanup : Net c → Bool → Bool → Outcome (Net c)
  unfolding cleanup_loop
  rest_multi_partial_cleanup n finalize fast = do
    n' ← cleanup_loop (suc (c.pending n.world)) fast n
    ok (if finalize then record n' { world = c.multi_cleanup n'.world } else n')

  -- `do { still_running = rest_multi_perform(state); } while (still_running == state->nhandles)`.
  unfoldable pub await_slot : ℕ → Net c → Outcome (Net c)
  unfolding rest_multi_perform
  await_slot zero n = hang
  await_slot (suc f) n = rest_multi_perform n >>= λ (still, n'). elim (still == n'.nhandles) [
    | true ↦ await_slot f n'
    | false ↦ ok n'
  ]

  unfoldable pub make_room : Net c → Outcome (Net c)
  unfolding await_slot rest_multi_partial_cleanup
  make_room n = if not (n.available == 0) then ok n else do
    n ← await_slot (suc (c.work n.world)) n
    n ← rest_multi_partial_cleanup n false true
    require (not (n.available == 0)) "unable to cleanup an available rest_multi slot"
    ok n

  -- The bytes that libcurl is given, and the entry with its `compressed_data`.
  unfoldable pub encode : ℕ → Text → Outcome Text
  encode compression_level body =
      if ltb 0 compression_level
      then elim (c.deflate compression_level body) [
        | none ↦ error "compression error"
        | some data' ↦ ok data'
      ]
      else ok body

  unfoldable pub filled_slot : ℕ → ℕ → PostDataEntry → Slot
  filled_slot h compression_level post_data = record {
    handle = some h;
    headers =
        codes "Content-Type: application/json"
        ∷ (if ltb 0 compression_level then codes "Content-Encoding: deflate" ∷ [] else []);
    errorbuff = true;
    post_data = some (record post_data { compressed_data = ltb 0 compression_level });
    response = true;
    vconflict = false;
  }

  -- The request goes out with the curl handle that curl_easy_init gave.
  unfoldable pub issue_with :
      Text → Text → PostDataEntry → ℕ → Net c → Option ℕ × c.World → Outcome (Net c)
  unfolding rest_multi_perform filled_slot place encode
  issue_with method url post_data level n (none, w) = error "unable to initialize curl handle"
  issue_with method url post_data level n (some h, w) = do
    wire ← encode level (n.buffers post_data.buff)
    let req : Request = record {
      method = method;
      url = url;
      body = n.buffers post_data.buff;
      wire = wire;
    }
    r ← rest_multi_perform (record n {
      slots = place (filled_slot h level post_data) n.slots;
      available = n.available - 1;
      sent = n.sent ++ (req ∷ []);
      world = c.add_handle h req w;
    })
    ok r.1

  -- The search for a free index. Where there is none the C loop ends and nothing is sent.
  unfoldable pub issue : Text → Text → PostDataEntry → ℕ → Net c → Outcome (Net c)
  unfolding issue_with has_free
  issue method url post_data level n =
      if has_free n.slots
      then issue_with method url post_data level n (c.easy_init n.world)
      else ok n

  unfoldable pub rest_multi_call : Net c → Text → Text → PostDataEntry → ℕ → Outcome (Net c)
  unfolding make_room issue
  rest_multi_call n method url post_data compression_level =
      make_room n >>= issue method url post_data compression_level
