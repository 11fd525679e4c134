-- ===== src/Scroll.antt =====
-- ElasticsearchGetNextItemPointer and ElasticsearchCloseScroll of
-- src/c/elasticsearch/elasticsearch.c, and what ElasticsearchOpenScroll asks for and starts from.
-- The score and the highlights are the caller's to read from the entry; the text of the query and
-- the memory contexts are left out. A scroll's requests go out through the global curl handle, so only libcurl's state is passed on.
pub mod Bounds
pub mod Ctid
pub mod Liveness
pub mod Open
pub mod Started
use Prim.Native.String.{String}
use zombodb.Prelude.{
  Bool, Option, Outcome, error, false, fault, hang, if◌then◌else◌, leb, none, not, ok, require,
  some, suc, true, zero, ℕ, ◌*◌, ◌++◌, ◌+◌, ◌-◌, ◌==◌, ◌>>=◌, ◌>>◌,
}
use zombodb.Curl.{Curl, Response, failed}
use zombodb.Json.{
  Items, Json, get_json_array_element_object, get_json_array_element_uint64, get_json_array_length,
  get_json_object_array, get_json_object_object, get_json_object_string, number,
}
use zombodb.Rest.{encode}
use zombodb.Rest.Single.{reply_error}
use zombodb.Text.{Text, codes}
use zombodb.Xid.{ItemPointer, uint64_to_item_pointer}

-- A hit: its entry, from which the caller's score and highlights are read, and what was asked for.
pub record Hit : Type 0 where
  pub entry : Json
  pub ctid : Option ItemPointer
  pub es_id : Option String

pub record ScrollContext : Type 0 where
  pub url : Text
  pub compression_level : ℕ
  pub using_id : Bool
  pub scroll_id : Text
  pub has_highlights : Bool
  pub need_score : Bool
  pub total : ℕ
  pub cnt : ℕ
  pub nhits : ℕ
  pub currpos : ℕ
  pub hits : Option Items

abbrev pub search_response_filter : Bool → Text
search_response_filter true =
    codes
      "_scroll_id,_shards.failed,hits.total,hits.hits.fields.*,hits.hits._id,hits.hits._score,hits.hits.highlight.*"
search_response_filter false =
    codes
      "_scroll_id,_shards.failed,hits.total,hits.hits.fields.*,hits.hits._id,hits.hits.highlight.*"

-- The read through a pointer that an accessor returned.
abbrev pub found {ℓ} : {A : Type ℓ} → Option A → Outcome A
found none = fault
found (some a) = ok a

unfoldable pub no_error : Option Json → Outcome (Unit {0})
no_error none = ok tt
no_error (some e) = error "the response has an error"

unfoldable pub new_hits : Bool → ScrollContext → Option Items → Outcome (Bool × ScrollContext)
new_hits ignore_visibility ctx (some items) =
    ok (true, record ctx { hits = some items; nhits = get_json_array_length items })
new_hits true ctx none = ok (false, record ctx { hits = none })
new_hits false ctx none = error "results underflow.  Expecting more hits but didn't get any"

-- The state after a response with the next page; the flag tells whether to go on.
unfoldable pub turn_page : Bool → ScrollContext → Json → Outcome (Bool × ScrollContext)
unfolding new_hits no_error
turn_page ignore_visibility ctx json = do
  e ← get_json_object_object json "error" true
  no_error e
  h ← get_json_object_object json "hits" false
  hits_object ← found h
  s ← get_json_object_string json "_scroll_id" false
  scroll_id ← found s
  hits ← get_json_object_array hits_object "hits" true
  new_hits ignore_visibility (record ctx { scroll_id = codes scroll_id; currpos = 0 }) hits

module _ (c : Curl) where
  -- rest_call, with its response.
  unfoldable pub rest_call_response :
      Text → Text → Text → ℕ → c.World → Outcome (Response × c.World)
  rest_call_response method url post_data compression_level w = do
    wire ← encode c compression_level post_data
    let r = c.easy_perform (record { method = method; url = url; body = post_data; wire = wire }) w
    require (not (reply_error r.0)) "unexpected response from remote server"
    ok (r.0.response, r.1)

  unfoldable pub next_page :
      Bool → ScrollContext → c.World → Outcome (Bool × ScrollContext × c.World)
  unfolding rest_call_response turn_page
  next_page ignore_visibility ctx w = do
    r ←
        rest_call_response (codes "POST")
          (ctx.url
            ++ (codes "_search/scroll?filter_path=" ++ search_response_filter ctx.need_score))
          (codes "{\"scroll\":\"10m\",\"scroll_id\":\"" ++ (ctx.scroll_id ++ codes "\"}"))
          ctx.compression_level w
    json ← r.0.json
    t ← turn_page ignore_visibility ctx json
    ok (t.0, t.1, r.1)

  unfoldable pub load_more :
      Bool → ScrollContext → c.World → Outcome (Bool × ScrollContext × c.World)
  unfolding next_page
  load_more ignore_visibility ctx w =
      if ctx.currpos == ctx.nhits then next_page ignore_visibility ctx w else ok (true, ctx, w)

abbrev pub advance : ScrollContext → ScrollContext
advance ctx = record ctx { currpos = ctx.currpos + 1; cnt = ctx.cnt + 1 }

module _ (int8in : String → Option ℕ) where
  unfoldable pub read_ctid : Json → Outcome ItemPointer
  read_ctid fields = do
    a ← get_json_object_array fields "zdb_ctid" false
    zdb_ctid ← found a
    v ← get_json_array_element_uint64 int8in zdb_ctid 0
    ok (uint64_to_item_pointer v)

  -- What to do with the entry at `currpos`: `none` skips it.
  unfoldable pub read_entry : Bool → Bool → Json → Outcome (Option Hit)
  unfolding read_ctid
  read_entry using_id want_ctid entry = get_json_object_object entry "fields" true >>= λ fields.
      if using_id
      then (get_json_object_string entry "_id" false >>= λ s. found s >>= λ es_id.
          ok (some (record { entry = entry; ctid = none; es_id = some es_id })))
      else if want_ctid
      then elim fields [
        | none ↦ ok none
        | some f ↦ read_ctid f >>= λ ctid.
            ok (some (record { entry = entry; ctid = some ctid; es_id = none }))
      ]
      else ok (some (record { entry = entry; ctid = none; es_id = none }))

  unfoldable pub current_hit : Bool → ScrollContext → Outcome (Option Hit)
  unfolding read_entry get_json_array_element_object
  current_hit want_ctid ctx = elim ctx.hits [
    | none ↦ error "No results found when loading next scroll context"
    | some items ↦
        get_json_array_element_object items ctx.currpos >>= read_entry ctx.using_id want_ctid
  ]

module _ (int8in : String → Option ℕ) (c : Curl) where
  -- What follows a look at an entry: a hit; the end; or, behind an entry that is skipped, `again`.
  abbrev pub after_entry :
      ScrollContext
      → c.World
      → (ScrollContext → c.World → Outcome (Option Hit × ScrollContext × c.World))
      → Option Hit
      → Outcome (Option Hit × ScrollContext × c.World)
  after_entry ctx w again (some hit) = ok (some hit, advance ctx, w)
  after_entry ctx w again none = elim (leb ctx.total (ctx.cnt + 1)) [
    | true ↦ ok (none, advance ctx, w)
    | false ↦ again (advance ctx) w
  ]

  abbrev pub look :
      Bool
      → (ScrollContext → c.World → Outcome (Option Hit × ScrollContext × c.World))
      → Bool × ScrollContext × c.World
      → Outcome (Option Hit × ScrollContext × c.World)
  look want_ctid again (false, ctx, w) = ok (none, ctx, w)
  look want_ctid again (true, ctx, w) = current_hit int8in want_ctid ctx >>= after_entry ctx w again

  -- From `start_over` on. `none` is the result `false`.
  unfoldable pub next_loop :
      Bool → Bool → ℕ → ScrollContext → c.World → Outcome (Option Hit × ScrollContext × c.World)
  unfolding load_more current_hit
  next_loop ignore_visibility want_ctid zero ctx w = hang
  next_loop ignore_visibility want_ctid (suc f) ctx w =
      if leb ctx.total ctx.cnt
      then (if ctx.cnt == 0
          then ok (none, ctx, w)
          else error "Attempt to read past total number of hits")
      else (load_more c ignore_visibility ctx w
          >>= look want_ctid (next_loop ignore_visibility want_ctid f))

  unfoldable pub get_next_item_pointer :
      Bool → Bool → ScrollContext → c.World → Outcome (Option Hit × ScrollContext × c.World)
  unfolding next_loop
  get_next_item_pointer ignore_visibility want_ctid ctx w =
      next_loop ignore_visibility want_ctid (suc (ctx.total - ctx.cnt)) ctx w
