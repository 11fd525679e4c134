-- ===== src/Scroll/Liveness.antt =====
-- A call for the next item of a scroll ends.
use Prim.Native.String.{String}
use zombodb.Prelude.{
  Bool, Bool-cases, Ends, Ends-bind, Ends-bind_ok, Ends-if, Option, Outcome, WhenOk, WhenOk-bind,
  WhenOk-then, any_outcome, arith, error, false, inl, inr, leb, none, ok, require, require-Ends,
  returned, some, suc, true, with_error, with_fault, with_value, zero, ℕ, ◌+◌, ◌-◌, ◌<◌, ◌==◌,
  ◌>>=◌, ◌≡◌,
}
use zombodb.Curl.{Curl, IsLive}
use zombodb.Json.{
  Items, Json, array, as_uint64, cons, get_json_array_element_object, get_json_array_element_uint64,
  json_false, json_null, json_true, nil, number, object, string,
}
use zombodb.Json.Laws.{
  get_json_object_array-Ends, get_json_object_object-Ends, get_json_object_string-Ends,
}
use zombodb.Rest.{encode}
use zombodb.Rest.Progress.{encode-Ends}
use zombodb.Scroll.{
  Hit, ScrollContext, advance, after_entry, current_hit, found, get_next_item_pointer, load_more,
  look, new_hits, next_loop, next_page, no_error, read_ctid, read_entry, rest_call_response,
  turn_page,
}
use zombodb.Scroll.Bounds.{
  IsScroll, Turned, advance-IsScroll, current_hit-in_page, load_more-Turned,
}
use zombodb.Text.{Text}

pub found-Ends : {A : Type 0} (o : Option A) → Ends (found o)
found-Ends none = with_fault
found-Ends (some a) = with_value

no_error-Ends : (o : Option Json) → Ends (no_error o)
unfolding no_error
no_error-Ends none = with_value
no_error-Ends (some e) = with_error

new_hits-Ends :
    (ignore_visibility : Bool) (ctx : ScrollContext) (hits : Option Items)
    → Ends (new_hits ignore_visibility ctx hits)
unfolding new_hits
new_hits-Ends ignore_visibility ctx (some items) = with_value
new_hits-Ends true ctx none = with_value
new_hits-Ends false ctx none = with_error

turn_page-Ends :
    (ignore_visibility : Bool) (ctx : ScrollContext) (json : Json)
    → Ends (turn_page ignore_visibility ctx json)
unfolding turn_page
turn_page-Ends ignore_visibility ctx json =
    Ends-bind (get_json_object_object-Ends json "error" true) λ e. Ends-bind (no_error-Ends e) λ a.
      Ends-bind (get_json_object_object-Ends json "hits" false) λ h.
        Ends-bind (found-Ends h) λ hits_object.
          Ends-bind (get_json_object_string-Ends json "_scroll_id" false) λ s.
            Ends-bind (found-Ends s) λ scroll_id.
              Ends-bind (get_json_object_array-Ends hits_object "hits" true)
                λ hits. new_hits-Ends ignore_visibility _ hits

get_json_array_element_object-Ends :
    (items : Items) (i : ℕ) → Ends (get_json_array_element_object items i)
unfolding get_json_array_element_object
get_json_array_element_object-Ends nil i = with_fault
get_json_array_element_object-Ends (cons x items) zero = with_value
get_json_array_element_object-Ends (cons x items) (suc i) =
    get_json_array_element_object-Ends items i

module _ (int8in : String → Option ℕ) where
  as_uint64-Ends : (json : Json) → Ends (as_uint64 int8in json)
  unfolding as_uint64
  as_uint64-Ends (number n) = go (int8in n)
    where
      go : (o : Option ℕ) → Ends (elim o [ none ↦ error "invalid input syntax" | some v ↦ ok v ])
      go none = with_error
      go (some v) = with_value
  as_uint64-Ends (object fields) = with_fault
  as_uint64-Ends (array items) = with_fault
  as_uint64-Ends (string s) = with_fault
  as_uint64-Ends json_true = with_fault
  as_uint64-Ends json_false = with_fault
  as_uint64-Ends json_null = with_fault

  read_ctid-Ends : (fields : Json) → Ends (read_ctid int8in fields)
  unfolding read_ctid get_json_array_element_uint64
  read_ctid-Ends fields = Ends-bind (get_json_object_array-Ends fields "zdb_ctid" false) λ a.
      Ends-bind (found-Ends a) λ zdb_ctid.
        Ends-bind (Ends-bind (get_json_array_element_object-Ends zdb_ctid 0) λ x. as_uint64-Ends x)
          λ v. with_value

  read_entry-Ends :
      (using_id want_ctid : Bool) (entry : Json) → Ends (read_entry int8in using_id want_ctid entry)
  unfolding read_entry
  read_entry-Ends using_id want_ctid entry =
      Ends-bind (get_json_object_object-Ends entry "fields" true) λ fields.
        Ends-if using_id
          (Ends-bind (get_json_object_string-Ends entry "_id" false)
            λ s. Ends-bind (found-Ends s) λ es_id. with_value)
          (Ends-if want_ctid (of_fields fields) with_value)
    where
      of_fields :
          (fields : Option Json)
          → Ends {A = Option Hit} (elim fields [
            | none ↦ ok none
            | some f ↦ read_ctid int8in f >>= λ ctid.
                ok (some (record { entry = entry; ctid = some ctid; es_id = none }))
          ])
      of_fields none = with_value
      of_fields (some f) = Ends-bind (read_ctid-Ends f) λ ctid. with_value

  hit-Ends :
      (want_ctid using_id : Bool) (hits : Option Items) (currpos : ℕ)
      → Ends (elim hits [
        | none ↦ error "No results found when loading next scroll context"
        | some items ↦
            get_json_array_element_object items currpos >>= read_entry int8in using_id want_ctid
      ])
  hit-Ends want_ctid using_id none currpos = with_error
  hit-Ends want_ctid using_id (some items) currpos =
      Ends-bind (get_json_array_element_object-Ends items currpos)
        λ entry. read_entry-Ends using_id want_ctid entry

  current_hit-Ends :
      (want_ctid : Bool) (ctx : ScrollContext) → Ends (current_hit int8in want_ctid ctx)
  unfolding current_hit
  current_hit-Ends want_ctid ctx = hit-Ends want_ctid ctx.using_id ctx.hits ctx.currpos

module _ (c : Curl) (live : IsLive c) where
  rest_call_response-Ends :
      (method url body : Text) (level : ℕ) (w : c.World)
      → Ends (rest_call_response c method url body level w)
  unfolding rest_call_response
  rest_call_response-Ends method url body level w =
      Ends-bind (encode-Ends c live level body) λ wire. Ends-bind (require-Ends _ _) λ a. with_value

  rest_call_response-parsed :
      (method url body : Text) (level : ℕ) (w : c.World)
      → WhenOk (λ r. Ends r.0.json) (rest_call_response c method url body level w)
  unfolding rest_call_response
  rest_call_response-parsed method url body level w =
      WhenOk-bind (any_outcome (encode c level body))
        λ wire _. WhenOk-then (require _ _) (returned (live.reply_parse_ends _ w))

  load_more-Ends :
      (ignore_visibility : Bool) (ctx : ScrollContext) (w : c.World)
      → Ends (load_more c ignore_visibility ctx w)
  unfolding load_more next_page
  load_more-Ends ignore_visibility ctx w =
      Ends-if (ctx.currpos == ctx.nhits)
        (Ends-bind_ok (rest_call_response-Ends _ _ _ _ w) (rest_call_response-parsed _ _ _ _ w)
          λ r p.
            Ends-bind p
              λ json. Ends-bind (turn_page-Ends ignore_visibility ctx json) λ t. with_value)
        with_value

module _ (int8in : String → Option ℕ) (c : Curl) (live : IsLive c)
    (ignore_visibility want_ctid : Bool) where
  look-Ends :
      (ctx0 : ScrollContext)
      (again : ScrollContext → c.World → Outcome (Option Hit × ScrollContext × c.World))
      (r : Bool × ScrollContext × c.World)
      → Turned ctx0 r.1
      → ((ctx' : ScrollContext) (w' : c.World)
          → IsScroll ctx'
          → ctx'.total ≡ ctx0.total
          → ctx'.cnt ≡ ctx0.cnt + 1
          → Ends (again ctx' w'))
      → ctx0.cnt < ctx0.total
      → Ends (look int8in c want_ctid again r)
  look-Ends ctx0 again (false, ctx, w) t next less = with_value
  look-Ends ctx0 again (true, ctx, w) t next less =
      Ends-bind_ok (current_hit-Ends int8in want_ctid ctx)
        (current_hit-in_page int8in want_ctid ctx t.well)
        λ hit p. go hit (
          next (advance ctx) w
            (advance-IsScroll int8in ctx t.well p (omega (arith, less, t.cnt, t.total))) t.total
            (omega (arith, t.cnt)))
    where
      skip :
          (b : Bool)
          → Ends (again (advance ctx) w)
          → Ends (elim b [ true ↦ ok (none, advance ctx, w) | false ↦ again (advance ctx) w ])
      skip true e = with_value
      skip false e = e

      go :
          (hit : Option Hit)
          → Ends (again (advance ctx) w)
          → Ends (after_entry int8in c ctx w again hit)
      go (some hit) e = with_value
      go none e = skip (leb ctx.total (ctx.cnt + 1)) e

  next_loop-Ends :
      (f : ℕ) (ctx : ScrollContext) (w : c.World)
      → IsScroll ctx
      → ctx.total < f + ctx.cnt
      → Ends (next_loop int8in c ignore_visibility want_ctid f ctx w)
  unfolding next_loop
  next_loop-Ends zero ctx w s h = absurd (omega (arith, s.cnt_le))
  next_loop-Ends (suc f) ctx w s h = elim (Bool-cases (leb ctx.total ctx.cnt)) [
    | inl e ↦ rw e (Ends-if (ctx.cnt == 0) with_value with_error)
    | inr e ↦ rw e (
        Ends-bind_ok (load_more-Ends c live ignore_visibility ctx w)
          (load_more-Turned c ignore_visibility ctx w s)
          λ r t.
            look-Ends ctx (next_loop int8in c ignore_visibility want_ctid f) r t
              (λ ctx' w' s' same more. next_loop-Ends f ctx' w' s' (omega (arith, same, more, h)))
              (ground arith))
  ]

  -- From a scroll in its bounds, the call for the next item ends, with a value, an error or
  -- undefined behaviour, and not in an endless loop, however many entries without fields it skips
  -- and pages it asks for, if the JSON parser returns.
  pub get_next_item_pointer-Ends :
      (ctx : ScrollContext) (w : c.World)
      → IsScroll ctx
      → Ends (get_next_item_pointer int8in c ignore_visibility want_ctid ctx w)
  unfolding get_next_item_pointer
  get_next_item_pointer-Ends ctx w s =
      next_loop-Ends (suc (ctx.total - ctx.cnt)) ctx w s (omega (arith, s.cnt_le))
