-- ===== src/Rest/Progress.antt =====
-- The calls of rest.c end, if libcurl's transfers do.
use zombodb.Prelude.{
  Ends, Ends-bind, Ends-if, Option, [], arith, error, false, ltb, none, not, ok, require-Ends, some,
  suc, true, with_error, with_value, ℕ, ◌<◌, ◌==◌,
}
use zombodb.Curl.{Curl, IsLive, Net, PostDataEntry, Reply, Request}
use zombodb.Rest.{encode, has_free, issue, issue_with, make_room, rest_multi_call}
use zombodb.Rest.Liveness.{
  await_slot-Ends, rest_multi_partial_cleanup-Ends, rest_multi_perform-Ends,
}
use zombodb.Rest.Single.{finish_call, reply_error, rest_call, rest_call_empty}
use zombodb.Text.{Text}

module _ (c : Curl) (live : IsLive c) where
  make_room-Ends : (n : Net c) → 0 < n.nhandles → Ends (make_room c n)
  unfolding make_room
  make_room-Ends n h = Ends-if (not (n.available == 0)) with_value (
      Ends-bind (await_slot-Ends c live (suc (c.work n.world)) n h (omega arith)) λ m.
        Ends-bind (rest_multi_partial_cleanup-Ends c live m false true)
          λ k. Ends-bind (require-Ends (not (k.available == 0)) _) λ a. with_value)

  pub encode-Ends : (level : ℕ) (body : Text) → Ends (encode c level body)
  unfolding encode
  encode-Ends level body = Ends-if (ltb 0 level) (deflated (c.deflate level body)) with_value
    where
      deflated :
          (r : Option Text)
          → Ends (elim r [ none ↦ error "compression error" | some data' ↦ ok data' ])
      deflated none = with_error
      deflated (some t) = with_value

  issue_with-Ends :
      (method url : Text) (e : PostDataEntry) (level : ℕ) (n : Net c) (r : Option ℕ × c.World)
      → Ends (issue_with c method url e level n r)
  unfolding issue_with
  issue_with-Ends method url e level n (none, w) = with_error
  issue_with-Ends method url e level n (some h, w) =
      Ends-bind (encode-Ends level (n.buffers e.buff))
        λ wire. Ends-bind (rest_multi_perform-Ends c live _) λ x. with_value

  -- A call on at least one handle ends, with a value, an error or undefined behaviour, and not
  -- in an endless loop, if libcurl's transfers end.
  pub rest_multi_call-Ends :
      (n : Net c) (method url : Text) (e : PostDataEntry) (level : ℕ)
      → 0 < n.nhandles
      → Ends (rest_multi_call c n method url e level)
  unfolding rest_multi_call issue
  rest_multi_call-Ends n method url e level h = Ends-bind (make_room-Ends n h) λ m.
      Ends-if (has_free m.slots) (issue_with-Ends method url e level m (c.easy_init m.world))
        with_value

  finish_call-Ends :
      (n : Net c) (req : Request) (r : Reply × c.World) → Ends (finish_call c n req r)
  finish_call-Ends n req (reply, w) =
      Ends-bind (require-Ends (not (reply_error reply)) "unexpected response from remote server")
        λ a. with_value

  pub rest_call-Ends :
      (method url body : Text) (level : ℕ) (n : Net c) → Ends (rest_call c method url body level n)
  unfolding rest_call
  rest_call-Ends method url body level n = Ends-bind (encode-Ends level body) λ wire.
      let req : Request = record { method = method; url = url; body = body; wire = wire } in
      finish_call-Ends n req (c.easy_perform req n.world)

  pub rest_call_empty-Ends : (method url : Text) (n : Net c) → Ends (rest_call_empty c method url n)
  unfolding rest_call_empty
  rest_call_empty-Ends method url n =
      let req : Request = record { method = method; url = url; body = []; wire = [] } in
      finish_call-Ends n req (c.easy_perform req n.world)
