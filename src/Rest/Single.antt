-- ===== src/Rest/Single.antt =====
-- rest_multi_wait_for_all_done and rest_call of src/c/rest/rest.c.
use zombodb.Prelude.{
  ℕ, zero, suc, ◌+◌, Bool, not, ◌&&◌, ◌||◌, [], ◌∷◌, ◌++◌, ltb, leb, ◌==◌, if◌then◌else◌, Outcome,
  ok, error, hang, ◌>>=◌, ◌>>◌, require,
}
use zombodb.Text.{Text}
use zombodb.Curl.{Curl, Net, Request, Reply, MultiCode, accepted, call_again, failed}
use zombodb.Rest.{rest_multi_perform, encode}

-- Does rest_call raise an error for this reply?
unfoldable pub reply_error : Reply → Bool
reply_error r =
    not r.result_ok
    || (ltb r.response_code 200 || (leb 300 r.response_code && not (r.response_code == 404)))
    || (not (r.response_code == 404) && r.response.has_error_object)

module _ (c : Curl) where
  -- The tail of the loop's body: `repeats`, the early return, and the loop's test.
  abbrev pub wait_step :
      ℕ → ℕ → Net c → MultiCode × ℕ × c.World → (ℕ → Net c → Outcome (Net c)) → Outcome (Net c)
  wait_step repeats still n (accepted, numfds, w) again =
      if still == 0
      then ok (record n { world = w })
      else again (if numfds == 0 then repeats + 1 else 0) (record n { world = w })
  wait_step repeats still n (call_again, numfds, w) again = error "curl_multi_wait failed"
  wait_step repeats still n (failed, numfds, w) again = error "curl_multi_wait failed"

  -- The sleep and the early return on two idle polls leave the state as the loop's own test does:
  -- both end the loop only when nothing is running.
  unfoldable pub wait_loop : ℕ → ℕ → Net c → Outcome (Net c)
  unfolding rest_multi_perform
  wait_loop zero repeats n = hang
  wait_loop (suc f) repeats n = rest_multi_perform c n >>= λ (still, n').
      wait_step repeats still n' (c.multi_wait n'.world) (wait_loop f)

  unfoldable pub rest_multi_wait_for_all_done : Net c → Outcome (Net c)
  unfolding wait_loop
  rest_multi_wait_for_all_done n = wait_loop (suc (c.work n.world)) 0 n

  abbrev pub finish_call : Net c → Request → Reply × c.World → Outcome (Net c)
  finish_call n req (reply, w) = do
    require (not (reply_error reply)) "unexpected response from remote server"
    ok (record n { sent = n.sent ++ (req ∷ []); world = w })

  -- A call with a body (`postData != NULL`).
  unfoldable pub rest_call : Text → Text → Text → ℕ → Net c → Outcome (Net c)
  unfolding encode reply_error
  rest_call method url post_data compression_level n = do
    wire ← encode c compression_level post_data
    let req : Request = record { method = method; url = url; body = post_data; wire = wire }
    finish_call n req (c.easy_perform req n.world)

  -- A call without one.
  unfoldable pub rest_call_empty : Text → Text → Net c → Outcome (Net c)
  unfolding reply_error
  rest_call_empty method url n =
      let req : Request = record { method = method; url = url; body = []; wire = [] } in
      finish_call n req (c.easy_perform req n.world)
