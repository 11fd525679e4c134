-- ===== src/Rest/Sent.antt =====
-- What has been sent: the bodies of the requests, in order.
use zombodb.Prelude.{
  List, WhenOk, WhenOk-bind, WhenOk-then, [], any_outcome, ap, append-nil, append_assoc, not, refl,
  require, returned, sym, ℕ, ◌++◌, ◌∙◌, ◌∷◌, ◌≡◌,
}
use zombodb.Curl.{Curl, Net, Request}
use zombodb.Rest.{encode}
use zombodb.Rest.Single.{reply_error, rest_call, rest_call_empty}
use zombodb.Text.{Text}

-- The bodies of the requests, one after the other.
unfoldable pub bodies : List Request → Text
bodies [] = []
bodies (r ∷ rs) = r.body ++ bodies rs

pub bodies-append :
    (rs : List Request) (r : Request) → bodies (rs ++ (r ∷ [])) ≡ bodies rs ++ r.body
unfolding bodies
bodies-append [] r = append-nil r.body
bodies-append (x ∷ rs) r =
    ap (◌++◌ x.body) (bodies-append rs r) ∙ sym (append_assoc x.body (bodies rs) r.body)

-- The method and the URL of each request.
unfoldable pub targets : List Request → List (Text × Text)
targets [] = []
targets (r ∷ rs) = (r.method, r.url) ∷ targets rs

targets-append :
    (rs : List Request) (r : Request)
    → targets (rs ++ (r ∷ [])) ≡ targets rs ++ ((r.method, r.url) ∷ [])
unfolding targets
targets-append [] r = refl
targets-append (x ∷ rs) r = ap (λ ts. (x.method, x.url) ∷ ts) (targets-append rs r)

module _ (c : Curl) where
  -- Where a call goes.
  pub rest_call-targets :
      (method url body : Text) (level : ℕ) (n : Net c)
      → WhenOk
          (λ m. targets m.sent ≡ targets n.sent ++ ((method, url) ∷ []))
          (rest_call c method url body level n)
  unfolding rest_call
  rest_call-targets method url body level n =
      WhenOk-bind (any_outcome (encode c level body)) λ wire ignore.
        let req : Request = record { method = method; url = url; body = body; wire = wire } in
        WhenOk-then
          (require (not (reply_error (c.easy_perform req n.world).0))
            "unexpected response from remote server")
          (returned (targets-append n.sent req))

  pub rest_call_empty-targets :
      (method url : Text) (n : Net c)
      → WhenOk
          (λ m. targets m.sent ≡ targets n.sent ++ ((method, url) ∷ []))
          (rest_call_empty c method url n)
  unfolding rest_call_empty
  rest_call_empty-targets method url n =
      let req : Request = record { method = method; url = url; body = []; wire = [] } in
      WhenOk-then
        (require (not (reply_error (c.easy_perform req n.world).0))
          "unexpected response from remote server")
        (returned (targets-append n.sent req))

  -- What a call sends.
  pub rest_call-bodies :
      (method url body : Text) (level : ℕ) (n : Net c)
      → WhenOk (λ m. bodies m.sent ≡ bodies n.sent ++ body) (rest_call c method url body level n)
  unfolding rest_call
  rest_call-bodies method url body level n =
      WhenOk-bind (any_outcome (encode c level body)) λ wire ignore.
        WhenOk-then
          (require
            (not (
              reply_error
                (c.easy_perform (record { method = method; url = url; body = body; wire = wire })
                  n.world).0))
            "unexpected response from remote server")
          (returned (
            bodies-append n.sent (record { method = method; url = url; body = body; wire = wire })))

  pub rest_call_empty-bodies :
      (method url : Text) (n : Net c)
      → WhenOk (λ m. bodies m.sent ≡ bodies n.sent) (rest_call_empty c method url n)
  unfolding rest_call_empty
  rest_call_empty-bodies method url n =
      let req : Request = record { method = method; url = url; body = []; wire = [] } in
      WhenOk-then
        (require (not (reply_error (c.easy_perform req n.world).0))
          "unexpected response from remote server")
        (returned (bodies-append n.sent req ∙ append-nil (bodies n.sent)))
