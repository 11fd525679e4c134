-- ===== src/Examples/DemoCurl.antt =====
-- A libcurl whose servers answer every request with success at the next poll.
use zombodb.Prelude.{
  Ends, List, Option, [], arith, false, length, none, ok, refl, some, subst, true, with_value, ℕ,
  ◌++◌, ◌+◌, ◌<◌, ◌∷◌, ◌≡◌,
}
use zombodb.Curl.{Curl, IsLive, Message, Response, accepted}
use zombodb.Json.{end, object}

pub record Server : Type 0 where
  pub next : ℕ
  pub running : List ℕ
  pub finished : List ℕ

abbrev pub no_error : Response
no_error = record { has_errors = false; has_error_object = false; json = ok (object end) }

abbrev pub success : ℕ → Message
success h = record {
  handle = h;
  is_done = true;
  info_ok = true;
  result_ok = true;
  response_code = 200;
  response = no_error;
}

abbrev read_message : List ℕ → Server → Option Message × Server
read_message [] w = (none, w)
read_message (h ∷ hs) w = (some (success h), record w { finished = hs })

abbrev pub demo_curl : Curl
demo_curl = record {
  World = Server;
  multi_init = λ w. record w { running = []; finished = [] };
  multi_cleanup = λ w. w;
  resume = λ now before. record before { next = now.next };
  easy_init = λ w. (some w.next, record w { next = w.next + 1 });
  add_handle = λ h req w. record w { running = w.running ++ (h ∷ []) };
  remove_handle = λ h w. w;
  multi_perform = λ w. (accepted, 0, record w { running = []; finished = w.finished ++ w.running });
  multi_wait = λ w. (accepted, 0, w);
  info_read = λ w. read_message w.finished w;
  easy_perform =
      λ req w. (record { result_ok = true; response_code = 200; response = no_error }, w);
  deflate = λ level t. some t;
  pending = λ w. length w.finished;
  work = λ w. length w.running;
}

read_message-less :
    (hs : List ℕ) (w : Server) (m : Message)
    → w.finished ≡ hs
    → (read_message hs w).0 ≡ some m
    → length (read_message hs w).1.finished < length w.finished
read_message-less [] w m q e = cc
read_message-less (h ∷ hs) w m q e = rw q (omega arith)

read_message-json :
    (hs : List ℕ) (w : Server) (m : Message) → (read_message hs w).0 ≡ some m → Ends m.response.json
read_message-json [] w m e = cc
read_message-json (h ∷ hs) w m e = subst (λ x. Ends x.response.json) (some-injective e) with_value
  where
    some-injective : some (success h) ≡ some m → success h ≡ m
    some-injective q = cc

pub demo_curl-IsLive : IsLive demo_curl
demo_curl-IsLive = record {
  read_less = λ w m e. read_message-less w.finished w m refl e;
  remove_le = λ h w. omega arith;
  again_less = λ w e. cc;
  poll_le = λ w. omega arith;
  poll_less = λ w h. absurd (omega (arith, h));
  parse_ends = λ w m e. read_message-json w.finished w m e;
  reply_parse_ends = λ req w. with_value;
  wait_le = λ w. omega arith;
}
