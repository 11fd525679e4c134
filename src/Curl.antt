-- ===== src/Curl.antt =====
-- What the extension uses of libcurl and zlib, as a parameter, and the entries that
-- src/c/rest/curl_support.h declares.
use zombodb.Prelude.{ℕ, ◌<◌, ◌≤◌, ◌≡◌, Bool, Ends, Option, some, List, Outcome}
use zombodb.Json.{Json}
use zombodb.Text.{Text}

-- CURLMcode, as far as the code looks at it.
pub data MultiCode : Type 0 where
  accepted call_again failed : MultiCode

-- A response body: whether `strstr` finds `"errors":true` and `{"error":` in it, and what the JSON
-- parser makes of it.
pub record Response : Type 0 where
  pub has_errors : Bool
  pub has_error_object : Bool
  pub json : Outcome Json

-- A finished transfer: what curl_multi_info_read and curl_easy_getinfo say of it.
pub record Message : Type 0 where
  pub handle : ℕ
  pub is_done : Bool
  pub info_ok : Bool
  pub result_ok : Bool
  pub response_code : ℕ
  pub response : Response

-- `body` is what the caller handed over, `wire` the bytes given to libcurl: deflated if asked for.
pub record Request : Type 0 where
  pub method : Text
  pub url : Text
  pub body : Text
  pub wire : Text

pub record Reply : Type 0 where
  pub result_ok : Bool
  pub response_code : ℕ
  pub response : Response

-- `World` is libcurl's state with the servers behind it. `pending` counts the finished transfers
-- that are not read yet, and `work` bounds the polls until nothing is running. The functions act
-- through one multi handle, the last one made; `resume now before` is the state `now`, acted on
-- through the handle that `before` was acted on through.
pub record Curl : Type 1 where
  pub World : Type 0
  pub multi_init : World → World
  pub multi_cleanup : World → World
  pub resume : World → World → World
  pub easy_init : World → Option ℕ × World
  pub add_handle : ℕ → Request → World → World
  pub remove_handle : ℕ → World → World
  pub multi_perform : World → MultiCode × ℕ × World
  pub multi_wait : World → MultiCode × ℕ × World
  pub info_read : World → Option Message × World
  pub easy_perform : Request → World → Reply × World
  pub deflate : ℕ → Text → Option Text
  pub pending : World → ℕ
  pub work : World → ℕ

-- Reading a message takes it off the queue, removing a handle adds none, and the transfers end:
-- every poll that leaves something running, or asks to be called again, is work done. (Each
-- transfer has a timeout of an hour.) The JSON parser returns on every response.
pub record IsLive (c : Curl) : Type 0 where
  pub read_less :
      (w : c.World) (m : Message)
      → (c.info_read w).0 ≡ some m
      → c.pending (c.info_read w).1 < c.pending w
  pub remove_le : (h : ℕ) (w : c.World) → c.pending (c.remove_handle h w) ≤ c.pending w
  pub again_less :
      (w : c.World) → (c.multi_perform w).0 ≡ call_again → c.work (c.multi_perform w).2 < c.work w
  pub poll_le : (w : c.World) → c.work (c.multi_perform w).2 ≤ c.work w
  pub poll_less :
      (w : c.World) → 0 < (c.multi_perform w).1 → c.work (c.multi_perform w).2 < c.work w
  pub parse_ends : (w : c.World) (m : Message) → (c.info_read w).0 ≡ some m → Ends m.response.json
  pub reply_parse_ends : (req : Request) (w : c.World) → Ends (c.easy_perform req w).0.response.json
  pub wait_le : (w : c.World) → c.work (c.multi_wait w).2 ≤ c.work w

-- curl_support.h: a buffer that is checked out of the pool, with the slot that it came from.
pub record PostDataEntry : Type 0 where
  pub pool_idx : ℕ
  pub buff : ℕ
  pub compressed_data : Bool

-- One index of the parallel arrays of MultiRestState.
pub record Slot : Type 0 where
  pub handle : Option ℕ
  pub headers : List Text
  pub errorbuff : Bool
  pub post_data : Option PostDataEntry
  pub response : Bool
  pub vconflict : Bool

-- MultiRestState, with what it shares with its ElasticsearchBulkContext: the pool (one array, that
-- both point to), the StringInfo buffers by address, and the requests issued so far, oldest first.
-- That list is no part of the source's state: it records what this bulk process, or the backend outside
-- of them, has asked for, through the multi handle or, in rest_call, through GLOBAL_CURL_INSTANCE.
pub record Net (c : Curl) : Type 0 where
  pub nhandles : ℕ
  pub slots : List Slot
  pub available : ℕ
  pub pool : List (Option ℕ)
  pub buffers : ℕ → Text
  pub sent : List Request
  pub world : c.World
