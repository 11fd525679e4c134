-- ===== src/Examples/Vacuums.antt =====
-- A concrete vacuum.
use Prim.Native.String.{String}
use text.Mathlib.Text.{◌==◌ as str_eq}
use zombodb.Prelude.{
  List, Option, Outcome, WhenOk, [], false, if◌then◌else◌, not, ok, refl, some, true, ℕ, ◌==◌, ◌∷◌,
  ◌≡◌,
}
use zombodb.Curl.{Curl, Net}
use zombodb.Examples.Contexts.{demo_options, demo_session, demo_world}
use zombodb.Examples.DemoCurl.{demo_curl}
use zombodb.Json.{
  Json, array, cons, end, field, get_json_object_string, get_json_object_uint64, nil, number,
  object, string,
}
use zombodb.Query.{JsonText, ZdbQuery}
use zombodb.Rest.{encode, is_failure, perform_loop}
use zombodb.Rest.Single.{reply_error}
use zombodb.Text.{codes, decimal}
use zombodb.Vacuum.{VacInfo, removable}
use zombodb.Vacuum.Aborted.{AreForgettable, removable-AreForgettable}
use zombodb.Vacuum.Run.{Vacuumed, zdb_vacuum_internal}
use zombodb.Vacuum.Sending.{SentByVacuum, zdb_vacuum_internal-SentByVacuum}

-- The row that an aborted transaction inserted.
abbrev demo_entry_json : Json
demo_entry_json = object (
    field "_id" (string "65537") (
      field "fields"
        (object (
          field "zdb_xmin" (array (cons (number "901") nil))
            (field "zdb_xmax" (array (cons (number "901") nil)) end)))
        end))

-- Every text reads as this answer: a search with that row, and a count of 0.
abbrev demo_answer : Json
demo_answer = object (
    field "query_dsl" (object end) (
      field "hits"
        (object (field "total" (number "1") (field "hits" (array (cons demo_entry_json nil)) end)))
        (field "_scroll_id" (string "s") (field "count" (number "0") end))))

abbrev demo_int8in : String → Option ℕ
demo_int8in s = if str_eq s "901" then some 901 else if str_eq s "1" then some 1 else some 0

-- A server that gives that answer to every single request.
abbrev pub vacuum_curl : Curl
vacuum_curl = record demo_curl {
  easy_perform = λ req w. (
    record {
      result_ok = true;
      response_code = 200;
      response = record { has_errors = false; has_error_object = false; json = ok demo_answer };
    },
    w,
  );
}

abbrev vacuum_net : Net vacuum_curl
vacuum_net = record {
  nhandles = 0;
  slots = [];
  available = 0;
  pool = [];
  buffers = λ b. [];
  sent = [];
  world = demo_world;
}

abbrev pub demo_json : JsonText
demo_json = record {
  parse = λ t. some demo_answer;
  json_write = λ j. codes "{}";
  btrim = λ t. t;
  escape_json = λ t. t;
  int8in = demo_int8in;
  int8in_text = λ t. some 0;
  boolin = λ t. some true;
  Real = ℕ;
  real_zero = 0;
  float8in = λ s. some 0;
  float8in_text = λ t. some 0;
  is_positive = λ n. false;
  print_real = λ n. [];
  float4 = λ n. n;
}

abbrev demo_query : ZdbQuery
demo_query = record { json = codes "{}" }

abbrev pub demo_vacuum : VacInfo
demo_vacuum = record {
  index = record demo_options { alias = some (codes "alias") };
  session = demo_session 905;
  status = record {
    did_abort = λ xid. xid == 901;
    did_commit = λ xid. not (xid == 901);
    is_in_progress = λ xid. false;
  };
  oldest_xmin = 904;
  queries = record {
    by_xmin = λ xid. demo_query;
    by_xmax = λ xid. demo_query;
    aborted_xmax = λ xid. demo_query;
  };
  visibility = demo_query;
}

zdb_vacuum_internal-SentByVacuum_example :
    WhenOk
      (SentByVacuum demo_json vacuum_curl demo_vacuum)
      (zdb_vacuum_internal demo_json vacuum_curl demo_vacuum vacuum_net)
zdb_vacuum_internal-SentByVacuum_example =
    zdb_vacuum_internal-SentByVacuum demo_json vacuum_curl demo_vacuum vacuum_net

removable-AreForgettable_example :
    WhenOk
      (λ r. AreForgettable demo_json vacuum_curl demo_vacuum (cons (number "901") nil) r.0)
      (removable demo_json vacuum_curl demo_vacuum 1 0 (cons (number "901") nil) demo_world)
removable-AreForgettable_example =
    removable-AreForgettable demo_json vacuum_curl demo_vacuum 1 0 (cons (number "901") nil)
      demo_world

unfoldable counters : Outcome (Vacuumed vacuum_curl) → List ℕ
counters (ok r) = r.stats.tuples_removed ∷ r.state.xmaxes_reset ∷ r.result.tuples_removed ∷ []
counters _ = []

-- The row is deleted once, and the result that the function returns does not say so.
demo_counters :
    counters (zdb_vacuum_internal demo_json vacuum_curl demo_vacuum vacuum_net) ≡ 1 ∷ 1 ∷ 0 ∷ []
unfolding counters zdb_vacuum_internal perform_loop codes get_json_object_string decimal is_failure
demo_counters = refl

-- The id of the aborted transaction can go.
demo_removable :
    removable demo_json vacuum_curl demo_vacuum 1 0 (cons (number "901") nil) demo_world
    ≡ ok (901 ∷ [], demo_world)
unfolding removable encode reply_error get_json_object_uint64
demo_removable = refl
