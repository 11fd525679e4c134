-- ===== src/Examples/Calls.antt =====
-- Concrete calls of the HTTP client, and administrative requests.
use zombodb.Prelude.{Returns, WhenOk, [], arith, false, if◌then◌else◌, none, refl, some, ◌==◌, ◌∷◌}
use zombodb.Curl.{Net}
use zombodb.Examples.Contexts.{demo_dirty, demo_dirty-Own, demo_entry, demo_net, demo_world}
use zombodb.Examples.DemoCurl.{demo_curl, success}
use zombodb.Rest.{checkout_batch_pool, filled_slot, finish_message, free_slot, rest_multi_call}
use zombodb.Rest.Calls.{Called, rest_multi_call-Called}
use zombodb.Rest.Checkout.{Refilled, checkout_batch_pool-Refilled}
use zombodb.Rest.Own.{Kept, Own, finish_message-Kept}
use zombodb.Text.{codes}

rest_multi_call-Called_example :
    WhenOk (Called (codes "http://localhost:9200/") demo_entry demo_dirty.net) (
      rest_multi_call demo_curl demo_dirty.net
        (codes "POST")
        (codes "http://localhost:9200/")
        demo_entry
        0)
rest_multi_call-Called_example =
    rest_multi_call-Called demo_curl (codes "http://localhost:9200/") demo_entry 0 (codes "POST")
      demo_dirty.net demo_dirty-Own

-- A request in flight with buffer 1, while the context holds buffer 0.
abbrev demo_in_flight : Net demo_curl
demo_in_flight = record {
  nhandles = 2;
  slots =
      filled_slot demo_curl 7 0 (record { pool_idx = 1; buff = 1; compressed_data = false })
      ∷ free_slot false
      ∷ [];
  available = 1;
  pool = none ∷ none ∷ some 2 ∷ [];
  buffers = λ b. if b == 1 then codes "{}" else [];
  sent = [];
  world = demo_world;
}

demo_in_flight-Own : Own (some demo_entry) demo_in_flight
unfolding filled_slot
demo_in_flight-Own = record {
  slots_length = refl;
  free = refl;
  pool_length = refl;
  slots_ok = ((refl, omega arith), (tt, tt));
  pool_ok = (tt, (tt, ((refl, refl), tt)));
  held_ok = (refl, omega arith);
  once = λ i h. ground arith;
}

finish_message-Kept_example :
    WhenOk
      (Kept (some demo_entry) demo_in_flight)
      (finish_message demo_curl (success 7) demo_in_flight)
finish_message-Kept_example =
    finish_message-Kept demo_curl (some demo_entry) (success 7) demo_in_flight demo_in_flight-Own

demo_none-Own : Own none (demo_net (some 0 ∷ some 1 ∷ some 2 ∷ []))
demo_none-Own = record {
  slots_length = refl;
  free = refl;
  pool_length = refl;
  slots_ok = (tt, (tt, tt));
  pool_ok = ((refl, refl), ((refl, refl), ((refl, refl), tt)));
  held_ok = tt;
  once = λ i h. ground arith;
}

checkout_batch_pool-Refilled_example :
    Returns
      (λ r. Refilled (demo_net (some 0 ∷ some 1 ∷ some 2 ∷ [])) r.0 r.1)
      (checkout_batch_pool demo_curl (demo_net (some 0 ∷ some 1 ∷ some 2 ∷ [])))
checkout_batch_pool-Refilled_example =
    checkout_batch_pool-Refilled demo_curl (demo_net (some 0 ∷ some 1 ∷ some 2 ∷ [])) demo_none-Own
