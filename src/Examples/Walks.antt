-- ===== src/Examples/Walks.antt =====
-- Concrete queries of nested aggregates.
use zombodb.Prelude.{ok, refl, ◌≡◌}
use zombodb.Aggs.{walk_query}
use zombodb.Json.{end, field, find_key, json_null, object}

-- Of three terms without a bool query, the second stays.
demo_walk :
    walk_query
      (object (field "term" (object end) (field "range" json_null (field "prefix" json_null end))))
    ≡ ok (object (field "range" json_null end))
unfolding walk_query
demo_walk = refl

-- A nested query at the first place becomes the node itself.
demo_nested :
    walk_query (object (field "nested" (object (field "query" (object end) end)) end))
    ≡ ok (object end)
unfolding walk_query find_key
demo_nested = refl
