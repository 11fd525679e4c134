-- ===== src/Aggs.antt =====
-- The aggregate requests of src/c/elasticsearch/elasticsearch.c: makeAggRequest with the filter for a
-- nested field. An integer argument is taken to be no negative number.
pub mod Levels
pub mod Requests
use Prim.Native.String.{String}
use text.Mathlib.Text.{◌==◌ as str_eq}
use zombodb.Prelude.{
  Bool, List, Option, Outcome, [], error, false, fault, if◌then◌else◌, length, none, ok, some, suc,
  true, zero, ℕ, ◌++◌, ◌+◌, ◌==◌, ◌>>=◌, ◌>>◌, ◌||◌, ◌∷◌,
}
use zombodb.Bulk.{text_eq}
use zombodb.Curl.{Curl, Response}
use zombodb.Index.{IndexOptions, TupleDesc, json_oid}
use zombodb.Json.{
  Fields, Items, Json, array, cons, end, field, find_key, json_false, json_null, json_true, nil,
  number, object, string,
}
use zombodb.Query.{JsonText, ZdbQuery, or_error, zdbquery_get_query}
use zombodb.Query.Dsl.{convert_to_query_dsl}
use zombodb.Scroll.{rest_call_response}
use zombodb.Text.{Text, codes}

-- The field up to its first dot, if it has one.
unfoldable pub base_fieldname : Text → Option Text
base_fieldname [] = none
base_fieldname (ch ∷ t) =
    if ch == b'.'
    then some []
    else elim (base_fieldname t) [ none ↦ none | some base ↦ some (ch ∷ base) ]

-- Whether the table's attribute of that name is of type ::json; a name that it does not have counts.
unfoldable pub is_json_attribute : Text → TupleDesc → Bool
is_json_attribute name [] = true
is_json_attribute name (attr ∷ attrs) =
    if text_eq name attr.name then attr.type_oid == json_oid else is_json_attribute name attrs

-- ElasticsearchIsNestedField, with the base where it is nested.
unfoldable pub nested_base : TupleDesc → Option Text → Option Text
unfolding base_fieldname is_json_attribute
nested_base heap none = none
nested_base heap (some field_name) = elim (base_fieldname field_name) [
  | none ↦ none
  | some base ↦ if is_json_attribute base heap then some base else none
]

-- The elements of an object, in memory in the order of the parse: an element is the number of its place,
-- and a pointer is none where it is NULL.
pub record Element : Type 0 where
  pub name : String
  pub value : Json
  pub next : Option ℕ

-- `object->start`, and the elements.
pub record Links : Type 0 where
  pub start : Option ℕ
  pub elements : List Element

-- The element behind number `i`, if there are fields behind it.
unfoldable pub next_of : ℕ → Fields → Option ℕ
next_of i end = none
next_of i (field name value rest) = some (i + 1)

unfoldable pub elements_of : ℕ → Fields → List Element
unfolding next_of
elements_of i end = []
elements_of i (field name value rest) =
    record { name = name; value = value; next = next_of i rest } ∷ elements_of (i + 1) rest

unfoldable pub links_of : Fields → Links
unfolding elements_of
links_of end = record { start = none; elements = [] }
links_of fields = record { start = some 0; elements = elements_of 0 fields }

unfoldable pub element_at : ℕ → List Element → Option Element
element_at i [] = none
element_at zero (e ∷ es) = some e
element_at (suc i) (e ∷ es) = element_at i es

unfoldable pub set_element : ℕ → (Element → Element) → List Element → List Element
set_element i f [] = []
set_element zero f (e ∷ es) = f e ∷ es
set_element (suc i) f (e ∷ es) = e ∷ set_element i f es

unfoldable pub set_value : ℕ → Json → Links → Links
unfolding set_element
set_value i v links = record links {
  elements = set_element i (λ e. record e { value = v }) links.elements;
}

-- `object->start = element->next`, or `prev->next = element->next`.
unfoldable pub unlink : Option ℕ → Option ℕ → Links → Links
unfolding set_element
unlink none next links = record links { start = next }
unlink (some p) next links = record links {
  elements = set_element p (λ e. record e { next = next }) links.elements;
}

-- `prev->next`, which is dereferenced.
unfoldable pub next_at : ℕ → Links → Outcome ℕ
unfolding element_at
next_at p links = elim (element_at p links.elements) [
  | none ↦ fault
  | some e ↦ elim e.next [ none ↦ fault | some i ↦ ok i ]
]

-- The list from a pointer on, at most so many elements.
unfoldable pub read_links : ℕ → Option ℕ → List Element → Fields
unfolding element_at
read_links zero p es = end
read_links (suc n) none es = end
read_links (suc n) (some i) es = elim (element_at i es) [
  | none ↦ end
  | some e ↦ field e.name e.value (read_links n e.next es)
]

unfoldable pub is_walked : String → Bool
is_walked name =
    str_eq "bool" name
    || (str_eq "must" name
        || (str_eq "must_not" name || (str_eq "should" name || str_eq "filter" name)))

unfoldable pub keep_name : String → Bool
unfolding is_walked
keep_name name = is_walked name || str_eq "nested" name

unfoldable pub keep_node : Json → Outcome Bool
unfolding keep_name
keep_node (object (field name value rest)) = ok (keep_name name)
keep_node (object end) = fault
keep_node _ = ok false

-- The sub-query of a nested query, if it has one.
unfoldable pub nested_query : Json → Outcome (Option Json)
unfolding find_key
nested_query (object fields) = ok (find_key "query" fields)
nested_query _ = fault

-- A value that takes the place of the node's payload; the node stays an object.
unfoldable pub as_payload : Option Json → Fields → Outcome Json
as_payload none fields = ok (object fields)
as_payload (some (object fields)) old = ok (object fields)
as_payload (some _) old = fault

-- The walk over the elements behind one goes on with what that one leaves; its result is the node's new
-- payload, if there is one, and the object.
abbrev Later : Type 0
Later = Links → Outcome (Option Json × Links)

-- A nested query is replaced by its sub-query, if it has one: without an element before it as the
-- node's payload, and else as the value of the element behind `prev`.
unfoldable pub replace_nested :
    Option ℕ → Option Json → Links → Later → Outcome (Option Json × Links)
unfolding next_at set_value
replace_nested prev none links later = later links
replace_nested none (some q) links later = later links >>= λ r. ok (some q, r.1)
replace_nested (some p) (some q) links later = next_at p links >>= λ i. later (set_value i q links)

-- Element number `i`, with the element before it and the one behind it.
unfoldable pub walk_field :
    Option ℕ
    → ℕ
    → Option ℕ
    → String
    → Json
    → Outcome Json
    → Later
    → Links
    → Outcome (Option Json × Links)
unfolding is_walked nested_query replace_nested set_value unlink
walk_field prev i next name value walked later links =
    if is_walked name
    then (walked >>= λ v. later (set_value i v links))
    else if str_eq "nested" name
    then (nested_query value >>= λ q. replace_nested prev q links later)
    else later (unlink prev next links)

unfoldable mutual
  unfolding keep_node as_payload links_of read_links next_of walk_field

  -- The node after the walk.
  pub walk_query : Json → Outcome Json
  walk_query (object fields) = walk_fields none 0 fields (links_of fields) >>= λ r.
      as_payload r.0 (read_links (length r.1.elements) r.1.start r.1.elements)
  walk_query (array items) = walk_items items >>= λ items'. ok (array items')
  walk_query (string s) = ok (string s)
  walk_query (number n) = ok (number n)
  walk_query json_true = ok json_true
  walk_query json_false = ok json_false
  walk_query json_null = ok json_null

  -- The loop from element number `i` on. It only writes the `next` of elements before `i`, so the
  -- elements that it comes to are those of the parse.
  pub walk_fields : Option ℕ → ℕ → Fields → Links → Outcome (Option Json × Links)
  walk_fields prev i end = λ links. ok (none, links)
  walk_fields prev i (field name value rest) =
      walk_field prev i (next_of i rest) name value (walk_query value)
        (walk_fields (some i) (i + 1) rest)

  pub walk_items : Items → Outcome Items
  walk_items nil = ok nil
  walk_items (cons x items) = keep_node x >>= λ keep.
      let walked = walk_query x in
      let rest = walk_items items in
      if keep then (walked >>= λ x'. rest >>= λ items'. ok (cons x' items')) else rest

module _ (l : JsonText) where
  unfoldable pub generate_nested_agg_filter : Option ZdbQuery → Outcome Text
  unfolding zdbquery_get_query walk_query
  generate_nested_agg_filter none = fault
  generate_nested_agg_filter (some query) = zdbquery_get_query l query >>= λ t. elim t [
    | none ↦ fault
    | some t ↦
        or_error (l.parse t) "generate_nested_agg_filter json parsing error"
        >>= walk_query
        >>= λ root. ok (l.json_write root)
  ]

-- What an aggregate is asked for: the index, its heap's attributes, the session's setting and the
-- visibility query.
pub record AggContext : Type 0 where
  pub index : IndexOptions
  pub heap : TupleDesc
  pub ignore_visibility : Bool
  pub visibility : ZdbQuery

module _ (l : JsonText) (c : Curl) (a : AggContext) where
  unfoldable pub agg_query : Option ZdbQuery → Outcome Text
  unfolding convert_to_query_dsl
  agg_query none = ok []
  agg_query (some query) =
      convert_to_query_dsl l a.ignore_visibility a.visibility query true >>= λ dsl.
      ok (codes "\"query\":" ++ (dsl ++ codes ","))

  unfoldable pub aggs_text : Option ZdbQuery → Text → Option Text → Bool → Outcome Text
  unfolding nested_base generate_nested_agg_filter
  aggs_text query agg field_name true = ok (codes "\"aggs\":" ++ agg)
  aggs_text query agg field_name false = elim (nested_base a.heap field_name) [
    | none ↦ ok (codes "\"aggs\":{\"the_agg\":" ++ (agg ++ codes "}"))
    | some base ↦ generate_nested_agg_filter l query >>= λ filter. ok (
        codes "\"aggs\":{\"nested_agg\":{\"nested\":{\"path\":\""
        ++ (base
            ++ (codes "\"}, \"aggs\":{\"the_agg\":{\"filter\":"
                ++ (filter ++ (codes ", \"aggs\":{\"filtered_agg\":" ++ (agg ++ codes "}}}}}"))))))
  ]

  -- The response.
  unfoldable pub make_agg_request :
      Option ZdbQuery → Text → Option Text → Bool → c.World → Outcome (Response × c.World)
  unfolding agg_query aggs_text rest_call_response
  make_agg_request query agg field_name arbitrary w = elim a.index.alias [
    | none ↦ error "index doesn't have an alias"
    | some alias ↦ (do
      q ← agg_query query
      aggs ← aggs_text query agg field_name arbitrary
      rest_call_response c (codes "POST") (a.index.url ++ (alias ++ codes "/_search?size=0"))
          (codes "{" ++ (q ++ (aggs ++ codes "}"))) a.index.compression_level w)
  ]
