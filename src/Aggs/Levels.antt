-- ===== src/Aggs/Levels.antt =====
-- The aggregates with a second level in src/c/elasticsearch/elasticsearch.c: the terms in terms, and
-- what works on a sample of the documents. A sample's size is taken to be below 2^31.
use Prim.Native.String.{String}
use zombodb.Prelude.{
  Bool, Option, Outcome, [], false, if◌then◌else◌, ltb, none, ok, true, ℕ, ◌++◌, ◌/◌, ◌>>=◌,
}
use zombodb.Aggs.{AggContext, make_agg_request}
use zombodb.Aggs.Requests.{aggregate, int_max, make_terms_order_clause, size_text}
use zombodb.Curl.{Curl, Response}
use zombodb.Index.{IndexOptions}
use zombodb.Query.{JsonText, ZdbQuery}
use zombodb.Sampling.{SampleContext, make_table_sample_context}
use zombodb.Text.{Text, codes, decimal}

-- `inner` under the name sub_agg in `outer`, which is the aggregate's text without its braces.
unfoldable pub with_sub_agg : Text → Text → Text
with_sub_agg outer inner =
    codes "{"
    ++ (outer
        ++ (codes ",   \"aggregations\":{      \"sub_agg\":{         "
            ++ (inner ++ codes "      }   }}")))

-- The ctids of a sample's documents.
unfoldable pub ctid_terms : Text
ctid_terms = codes "\"terms\":{\"field\":\"zdb_ctid\",\"size\":" ++ (int_max ++ codes "}")

-- `Max(1, shard_size / ZDBIndexOptionsGetNumberOfShards(indexRel))`; an index has at least one shard.
unfoldable pub per_shard : IndexOptions → ℕ → ℕ
per_shard rel shard_size = if ltb 1 (shard_size / rel.shards) then shard_size / rel.shards else 1

unfoldable pub bool_text : Bool → Text
bool_text true = codes "true"
bool_text false = codes "false"

module _ (l : JsonText) (c : Curl) (a : AggContext) where
  unfoldable pub terms_two_level :
      Text → Text → Option ZdbQuery → String → ℕ → c.World → Outcome (Response × c.World)
  unfolding aggregate with_sub_agg size_text make_terms_order_clause
  terms_two_level first_field second_field query order size w =
      aggregate l c a query
        (with_sub_agg
          (codes "\"terms\":{\"field\":\""
            ++ (first_field
                ++ (codes "\", \"size\":"
                    ++ (size_text size ++ (make_terms_order_clause order ++ codes "}")))))
          (codes "\"terms\":{\"field\":\""
            ++ (second_field ++ (codes "\",\"size\":" ++ (int_max ++ codes "}")))))
        first_field w

  unfoldable pub significant_terms_two_level :
      Text → Text → Option ZdbQuery → ℕ → c.World → Outcome (Response × c.World)
  unfolding aggregate with_sub_agg
  significant_terms_two_level first_field second_field query size w =
      aggregate l c a query
        (with_sub_agg
          (codes "\"terms\":{\"field\":\""
            ++ (first_field
                ++ (codes "\""
                    ++ ((if ltb 0 size then codes ",\"size\":" ++ decimal size else [])
                        ++ codes "}"))))
          (codes "\"significant_terms\":{\"field\":\"" ++ (second_field ++ codes "\"}")))
        first_field w

  unfoldable pub significant_text :
      Text → Option ZdbQuery → ℕ → Bool → c.World → Outcome (Response × c.World)
  unfolding aggregate with_sub_agg size_text bool_text
  significant_text field_name query sample_size filter_duplicate_text w =
      aggregate l c a query
        (with_sub_agg (codes "\"sampler\":{\"shard_size\":" ++ (size_text sample_size ++ codes "}"))
          (codes "\"significant_text\":{\"field\":\""
            ++ (field_name
                ++ (codes "\",\"filter_duplicate_text\":"
                    ++ (bool_text filter_duplicate_text ++ codes "}")))))
        field_name w

  unfoldable pub sampler : ℕ → Option ZdbQuery → c.World → Outcome (Response × c.World)
  unfolding make_agg_request with_sub_agg per_shard ctid_terms
  sampler shard_size query w =
      make_agg_request l c a query
        (with_sub_agg
          (codes "\"sampler\":{\"shard_size\":"
            ++ (decimal (per_shard a.index shard_size) ++ codes "}"))
          ctid_terms)
        none false w

  unfoldable pub diversified_sampler :
      ℕ → Text → Option ZdbQuery → c.World → Outcome (Response × c.World)
  unfolding aggregate with_sub_agg per_shard ctid_terms
  diversified_sampler shard_size field_name query w =
      aggregate l c a query
        (with_sub_agg
          (codes "\"diversified_sampler\":{\"shard_size\":"
            ++ (decimal (per_shard a.index shard_size)
                ++ (codes ",\"field\":\"" ++ (field_name ++ codes "\"}"))))
          ctid_terms)
        field_name w

  unfoldable pub query_sampler : Option ZdbQuery → c.World → Outcome (Response × c.World)
  unfolding make_agg_request ctid_terms
  query_sampler query w =
      make_agg_request l c a query (codes "{" ++ (ctid_terms ++ codes "}")) none false w

  -- What each sampler's BeginSampleScan keeps of its response.
  unfoldable pub begin_sample_scan :
      Outcome (Response × c.World) → Outcome (SampleContext × c.World)
  unfolding make_table_sample_context
  begin_sample_scan asked = do
    r ← asked
    json ← r.0.json
    context ← make_table_sample_context json
    ok (context, r.1)
