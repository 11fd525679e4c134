-- ===== src/Admin/Create.antt =====
-- ElasticsearchCreateIndex of src/c/elasticsearch/elasticsearch.c.
use zombodb.Prelude.{
  Outcome, WhenOk, WhenOk-and, WhenOk-bind, [], ap, append_assoc, ok, refl, returned, ℕ, ◌++◌,
  ◌>>=◌, ◌∙◌, ◌∷◌, ◌≡◌,
}
use zombodb.Admin.{delete_index, index_url, or_else}
use zombodb.Curl.{Curl, Net}
use zombodb.Index.{IndexOptions, TupleDesc}
use zombodb.Mapping.{Catalog, generate_mapping, lookup_analysis_thing}
use zombodb.Rest.Sent.{
  bodies, rest_call-bodies, rest_call-targets, rest_call_empty-bodies, rest_call_empty-targets,
  targets,
}
use zombodb.Rest.Single.{rest_call}
use zombodb.Text.{Text, codes, decimal}
use zombodb.Vacuum.Aborted.{outcome_eq}

-- generate_uuid_index_name: the oids of the database, the schema, the table and the index, and a
-- random number.
unfoldable pub generate_uuid_index_name : ℕ → ℕ → ℕ → ℕ → ℕ → Text
generate_uuid_index_name database namespace heap relid random =
    decimal database
    ++ (codes "."
        ++ (decimal namespace
            ++ (codes "."
                ++ (decimal heap
                    ++ (codes "." ++ (decimal relid ++ (codes "-" ++ decimal random)))))))

-- The analysis settings, with what ZomboDB's tables hold.
unfoldable pub analysis_settings : Catalog → Text
unfolding lookup_analysis_thing
analysis_settings catalog =
    codes "      \"analysis\": {         \"filter\": { "
    ++ (lookup_analysis_thing catalog (codes "filters")
        ++ (codes " },         \"char_filter\" : { "
            ++ (lookup_analysis_thing catalog (codes "char_filters")
                ++ (codes " },         \"tokenizer\" : { "
                    ++ (lookup_analysis_thing catalog (codes "tokenizers")
                        ++ (codes " },         \"analyzer\": { "
                            ++ (lookup_analysis_thing catalog (codes "analyzers")
                                ++ (codes " },         \"normalizer\": { "
                                    ++ (lookup_analysis_thing catalog (codes "normalizers")
                                        ++ codes " }      }")))))))))

abbrev dynamic_templates : Text
dynamic_templates =
    codes
      "         \"_source\": { \"enabled\": true },         \"dynamic_templates\": [              {                 \"strings\": {                    \"match_mapping_type\": \"string\",                    \"mapping\": {                       \"type\": \"keyword\",                       \"ignore_above\": 10922,                       \"normalizer\": \"lowercase\",                       \"copy_to\": \"zdb_all\"                     }                  }              },              {                 \"dates_times\": {                    \"match_mapping_type\": \"date\",                    \"mapping\": {                       \"type\": \"date\",                       \"format\": \"strict_date_optional_time||epoch_millis||HH:mm:ss.SSSSSS||HH:mm:ss.SSSSSSZZ\",                       \"copy_to\": \"zdb_all\"                     }                  }              }         ],         \"_all\": {\"enabled\":false},"

unfoldable pub create_body : Catalog → IndexOptions → Text → Text → Text
unfolding analysis_settings
create_body catalog rel mapping alias_name =
    codes "{   \"settings\": {      \"number_of_shards\": "
    ++ (decimal rel.shards
        ++ (codes
              ",      \"index.number_of_replicas\": 0,      \"index.refresh_interval\": \"-1\",      \"index.query.default_field\": \"zdb_all\","
            ++ (analysis_settings catalog
                ++ (codes "   },   \"mappings\": {      \""
                    ++ (rel.type_name
                        ++ (codes "\": { "
                            ++ (dynamic_templates
                                ++ (codes "         \"properties\": { "
                                    ++ (mapping
                                        ++ (codes "}      }   },   \"aliases\": {      \""
                                            ++ (alias_name ++ codes "\": {}   }}")))))))))))

module _ (c : Curl) (catalog : Catalog) where
  -- The index's name and the net. An index that has a name keeps it.
  unfoldable pub create_index :
      IndexOptions → ℕ → TupleDesc → Text → Text → Net c → Outcome (Text × Net c)
  unfolding generate_mapping create_body delete_index rest_call
  create_index rel heap_relid tupdesc generated_name alias_name n = do
    mapping ← generate_mapping catalog heap_relid tupdesc
    let index_name = or_else rel.index_name generated_name
    n' ← delete_index c rel n
    n'' ←
        rest_call c (codes "PUT") (rel.url ++ index_name)
          (create_body catalog rel mapping alias_name) rel.compression_level n'
    ok (index_name, n'')

  -- What a creation comes to, with the mapping that it has sent.
  pub record IsCreated (rel : IndexOptions) (heap_relid : ℕ) (tupdesc : TupleDesc)
      (generated_name alias_name : Text) (n : Net c) (r : Text × Net c) : Type 0 where
    pub chosen : r.0 ≡ or_else rel.index_name generated_name
    pub mapping : Text
    pub mapped : generate_mapping catalog heap_relid tupdesc ≡ ok mapping
    pub asked :
        targets r.1.sent
        ≡ targets n.sent
          ++ ((codes "DELETE", index_url rel [])
              ∷ (codes "PUT", rel.url ++ or_else rel.index_name generated_name)
              ∷ [])
    pub sent : bodies r.1.sent ≡ bodies n.sent ++ create_body catalog rel mapping alias_name

  pub create_index-IsCreated :
      (rel : IndexOptions) (heap_relid : ℕ) (tupdesc : TupleDesc) (generated_name alias_name : Text)
      (n : Net c)
      → WhenOk
          (IsCreated rel heap_relid tupdesc generated_name alias_name n)
          (create_index rel heap_relid tupdesc generated_name alias_name n)
  unfolding create_index
  create_index-IsCreated rel heap_relid tupdesc generated_name alias_name n =
      WhenOk-bind (outcome_eq (generate_mapping catalog heap_relid tupdesc)) λ mapping e.
        WhenOk-bind
          (WhenOk-and (rest_call_empty-bodies c _ _ n)
            (rest_call_empty-targets c (codes "DELETE") (index_url rel []) n))
          λ n' (k, t).
            WhenOk-bind
              (WhenOk-and (rest_call-bodies c _ _ _ _ n') (rest_call-targets c _ _ _ _ n'))
              λ n'' (k', t'). returned (record {
                asked =
                    t'
                    ∙ (ap
                          (λ ts.
                            ts
                            ++ ((codes "PUT", rel.url ++ or_else rel.index_name generated_name)
                                ∷ []))
                          t
                        ∙ append_assoc (targets n.sent) ((codes "DELETE", index_url rel []) ∷ [])
                            ((codes "PUT", rel.url ++ or_else rel.index_name generated_name) ∷ []));
                chosen = refl;
                mapping = mapping;
                mapped = e;
                sent = k' ∙ ap (λ a. a ++ create_body catalog rel mapping alias_name) k;
              })
