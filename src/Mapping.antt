-- ===== src/Mapping.antt =====
-- The mapping of an index's columns, src/c/elasticsearch/mapping.c. What its queries read of ZomboDB's
-- own tables and of Postgres' catalog is the record Catalog.
use zombodb.Prelude.{
  Bool, List, Option, Outcome, [], error, false, if◌then◌else◌, none, ok, some, true, ℕ, ◌++◌, ◌==◌,
  ◌>>=◌, ◌∷◌,
}
use zombodb.Bulk.{text_eq}
use zombodb.Index.{Attribute, TupleDesc}
use zombodb.Query.Dsl.{comma_separated}
use zombodb.Text.{Text, codes}

-- A row of zdb.type_mappings: a JSON definition, or else a function from a typmod to one.
pub record TypeMapping : Type 0 where
  pub definition : Option Text
  pub function : Option (ℕ → Text)

-- A row of pg_type: whether it is a domain, and its base type.
pub record TypeRow : Type 0 where
  pub is_domain : Option Bool
  pub base_type : Option ℕ

-- The rows that each query returns; `type_names` is regtypeout, `element_type` get_element_type.
pub record Catalog : Type 0 where
  pub field_mappings : ℕ → Text → List Text
  pub es_only_fields : ℕ → List Text
  pub type_mappings : ℕ → List TypeMapping
  pub analysis_things : Text → List Text
  pub type_rows : Text → List TypeRow
  pub element_type : ℕ → ℕ
  pub type_names : ℕ → Text
  pub is_domain_type : ℕ → Bool

abbrev varchar_oid : ℕ
varchar_oid = 1043

abbrev text_oid : ℕ
text_oid = 25

module _ (catalog : Catalog) where
  unfoldable pub get_base_type_oid : ℕ → ℕ
  get_base_type_oid type_oid =
      let rc = catalog.element_type type_oid in if rc == 0 then type_oid else rc

  -- The text that a lookup adds to the mapping; `none` is the result `false`.
  unfoldable pub lookup_field_mapping : ℕ → Text → Outcome (Option Text)
  lookup_field_mapping table name = elim (catalog.field_mappings table name) [
    | [] ↦ ok none
    | json ∷ more ↦ elim more [
      | [] ↦ ok (some (codes ", " ++ json))
      | json' ∷ more' ↦ error "Too many mappings found"
    ]
  ]

  -- The definition in a row.
  unfoldable pub row_definition : ℕ → TypeMapping → Outcome Text
  row_definition type_mod row = elim row.definition [
    | some json ↦ ok json
    | none ↦ elim row.function [
      | some convert ↦ ok (convert type_mod)
      | none ↦ error "zdb.type_mappings row is invalid"
    ]
  ]

  unfoldable pub lookup_type_mapping : ℕ → ℕ → Text → Outcome (Option Text)
  unfolding row_definition
  lookup_type_mapping type_oid type_mod name = elim (catalog.type_mappings type_oid) [
    | [] ↦ ok none
    | row ∷ more ↦ elim more [
      | [] ↦ row_definition type_mod row >>= λ json.
          ok (some (codes ", \"" ++ (name ++ (codes "\":" ++ json))))
      | row' ∷ more' ↦ error "Too many type mappings found"
    ]
  ]

  -- The result, and the base type, which stays InvalidOid without a row.
  unfoldable pub type_is_domain : Text → Bool × ℕ
  type_is_domain type_name = elim (catalog.type_rows type_name) [
    | [] ↦ (false, 0)
    | row ∷ more ↦ (
      elim row.is_domain [ none ↦ true | some b ↦ b ],
      elim row.base_type [ none ↦ 0 | some oid ↦ oid ],
    )
  ]

  unfoldable pub lookup_analysis_thing : Text → Text
  unfolding comma_separated
  lookup_analysis_thing thing = comma_separated (catalog.analysis_things thing)

-- Behind the first dot, if there is one.
unfoldable pub after_dot : Text → Option Text
after_dot [] = none
after_dot (ch ∷ t) = if ch == b'.' then some t else after_dot t

-- Without the schema's name.
unfoldable pub strip_schema : Text → Text
unfolding after_dot
strip_schema type_name = elim (after_dot type_name) [ none ↦ type_name | some t ↦ t ]

unfoldable pub domain_mapping : ℕ → Text → Outcome Text
unfolding text_eq
domain_mapping base_type type_name =
    if base_type == varchar_oid
    then ok (
        if text_eq (codes "keyword") type_name
        then codes "\"type\":\"keyword\",\"ignore_above\": 10922"
        else codes "\"type\":\"keyword\",\"ignore_above\": 10922,\"normalizer\":\""
          ++ (type_name ++ codes "\""))
    else if base_type == text_oid
    then ok (codes "\"type\":\"text\",\"analyzer\":\"" ++ (type_name ++ codes "\""))
    else error "Unsupported base domain type"

module _ (catalog : Catalog) where
  -- The mapping of a type that no table tells.
  unfoldable pub heuristic_mapping : Attribute → Outcome Text
  unfolding type_is_domain domain_mapping strip_schema
  heuristic_mapping attr =
      let type_name = catalog.type_names attr.type_oid in
      if catalog.is_domain_type attr.type_oid
      then domain_mapping (type_is_domain catalog type_name).1 (strip_schema type_name)
      else ok (codes "\"type\":\"keyword\",\"ignore_above\": 10922,\"normalizer\":\"lowercase\"")

  -- The lookups in their order, up to the first that has a mapping.
  unfoldable pub column_mapping : ℕ → Attribute → Outcome Text
  unfolding lookup_field_mapping lookup_type_mapping get_base_type_oid heuristic_mapping
  column_mapping table attr = lookup_field_mapping catalog table attr.name >>= λ by_field.
      elim by_field [
        | some text ↦ ok text
        | none ↦
            lookup_type_mapping catalog (get_base_type_oid catalog attr.type_oid) attr.type_mod
              attr.name
            >>= λ by_type. elim by_type [
              | some text ↦ ok text
              | none ↦ heuristic_mapping attr >>= λ text.
                  ok (codes ", \"" ++ (attr.name ++ (codes "\": {" ++ (text ++ codes "}"))))
            ]
      ]

  unfoldable pub column_mappings : ℕ → TupleDesc → Outcome Text
  unfolding column_mapping
  column_mappings table [] = ok []
  column_mappings table (attr ∷ tupdesc) =
      let rest = column_mappings table tupdesc in
      if attr.is_dropped
      then rest
      else (column_mapping table attr >>= λ text. rest >>= λ texts. ok (text ++ texts))

  unfoldable pub es_only_mappings : List Text → Text
  es_only_mappings [] = []
  es_only_mappings (json ∷ rows) = codes "," ++ (json ++ es_only_mappings rows)

  unfoldable pub generate_mapping : ℕ → TupleDesc → Outcome Text
  unfolding es_only_mappings column_mappings
  generate_mapping table tupdesc = column_mappings table tupdesc >>= λ columns. ok (
      codes
        "\"zdb_all\": { \"type\":\"text\", \"analyzer\":\"zdb_all_analyzer\" },\"zdb_ctid\": { \"type\":\"long\" },\"zdb_cmin\": { \"type\":\"integer\" },\"zdb_cmax\": { \"type\":\"integer\" },\"zdb_xmin\": { \"type\":\"long\" },\"zdb_xmax\": { \"type\":\"long\" },\"zdb_aborted_xids\": { \"type\":\"long\" }"
      ++ (es_only_mappings (catalog.es_only_fields table) ++ columns))
