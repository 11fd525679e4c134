-- ===== src/Examples/Builds.antt =====
-- Concrete options, and a build of an index.
use zombodb.Prelude.{
  List, Outcome, WhenOk, [], false, length, none, ok, refl, some, true, ℕ, ◌∷◌, ◌≡◌,
}
use zombodb.Building.{BuildResult, BuildTarget, HeapTuple, Relations, ambuild, var_expression}
use zombodb.Bulk.{list_member_int}
use zombodb.Examples.Contexts.{demo_options, demo_session}
use zombodb.Examples.DemoCurl.{demo_curl}
use zombodb.Examples.Transactions.{demo_xact}
use zombodb.Index.{tuple_desc_contains_json}
use zombodb.Index.Options.{
  IsChecked, Settings, get_url, last_byte, validate_default_elasticsearch_url,
}
use zombodb.Index.Relations.{IndexEntry}
use zombodb.Index.Urls.{get_url-last_byte}
use zombodb.Mapping.{Catalog}
use zombodb.Rest.{is_failure, perform_loop}
use zombodb.Text.{codes, decimal, strip_json_ending}
use zombodb.Xid.{item_pointer_to_uint64}

abbrev demo_settings : Settings
demo_settings = record { default_url = some (codes "http://localhost:9200/"); default_replicas = 0 }

default_checked : validate_default_elasticsearch_url demo_settings.default_url ≡ ok true
unfolding validate_default_elasticsearch_url last_byte codes
default_checked = refl

no_options-IsChecked : IsChecked demo_settings none
no_options-IsChecked = record {
  url_checked = λ options url h. cc;
  setting_checked = default_checked;
}

get_url-last_byte_example : WhenOk (λ url. last_byte url ≡ ok b'/') (get_url demo_settings none)
get_url-last_byte_example = get_url-last_byte demo_settings none no_options-IsChecked

-- A primary key and a ZomboDB index.
abbrev demo_entries : List IndexEntry
demo_entries = record { oid = 11; is_zombodb = false } ∷ record { oid = 12; is_zombodb = true } ∷ []

abbrev empty_catalog : Catalog
empty_catalog = record {
  field_mappings = λ table name. [];
  es_only_fields = λ table. [];
  type_mappings = λ type_oid. [];
  analysis_things = λ thing. [];
  type_rows = λ name. [];
  element_type = λ type_oid. 0;
  type_names = λ type_oid. codes "text";
  is_domain_type = λ type_oid. false;
}

abbrev demo_tuple : HeapTuple
demo_tuple = record {
  tid = record { block = 0; offset = 1 };
  is_alive = true;
  is_heap_only = false;
  raw_command_id = 0;
  xmin = 900;
  ctid_is_null = false;
  row = some (codes "{\"a\":1}");
}

-- A table with a live tuple and a dead one.
abbrev demo_target : BuildTarget
demo_target = record {
  indices = demo_entries;
  info = record {
    expressions = var_expression 20 0 ∷ [];
    num_index_attrs = 2;
    first_is_ctid = true;
    npredicates = 0;
  };
  types = record {
    rowtype_tupdesc = λ vartype vartypmod. [];
    type_tupdesc = λ type_oid. [];
    is_composite = λ type_oid. true;
  };
  heap_relid = 10;
  is_materialized_view = false;
  generated_name = codes "1.2.10.12-5";
  parts = record {
    database = codes "db";
    namespace = codes "public";
    heap_name = codes "beers";
    lower = λ t. t;
  };
  has_trigger = λ triggers name. false;
  tuples = demo_tuple ∷ record demo_tuple { is_alive = false } ∷ [];
  reltuples = 2;
}

abbrev demo_relations : Relations demo_curl
demo_relations = record {
  rel = record demo_options { relid = 12; index_name = none };
  triggers = [];
  xact = demo_xact;
}

-- The build returns, with one row indexed and two triggers.
unfoldable built_counts : Outcome (BuildResult demo_curl) → ℕ × ℕ
built_counts (ok r) = (r.index_tuples, length r.after.triggers)
built_counts _ = (0, 0)

demo_build :
    built_counts (ambuild demo_curl empty_catalog demo_target (demo_session 900) demo_relations)
    ≡ (1, 2)
unfolding built_counts ambuild codes decimal perform_loop is_failure strip_json_ending
    tuple_desc_contains_json item_pointer_to_uint64 list_member_int
demo_build = refl
