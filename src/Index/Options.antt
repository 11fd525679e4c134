-- ===== src/Index/Options.antt =====
-- The options of an index as src/c/indexam/zdb_index_options.h reads them, with their defaults, and
-- the checks of the URL in src/c/indexam/zdbam.c.
use zombodb.Prelude.{
  Bool, Option, Outcome, [], error, false, fault, if◌then◌else◌, none, ok, require, some, true, ℕ,
  ◌==◌, ◌>>=◌, ◌||◌, ◌∷◌, ◌≡◌,
}
use zombodb.Bulk.{text_eq}
use zombodb.Index.{IndexOptions, TupleDesc}
use zombodb.Text.{Text, codes}

-- ZDBIndexOptions, as Postgres has parsed them: a string option that is not set has the offset 0.
pub record RelOptions : Type 0 where
  pub url_value : Option Text
  pub type_name : Option Text
  pub refresh_interval : Option Text
  pub shards : ℕ
  pub replicas : ℕ
  pub bulk_concurrency : ℕ
  pub batch_size : ℕ
  pub compression_level : ℕ
  pub alias : Option Text
  pub uuid : Option Text
  pub optimize_after : ℕ
  pub llapi : Bool

-- The settings zdb.default_elasticsearch_url and zdb.default_replicas.
pub record Settings : Type 0 where
  pub default_url : Option Text
  pub default_replicas : ℕ

unfoldable pub value_of {ℓ} : {A : Type ℓ} → A → Option A → A
value_of default none = default
value_of default (some a) = a

-- An option of `rd_options`, which is NULL if no option is set.
unfoldable pub option_of {ℓ} : {A : Type ℓ} → (RelOptions → A) → A → Option RelOptions → A
option_of read default none = default
option_of read default (some options) = read options

-- ZDBIndexOptionsGetUrlMacro.
unfoldable pub url_option : Option RelOptions → Text
unfolding value_of option_of
url_option rd_options =
    option_of (λ options. value_of (codes "default") options.url_value) (codes "default") rd_options

unfoldable pub get_url : Settings → Option RelOptions → Outcome Text
unfolding url_option text_eq
get_url settings rd_options =
    if text_eq (codes "default") (url_option rd_options)
    then elim settings.default_url [
      | none ↦ error "Cannot determine base Elasticsearch url"
      | some url ↦ ok url
    ]
    else ok (url_option rd_options)

-- The options of an index whose URL is known.
unfoldable pub read_options :
    Settings → Option RelOptions → ℕ → Text → TupleDesc → Text → IndexOptions
unfolding value_of option_of
read_options settings rd_options relid rel_name tupdesc url = record {
  relid = relid;
  rel_name = rel_name;
  url = url;
  type_name =
      option_of (λ options. value_of (codes "doc") options.type_name) (codes "doc") rd_options;
  index_name = option_of (λ options. options.uuid) none rd_options;
  refresh_interval =
      option_of (λ options. value_of (codes "-1") options.refresh_interval) (codes "-1") rd_options;
  batch_size = option_of (λ options. options.batch_size) 8388608 rd_options;
  bulk_concurrency = option_of (λ options. options.bulk_concurrency) 12 rd_options;
  compression_level = option_of (λ options. options.compression_level) 1 rd_options;
  llapi = option_of (λ options. options.llapi) false rd_options;
  shards = option_of (λ options. options.shards) 5 rd_options;
  replicas = option_of (λ options. options.replicas) settings.default_replicas rd_options;
  alias = option_of (λ options. options.alias) none rd_options;
  tupdesc = tupdesc;
}

unfoldable pub optimize_after_option : Option RelOptions → ℕ
unfolding option_of
optimize_after_option rd_options = option_of (λ options. options.optimize_after) 0 rd_options

-- `str[strlen(str) - 1]`, which is in front of an empty text.
unfoldable pub last_byte : Text → Outcome ℕ
last_byte [] = fault
last_byte (ch ∷ []) = ok ch
last_byte (ch ∷ ch' ∷ str) = last_byte (ch' ∷ str)

unfoldable pub validate_url : Option Text → Outcome (Unit {0})
unfolding last_byte text_eq
validate_url none = error "'url' index option must end in a slash"
validate_url (some str) = last_byte str >>= λ ch.
    require (ch == b'/' || text_eq (codes "default") str) "'url' index option must end in a slash"

unfoldable pub validate_default_elasticsearch_url : Option Text → Outcome Bool
unfolding last_byte
validate_default_elasticsearch_url none = ok true
validate_default_elasticsearch_url (some str) = last_byte str >>= λ ch. ok (ch == b'/')

-- What the two checks have let through: a URL option, if there is one, and the setting.
pub record IsChecked (settings : Settings) (rd_options : Option RelOptions) : Type 0 where
  pub url_checked :
      (options : RelOptions) (url : Text)
      → rd_options ≡ some options
      → options.url_value ≡ some url
      → validate_url (some url) ≡ ok tt
  pub setting_checked : validate_default_elasticsearch_url settings.default_url ≡ ok true
