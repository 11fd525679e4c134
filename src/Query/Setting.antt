-- ===== src/Query/Setting.antt =====
-- zdb_set_query_property is the update of one option.
use Prim.Native.String.{String}
use zombodb.Prelude.{
  Bool, Option, Outcome, error, fault, hang, if◌then◌else◌, none, ok, refl, some, ℕ, ◌++◌, ◌>>=◌,
  ◌≡◌,
}
use zombodb.Query.{
  JsonText, ZdbQuery, or_error, zdbquery_get_limit, zdbquery_get_min_score, zdbquery_get_offset,
  zdbquery_get_query, zdbquery_get_raw_row_estimate, zdbquery_get_sort_json,
  zdbquery_get_wants_score, zdbquery_in_direct,
}
use zombodb.Query.Options.{
  Property, add_entry, all_properties, positive_text, property_of, real_text, set_entries,
  zdb_set_query_property, zdbquery_limit, zdbquery_min_score, zdbquery_offset, zdbquery_query_dsl,
  zdbquery_row_estimate, zdbquery_sort_json, zdbquery_wants_score,
}
use zombodb.Text.{Text, codes}

module _ (l : JsonText) where
  -- The options that a query's JSON text stands for.
  pub record Options : Type 0 where
    pub limit : ℕ
    pub offset : ℕ
    pub min_score : l.Real
    pub sort_json : Option Text
    pub row_estimate : ℕ
    pub query_dsl : Option Text
    pub wants_score : Bool

  pub record HasOptions (q : ZdbQuery) (o : Options) : Type 0 where
    pub limit : zdbquery_get_limit l q ≡ ok o.limit
    pub offset : zdbquery_get_offset l q ≡ ok o.offset
    pub min_score : zdbquery_get_min_score l q ≡ ok o.min_score
    pub sort_json : zdbquery_get_sort_json l q ≡ ok o.sort_json
    pub row_estimate : zdbquery_get_raw_row_estimate l q ≡ ok o.row_estimate
    pub query_dsl : zdbquery_get_query l q ≡ ok o.query_dsl
    pub wants_score : zdbquery_get_wants_score l q ≡ ok o.wants_score

  abbrev read_or_error : {A : Type 0} → Option A → (A → Options) → Outcome Options
  read_or_error r f = or_error r "invalid input syntax" >>= λ a. ok (f a)

  -- The options with one of them read from a text.
  unfoldable pub set_option : Property → Text → Options → Outcome Options
  set_option zdbquery_limit t o = read_or_error (l.int8in_text t) λ n. record o { limit = n }
  set_option zdbquery_offset t o = read_or_error (l.int8in_text t) λ n. record o { offset = n }
  set_option zdbquery_min_score t o =
      read_or_error (l.float8in_text t) λ x. record o { min_score = x }
  set_option zdbquery_sort_json t o = ok (record o { sort_json = some t })
  set_option zdbquery_row_estimate t o =
      read_or_error (l.int8in_text t) λ n. record o { row_estimate = n }
  set_option zdbquery_query_dsl t o = ok (record o { query_dsl = some t })
  set_option zdbquery_wants_score t o = read_or_error (l.boolin t) λ b. record o { wants_score = b }

  -- The JSON text of the options that are set, in their fixed order.
  unfoldable pub options_text : Options → Text
  unfolding add_entry positive_text real_text
  options_text o =
      add_entry "\"wants_score\":" (if o.wants_score then some (codes "true") else none) (
        add_entry "\"query_dsl\":" o.query_dsl (
          add_entry "\"row_estimate\":" (positive_text o.row_estimate) (
            add_entry "\"sort_json\":" o.sort_json (
              add_entry "\"min_score\":" (real_text l o.min_score) (
                add_entry "\"offset\":" (positive_text o.offset)
                  (add_entry "\"limit\":" (positive_text o.limit) (codes "{")))))))
      ++ codes "}"

  unfoldable Sets : Property → Text → ZdbQuery → Options → Type 0
  Sets p value q o =
      (set_entries l p value q (all_properties l) (codes "{") >>= λ t.
      zdbquery_in_direct l (t ++ codes "}"))
      ≡ (set_option p value o >>= λ o'. zdbquery_in_direct l (options_text o'))

  set_limit :
      (value : Text) (q : ZdbQuery) (o : Options) (r : Option ℕ)
      → HasOptions q o
      → l.int8in_text value ≡ r
      → Sets zdbquery_limit value q o
  unfolding Sets set_entries set_option options_text
  set_limit value q o none h e = rw e refl
  set_limit value q o (some n) h e =
      rw (e, h.offset, h.min_score, h.sort_json, h.row_estimate, h.query_dsl, h.wants_score) refl

  set_offset :
      (value : Text) (q : ZdbQuery) (o : Options) (r : Option ℕ)
      → HasOptions q o
      → l.int8in_text value ≡ r
      → Sets zdbquery_offset value q o
  unfolding Sets set_entries set_option options_text
  set_offset value q o none h e = rw (e, h.limit) refl
  set_offset value q o (some n) h e =
      rw (e, h.limit, h.min_score, h.sort_json, h.row_estimate, h.query_dsl, h.wants_score) refl

  set_min_score :
      (value : Text) (q : ZdbQuery) (o : Options) (r : Option l.Real)
      → HasOptions q o
      → l.float8in_text value ≡ r
      → Sets zdbquery_min_score value q o
  unfolding Sets set_entries set_option options_text
  set_min_score value q o none h e = rw (e, h.limit, h.offset) refl
  set_min_score value q o (some n) h e =
      rw (e, h.limit, h.offset, h.sort_json, h.row_estimate, h.query_dsl, h.wants_score) refl

  set_sort_json :
      (value : Text) (q : ZdbQuery) (o : Options)
      → HasOptions q o
      → Sets zdbquery_sort_json value q o
  unfolding Sets set_entries set_option options_text
  set_sort_json value q o h =
      rw (h.limit, h.offset, h.min_score, h.row_estimate, h.query_dsl, h.wants_score) refl

  set_row_estimate :
      (value : Text) (q : ZdbQuery) (o : Options) (r : Option ℕ)
      → HasOptions q o
      → l.int8in_text value ≡ r
      → Sets zdbquery_row_estimate value q o
  unfolding Sets set_entries set_option options_text
  set_row_estimate value q o none h e = rw (e, h.limit, h.offset, h.min_score, h.sort_json) refl
  set_row_estimate value q o (some n) h e =
      rw (e, h.limit, h.offset, h.min_score, h.sort_json, h.query_dsl, h.wants_score) refl

  set_query_dsl :
      (value : Text) (q : ZdbQuery) (o : Options)
      → HasOptions q o
      → Sets zdbquery_query_dsl value q o
  unfolding Sets set_entries set_option options_text
  set_query_dsl value q o h =
      rw (h.limit, h.offset, h.min_score, h.sort_json, h.row_estimate, h.wants_score) refl

  set_wants_score :
      (value : Text) (q : ZdbQuery) (o : Options) (r : Option Bool)
      → HasOptions q o
      → l.boolin value ≡ r
      → Sets zdbquery_wants_score value q o
  unfolding Sets set_entries set_option options_text
  set_wants_score value q o none h e =
      rw (e, h.limit, h.offset, h.min_score, h.sort_json, h.row_estimate, h.query_dsl) refl
  set_wants_score value q o (some n) h e =
      rw (e, h.limit, h.offset, h.min_score, h.sort_json, h.row_estimate, h.query_dsl) refl

  sets :
      (p : Property) (value : Text) (q : ZdbQuery) (o : Options) → HasOptions q o → Sets p value q o
  sets zdbquery_limit value q o h = set_limit value q o (l.int8in_text value) h refl
  sets zdbquery_offset value q o h = set_offset value q o (l.int8in_text value) h refl
  sets zdbquery_min_score value q o h = set_min_score value q o (l.float8in_text value) h refl
  sets zdbquery_sort_json value q o h = set_sort_json value q o h
  sets zdbquery_row_estimate value q o h = set_row_estimate value q o (l.int8in_text value) h refl
  sets zdbquery_query_dsl value q o h = set_query_dsl value q o h
  sets zdbquery_wants_score value q o h = set_wants_score value q o (l.boolin value) h refl

  -- On a query whose JSON text gives these options, to set a property, or to fail at its name or
  -- its value, is to set that one option, or to fail, and to print the options again: every other
  -- option stays, and an option that is 0, false or missing is not printed.
  pub zdb_set_query_property-set_option :
      (key : String) (value : Text) (q : ZdbQuery) (o : Options)
      → HasOptions q o
      → zdb_set_query_property l key value q ≡ (
          property_of key >>= λ p.
          set_option p value o >>= λ o'. zdbquery_in_direct l (options_text o'))
  unfolding zdb_set_query_property Sets
  zdb_set_query_property-set_option key value q o h = go (property_of key)
    where
      go :
          (r : Outcome Property)
          → (r >>= λ p. set_entries l p value q (all_properties l) (codes "{") >>= λ t.
              zdbquery_in_direct l (t ++ codes "}"))
            ≡ (r >>= λ p. set_option p value o >>= λ o'. zdbquery_in_direct l (options_text o'))
      go (ok p) = sets p value q o h
      go (error e) = refl
      go fault = refl
      go hang = refl
