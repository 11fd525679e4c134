-- ===== src/Index/Urls.antt =====
-- The URL that every request starts with.
use Prim.Native.String.{String}
use zombodb.Prelude.{
  Bool, Bool-cases, Option, Outcome, WhenOk, ap, arith, error, false, fault, hang, inl, inr, none,
  ok, ok-injective, raised, refl, require, returned, some, true, ℕ, ◌==◌, ◌>>=◌, ◌||◌, ◌∙◌, ◌≡◌,
}
use zombodb.Bulk.{text_eq}
use zombodb.Index.Options.{
  IsChecked, RelOptions, Settings, get_url, last_byte, option_of, url_option,
  validate_default_elasticsearch_url, validate_url, value_of,
}
use zombodb.Text.{Text, codes}

default-text_eq : text_eq (codes "default") (codes "default") ≡ true
unfolding text_eq codes
default-text_eq = refl

require-true : (b : Bool) (e : String) → require b e ≡ ok tt → b ≡ true
require-true true e h = refl
require-true false e h = cc

slash_of :
    (str : Text)
    → validate_url (some str) ≡ ok tt
    → text_eq (codes "default") str ≡ false
    → last_byte str ≡ ok b'/'
unfolding validate_url
slash_of str h other = go (last_byte str) refl h
  where
    go :
        (o : Outcome ℕ)
        → last_byte str ≡ o
        → (o >>= λ ch.
            require
              (ch == b'/' || text_eq (codes "default") str)
              "'url' index option must end in a slash")
          ≡ ok tt
        → last_byte str ≡ ok b'/'
    go (ok ch) e k =
        let one : (ch == b'/' || text_eq (codes "default") str) ≡ true = require-true _ _ k in
        let same : ch ≡ b'/' = ground (arith, one, other) in e ∙ ap (λ n. ok n) same
    go (error m) e k = cc
    go fault e k = cc
    go hang e k = cc

slash_of_setting :
    (str : Text) → validate_default_elasticsearch_url (some str) ≡ ok true → last_byte str ≡ ok b'/'
unfolding validate_default_elasticsearch_url
slash_of_setting str h = go (last_byte str) refl h
  where
    go :
        (o : Outcome ℕ)
        → last_byte str ≡ o
        → (o >>= λ ch. ok (ch == b'/')) ≡ ok true
        → last_byte str ≡ ok b'/'
    go (ok ch) e k =
        let one : (ch == b'/') ≡ true = ok-injective k in
        let same : ch ≡ b'/' = ground (arith, one) in e ∙ ap (λ n. ok n) same
    go (error m) e k = cc
    go fault e k = cc
    go hang e k = cc

differ : ¬ (text_eq (codes "default") (codes "default") ≡ false)
differ h = ground (arith, default-text_eq, h)

-- If the checks of the option `url` and of the setting zdb.default_elasticsearch_url let their values
-- through, then the URL of an index, unless there is none, which is an error, ends in a slash. The
-- other parts put an index's name right behind it.
pub get_url-last_byte :
    (settings : Settings) (rd_options : Option RelOptions)
    → IsChecked settings rd_options
    → WhenOk (λ url. last_byte url ≡ ok b'/') (get_url settings rd_options)
unfolding get_url url_option option_of value_of
get_url-last_byte settings rd_options checked =
    elim (Bool-cases (text_eq (codes "default") (url_option rd_options))) [
      | inl e ↦ rw e (from_setting settings.default_url checked.setting_checked)
      | inr e ↦ rw e (returned (from_option rd_options e checked.url_checked))
    ]
  where
    from_setting :
        (o : Option Text)
        → validate_default_elasticsearch_url o ≡ ok true
        → WhenOk {A = Text}
            (λ url. last_byte url ≡ ok b'/')
            (elim o [ none ↦ error "Cannot determine base Elasticsearch url" | some url ↦ ok url ])
    from_setting none h = raised
    from_setting (some url) h = returned (slash_of_setting url h)

    from_option :
        (o : Option RelOptions)
        → text_eq (codes "default") (url_option o) ≡ false
        → ((options : RelOptions) (url : Text)
            → o ≡ some options
            → options.url_value ≡ some url
            → validate_url (some url) ≡ ok tt)
        → last_byte (url_option o) ≡ ok b'/'
    from_option none e h = absurd (differ e)
    from_option (some options) e h = given options.url_value refl e
      where
        given :
            (v : Option Text)
            → options.url_value ≡ v
            → text_eq (codes "default") (value_of (codes "default") v) ≡ false
            → last_byte (value_of (codes "default") v) ≡ ok b'/'
        given none k f = absurd (differ f)
        given (some url) k f = slash_of url (h options url refl k) f
