-- ===== src/Certificate.antt =====
-- pkg/certificate: the options of an issue (options.go), the rotation of trust (certificate.go) and
-- the manager (manager.go) as a state that each call passes on. A time is a number of nanoseconds. The
-- goroutines of the watch and of the ticker are sequences of the calls that they make, one at a
-- time; `singleflight` only merges calls that run at once.
pub mod Laws
pub mod Calls
pub mod Rotation
use osm_edge.Base.{
  ℕ, ◌+◌, ◌*◌, String, Bool, true, false, not, ◌||◌, Option, none, some, List, [], ◌∷◌, ◌++◌, ◌==◌,
  nat_comparable, string_comparable, option_comparable, list_comparable, pair_comparable,
  if◌then◌else◌, ltb, leb, length, elem, lookup, insert, Run, returns, panics, ◌>>=◌, sprintf, has,
}

-- Durations, in nanoseconds.
abbrev pub second : ℕ
second = 1000000000

abbrev pub renew_before_cert_expires : ℕ
renew_before_cert_expires = 30 * second

abbrev pub osm_certificate_validity_period : ℕ
osm_certificate_validity_period = 87600 * (3600 * second)

-- `Certificate`, without the chain and the key, which the manager only keeps.
pub record Certificate : Type 0 where
  pub common_name : String
  pub sa_names : List String
  pub serial_number : String
  pub expiration : ℕ
  pub issuing_ca : String
  pub trusted_cas : String
  pub signing_issuer_id : String
  pub validating_issuer_id : String
  pub cert_type : String

-- `issuer`. The certificate authority behind it, an interface, is a function of the time and of the
-- arguments of its call; an error is `none`.
pub record Issuer : Type 0 where
  pub id : String
  pub trust_domain : String
  pub certificate_authority : String
  pub issue : ℕ → String → List String → ℕ → Option Certificate

pub record IssueOptions : Type 0 where
  pub full_cn_provided : Bool
  pub validity_duration : Option ℕ
  pub sa_names : List String

-- `published` lists the rotations that were announced, the new certificate before the old one.
pub record Manager : Type 0 where
  pub cache : List (String × Certificate)
  pub signing_issuer : Option Issuer
  pub validating_issuer : Option Issuer
  pub ingress_cert_validity_duration : ℕ
  pub service_cert_validity_duration : ℕ
  pub published : List (Certificate × Certificate)

-- The names without a colon that are not excluded, each at its first place; `seen` is `sanMap`.
unique_from : List String → List String → List String → List String
unique_from excluded seen [] = []
unique_from excluded seen (san ∷ sans) =
    let skipped = unique_from excluded seen sans in
    let rest = unique_from excluded (san ∷ seen) sans in
    if has b':' san || elem san excluded || elem san seen then skipped else san ∷ rest

unfoldable pub unique_subject_alternative_names : List String → List String → List String
unfolding unique_from
unique_subject_alternative_names sa_names excluded =
    if ltb 1 (length sa_names) then unique_from excluded [] sa_names else sa_names

unfoldable pub format_cn : IssueOptions → String → String → String
format_cn o prefix trust_domain =
    if o.full_cn_provided then prefix else sprintf (prefix ∷ "." ∷ trust_domain ∷ [])

unfoldable pub subject_alternative_names : IssueOptions → List String
unfolding unique_subject_alternative_names
subject_alternative_names o =
    if ltb 1 (length o.sa_names) then unique_subject_alternative_names o.sa_names [] else o.sa_names

unfoldable pub validity_period : IssueOptions → ℕ → ℕ
validity_period o duration = elim o.validity_duration [ none ↦ duration | some d ↦ d ]

unfoldable pub new_merged_with_root : Certificate → String → Certificate
new_merged_with_root c root = record c { trusted_cas = sprintf (c.issuing_ca ∷ root ∷ []) }

unfoldable pub get_validity_duration_for_cert_type : Manager → String → ℕ
get_validity_duration_for_cert_type m ct =
    if ct == "internal"
    then osm_certificate_validity_period
    else if ct == "ingressGateway"
    then m.ingress_cert_validity_duration
    else if ct == "service"
    then m.service_cert_validity_duration
    else osm_certificate_validity_period

pub record Mrc : Type 0 where
  pub name : String
  pub state : String
  pub trust_domain : String

pub data MrcEvent : Type 0 where
  mrc_event_added mrc_event_updated : Mrc → MrcEvent

-- The switch over the state of a root certificate.
unfoldable pub set_issuers : Manager → String → Issuer → Manager
set_issuers m state c =
    if state == "active"
    then record m { signing_issuer = some c; validating_issuer = some c }
    else if (state == "issuingRollback") || (state == "issuingRollout")
    then record m { signing_issuer = some c }
    else if (state == "validatingRollback") || (state == "validatingRollout")
    then record m { validating_issuer = some c }
    else record m { signing_issuer = some c; validating_issuer = some c }

-- `GetCertIssuerForMRC` is the first argument; its error, `none`, is returned.
unfoldable pub handle_mrc_event : (Mrc → Option Issuer) → Manager → MrcEvent → Option Manager
unfolding set_issuers
handle_mrc_event get_cert_issuer_for_mrc m (mrc_event_added mrc) =
    if mrc.state == "error" then some m else elim (get_cert_issuer_for_mrc mrc) [
      | none ↦ none
      | some c ↦
          some
            (set_issuers m mrc.state (record c { id = mrc.name; trust_domain = mrc.trust_domain }))
    ]
handle_mrc_event get_cert_issuer_for_mrc m (mrc_event_updated mrc) = some m

-- `now + renewBefore` is compared with the expiration; `noise` is what `rand.Intn` drew, below 5.
abbrev pub expires_soon : ℕ → ℕ → Certificate → Bool
expires_soon now noise c = leb c.expiration (now + (renew_before_cert_expires + noise * second))

-- A missing issuer is dereferenced where the code first needs it, which panics.
unfoldable pub should_rotate : ℕ → ℕ → Manager → Certificate → Run Bool
should_rotate now noise m c =
    if expires_soon now noise c then returns true else elim m.signing_issuer [
      | none ↦ panics
      | some signing ↦
          if not (c.signing_issuer_id == signing.id)
          then returns true
          else elim m.validating_issuer [
            | none ↦ panics
            | some validating ↦ returns (not (c.validating_issuer_id == validating.id))
          ]
    ]

-- The certificate that the signing issuer gives, under the options; a certificate that is replaced
-- passes on its names.
unfoldable pub options_for : IssueOptions → Option Certificate → IssueOptions
options_for options none = options
options_for options (some c) = record options {
  sa_names = unique_subject_alternative_names c.sa_names [];
}

unfoldable pub issued_certificate :
    ℕ → Manager → String → String → IssueOptions → Issuer → Option Certificate
unfolding format_cn subject_alternative_names
issued_certificate now m prefix ct opts signing =
    signing.issue now (format_cn opts prefix signing.trust_domain) (subject_alternative_names opts)
      (validity_period opts (get_validity_duration_for_cert_type m ct))

-- The certificate with the marks of the issuers and, if they differ, with the merged roots.
unfoldable pub marked : Issuer → Issuer → String → Certificate → Certificate
unfolding new_merged_with_root
marked signing validating ct issued =
    let merged =
      if validating.id == signing.id
      then issued
      else new_merged_with_root issued validating.certificate_authority in
    record merged {
      signing_issuer_id = signing.id;
      validating_issuer_id = validating.id;
      cert_type = ct;
    }

-- The store in the cache, and the announcement of a rotation.
unfoldable pub stored : Manager → String → Option Certificate → Certificate → Manager
stored m prefix old cert = record m {
  cache = insert prefix cert m.cache;
  published = elim old [ none ↦ m.published | some c ↦ m.published ++ (cert, c) ∷ [] ];
}

-- What follows the call of the signing issuer.
abbrev pub mark_and_store :
    Manager
    → String
    → String
    → Option Certificate
    → Issuer
    → Option Certificate
    → Option Issuer
    → Run (Option (Manager × Certificate))
mark_and_store m prefix ct old signing none validating = returns none
mark_and_store m prefix ct old signing (some issued) none = panics
mark_and_store m prefix ct old signing (some issued) (some validating) =
    let cert = marked signing validating ct issued in
    returns (some (stored m prefix old cert, cert))

abbrev pub issue_with :
    ℕ
    → Manager
    → String
    → String
    → IssueOptions
    → Option Certificate
    → Option Issuer
    → Run (Option (Manager × Certificate))
issue_with now m prefix ct options old none = panics
issue_with now m prefix ct options old (some signing) =
    mark_and_store m prefix ct old signing
      (issued_certificate now m prefix ct (options_for options old) signing) m.validating_issuer

-- `issueCertificate` after the cache. An error is `none`.
unfoldable pub issue_new :
    ℕ
    → Manager
    → String
    → String
    → IssueOptions
    → Option Certificate
    → Run (Option (Manager × Certificate))
unfolding options_for issued_certificate marked stored
issue_new now m prefix ct options old = issue_with now m prefix ct options old m.signing_issuer

abbrev pub issue_or_keep :
    ℕ
    → Manager
    → String
    → String
    → IssueOptions
    → Certificate
    → Bool
    → Run (Option (Manager × Certificate))
issue_or_keep now m prefix ct options cert true = issue_new now m prefix ct options (some cert)
issue_or_keep now m prefix ct options cert false = returns (some (m, cert))

-- The cached certificate, if there is one, and whether it is to be rotated.
abbrev pub issue_for :
    ℕ
    → ℕ
    → Manager
    → String
    → String
    → IssueOptions
    → Option Certificate
    → Run (Option (Manager × Certificate))
issue_for now noise m prefix ct options none = issue_new now m prefix ct options none
issue_for now noise m prefix ct options (some cert) =
    should_rotate now noise m cert >>= issue_or_keep now m prefix ct options cert

-- The result is the manager and the certificate, or an error, `none`, which leaves the manager.
unfoldable pub issue_certificate :
    ℕ → ℕ → Manager → String → String → IssueOptions → Run (Option (Manager × Certificate))
unfolding should_rotate issue_new
issue_certificate now noise m prefix ct options =
    issue_for now noise m prefix ct options (lookup prefix m.cache)

-- The options with which the rotation issues a certificate of the cache again.
unfoldable pub rotation_options : String → Certificate → IssueOptions
rotation_options key cert =
    if key == cert.common_name
    then record {
      full_cn_provided = true;
      validity_duration = none;
      sa_names = unique_subject_alternative_names cert.sa_names (key ∷ []);
    }
    else record { full_cn_provided = false; validity_duration = none; sa_names = [] }

-- The time of each call and the noise that it draws are `clock` of its key; a failed call leaves the
-- manager as it is.
rotate_all : (String → ℕ × ℕ) → Manager → List (String × Certificate) → Run Manager
rotate_all clock m [] = returns m
rotate_all clock m ((key, cert) ∷ certs) = do
  issued ←
      issue_certificate (clock key).0 (clock key).1 m key cert.cert_type (rotation_options key cert)
  rotate_all clock (elim issued [ none ↦ m | some result ↦ result.0 ]) certs

unfoldable pub check_and_rotate : (String → ℕ × ℕ) → Manager → Run Manager
unfolding rotate_all
check_and_rotate clock m = rotate_all clock m m.cache

abbrev remove : String → List (String × Certificate) → List (String × Certificate)
remove key [] = []
remove key ((k, c) ∷ m) = let rest = remove key m in if k == key then rest else (k, c) ∷ rest

unfoldable pub release_certificate : Manager → String → Manager
release_certificate m key = record m { cache = remove key m.cache }
