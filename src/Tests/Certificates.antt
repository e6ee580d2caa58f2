-- ===== src/Tests/Certificates.antt =====
-- The certificate manager at a manager that holds one expired certificate.
use osm_edge.Certificate.{
  Certificate, Issuer, IssueOptions, Manager, issue_certificate, check_and_rotate,
}
use osm_edge.Certificate.Laws.{HasIssuers, Serves, is_issued_by, issue_certificate-Serves}
use osm_edge.Certificate.Rotation.{check_and_rotate_current}
use osm_edge.Certificate.Calls.{
  Call, event_arrives, issues, rotates, releases, after_calls, KeepsStarted,
  after_calls-KeepsStarted,
}
use osm_edge.Certificate.{mrc_event_added}
use osm_edge.Base.{
  ℕ, String, true, false, none, some, List, [], ◌∷◌, ◌≡◌, refl, string_comparable, lookup, returns,
}

abbrev day : ℕ
day = 86400000000000

abbrev fresh : String → List String → ℕ → Certificate
fresh cn sans expiration = record {
  common_name = cn;
  sa_names = sans;
  serial_number = "1";
  expiration = expiration;
  issuing_ca = "root";
  trusted_cas = "root";
  signing_issuer_id = "";
  validating_issuer_id = "";
  cert_type = "";
}

abbrev old_root : Issuer
old_root = record {
  id = "old";
  trust_domain = "cluster.local";
  certificate_authority = "old root";
  issue = λ now cn sans duration. some (fresh cn sans day);
}

abbrev new_root : Issuer
new_root = record old_root { id = "new" }

abbrev expired : Certificate
expired = record (fresh "web.cluster.local" ("web" ∷ []) 0) {
  signing_issuer_id = "old";
  validating_issuer_id = "old";
  cert_type = "service";
}

abbrev manager : Manager
manager = record {
  cache = ("web", expired) ∷ [];
  signing_issuer = some new_root;
  validating_issuer = some old_root;
  ingress_cert_validity_duration = day;
  service_cert_validity_duration = day;
  published = [];
}

abbrev options : IssueOptions
options = record { full_cn_provided = false; validity_duration = none; sa_names = [] }

manager-HasIssuers : HasIssuers new_root old_root manager
manager-HasIssuers = record { signs = refl; validates = refl }

issue_example :
    Serves new_root old_root manager "web" (issue_certificate 0 0 manager "web" "service" options)
issue_example =
    issue_certificate-Serves new_root old_root 0 0 manager "web" "service" options
      manager-HasIssuers

abbrev current : Certificate
current = record (fresh "web.cluster.local" [] day) {
  signing_issuer_id = "new";
  validating_issuer_id = "old";
  cert_type = "service";
}

abbrev served_manager : Manager
served_manager = record manager { cache = ("web", current) ∷ [] }

rotate_example :
    (m' : Manager) × (check_and_rotate (λ key. (day, 3)) manager ≡ returns m')
    × ((k : String) (c : Certificate)
        → lookup k m'.cache ≡ some c
        → is_issued_by new_root old_root c ≡ true)
rotate_example =
    check_and_rotate_current new_root old_root (λ key. (day, 3)) manager
      (λ t cn sans duration. refl) manager-HasIssuers

-- A new root certificate becomes the only one, and the web's certificate is issued, rotated and
-- released.
abbrev calls : List Call
calls =
    event_arrives
      (mrc_event_added (record { name = "next"; state = "active"; trust_domain = "cluster.local" }))
    ∷ issues 0 2 "web" "service" options
    ∷ rotates (λ key. (day, 3))
    ∷ releases "web"
    ∷ []

calls_example : KeepsStarted (after_calls (λ mrc. some new_root) calls manager)
calls_example =
    after_calls-KeepsStarted (λ mrc. some new_root) calls manager
      (record { signing = new_root; validating = old_root; held = manager-HasIssuers })
