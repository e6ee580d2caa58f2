-- ===== src/Certificate/Calls.antt =====
-- The calls that reach the certificate manager (manager.go), in any order: the events of the watch,
-- the issues and releases of the proxies and the rotations of the ticker.
use osm_edge.Certificate.{
  Certificate, Issuer, IssueOptions, Manager, Mrc, MrcEvent, mrc_event_added, mrc_event_updated,
  set_issuers, handle_mrc_event, issue_certificate, rotation_options, rotate_all, check_and_rotate,
  release_certificate,
}
use osm_edge.Certificate.Laws.{HasIssuers, issue_certificate-Serves}
use osm_edge.Base.{
  ℕ, String, Bool, true, false, ◌||◌, Option, none, some, List, [], ◌∷◌, ◌≡◌, refl, ap, ◌∙◌, inl,
  inr, if◌then◌else◌, Run, returns, ◌>>=◌, string_comparable, ◌==◌,
}

pub data Call : Type 0 where
  event_arrives : MrcEvent → Call
  issues : ℕ → ℕ → String → String → IssueOptions → Call
  rotates : (String → ℕ × ℕ) → Call
  releases : String → Call

-- An error leaves the manager as it is.
abbrev pub next_manager : Manager → Option (Manager × Certificate) → Manager
next_manager m none = m
next_manager m (some result) = result.0

abbrev pub or_before : Manager → Option Manager → Manager
or_before m none = m
or_before m (some m') = m'

-- The manager after one call. The watch logs the error of an event and continues.
unfoldable pub after_call : (Mrc → Option Issuer) → Call → Manager → Run Manager
after_call get_cert_issuer_for_mrc (event_arrives event) m =
    returns (or_before m (handle_mrc_event get_cert_issuer_for_mrc m event))
after_call get_cert_issuer_for_mrc (issues now noise prefix ct options) m =
    issue_certificate now noise m prefix ct options >>= (λ issued. returns (next_manager m issued))
after_call get_cert_issuer_for_mrc (rotates clock) m = check_and_rotate clock m
after_call get_cert_issuer_for_mrc (releases key) m = returns (release_certificate m key)

unfoldable pub after_calls : (Mrc → Option Issuer) → List Call → Manager → Run Manager
after_calls get_cert_issuer_for_mrc [] m = returns m
after_calls get_cert_issuer_for_mrc (call ∷ calls) m =
    after_call get_cert_issuer_for_mrc call m >>= after_calls get_cert_issuer_for_mrc calls

-- The manager holds two issuers.
pub record IsStarted (m : Manager) : Type 0 where
  pub signing : Issuer
  pub validating : Issuer
  pub held : HasIssuers signing validating m

IsStarted-if :
    (b : Bool) {m m' : Manager} → IsStarted m → IsStarted m' → IsStarted (if b then m else m')
IsStarted-if true h h' = h
IsStarted-if false h h' = h'

set_issuers-IsStarted :
    (m : Manager) (state : String) (c : Issuer) → IsStarted m → IsStarted (set_issuers m state c)
unfolding set_issuers
set_issuers-IsStarted m state c h =
    let both : IsStarted (record m { signing_issuer = some c; validating_issuer = some c }) =
      record { signing = c; validating = c; held = record { signs = refl; validates = refl } } in
    IsStarted-if (state == "active") both (
      IsStarted-if ((state == "issuingRollback") || (state == "issuingRollout"))
        (record {
          signing = c;
          validating = h.validating;
          held = record { signs = refl; validates = h.held.validates };
        })
        (IsStarted-if ((state == "validatingRollback") || (state == "validatingRollout"))
          (record {
            signing = h.signing;
            validating = c;
            held = record { signs = h.held.signs; validates = refl };
          })
          both))

-- The run returns a manager that holds two issuers.
abbrev pub KeepsStarted : Run Manager → Type 0
KeepsStarted run = (m' : Manager) × (run ≡ returns m') × IsStarted m'

or_before-IsStarted :
    (m : Manager) (b : Bool) (o : Option Issuer) (f : Issuer → Manager)
    → IsStarted m
    → ((c : Issuer) → IsStarted (f c))
    → IsStarted (or_before m (if b then some m else elim o [ none ↦ none | some c ↦ some (f c) ]))
or_before-IsStarted m true o f h k = h
or_before-IsStarted m false none f h k = h
or_before-IsStarted m false (some c) f h k = k c

handle_mrc_event-IsStarted :
    (get_cert_issuer_for_mrc : Mrc → Option Issuer) (m : Manager) (event : MrcEvent)
    → IsStarted m
    → IsStarted (or_before m (handle_mrc_event get_cert_issuer_for_mrc m event))
unfolding handle_mrc_event
handle_mrc_event-IsStarted get_cert_issuer_for_mrc m (mrc_event_added mrc) h =
    or_before-IsStarted m (mrc.state == "error") (get_cert_issuer_for_mrc mrc)
      (λ c. set_issuers m mrc.state (record c { id = mrc.name; trust_domain = mrc.trust_domain })) h
      (λ c.
        set_issuers-IsStarted m mrc.state
          (record c { id = mrc.name; trust_domain = mrc.trust_domain }) h)
handle_mrc_event-IsStarted get_cert_issuer_for_mrc m (mrc_event_updated mrc) h = h

-- What an issue makes of the manager, before the rest of the run.
issue_certificate-IsStarted :
    (now noise : ℕ) (m : Manager) (prefix ct : String) (options : IssueOptions)
    → IsStarted m
    → (issued : Option (Manager × Certificate)) × (issue_certificate now noise m prefix ct options
        ≡ returns issued)
      × IsStarted (next_manager m issued)
issue_certificate-IsStarted now noise m prefix ct options h =
    elim (issue_certificate-Serves h.signing h.validating now noise m prefix ct options h.held) [
      | inl (e, _) ↦ (none, e, h)
      | inr (m', c, e, served) ↦ (
        some (m', c),
        e,
        record { signing = h.signing; validating = h.validating; held = served.issuers },
      )
    ]

rotate_all-KeepsStarted :
    (clock : String → ℕ × ℕ) (certs : List (String × Certificate)) (m : Manager)
    → IsStarted m
    → KeepsStarted (rotate_all clock m certs)
unfolding rotate_all
rotate_all-KeepsStarted clock [] m h = (m, refl, h)
rotate_all-KeepsStarted clock ((key, cert) ∷ certs) m h =
    let now =
      issue_certificate-IsStarted (clock key).0 (clock key).1 m key cert.cert_type
        (rotation_options key cert) h in
    let rest = rotate_all-KeepsStarted clock certs (next_manager m now.0) now.2 in
    (
      rest.0,
      ap (λ r. r >>= (λ issued. rotate_all clock (next_manager m issued) certs)) now.1 ∙ rest.1,
      rest.2,
    )

check_and_rotate-KeepsStarted :
    (clock : String → ℕ × ℕ) (m : Manager) → IsStarted m → KeepsStarted (check_and_rotate clock m)
unfolding check_and_rotate
check_and_rotate-KeepsStarted clock m h = rotate_all-KeepsStarted clock m.cache m h

after_call-KeepsStarted :
    (get_cert_issuer_for_mrc : Mrc → Option Issuer) (call : Call) (m : Manager)
    → IsStarted m
    → KeepsStarted (after_call get_cert_issuer_for_mrc call m)
unfolding after_call release_certificate
after_call-KeepsStarted get (event_arrives event) m h =
    (or_before m (handle_mrc_event get m event), refl, handle_mrc_event-IsStarted get m event h)
after_call-KeepsStarted get (issues now noise prefix ct options) m h =
    let issued = issue_certificate-IsStarted now noise m prefix ct options h in
    (next_manager m issued.0, ap (λ r. r >>= (λ i. returns (next_manager m i))) issued.1, issued.2)
after_call-KeepsStarted get (rotates clock) m h = check_and_rotate-KeepsStarted clock m h
after_call-KeepsStarted get (releases key) m h = (
  release_certificate m key,
  refl,
  record {
    signing = h.signing;
    validating = h.validating;
    held = record { signs = h.held.signs; validates = h.held.validates };
  },
)

-- Once the manager holds two issuers, no sequence of events, issues, rotations and releases panics,
-- and the manager after it holds two issuers.
pub after_calls-KeepsStarted :
    (get_cert_issuer_for_mrc : Mrc → Option Issuer) (calls : List Call) (m : Manager)
    → IsStarted m
    → KeepsStarted (after_calls get_cert_issuer_for_mrc calls m)
unfolding after_calls
after_calls-KeepsStarted get [] m h = (m, refl, h)
after_calls-KeepsStarted get (call ∷ calls) m h =
    let now = after_call-KeepsStarted get call m h in
    let rest = after_calls-KeepsStarted get calls now.0 now.2 in
    (rest.0, ap (λ r. r >>= after_calls get calls) now.1 ∙ rest.1, rest.2)
