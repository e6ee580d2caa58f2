-- ===== src/Certificate/Laws.antt =====
-- Issues of the certificate manager (manager.go) and the alternative names (options.go).
use osm_edge.Certificate.{
  format_cn, subject_alternative_names, validity_period, get_validity_duration_for_cert_type,
  Certificate, Issuer, IssueOptions, Manager, unique_from, unique_subject_alternative_names,
  expires_soon, should_rotate, options_for, issued_certificate, marked, stored, issue_new,
  mark_and_store, issue_with, issue_for, issue_or_keep, issue_certificate,
}
use osm_edge.Base.{
  ℕ, String, Bool, true, false, not, ◌&&◌, ◌||◌, Option, none, some, List, [], ◌∷◌, ◌≡◌, refl, ap,
  ◌∙◌, ◌⊎◌, inl, inr, arith, ◌==◌, ==_refl, nat_comparable, string_comparable, option_comparable,
  list_comparable, pair_comparable, if◌then◌else◌, ltb, Bool-cases, Option-cases, and_true_right,
  and_cong, length, elem, nodup, lookup, lookup-insert, Run, returns, ◌>>=◌, has,
}

unique_from_names :
    (excluded sans seen : List String)
    → ((san : String)
        → elem san (unique_from excluded seen sans)
          ≡ (elem san sans && not (has b':' san || elem san excluded) && not (elem san seen)))
      × (nodup (unique_from excluded seen sans) ≡ true)
unfolding unique_from
unique_from_names excluded [] seen = (λ san. refl, refl)
unique_from_names excluded (s ∷ sans) seen = (
  λ san. ground (
    arith,
    (unique_from_names excluded sans seen).0 san,
    (unique_from_names excluded sans (s ∷ seen)).0 san,
    string_comparable.same_iff san s,
  ),
  ground (
    arith,
    (unique_from_names excluded sans seen).1,
    (unique_from_names excluded sans (s ∷ seen)).1,
    (unique_from_names excluded sans (s ∷ seen)).0 s,
    string_comparable.same_iff s s,
  ),
)

-- Of two or more alternative names, those are left that hold no colon and are not excluded, each
-- once.
pub unique_subject_alternative_names_distinct :
    (sans excluded : List String)
    → ltb 1 (length sans) ≡ true
    → (nodup (unique_subject_alternative_names sans excluded) ≡ true)
      × ((san : String)
          → elem san (unique_subject_alternative_names sans excluded)
            ≡ (elem san sans && not (has b':' san || elem san excluded)))
unfolding unique_subject_alternative_names
unique_subject_alternative_names_distinct sans excluded h = rw h (
  (unique_from_names excluded sans []).1,
  λ san.
      (unique_from_names excluded sans []).0 san
      ∙ and_true_right (elem san sans && not (has b':' san || elem san excluded)),
)

-- The certificate carries the marks of the two issuers.
abbrev pub is_issued_by : Issuer → Issuer → Certificate → Bool
is_issued_by signing validating c =
    (c.signing_issuer_id == signing.id) && (c.validating_issuer_id == validating.id)

or_none : {a b : Bool} → a ≡ false → b ≡ true → (a || not b) ≡ false
or_none h k = ground arith

module _ (signing validating : Issuer) where
  -- The manager holds the issuers.
  pub record HasIssuers (m : Manager) : Type 0 where
    pub signs : m.signing_issuer ≡ some signing
    pub validates : m.validating_issuer ≡ some validating

  -- After the call the certificate is the cached one of its key and carries the marks of the
  -- issuers; the other keys and the issuers are as before.
  pub record IsServed (m : Manager) (prefix : String) (m' : Manager) (c : Certificate)
      : Type 0 where
    pub cached : lookup prefix m'.cache ≡ some c
    pub issued : is_issued_by signing validating c ≡ true
    pub others : (k : String) → (prefix == k) ≡ false → lookup k m'.cache ≡ lookup k m.cache
    pub issuers : HasIssuers m'

  marked-issued :
      (ct : String) (c : Certificate)
      → is_issued_by signing validating (marked signing validating ct c) ≡ true
  unfolding marked
  marked-issued ct c = and_cong (==_refl signing.id) (==_refl validating.id)

  stored-IsServed :
      (m : Manager) (prefix ct : String) (old : Option Certificate) (c : Certificate)
      → HasIssuers m
      → IsServed m prefix
          (stored m prefix old (marked signing validating ct c))
          (marked signing validating ct c)
  unfolding stored
  stored-IsServed m prefix ct old c h = record {
    cached =
        lookup-insert prefix prefix (marked signing validating ct c) m.cache
        ∙ ap (λ b. if b then some (marked signing validating ct c) else lookup prefix m.cache)
            (==_refl prefix);
    issued = marked-issued ct c;
    others = λ k d.
        lookup-insert prefix k (marked signing validating ct c) m.cache
        ∙ ap (λ b. if b then some (marked signing validating ct c) else lookup k m.cache) d;
    issuers = record { signs = h.signs; validates = h.validates };
  }

  -- Some call of the signing issuer fails.
  abbrev pub Fails : Type 0
  Fails =
      (now : ℕ) × (cn : String) × (sans : List String) × (duration : ℕ) × (signing.issue now cn sans
          duration
        ≡ none)

  issued_certificate-Fails :
      (now : ℕ) (m : Manager) (prefix ct : String) (options : IssueOptions)
      → issued_certificate now m prefix ct options signing ≡ none
      → Fails
  unfolding issued_certificate
  issued_certificate-Fails now m prefix ct options e = (
    now,
    format_cn options prefix signing.trust_domain,
    subject_alternative_names options,
    validity_period options (get_validity_duration_for_cert_type m ct),
    e,
  )

  -- An error of the signing issuer, or a certificate that is served.
  abbrev pub Serves : Manager → String → Run (Option (Manager × Certificate)) → Type 0
  Serves m prefix run =
      ((run ≡ returns none) × Fails)
      ⊎ ((m' : Manager) × (c : Certificate) × (run ≡ returns (some (m', c)))
          × IsServed m prefix m' c)

  issue_new-Serves :
      (now : ℕ) (m : Manager) (prefix ct : String) (options : IssueOptions)
      (old : Option Certificate)
      → HasIssuers m
      → Serves m prefix (issue_new now m prefix ct options old)
  unfolding issue_new
  issue_new-Serves now m prefix ct options old h =
      elim (Option-cases (issued_certificate now m prefix ct (options_for options old) signing)) [
        | inl e ↦ inl (
          ap (issue_with now m prefix ct options old) h.signs
              ∙ ap (λ o. mark_and_store m prefix ct old signing o m.validating_issuer) e,
          issued_certificate-Fails now m prefix ct (options_for options old) e,
        )
        | inr (c, e) ↦ inr (
          stored m prefix old (marked signing validating ct c),
          marked signing validating ct c,
          ap (issue_with now m prefix ct options old) h.signs
              ∙ (ap (λ o. mark_and_store m prefix ct old signing o m.validating_issuer) e
                  ∙ ap (mark_and_store m prefix ct old signing (some c)) h.validates),
          stored-IsServed m prefix ct old c h,
        )
      ]

  -- What the test for a rotation comes to, once the issuers are there.
  should_rotate-returns :
      (now noise : ℕ) (m : Manager) (c : Certificate)
      → HasIssuers m
      → should_rotate now noise m c
        ≡ returns (expires_soon now noise c || not (is_issued_by signing validating c))
  unfolding should_rotate
  should_rotate-returns now noise m c h = elim (Bool-cases (expires_soon now noise c)) [
    | inl e ↦ rw e
    | inr e ↦
        rw (e, h.signs, h.validates)
          (elim (Bool-cases (c.signing_issuer_id == signing.id)) [ inl s ↦ rw s | inr s ↦ rw s ])
  ]

  kept-IsServed :
      (now noise : ℕ) (m : Manager) (prefix : String) (c : Certificate)
      → HasIssuers m
      → lookup prefix m.cache ≡ some c
      → (expires_soon now noise c || not (is_issued_by signing validating c)) ≡ false
      → IsServed m prefix m c
  kept-IsServed now noise m prefix c h e f = record {
    cached = e;
    issued = ground arith;
    others = λ k d. refl;
    issuers = h;
  }

  -- A run that is equal to one that serves, serves.
  Serves-path :
      (m : Manager) (prefix : String) {r r' : Run (Option (Manager × Certificate))}
      → r ≡ r'
      → Serves m prefix r'
      → Serves m prefix r
  Serves-path m prefix e (inl (f, failure)) = inl (e ∙ f, failure)
  Serves-path m prefix e (inr (m', c, f, served)) = inr (m', c, e ∙ f, served)

  keep_or_issue-Serves :
      (now noise : ℕ) (m : Manager) (prefix ct : String) (options : IssueOptions) (c : Certificate)
      → HasIssuers m
      → lookup prefix m.cache ≡ some c
      → (rotates : Bool)
      → (expires_soon now noise c || not (is_issued_by signing validating c)) ≡ rotates
      → Serves m prefix (issue_or_keep now m prefix ct options c rotates)
  keep_or_issue-Serves now noise m prefix ct options c h e true r =
      issue_new-Serves now m prefix ct options (some c) h
  keep_or_issue-Serves now noise m prefix ct options c h e false r =
      inr (m, c, refl, kept-IsServed now noise m prefix c h e r)

  -- A manager that holds its two issuers answers every call: with an error, if a call of the
  -- signing issuer fails, or with a certificate that carries the marks of the current issuers and that the cache then holds under the key,
  -- the other keys and the issuers unchanged.
  pub issue_certificate-Serves :
      (now noise : ℕ) (m : Manager) (prefix ct : String) (options : IssueOptions)
      → HasIssuers m
      → Serves m prefix (issue_certificate now noise m prefix ct options)
  unfolding issue_certificate
  issue_certificate-Serves now noise m prefix ct options h =
      elim (Option-cases (lookup prefix m.cache)) [
        | inl e ↦
            Serves-path m prefix (ap (issue_for now noise m prefix ct options) e)
              (issue_new-Serves now m prefix ct options none h)
        | inr (c, e) ↦
            Serves-path m prefix
              (ap (issue_for now noise m prefix ct options) e
                ∙ ap (λ r. r >>= issue_or_keep now m prefix ct options c)
                    (should_rotate-returns now noise m c h))
              (keep_or_issue-Serves now noise m prefix ct options c h e _ refl)
      ]

  -- A certificate that was served and does not expire soon is served again, whatever the type and
  -- the options of the second call, and the manager stays as it is.
  pub issue_certificate_again :
      (now noise : ℕ) (m m' : Manager) (prefix ct : String) (options : IssueOptions)
      (c : Certificate)
      → IsServed m prefix m' c
      → expires_soon now noise c ≡ false
      → issue_certificate now noise m' prefix ct options ≡ returns (some (m', c))
  unfolding issue_certificate
  issue_certificate_again now noise m m' prefix ct options c served e =
      let keeps : (expires_soon now noise c || not (is_issued_by signing validating c)) ≡ false =
        or_none e served.issued in
      ap (issue_for now noise m' prefix ct options) served.cached
      ∙ (ap (λ r. r >>= issue_or_keep now m' prefix ct options c)
            (should_rotate-returns now noise m' c served.issuers)
          ∙ ap (issue_or_keep now m' prefix ct options c) keeps)
