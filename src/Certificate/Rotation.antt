-- ===== src/Certificate/Rotation.antt =====
-- The rotation of the cached certificates and their release: checkAndRotate and ReleaseCertificate of
-- manager.go.
use osm_edge.Certificate.{
  Certificate, Issuer, Manager, rotation_options, rotate_all, check_and_rotate, remove,
  release_certificate,
}
use osm_edge.Certificate.Laws.{HasIssuers, IsServed, is_issued_by, issue_certificate-Serves}
use osm_edge.Certificate.Calls.{next_manager}
use osm_edge.Base.{
  ℕ, String, Bool, true, false, ◌||◌, none, some, List, [], ◌∷◌, map, ◌≡◌, refl, sym, ap, ◌∙◌, inl,
  inr, arith, ◌==◌, ==_iff, nat_comparable, string_comparable, option_comparable, list_comparable,
  pair_comparable, if◌then◌else◌, Bool-cases, is_some, some_inj, same_sym, elem, lookup, returns,
  ◌>>=◌,
}

or_true_left : {a : Bool} (b : Bool) → a ≡ true → (a || b) ≡ true
or_true_left b h = ground arith

or_true_right : (a : Bool) {b : Bool} → b ≡ true → (a || b) ≡ true
or_true_right a h = ground arith

or_other : {a : Bool} (b c : Bool) → a ≡ false → ((a || b) || c) ≡ true → (b || c) ≡ true
or_other b c h k = ground arith

elem-lookup :
    (k : String) (m : List (String × Certificate)) {c : Certificate}
    → lookup k m ≡ some c
    → elem k (map (λ entry. entry.0) m) ≡ true
elem-lookup k [] e = absurd (let clash = ap is_some e in ground arith)
elem-lookup k ((j, d) ∷ m) e = elim (Bool-cases (j == k)) [
  | inl s ↦ or_true_left (elem k (map (λ entry. entry.0) m)) (same_sym k j ∙ s)
  | inr s ↦ or_true_right (k == j) (elem-lookup k m (sym (rw s) ∙ e))
]

lookup-remove :
    (key k : String) (m : List (String × Certificate))
    → lookup k (remove key m) ≡ (if key == k then none else lookup k m)
lookup-remove key k [] = elim (Bool-cases (key == k)) [ inl t ↦ rw t refl | inr t ↦ rw t refl ]
lookup-remove key k ((j, c) ∷ m) =
    let rest = lookup-remove key k m in
    elim (Bool-cases (j == key)) [
      | inl s ↦
          let same : (j == k) ≡ (key == k) = ap (λ x. x == k) ((==_iff j key).0 s) in
          elim (Bool-cases (key == k)) [
            | inl t ↦ rw (s, t) (rest ∙ rw t refl)
            | inr t ↦ rw (s, same ∙ t, t) (rest ∙ rw t refl)
          ]
      | inr s ↦ elim (Bool-cases (key == k)) [
        | inl t ↦
            let differ : (j == k) ≡ false = sym (ap (λ x. j == x) ((==_iff key k).0 t)) ∙ s in
            rw (s, t, differ) (rest ∙ rw t refl)
        | inr t ↦ rw (s, t) (ap (λ o. if j == k then some c else o) (rest ∙ rw t refl))
      ]
    ]

-- After a release the key has no certificate; those of the other keys are as before.
pub lookup-release_certificate :
    (m : Manager) (key k : String)
    → lookup k (release_certificate m key).cache ≡ (if key == k then none else lookup k m.cache)
unfolding release_certificate
lookup-release_certificate m key k = lookup-remove key k m.cache

module _ (signing validating : Issuer) where
  -- Every certificate of the cache whose key is not in the list carries the marks of the issuers.
  abbrev CurrentBut : Manager → List (String × Certificate) → Type 0
  CurrentBut m certs =
      (k : String) (c : Certificate)
      → lookup k m.cache ≡ some c
      → (elem k (map (λ entry. entry.0) certs) || is_issued_by signing validating c) ≡ true

  CurrentBut-IsServed :
      (m m' : Manager) (key : String) (cert c : Certificate) (certs : List (String × Certificate))
      → CurrentBut m ((key, cert) ∷ certs)
      → IsServed signing validating m key m' c
      → CurrentBut m' certs
  CurrentBut-IsServed m m' key cert c certs h served k d e = elim (Bool-cases (key == k)) [
    | inl s ↦
        let same : c ≡ d =
          some_inj (sym served.cached ∙ (ap (λ j. lookup j m'.cache) ((==_iff key k).0 s) ∙ e)) in
        or_true_right (elem k (map (λ entry. entry.0) certs))
          (sym (ap (is_issued_by signing validating) same) ∙ served.issued)
    | inr s ↦
        let before : lookup k m.cache ≡ some d = sym (served.others k s) ∙ e in
        or_other (elem k (map (λ entry. entry.0) certs)) (is_issued_by signing validating d)
          (same_sym k key ∙ s) (h k d before)
  ]

  rotate_all_current :
      (clock : String → ℕ × ℕ)
      → ((t : ℕ) (cn : String) (sans : List String) (duration : ℕ)
          → is_some (signing.issue t cn sans duration) ≡ true)
      → (certs : List (String × Certificate)) (m : Manager) → HasIssuers signing validating m
      → CurrentBut m certs
      → (m' : Manager) × (rotate_all clock m certs ≡ returns m') × CurrentBut m' []
  unfolding rotate_all
  rotate_all_current clock f [] m h t = (m, refl, t)
  rotate_all_current clock f ((key, cert) ∷ certs) m h t =
      let options = rotation_options key cert in
      elim (issue_certificate-Serves signing validating (clock key).0 (clock key).1 m key
        cert.cert_type options h) [
          | inl (e, (t, cn, sans, duration, failure)) ↦
              absurd (let clash = sym (ap is_some failure) ∙ f t cn sans duration in ground arith)
          | inr (m', c, e, served) ↦
              let rest =
                rotate_all_current clock f certs m' served.issuers
                  (CurrentBut-IsServed m m' key cert c certs t served) in
              (
                rest.0,
                ap (λ r. r >>= (λ issued. rotate_all clock (next_manager m issued) certs)) e
                    ∙ rest.1,
                rest.2,
              )
        ]

  -- If the manager holds its two issuers and the signing issuer never fails, a rotation returns, and
  -- afterwards every certificate of the cache carries the marks of the two issuers.
  pub check_and_rotate_current :
      (clock : String → ℕ × ℕ) (m : Manager)
      → ((t : ℕ) (cn : String) (sans : List String) (duration : ℕ)
          → is_some (signing.issue t cn sans duration) ≡ true)
      → HasIssuers signing validating m
      → (m' : Manager) × (check_and_rotate clock m ≡ returns m')
        × ((k : String) (c : Certificate)
            → lookup k m'.cache ≡ some c
            → is_issued_by signing validating c ≡ true)
  unfolding check_and_rotate
  check_and_rotate_current clock m f h =
      rotate_all_current clock f m.cache m h
        (λ k c e. or_true_left (is_issued_by signing validating c) (elem-lookup k m.cache e))
