-- ===== src/Validator/Laws.antt =====
-- What the validators of pkg/validator/validators.go admit.
use osm_edge.SetLibrary.{SetLibrary}
use osm_edge.Policy.Resources.{BackendSpec, SourceSpec, IngressBackend, AccessControl}
use osm_edge.Policy.Client.{Client}
use osm_edge.Policy.Client.Laws.{get_ingress_backend_policy-none, get_access_control_policy-none}
use osm_edge.Policy.Conflicts.{set_key}
use osm_edge.Catalog.Egress.{Externals}
use osm_edge.Validator.Backends.{
  decoded, allowed, admit_unless, fake_mesh_svc, first_source_error, Conflict, check,
  check_conflict, Checked, rejected, conflicts, backend_round, check_backends, after_round,
  duplicate_backend, after_backends, ingress_conflict_with, access_control_conflict_with,
  ingress_conflict, ingress_error, ingress_backend_validator, access_control_conflict,
  access_control_error, access_control_validator,
}
use osm_edge.Validator.Sources.{
  is_valid_source, is_valid_ingress_backend, is_valid_access_control_backend,
  first_source_error-valid, ingress_error-valid, access_control_error-valid,
}
use osm_edge.Base.{
  ℕ, String, Bool, true, false, not, ◌&&◌, ◌||◌, Option, none, some, List, [], ◌∷◌, map, ◌≡◌, refl,
  sym, ap, ◌∙◌, subst, ◌↔◌, inl, inr, arith, ◌==◌, nat_comparable, bool_comparable,
  string_comparable, option_comparable, list_comparable, pair_comparable, Bool-cases, Option-cases,
  is_some, all, All, elem, nodup,
}

true_of_not : (a : Bool) → not a ≡ false → a ≡ true
true_of_not a h = ground arith

false_of_not : (a : Bool) → not a ≡ true → a ≡ false
false_of_not a h = ground arith

-- How the loop ends where no cached policy conflicts.
abbrev Ends : Bool → String → Checked → Type 0
Ends true text r = r ≡ conflicts text
Ends false text r = (reason : String) × (r ≡ rejected reason)

shuffle_fresh :
    (same old fresh found : Bool)
    → (not (same || old) && (fresh && not found)) ≡ ((not old && fresh) && not (same || found))
shuffle_fresh same old fresh found = ground arith

shuffle_passes :
    (old valid fresh found distinct rest : Bool)
    → (not old && valid && ((fresh && not found) && distinct && rest))
      ≡ ((not old && fresh) && (not found && distinct) && (valid && rest))
shuffle_passes old valid fresh found distinct rest = ground arith

admitted_iff :
    (ok sound : Bool) (error : Option String)
    → ok ≡ true
    → is_some error ≡ not sound
    → (admit_unless error ≡ allowed) ↔ ((ok && sound) ≡ true)
admitted_iff ok sound none h k = ground arith
admitted_iff ok sound (some reason) h k = ground arith

ended_iff :
    (x : Externals) (sources : List SourceSpec) (ok ok' : Bool) (r : Checked)
    → Ends ok "" r
    → ok ≡ ok'
    → (after_backends x sources r ≡ allowed) ↔ ((ok' && all (is_valid_source x) sources) ≡ true)
ended_iff x sources true ok' r e q = rw e (
    admitted_iff ok' (all (is_valid_source x) sources) (first_source_error x sources) (sym q)
      (first_source_error-valid x sources))
ended_iff x sources false ok' r (reason, e) q = rw (e, sym q) (λ h. ground arith, λ h. ground arith)

module _ (S : SetLibrary) (conflict_of : BackendSpec → Option Conflict)
    (error_of : BackendSpec → Option String) (is_valid : BackendSpec → Bool)
    (none_conflicts : (b : BackendSpec) → conflict_of b ≡ none)
    (errors : (b : BackendSpec) → is_some (error_of b) ≡ not (is_valid b)) where
  -- New keys, and valid backends, one by one.
  abbrev passes : S.keys.Carrier → List BackendSpec → Bool
  passes keys [] = true
  passes keys (b ∷ bs) =
      not (S.keys.contains keys (set_key b))
      && is_valid b
      && passes (S.keys.add keys (set_key b)).0 bs

  round_fine :
      (b : BackendSpec) (seen : List (String × String)) (text : String) (error : Option String)
      → error_of b ≡ error
      → backend_round S conflict_of error_of true b seen text ≡ check error seen text
  round_fine b seen text error h =
      ap (λ c. check_conflict c (error_of b) seen text) (none_conflicts b)
      ∙ ap (λ o. check o seen text) h

  check_backends-passes :
      (bs : List BackendSpec) (keys : S.keys.Carrier) (seen : List (String × String))
      (text : String)
      → Ends (passes keys bs) text (check_backends S conflict_of error_of keys seen text bs)
  unfolding check_backends
  check_backends-passes [] keys seen text = refl
  check_backends-passes (b ∷ bs) keys seen text =
      let added = S.keys.add keys (set_key b) in
      let next = λ (seen' : List (String × String)) (text' : String).
        check_backends S conflict_of error_of added.0 seen' text' bs in
      let newly : added.1 ≡ not (S.keys.contains keys (set_key b)) =
        S.keys.newly_added keys (set_key b) in
      let round =
        λ (n : Bool). after_round (backend_round S conflict_of error_of n b seen text) next in
      elim (Bool-cases (S.keys.contains keys (set_key b))) [
        | inl old ↦ rw old (duplicate_backend b, ap round (newly ∙ ap not old))
        | inr new ↦ elim (Option-cases (error_of b)) [
          | inl fine ↦
              let valid : is_valid b ≡ true =
                true_of_not (is_valid b) (sym (errors b) ∙ ap is_some fine) in
              rw (new, valid)
                (subst (Ends (passes added.0 bs) text)
                  (sym (
                    ap round (newly ∙ ap not new)
                    ∙ ap (λ r. after_round r next) (round_fine b seen text none fine)))
                  (check_backends-passes bs added.0 seen text))
          | inr (reason, bad) ↦
              let invalid : is_valid b ≡ false =
                false_of_not (is_valid b) (sym (errors b) ∙ ap is_some bad) in
              rw (new, invalid)
                (
                  reason,
                  ap round (newly ∙ ap not new)
                      ∙ ap (λ r. after_round r next) (round_fine b seen text (some reason) bad),
                )
        ]
      ]

  abbrev are_fresh : S.keys.Carrier → List BackendSpec → Bool
  are_fresh keys bs = all (λ b. not (S.keys.contains keys (set_key b))) bs

  are_fresh-add :
      (keys : S.keys.Carrier) (k : String × ℕ) (bs : List BackendSpec)
      → are_fresh (S.keys.add keys k).0 bs ≡ (are_fresh keys bs && not (elem k (map set_key bs)))
  are_fresh-add keys k [] = refl
  are_fresh-add keys k (b ∷ bs) =
      rw (S.keys.contains-add keys k (set_key b), are_fresh-add keys k bs)
        (shuffle_fresh (k == set_key b) (S.keys.contains keys (set_key b)) (are_fresh keys bs)
          (elem k (map set_key bs)))

  passes-nodup :
      (bs : List BackendSpec) (keys : S.keys.Carrier)
      → passes keys bs ≡ (are_fresh keys bs && nodup (map set_key bs) && all is_valid bs)
  passes-nodup [] keys = refl
  passes-nodup (b ∷ bs) keys =
      rw (passes-nodup bs (S.keys.add keys (set_key b)).0, are_fresh-add keys (set_key b) bs)
        (shuffle_passes (S.keys.contains keys (set_key b)) (is_valid b) (are_fresh keys bs)
          (elem (set_key b) (map set_key bs)) (nodup (map set_key bs)) (all is_valid bs))

  are_fresh-new_set : (bs : List BackendSpec) → are_fresh S.keys.new_set bs ≡ true
  are_fresh-new_set [] = refl
  are_fresh-new_set (b ∷ bs) = rw (S.keys.contains-new_set (set_key b), are_fresh-new_set bs)

  -- What the loop and the check of the sources admit.
  after_backends-allowed_iff :
      (x : Externals) (sources : List SourceSpec) (bs : List BackendSpec)
      → (after_backends x sources (check_backends S conflict_of error_of S.keys.new_set [] "" bs)
          ≡ allowed)
        ↔ ((nodup (map set_key bs) && all is_valid bs && all (is_valid_source x) sources) ≡ true)
  after_backends-allowed_iff x sources bs =
      ended_iff x sources (passes S.keys.new_set bs) (nodup (map set_key bs) && all is_valid bs)
        (check_backends S conflict_of error_of S.keys.new_set [] "" bs)
        (check_backends-passes bs S.keys.new_set [] "")
        (passes-nodup bs S.keys.new_set
          ∙ ap (λ f. f && nodup (map set_key bs) && all is_valid bs) (are_fresh-new_set bs))

module _ (S : SetLibrary) (c : Client) (x : Externals) where
  -- If every existing ingress backend has a namespace, an ingress backend is admitted exactly when
  -- no two of its backends have the same name and port, each has a protocol of the three and asks for
  -- no unverified clients over gRPC without an authenticated principal, and each source is complete.
  -- Existing ingress backends that select the same services do not matter.
  pub ingress_backend_validator-allowed_iff :
      (ib : IngressBackend)
      → All (λ other. (other.namespace == "") ≡ false) c.ingress_backends
      → (ingress_backend_validator S c x (decoded ib) ≡ allowed) ↔ (
          (nodup (map set_key ib.backends)
            && all (is_valid_ingress_backend x ib) ib.backends
            && all (is_valid_source x) ib.sources)
          ≡ true)
  unfolding ingress_backend_validator
  ingress_backend_validator-allowed_iff ib h =
      after_backends-allowed_iff S (ingress_conflict S c ib) (ingress_error x ib)
        (is_valid_ingress_backend x ib)
        (λ b.
          ap (ingress_conflict_with S c ib) (get_ingress_backend_policy-none (fake_mesh_svc b) c h))
        (ingress_error-valid x ib) x ib.sources ib.backends

  -- If every existing access control has a namespace, an access control is admitted exactly when no
  -- two of its backends have the same name and port, none asks for unverified clients without an
  -- authenticated principal, and each source is complete. Existing access controls that select the
  -- same services do not matter.
  pub access_control_validator-allowed_iff :
      (acl : AccessControl)
      → All (λ other. (other.namespace == "") ≡ false) c.access_controls
      → (access_control_validator S c x (decoded acl) ≡ allowed) ↔ (
          (nodup (map set_key acl.backends)
            && all (is_valid_access_control_backend acl) acl.backends
            && all (is_valid_source x) acl.sources)
          ≡ true)
  unfolding access_control_validator
  access_control_validator-allowed_iff acl h =
      after_backends-allowed_iff S (access_control_conflict S c acl) (access_control_error acl)
        (is_valid_access_control_backend acl)
        (λ b.
          ap (access_control_conflict_with S c acl)
            (get_access_control_policy-none (fake_mesh_svc b) c h))
        (access_control_error-valid acl) x acl.sources acl.backends
