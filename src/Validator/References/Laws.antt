-- ===== src/Validator/References/Laws.antt =====
-- Egress policies, egress gateways and traffic settings that pkg/validator/validators.go admits.
use osm_edge.Policy.Resources.{ObjectReference, Egress, EgressGateway, UpstreamTrafficSetting}
use osm_edge.Policy.Client.{Client, list_egress_gateways}
use osm_edge.Policy.Client.Laws.{get_upstream_traffic_setting-by_host}
use osm_edge.Catalog.Egress.{Externals, policy_group_version, upstream_traffic_setting_kind}
use osm_edge.Validator.Backends.{decoded, allowed, admit_unless}
use osm_edge.Validator.References.{
  Counted, counts, stops, count_settings, admit_count, egress_validator, settings_error,
  upstream_traffic_setting_validator, is_global, same_gateway, redefines, egress_gateway_validator,
}
use osm_edge.Base.{
  Run, returns, panics, ◌>>=◌, ℕ, ◌+◌, ◌≤◌, String, Bool, true, false, not, ◌&&◌, Option, none,
  some, List, [], ◌∷◌, ◌≡◌, refl, sym, ap, ◌∙◌, subst, ◌↔◌, ◌⊎◌, inl, inr, arith, ◌==◌,
  nat_comparable, bool_comparable, string_comparable, option_comparable, list_comparable,
  pair_comparable, if◌then◌else◌, ltb, leb, Bool-cases, Option-cases, is_some, length, all, keep,
  All, split,
}

module _ (x : Externals) where
  -- A reference to an HTTP route group of the SMI specs or to a traffic setting of the policy API.
  abbrev pub names_known_kind : String → String → Bool
  names_known_kind group kind =
      if group == x.smi_specs_group_version
      then kind == "HTTPRouteGroup"
      else (group == policy_group_version) && (kind == upstream_traffic_setting_kind)

  abbrev pub is_valid_reference : ObjectReference → Bool
  is_valid_reference m = elim m.api_group [
    | none ↦ false
    | some group ↦ names_known_kind group m.kind
  ]

  abbrev pub is_setting_group : Option String → Bool
  is_setting_group none = false
  is_setting_group (some group) = not (group == x.smi_specs_group_version)

  -- How many valid references are traffic settings.
  abbrev pub setting_count : List ObjectReference → ℕ
  setting_count [] = 0
  setting_count (m ∷ ms) =
      let rest = setting_count ms in if is_setting_group m.api_group then rest + 1 else rest

  abbrev Counts : Bool → ℕ → Run Counted → Type 0
  Counts true n r = r ≡ returns (counts n)
  Counts false n r = (r ≡ panics) ⊎ ((reason : String) × (r ≡ returns (stops reason)))

  count_settings-Counts :
      (ms : List ObjectReference) (n : ℕ)
      → Counts (all is_valid_reference ms) (n + setting_count ms) (count_settings x n ms)
  unfolding count_settings
  count_settings-Counts [] n = ap (λ k. returns (counts k)) (omega arith)
  count_settings-Counts (m ∷ ms) n = elim (Option-cases m.api_group) [
    | inl e ↦ rw e (inl refl)
    | inr (group, e) ↦ elim (Bool-cases (group == x.smi_specs_group_version)) [
      | inl t ↦ elim (Bool-cases (m.kind == "HTTPRouteGroup")) [
        | inl k ↦ rw (e, t, k) (count_settings-Counts ms n)
        | inr k ↦ rw (e, t, k) (inr (_, refl))
      ]
      | inr f ↦ elim (Bool-cases (group == policy_group_version)) [
        | inl t ↦ elim (Bool-cases (m.kind == upstream_traffic_setting_kind)) [
          | inl k ↦
              rw (e, f, t, k)
                (subst (λ k. Counts (all is_valid_reference ms) k (count_settings x (n + 1) ms))
                  (omega arith) (count_settings-Counts ms (n + 1)))
          | inr k ↦ rw (e, f, t, k) (inr (_, refl))
        ]
        | inr t ↦ rw (e, f, t) (inr (_, refl))
      ]
    ]
  ]

  counted_iff :
      (ok : Bool) (n : ℕ) (r : Run Counted)
      → Counts ok n r
      → ((r >>= (λ k. returns (admit_count x k))) ≡ returns allowed) ↔ ((ok && leb n 1) ≡ true)
  counted_iff true n r e = rw e (ground arith)
  counted_iff false n r (inl e) = rw e (λ h. cc, λ h. cc)
  counted_iff false n r (inr (reason, e)) = rw e (λ h. cc, λ h. cc)

  -- The validator of egress policies answers and admits a policy exactly when each of its references
  -- names a known kind of one of the two API groups and at most one is a traffic setting.
  pub egress_validator-allowed_iff :
      (e : Egress)
      → (egress_validator x (decoded e) ≡ returns allowed)
        ↔ ((all is_valid_reference e.matches && leb (setting_count e.matches) 1) ≡ true)
  unfolding egress_validator
  egress_validator-allowed_iff e =
      counted_iff (all is_valid_reference e.matches) (setting_count e.matches)
        (count_settings x 0 e.matches)
        (subst (λ k. Counts (all is_valid_reference e.matches) k (count_settings x 0 e.matches))
          (omega arith) (count_settings-Counts e.matches 0))

-- A second traffic setting cannot be admitted while the first that is listed has another host: the
-- validator looks for its host alone, and the query panics.
pub upstream_traffic_setting_validator-panics :
    (names_status_code : ℕ → Bool) (c : Client) (u first : UpstreamTrafficSetting)
    (rest : List UpstreamTrafficSetting)
    → ltb (length (split b'.' u.host)) 2 ≡ false
    → (u.host == "") ≡ false
    → c.upstream_traffic_settings ≡ first ∷ rest
    → (first.host == u.host) ≡ false
    → upstream_traffic_setting_validator names_status_code c (decoded u) ≡ panics
unfolding upstream_traffic_setting_validator
upstream_traffic_setting_validator-panics names_status_code c u first rest d n e k = rw d (
    ap
      (λ r.
        r >>= (λ matching. returns (admit_unless (settings_error names_status_code u matching))))
      (get_upstream_traffic_setting-by_host c u.host first rest n e k))

-- The same object of the API server.
abbrev pub is_same_object : EgressGateway → EgressGateway → Bool
is_same_object g p = (g.name == p.name) && (g.namespace == p.namespace)

-- The gateways after an admitted one is created or updated.
abbrev pub gateways_after : EgressGateway → List EgressGateway → List EgressGateway
gateways_after g ps = g ∷ keep (λ p. not (is_same_object g p)) ps

module _ (x : Externals) (g : EgressGateway) where
  redefines-keep :
      (ps : List EgressGateway)
      → All (λ p. same_gateway x g p ≡ is_same_object g p) ps
      → redefines x g ps ≡ none
      → keep is_global (keep (λ p. not (is_same_object g p)) ps) ≡ []
  unfolding redefines
  redefines-keep [] a h = refl
  redefines-keep (p ∷ ps) a h = elim (Bool-cases (is_same_object g p)) [
    | inl same ↦ rw same (redefines-keep ps a.1 (sym (rw (a.0 ∙ same)) ∙ h))
    | inr other ↦ elim (Bool-cases (is_global p)) [
      | inl global ↦ absurd (
          let found : is_some (redefines x g (p ∷ ps)) ≡ true = rw (a.0 ∙ other, global) refl in
          let clash : false ≡ true = sym (ap is_some h) ∙ found in ground arith)
      | inr plain ↦ rw (other, plain) (redefines-keep ps a.1 (sym (rw (a.0 ∙ other, plain)) ∙ h))
    ]
  ]

  admit_unless-none : (o : Option String) → admit_unless o ≡ allowed → o ≡ none
  admit_unless-none none h = refl
  admit_unless-none (some reason) h = cc

  keep_fewer :
      (p q : EgressGateway → Bool) (ps : List EgressGateway)
      → length (keep p (keep q ps)) ≤ length (keep p ps)
  keep_fewer p q [] = omega arith
  keep_fewer p q (r ∷ rs) = ground (arith, keep_fewer p q rs)

  -- If the names of gateways differ in more than case, an admitted gateway leaves at most one gateway
  -- with global gateways, if there was at most one before.
  pub egress_gateway_validator-one_global :
      (c : Client)
      → All (λ p. same_gateway x g p ≡ is_same_object g p) c.egress_gateways
      → egress_gateway_validator x c (decoded g) ≡ allowed
      → length (keep is_global c.egress_gateways) ≤ 1
      → length (keep is_global (gateways_after g c.egress_gateways)) ≤ 1
  unfolding egress_gateway_validator list_egress_gateways
  egress_gateway_validator-one_global c a h one = elim (Bool-cases (is_global g)) [
    | inl global ↦
        let others =
          redefines-keep c.egress_gateways a
            (admit_unless-none (redefines x g (list_egress_gateways c)) (sym (rw global) ∙ h)) in
        rw (global, others) (omega arith)
    | inr plain ↦
        rw plain
          (omega (arith, keep_fewer is_global (λ p. not (is_same_object g p)) c.egress_gateways))
  ]
