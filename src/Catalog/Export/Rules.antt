-- ===== src/Catalog/Export/Rules.antt =====
-- The export by which a service is let in, and its first rule for the service's port.
use osm_edge.Service.{MeshService, namespaced_key}
use osm_edge.Multicluster as Multicluster
use osm_edge.Multicluster.{
  Condition, ServiceExportRule, ServiceExport, rules_out, get_exported_rule,
}
use osm_edge.Base.{
  ◌%◌, ◌^◌, String, Bool, true, false, not, ◌&&◌, Option, none, some, List, [], ◌∷◌, ◌++◌, ◌≡◌,
  refl, sym, ap, ◌∙◌, ◌≢◌, ◌↔◌, inl, inr, arith, ◌==◌, ==_iff, nat_comparable, bool_comparable,
  string_comparable, option_comparable, list_comparable, pair_comparable, if◌then◌else◌, Bool-cases,
  some_inj, any, find?, All,
}

-- A condition lets an export stand: it does not say that the export is not valid, or in conflict.
abbrev pub Stands : Condition → Type 0
Stands k = (k.type ≡ "Valid" → k.status ≡ "True") × (k.type ≡ "Conflict" → k.status ≡ "False")

-- The first rule for the service's port.
abbrev pub IsFirstRule : List ServiceExportRule → MeshService → ServiceExportRule → Type 0
IsFirstRule rules svc rule =
    (earlier : List ServiceExportRule) × (later : List ServiceExportRule) × (rules
      ≡ earlier ++ rule ∷ later)
    × All (λ r. r.port_number % 2 ^ 16 ≢ svc.port) earlier
    × (rule.port_number % 2 ^ 16 ≡ svc.port)

-- The rule that an export gives the service, if its conditions let it stand.
abbrev pub IsRuleOf : Option ServiceExport → MeshService → ServiceExportRule → Type 0
IsRuleOf o svc rule =
    (e : ServiceExport) × (o ≡ some e) × All Stands e.conditions × IsFirstRule e.rules svc rule

-- The rule by which a service is exported: that of the export of its name.
abbrev pub IsExportedBy : Multicluster.Client → MeshService → ServiceExportRule → Type 0
IsExportedBy c svc rule = IsRuleOf (c.service_export_by_key (namespaced_key svc)) svc rule

-- When a first entry is found.
module _ {ℓ} {A : Type ℓ} (p : A → Bool) where
  find_first :
      (xs : List A) (x : A)
      → find? p xs ≡ some x
      → (earlier : List A) × (later : List A) × (xs ≡ earlier ++ x ∷ later)
        × All (λ y. p y ≡ false) earlier
        × (p x ≡ true)
  find_first [] x h = absurd (let clash : none ≡ some x = h in cc)
  find_first (y ∷ ys) x h = elim (Bool-cases (p y)) [
    | inl e ↦
        let here : some y ≡ some x = ground arith in
        let same : y ≡ x = some_inj here in ([], ys, ap (λ z. z ∷ ys) same, tt, ap p (sym same) ∙ e)
    | inr e ↦
        let (earlier, later, same, others, this) =
          find_first ys x (let further : find? p ys ≡ some x = ground arith in further) in
        (y ∷ earlier, later, ap (λ zs. y ∷ zs) same, (e, others), this)
  ]

  first_found :
      (earlier : List A) (x : A) (later : List A)
      → All (λ y. p y ≡ false) earlier
      → p x ≡ true
      → find? p (earlier ++ x ∷ later) ≡ some x
  first_found [] x later h k = rw k
  first_found (y ∷ ys) x later h k =
      let rest = first_found ys x later h.1 k in let other = h.0 in ground arith

All-cong {ℓ κ μ} :
    {A : Type ℓ} (P : A → Type κ) (Q : A → Type μ) (xs : List A)
    → ((a : A) → P a → Q a)
    → All P xs
    → All Q xs
All-cong P Q [] f h = tt
All-cong P Q (x ∷ xs) f h = (f x h.0, All-cong P Q xs f h.1)

any-All {ℓ} :
    {A : Type ℓ} (p : A → Bool) (xs : List A) → (any p xs ≡ false) ↔ All (λ a. p a ≡ false) xs
any-All p [] = (λ h. tt, λ h. refl)
any-All p (x ∷ xs) = (
  λ h. (ground arith, (any-All p xs).0 (ground arith)),
  λ h. let rest = (any-All p xs).1 h.1 in let first = h.0 in ground arith,
)

-- A state that a type of condition must be in.
must :
    (type wanted state value : String)
    → (((type == wanted) && not (state == value)) ≡ false) ↔ (type ≡ wanted → state ≡ value)
must type wanted state value = (
  λ h e. elim (Bool-cases (state == value)) [
    | inl k ↦ (==_iff state value).0 k
    | inr k ↦ absurd (let same = (==_iff type wanted).1 e in ground arith)
  ],
  λ h. elim (Bool-cases (type == wanted)) [
    | inl e ↦ let same = (==_iff state value).1 (h ((==_iff type wanted).0 e)) in ground arith
    | inr e ↦ ground arith
  ],
)

Stands-iff : (k : Condition) → (rules_out k ≡ false) ↔ Stands k
Stands-iff k = (
  λ h. (
    (must k.type "Valid" k.status "True").0 (ground arith),
    (must k.type "Conflict" k.status "False").0 (ground arith),
  ),
  λ h.
      let valid = (must k.type "Valid" k.status "True").1 h.0 in
      let settled = (must k.type "Conflict" k.status "False").1 h.1 in ground arith,
)

abbrev at_port : MeshService → ServiceExportRule → Bool
at_port svc r = (r.port_number % 2 ^ 16) == svc.port

found_iff :
    (rules : List ServiceExportRule) (svc : MeshService) (rule : ServiceExportRule)
    → (find? (at_port svc) rules ≡ some rule) ↔ IsFirstRule rules svc rule
found_iff rules svc rule = (
  λ h.
      let (earlier, later, same, others, this) = find_first (at_port svc) rules rule h in
      (
        earlier,
        later,
        same,
        All-cong (λ r. at_port svc r ≡ false) (λ r. r.port_number % 2 ^ 16 ≢ svc.port) earlier
            (λ r e k.
              let same_port = (==_iff (r.port_number % 2 ^ 16) svc.port).1 k in
              absurd (let off = e in ground arith))
            others,
        (==_iff (rule.port_number % 2 ^ 16) svc.port).0 this,
      ),
  λ (earlier, later, same, others, this).
      ap (find? (at_port svc)) same
      ∙ first_found (at_port svc) earlier rule later
          (All-cong (λ r. r.port_number % 2 ^ 16 ≢ svc.port) (λ r. at_port svc r ≡ false) earlier
            (λ r k. elim (Bool-cases (at_port svc r)) [
              | inl e ↦ absurd (k ((==_iff (r.port_number % 2 ^ 16) svc.port).0 e))
              | inr e ↦ e
            ])
            others)
          ((==_iff (rule.port_number % 2 ^ 16) svc.port).1 this),
)

-- The rule that the code takes of an export that was looked up.
abbrev rule_of : MeshService → Option ServiceExport → Option ServiceExportRule
rule_of svc o = elim o [
  | none ↦ none
  | some e ↦ if any rules_out e.conditions then none else find? (at_port svc) e.rules
]

rule_of_iff :
    (o : Option ServiceExport) (svc : MeshService) (rule : ServiceExportRule)
    → (rule_of svc o ≡ some rule) ↔ IsRuleOf o svc rule
rule_of_iff none svc rule = (
  λ h. absurd (let clash : none ≡ some rule = h in cc),
  λ (e, found, stands, rest). absurd (let clash = found in cc),
)
rule_of_iff (some e) svc rule = (
  λ h. elim (Bool-cases (any rules_out e.conditions)) [
    | inl k ↦ absurd (let clash : none ≡ some rule = sym (rw k refl) ∙ h in cc)
    | inr k ↦ (
      e,
      refl,
      All-cong (λ a. rules_out a ≡ false) Stands e.conditions (λ a. (Stands-iff a).0)
          ((any-All rules_out e.conditions).0 k),
      (found_iff e.rules svc rule).0
          (let first : find? (at_port svc) e.rules ≡ some rule = ground arith in first),
    )
  ],
  λ (e', found, stands, rest).
      let same : e ≡ e' = some_inj found in
      let stand =
        (any-All rules_out e'.conditions).1 (
          All-cong Stands (λ a. rules_out a ≡ false) e'.conditions (λ a. (Stands-iff a).1)
            stands) in
      ap (λ x. rule_of svc (some x)) same ∙ rw stand ((found_iff e'.rules svc rule).1 rest),
)

pub exported_iff :
    (c : Multicluster.Client) (svc : MeshService) (rule : ServiceExportRule)
    → (get_exported_rule c svc ≡ some rule) ↔ IsExportedBy c svc rule
unfolding get_exported_rule
exported_iff c svc rule = rule_of_iff (c.service_export_by_key (namespaced_key svc)) svc rule
