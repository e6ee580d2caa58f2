-- ===== src/TrafficPolicy/Hostnames.antt =====
-- MergeInboundPolicies of pkg/trafficpolicy/trafficpolicy.go: inbound policies whose hostnames are
-- a part of each other's become one. `sort.Strings` is a parameter. The rules of
-- a latest policy that is merged into several originals are the same objects in all of them in the
-- code, which later merges extend in each; here each original has its own. The hostnames, of which
-- alone something is proved here, do not depend on that.
use osm_edge.Base.Sets.{of_slice, contains-of_slice}
use osm_edge.SetLibrary.{SetLibrary}
use osm_edge.TrafficPolicy.Types.{InboundTrafficPolicy}
use osm_edge.TrafficPolicy.Rules.{merge_rules}
use osm_edge.Base.{
  String, Bool, true, false, ◌&&◌, ◌||◌, List, [], ◌∷◌, ◌++◌, ◌≡◌, refl, sym, ap, ◌∙◌, inl, inr,
  arith, nat_comparable, bool_comparable, string_comparable, option_comparable, list_comparable,
  pair_comparable, if◌then◌else◌, ltb, Bool-cases, or_assoc, length, any, any-append, elem,
}

module _ (S : SetLibrary) (sort_strings : List String → List String) where
  unfoldable pub slices_union_if_subset : List String → List String → List String
  slices_union_if_subset first second =
      let a = of_slice S.strings first in
      let b = of_slice S.strings second in
      if S.strings.is_subset a b || S.strings.is_subset b a
      then sort_strings (S.strings.iter (S.strings.union a b))
      else []

  abbrev pub merged :
      List String → InboundTrafficPolicy S → InboundTrafficPolicy S → InboundTrafficPolicy S
  merged hosts p l = record p { hostnames = hosts; rules = merge_rules S p.rules l.rules }

  -- The inner loop, with `foundHostnames`.
  unfoldable pub merge_into :
      InboundTrafficPolicy S → List (InboundTrafficPolicy S) → List (InboundTrafficPolicy S) × Bool
  unfolding slices_union_if_subset merge_rules
  merge_into l [] = ([], false)
  merge_into l (p ∷ ps) =
      let rest = merge_into l ps in
      let hosts = slices_union_if_subset p.hostnames l.hostnames in
      if ltb 0 (length hosts) then (merged hosts p l ∷ rest.0, true) else (p ∷ rest.0, rest.1)

  unfoldable pub merge_inbound_policies :
      List (InboundTrafficPolicy S) → List (InboundTrafficPolicy S) → List (InboundTrafficPolicy S)
  unfolding merge_into
  merge_inbound_policies original [] = original
  merge_inbound_policies original (l ∷ latest) =
      let after = merge_into l original in
      merge_inbound_policies (if after.1 then after.0 else after.0 ++ l ∷ []) latest

  -- A policy of the list is for the host.
  abbrev pub serves : String → List (InboundTrafficPolicy S) → Bool
  serves host ps = any (λ p. elem host p.hostnames) ps

  module _
      (same_elements : (xs : List String) (h : String) → elem h (sort_strings xs) ≡ elem h xs) where
    elem-slices_union_if_subset :
        (first second : List String) (h : String)
        → ltb 0 (length (slices_union_if_subset first second)) ≡ true
        → elem h (slices_union_if_subset first second) ≡ (elem h first || elem h second)
    unfolding slices_union_if_subset
    elem-slices_union_if_subset first second h k =
        let a = of_slice S.strings first in
        let b = of_slice S.strings second in
        elim (Bool-cases (S.strings.is_subset a b || S.strings.is_subset b a)) [
          | inl t ↦
              rw (t, slices_union_if_subset)
                (same_elements (S.strings.iter (S.strings.union a b)) h
                  ∙ S.strings.elem-iter (S.strings.union a b) h
                  ∙ S.strings.contains-union a b h
                  ∙ ap (λ c. c || S.strings.contains b h) (contains-of_slice S.strings first h)
                  ∙ ap (λ c. elem h first || c) (contains-of_slice S.strings second h))
          | inr f ↦ absurd (
              let none_found : ltb 0 (length (slices_union_if_subset first second)) ≡ false =
                rw (f, slices_union_if_subset) refl in
              let clash : false ≡ true = sym none_found ∙ k in ground arith)
        ]

    shuffle_merged :
        (here latest there found : Bool)
        → ((here || latest) || (there || (found && latest))) ≡ ((here || there) || (true && latest))
    shuffle_merged here latest there found = ground arith

    serves-merge_into :
        (h : String) (l : InboundTrafficPolicy S) (ps : List (InboundTrafficPolicy S))
        → serves h (merge_into l ps).0
          ≡ (serves h ps || ((merge_into l ps).1 && elem h l.hostnames))
    unfolding merge_into
    serves-merge_into h l [] = refl
    serves-merge_into h l (p ∷ ps) =
        let hosts = slices_union_if_subset p.hostnames l.hostnames in
        let rest = merge_into l ps in
        let round : Bool → List (InboundTrafficPolicy S) × Bool =
          λ b. if b then (merged hosts p l ∷ rest.0, true) else (p ∷ rest.0, rest.1) in
        elim (Bool-cases (ltb 0 (length hosts))) [
          | inl t ↦
              ap (λ b. serves h (round b).0) t
              ∙ ap (λ e. e || serves h rest.0)
                  (elem-slices_union_if_subset p.hostnames l.hostnames h t)
              ∙ ap (λ e. (elem h p.hostnames || elem h l.hostnames) || e) (serves-merge_into h l ps)
              ∙ shuffle_merged (elem h p.hostnames) (elem h l.hostnames) (serves h ps) rest.1
              ∙ ap (λ b. serves h (p ∷ ps) || ((round b).1 && elem h l.hostnames)) (sym t)
          | inr f ↦
              ap (λ b. serves h (round b).0) f
              ∙ ap (λ e. elem h p.hostnames || e) (serves-merge_into h l ps)
              ∙ sym (or_assoc (elem h p.hostnames) (serves h ps) (rest.1 && elem h l.hostnames))
              ∙ ap (λ b. serves h (p ∷ ps) || ((round b).1 && elem h l.hostnames)) (sym f)
        ]

    serves-round :
        (h : String) (l : InboundTrafficPolicy S) (ps : List (InboundTrafficPolicy S))
        → serves h
            (if (merge_into l ps).1 then (merge_into l ps).0 else (merge_into l ps).0 ++ l ∷ [])
          ≡ (serves h ps || elem h l.hostnames)
    serves-round h l ps =
        let after = merge_into l ps in
        elim (Bool-cases after.1) [
          | inl t ↦
              ap (λ b. serves h (if b then after.0 else after.0 ++ l ∷ [])) t
              ∙ serves-merge_into h l ps
              ∙ ap (λ b. serves h ps || (b && elem h l.hostnames)) t
          | inr f ↦
              ap (λ b. serves h (if b then after.0 else after.0 ++ l ∷ [])) f
              ∙ any-append (λ p. elem h p.hostnames) after.0 (l ∷ [])
              ∙ ap (λ e. e || (elem h l.hostnames || false)) (serves-merge_into h l ps)
              ∙ ap
                  (λ b. (serves h ps || (b && elem h l.hostnames)) || (elem h l.hostnames || false))
                  f
              ∙ ground arith
        ]

    -- If sorting keeps the elements, the merged policies are for exactly the hosts that the original
    -- or the latest policies are for.
    pub serves-merge_inbound_policies :
        (original latest : List (InboundTrafficPolicy S)) (h : String)
        → serves h (merge_inbound_policies original latest) ≡ (serves h original || serves h latest)
    unfolding merge_inbound_policies
    serves-merge_inbound_policies original [] h = ground arith
    serves-merge_inbound_policies original (l ∷ latest) h =
        serves-merge_inbound_policies
          (if (merge_into l original).1
            then (merge_into l original).0
            else (merge_into l original).0 ++ l ∷ [])
          latest h
        ∙ ap (λ e. e || serves h latest) (serves-round h l original)
        ∙ or_assoc (serves h original) (elem h l.hostnames) (serves h latest)
