-- ===== src/Catalog/Routes/Laws.antt =====
-- The routes that appear in traffic specs, and the policies that are kept for ports.
use osm_edge.Catalog.Routes.{append_at}
use osm_edge.Base.{
  ℕ, Bool, true, false, Option, none, some, List, [], ◌∷◌, ◌++◌, ◌≡◌, refl, sym, ap, ◌∙◌, inl, inr,
  ◌==◌, ==_iff, nat_comparable, string_comparable, option_comparable, list_comparable,
  pair_comparable, if◌then◌else◌, Bool-cases, append_nil, lookup, lookup-insert,
}

-- The policies at a port.
abbrev pub entries {ℓ} : {A : Type ℓ} → Option (List A) → List A
entries none = []
entries (some ps) = ps

abbrev pub at {ℓ} : {A : Type ℓ} → ℕ → List (ℕ × List A) → List A
at port m = entries (lookup port m)

entries-if :
    {A : Type 0} (b : Bool) (v : List A) (o : Option (List A))
    → entries (if b then some v else o) ≡ (if b then v else entries o)
entries-if true v o = refl
entries-if false v o = refl

entries-appended :
    {A : Type 0} (x : A) (o : Option (List A))
    → (elim o [ none ↦ x ∷ [] | some ps ↦ ps ++ x ∷ [] ]) ≡ entries o ++ x ∷ []
entries-appended x none = refl
entries-appended x (some ps) = refl

-- Appending a policy at a port.
pub at-append_at :
    {A : Type 0} (port q : ℕ) (x : A) (m : List (ℕ × List A))
    → at q (append_at port x m) ≡ (at q m ++ (if port == q then x ∷ [] else []))
at-append_at {A} port q x m =
    let v : List A = elim (lookup port m) [ none ↦ x ∷ [] | some ps ↦ ps ++ x ∷ [] ] in
    ap entries (lookup-insert port q v m)
    ∙ (entries-if (port == q) v (lookup q m) ∙ elim (Bool-cases (port == q)) [
      | inl e ↦
          rw e
            (entries-appended x (lookup port m) ∙ ap (λ k. at k m ++ x ∷ []) ((==_iff port q).0 e))
      | inr e ↦ rw e (sym (append_nil (at q m)))
    ])
