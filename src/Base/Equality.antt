-- ===== src/Base/Equality.antt =====
-- Go's `==` and `reflect.DeepEqual`, as an interface that each comparable type implements.
use Prim.Native.Nat.{ℕ}
use Prim.Native.String.{String}
use mathlib.Core.Path.{◌≡◌, refl, ap}
use mathlib.Core.Logic.{◌↔◌}
use mathlib.Core.Bool.{Bool, true, false, ◌&&◌}
use mathlib.Core.Option.{Option, none, some}
use mathlib.Core.List.{List, [], ◌∷◌}
use native.Mathlib.Omega.{arith}
use text.Mathlib.Text.{◌==◌ as text_same}
use text.Mathlib.TextEquality.{eq_iff}
use osm_edge.Base.Tests.{nat_same, nat_same_iff}

pub record Comparable {ℓ} (A : Type ℓ) : Type ℓ where
  pub same : A → A → Bool
  pub same_iff : (a b : A) → (same a b ≡ true) ↔ (a ≡ b)

infix 50 ◌==◌
abbrev pub ◌==◌ {ℓ} : {A : Type ℓ} ⦃e : Comparable A⦄ → A → A → Bool
◌==◌ ⦃e⦄ = e.same

abbrev pub ==_iff {ℓ} : {A : Type ℓ} ⦃e : Comparable A⦄ (a b : A) → ((a == b) ≡ true) ↔ (a ≡ b)
==_iff ⦃e⦄ = e.same_iff

pub ==_refl {ℓ} : {A : Type ℓ} ⦃e : Comparable A⦄ (a : A) → (a == a) ≡ true
==_refl ⦃e⦄ a = (e.same_iff a a).1 refl

instance abbrev pub nat_comparable : Comparable ℕ
nat_comparable = record { same = nat_same; same_iff = nat_same_iff }

abbrev bool_same : Bool → Bool → Bool
bool_same true b = b
bool_same false true = false
bool_same false false = true

pub bool_same_iff : (a b : Bool) → (bool_same a b ≡ true) ↔ (a ≡ b)
bool_same_iff a b = ground arith

instance abbrev pub bool_comparable : Comparable Bool
bool_comparable = record { same = bool_same; same_iff = bool_same_iff }

instance abbrev pub string_comparable : Comparable String
string_comparable = record { same = text_same; same_iff = eq_iff }

module _ {ℓ} {A : Type ℓ} ⦃e : Comparable A⦄ where
  abbrev option_same : Option A → Option A → Bool
  option_same none none = true
  option_same (some a) (some b) = a == b
  option_same _ _ = false

  pub option_same_iff : (a b : Option A) → (option_same a b ≡ true) ↔ (a ≡ b)
  option_same_iff none none = ground arith
  option_same_iff (some a) (some b) = ground (arith, e.same_iff a b)
  option_same_iff _ _ = ground arith

  abbrev list_same : List A → List A → Bool
  list_same [] [] = true
  list_same (x ∷ xs) (y ∷ ys) = (x == y) && list_same xs ys
  list_same _ _ = false

  pub list_same_iff : (a b : List A) → (list_same a b ≡ true) ↔ (a ≡ b)
  list_same_iff [] [] = ground arith
  list_same_iff (x ∷ xs) (y ∷ ys) = ground (arith, e.same_iff x y, list_same_iff xs ys)
  list_same_iff _ _ = ground arith

  instance abbrev pub option_comparable : Comparable (Option A)
  option_comparable = record { same = option_same; same_iff = option_same_iff }

  instance abbrev pub list_comparable : Comparable (List A)
  list_comparable = record { same = list_same; same_iff = list_same_iff }

module _ {ℓ κ} {A : Type ℓ} {B : Type κ} ⦃e : Comparable A⦄ ⦃f : Comparable B⦄ where
  abbrev pair_same : A × B → A × B → Bool
  pair_same (a, b) (c, d) = (a == c) && (b == d)

  pub pair_same_iff : (p q : A × B) → (pair_same p q ≡ true) ↔ (p ≡ q)
  pair_same_iff (a, b) (c, d) = ground (arith, e.same_iff a c, f.same_iff b d)

  instance abbrev pub pair_comparable : Comparable (A × B)
  pair_comparable = record { same = pair_same; same_iff = pair_same_iff }

pub same_sym {ℓ} : {A : Type ℓ} ⦃e : Comparable A⦄ (a b : A) → (a == b) ≡ (b == a)
same_sym ⦃e⦄ a b = ground (arith, e.same_iff a b, e.same_iff b a)

pub same_cong {ℓ} :
    {A : Type ℓ} ⦃e : Comparable A⦄ (x a b : A) → (a == b) ≡ true → (x == a) ≡ (x == b)
same_cong ⦃e⦄ x a b h = ap (e.same x) ((e.same_iff a b).0 h)

-- What is unlike one of two equal things is unlike the other.
pub same_differ {ℓ} :
    {A : Type ℓ} ⦃e : Comparable A⦄ (a b m : A)
    → (a == m) ≡ true
    → (b == m) ≡ false
    → (a == b) ≡ false
same_differ ⦃e⦄ a b m h k = ground (arith, e.same_iff a m, e.same_iff b m, e.same_iff a b)
