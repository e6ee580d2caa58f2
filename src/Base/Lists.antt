-- ===== src/Base/Lists.antt =====
-- Lists as Go's slices, with Boolean membership and search.
use Prim.Native.Nat.{ℕ, suc, ◌+◌}
use mathlib.Core.Path.{◌≡◌, refl, sym, ap, ◌∙◌}
use mathlib.Core.Bool.{Bool, true, false, not, ◌&&◌, ◌||◌}
use mathlib.Core.Option.{Option, none, some}
use mathlib.Core.List.{List, [], ◌∷◌, ◌++◌, map}
use native.Mathlib.Omega.{arith}
use osm_edge.Base.Tests.{if◌then◌else◌}
use osm_edge.Base.Equality.{Comparable, ◌==◌}

module _ {ℓ} {A : Type ℓ} where
  abbrev pub length : List A → ℕ
  length [] = 0
  length (x ∷ xs) = suc (length xs)

  pub length-append : (xs ys : List A) → length (xs ++ ys) ≡ length xs + length ys
  length-append [] ys = omega arith
  length-append (x ∷ xs) ys = omega (arith, length-append xs ys)

  -- Some entry passes the test, every entry passes it.
  abbrev pub any : (A → Bool) → List A → Bool
  any p [] = false
  any p (x ∷ xs) = p x || any p xs

  abbrev pub all : (A → Bool) → List A → Bool
  all p [] = true
  all p (x ∷ xs) = p x && all p xs

  pub any-append : (p : A → Bool) (xs ys : List A) → any p (xs ++ ys) ≡ (any p xs || any p ys)
  any-append p [] ys = refl
  any-append p (x ∷ xs) ys = ground (arith, any-append p xs ys)

  pub all-append : (p : A → Bool) (xs ys : List A) → all p (xs ++ ys) ≡ (all p xs && all p ys)
  all-append p [] ys = refl
  all-append p (x ∷ xs) ys = ground (arith, all-append p xs ys)

  -- The first entry that passes the test.
  abbrev pub find? : (A → Bool) → List A → Option A
  find? p [] = none
  find? p (x ∷ xs) = if p x then some x else find? p xs

  abbrev pub All {κ} : (A → Type κ) → List A → Type κ
  All P [] = Unit
  All P (x ∷ xs) = P x × All P xs

  pub All-append {κ} : (P : A → Type κ) (xs ys : List A) → All P xs → All P ys → All P (xs ++ ys)
  All-append P [] ys hx hy = hy
  All-append P (x ∷ xs) ys hx hy = (hx.0, All-append P xs ys hx.1 hy)

module _ {ℓ κ} {A : Type ℓ} {B : Type κ} where
  pub any-map : (p : B → Bool) (f : A → B) (xs : List A) → any p (map f xs) ≡ any (λ x. p (f x)) xs
  any-map p f [] = refl
  any-map p f (x ∷ xs) = ap (λ b. p (f x) || b) (any-map p f xs)

module _ {ℓ} {A : Type ℓ} ⦃e : Comparable A⦄ where
  abbrev pub elem : A → List A → Bool
  elem a [] = false
  elem a (x ∷ xs) = (a == x) || elem a xs

  abbrev pub nodup : List A → Bool
  nodup [] = true
  nodup (x ∷ xs) = not (elem x xs) && nodup xs

  pub elem-append : (a : A) (xs ys : List A) → elem a (xs ++ ys) ≡ (elem a xs || elem a ys)
  elem-append a [] ys = refl
  elem-append a (x ∷ xs) ys = ground (arith, elem-append a xs ys)

  -- Appending a new element keeps a list free of repetitions.
  pub nodup-concat :
      (xs : List A) (a : A) → nodup xs ≡ true → elem a xs ≡ false → nodup (xs ++ a ∷ []) ≡ true
  nodup-concat [] a h k = refl
  nodup-concat (x ∷ xs) a h k =
      ground (arith, nodup-concat xs a, elem-append x xs (a ∷ []), e.same_iff a x, e.same_iff x a)

-- A Go map as an association list: the first entry of a key counts.
module _ {ℓ κ} {K : Type ℓ} {V : Type κ} ⦃same_keys : Comparable K⦄ where
  abbrev pub lookup : K → List (K × V) → Option V
  lookup key [] = none
  lookup key ((first, value) ∷ others) = if first == key then some value else lookup key others

  abbrev pub insert : K → V → List (K × V) → List (K × V)
  insert key new [] = (key, new) ∷ []
  insert key new ((first, value) ∷ others) =
      if first == key then (key, new) ∷ others else (first, value) ∷ insert key new others

  pub lookup-insert :
      (key other : K) (new : V) (m : List (K × V))
      → lookup other (insert key new m) ≡ (if key == other then some new else lookup other m)
  lookup-insert key other new [] = refl
  lookup-insert key other new ((first, value) ∷ others) = ground (
    arith,
    lookup-insert key other new others,
    same_keys.same_iff first other,
    same_keys.same_iff first key,
    same_keys.same_iff key other,
  )

module _ {ℓ} {A : Type ℓ} (p : A → Bool) (y : A) where
  -- A search through a list with one more entry at the end.
  pub find?-concat :
      (xs : List A) → find? p xs ≡ none → p y ≡ true → find? p (xs ++ y ∷ []) ≡ some y
  find?-concat [] h k = rw k
  find?-concat (x ∷ xs) h k = ground (arith, find?-concat xs)

  pub find?-concat_other : (xs : List A) → p y ≡ false → find? p (xs ++ y ∷ []) ≡ find? p xs
  find?-concat_other [] k = rw k
  find?-concat_other (x ∷ xs) k = ground (arith, find?-concat_other xs)

module _ {ℓ κ} {A : Type ℓ} {K : Type κ} ⦃e : Comparable K⦄ where
  -- A key that a search does not find is not among the keys.
  pub elem_of_find? :
      (key : A → K) (k : K) (xs : List A)
      → find? (λ x. key x == k) xs ≡ none
      → elem k (map key xs) ≡ false
  elem_of_find? key k [] h = refl
  elem_of_find? key k (x ∷ xs) h =
      ground (arith, elem_of_find? key k xs, e.same_iff (key x) k, e.same_iff k (key x))

-- A loop that appends what a call answers for each entry, and one that keeps what passes a test.
abbrev pub gather {ℓ κ} : {A : Type ℓ} {B : Type κ} → (A → List B) → List A → List B
gather f [] = []
gather f (x ∷ xs) = f x ++ gather f xs

abbrev pub keep {ℓ} : {A : Type ℓ} → (A → Bool) → List A → List A
keep p [] = []
keep p (x ∷ xs) = let rest = keep p xs in if p x then x ∷ rest else rest

pub any-gather {ℓ κ} :
    {A : Type ℓ} {B : Type κ} (p : B → Bool) (f : A → List B) (xs : List A)
    → any p (gather f xs) ≡ any (λ x. any p (f x)) xs
any-gather p f [] = refl
any-gather p f (x ∷ xs) =
    any-append p (f x) (gather f xs) ∙ ap (λ b. any p (f x) || b) (any-gather p f xs)

pub any-keep {ℓ} :
    {A : Type ℓ} (p q : A → Bool) (xs : List A) → any p (keep q xs) ≡ any (λ x. q x && p x) xs
any-keep p q [] = refl
any-keep p q (x ∷ xs) = ground (arith, any-keep p q xs)

pub any-cong {ℓ} :
    {A : Type ℓ} (p q : A → Bool) (xs : List A) → ((a : A) → p a ≡ q a) → any p xs ≡ any q xs
any-cong p q [] h = refl
any-cong p q (x ∷ xs) h = ground (arith, h x, any-cong p q xs h)

pub any-false {ℓ} :
    {A : Type ℓ} (p : A → Bool) (xs : List A) → ((a : A) → p a ≡ false) → any p xs ≡ false
any-false p [] h = refl
any-false p (x ∷ xs) h = ground (arith, h x, any-false p xs h)

pub append_assoc {ℓ} : {A : Type ℓ} (xs ys zs : List A) → ((xs ++ ys) ++ zs) ≡ (xs ++ (ys ++ zs))
append_assoc [] ys zs = refl
append_assoc (x ∷ xs) ys zs = ap (λ rest. x ∷ rest) (append_assoc xs ys zs)

pub append_nil {ℓ} : {A : Type ℓ} (xs : List A) → (xs ++ []) ≡ xs
append_nil [] = refl
append_nil (x ∷ xs) = ap (λ rest. x ∷ rest) (append_nil xs)

pub map-append {ℓ κ} :
    {A : Type ℓ} {B : Type κ} (f : A → B) (xs ys : List A) → map f (xs ++ ys) ≡ map f xs ++ map f ys
map-append f [] ys = refl
map-append f (x ∷ xs) ys = ap (λ rest. f x ∷ rest) (map-append f xs ys)

pub keep-cong {ℓ} :
    {A : Type ℓ} (p q : A → Bool) (xs : List A) → ((a : A) → p a ≡ q a) → keep p xs ≡ keep q xs
keep-cong p q [] h = refl
keep-cong p q (x ∷ xs) h =
    ap (λ rest. if p x then x ∷ rest else rest) (keep-cong p q xs h)
    ∙ ap (λ b. if b then x ∷ keep q xs else keep q xs) (h x)

-- What a loop that starts from a list appends to it, one entry at a time.
pub append-step {ℓ} :
    {A : Type ℓ} (xs ys zs ws : List A) → xs ≡ ys ++ zs → (xs ++ ws) ≡ (ys ++ (zs ++ ws))
append-step xs ys zs ws h = ap (λ l. l ++ ws) h ∙ append_assoc ys zs ws

pub append-if {ℓ} :
    {A : Type ℓ} (b : Bool) (xs : List A) (x : A)
    → (if b then xs ++ x ∷ [] else xs) ≡ xs ++ (if b then x ∷ [] else [])
append-if true xs x = refl
append-if false xs x = sym (append_nil xs)

module _ {ℓ κ} {A : Type ℓ} {B : Type κ} where
  pub map-if :
      {C : Type κ} (b : Bool) (f : A → C) (g : B → C) (x : A) (y : B)
      → f x ≡ g y
      → map f (if b then x ∷ [] else []) ≡ map g (if b then y ∷ [] else [])
  map-if true f g x y h = ap (λ z. z ∷ []) h
  map-if false f g x y h = refl

  keep-if :
      (b : Bool) (f : A → B) (x : A) (xs : List A)
      → map f (if b then x ∷ [] else []) ++ map f xs ≡ map f (if b then x ∷ xs else xs)
  keep-if true f x xs = refl
  keep-if false f x xs = refl

  pub map-keep :
      (f : A → B) (p : A → Bool) (x : A) (xs : List A)
      → map f (keep p (x ∷ [])) ++ map f (keep p xs) ≡ map f (keep p (x ∷ xs))
  map-keep f p x xs = keep-if (p x) f x (keep p xs)
