-- ===== src/Base/Sets.antt =====
-- The interface of the set library that the program calls (github.com/deckarep/golang-set), with
-- the documented behaviour of the operations used, and lists without repetition as one instance.
use mathlib.Core.Path.{◌≡◌, refl, sym, ◌∙◌}
use mathlib.Core.Logic.{◌↔◌}
use mathlib.Core.Bool.{Bool, true, false, not, ◌&&◌, ◌||◌}
use mathlib.Core.List.{List, [], ◌∷◌, ◌++◌}
use native.Mathlib.Omega.{arith}
use osm_edge.Base.Tests.{if◌then◌else◌, Bool-ext, or_comm}
use osm_edge.Base.Equality.{Comparable, ◌==◌}
use osm_edge.Base.Lists.{elem, nodup, all, elem-append, nodup-concat}

pub record MapSet (A : Type 0) ⦃e : Comparable A⦄ : Type 1 where
  pub Carrier : Type 0
  pub new_set : Carrier
  -- `Add` also says whether the element is new.
  pub add : Carrier → A → Carrier × Bool
  pub contains : Carrier → A → Bool
  pub union : Carrier → Carrier → Carrier
  pub intersect : Carrier → Carrier → Carrier
  pub is_subset : Carrier → Carrier → Bool
  pub equal : Carrier → Carrier → Bool
  -- The elements in the order in which `Iter` yields them.
  pub iter : Carrier → List A
  pub contains-new_set : (a : A) → contains new_set a ≡ false
  pub contains-add : (s : Carrier) (a b : A) → contains (add s a).0 b ≡ ((a == b) || contains s b)
  pub newly_added : (s : Carrier) (a : A) → (add s a).1 ≡ not (contains s a)
  pub contains-union :
      (s t : Carrier) (a : A) → contains (union s t) a ≡ (contains s a || contains t a)
  pub contains-intersect :
      (s t : Carrier) (a : A) → contains (intersect s t) a ≡ (contains s a && contains t a)
  pub is_subset_iff :
      (s t : Carrier)
      → (is_subset s t ≡ true) ↔ ((a : A) → contains s a ≡ true → contains t a ≡ true)
  pub equal_iff : (s t : Carrier) → (equal s t ≡ true) ↔ ((a : A) → contains s a ≡ contains t a)
  pub elem-iter : (s : Carrier) (a : A) → elem a (iter s) ≡ contains s a
  pub nodup-iter : (s : Carrier) → nodup (iter s) ≡ true

-- `NewSetFromSlice`, `NewSetWith`: the elements are added one by one.
module _ {A : Type 0} ⦃e : Comparable A⦄ (M : MapSet A) where
  unfoldable pub add_all : M.Carrier → List A → M.Carrier
  add_all s [] = s
  add_all s (x ∷ xs) = add_all (M.add s x).0 xs

  unfoldable pub of_slice : List A → M.Carrier
  unfolding add_all
  of_slice xs = add_all M.new_set xs

  contains-add_all :
      (s : M.Carrier) (xs : List A) (a : A)
      → M.contains (add_all s xs) a ≡ (M.contains s a || elem a xs)
  unfolding add_all
  contains-add_all s [] a = ground arith
  contains-add_all s (x ∷ xs) a = ground (
    arith,
    contains-add_all (M.add s x).0 xs a,
    M.contains-add s x a,
    e.same_iff a x,
    e.same_iff x a,
  )

  pub contains-of_slice : (xs : List A) (a : A) → M.contains (of_slice xs) a ≡ elem a xs
  unfolding of_slice
  contains-of_slice xs a = ground (arith, contains-add_all M.new_set xs a, M.contains-new_set a)

  -- An element that is added under a condition.
  pub contains-add_if :
      (b : Bool) (s : M.Carrier) (x a : A)
      → M.contains (if b then (M.add s x).0 else s) a ≡ (M.contains s a || (b && (x == a)))
  contains-add_if true s x a = M.contains-add s x a ∙ or_comm (x == a) (M.contains s a)
  contains-add_if false s x a = ground arith

  -- The list holds the elements of the set, each once.
  abbrev pub Tracks : M.Carrier → List A → Type 0
  Tracks s xs = ((a : A) → M.contains s a ≡ elem a xs) × (nodup xs ≡ true)

  -- `if added := s.Add(x); added { xs = append(xs, x) }`
  abbrev pub append_if_new : M.Carrier → List A → A → List A
  append_if_new s xs x = if (M.add s x).1 then xs ++ x ∷ [] else xs

  pub elem-append_if_new :
      (s : M.Carrier) (xs : List A) (x a : A)
      → Tracks s xs
      → elem a (append_if_new s xs x) ≡ (elem a xs || (x == a))
  elem-append_if_new s xs x a t =
      ground
        (arith, M.newly_added s x, t.0 x, elem-append a xs (x ∷ []), e.same_iff a x, e.same_iff x a)

  pub Tracks-add :
      (s : M.Carrier) (xs : List A) (x : A)
      → Tracks s xs
      → Tracks (M.add s x).0 (append_if_new s xs x)
  Tracks-add s xs x t = (
    λ a. ground (arith, M.contains-add s x a, t.0 a, elem-append_if_new s xs x a t),
    ground (arith, M.newly_added s x, t.0 x, t.1, nodup-concat xs x),
  )

  pub Tracks-new_set : Tracks M.new_set []
  Tracks-new_set = (M.contains-new_set, refl)

-- Lists without repetition meet the interface.
module _ {A : Type 0} ⦃e : Comparable A⦄ where
  pub list_intersect : List A → List A → List A
  list_intersect [] ys = []
  list_intersect (x ∷ xs) ys =
      let rest = list_intersect xs ys in if elem x ys then x ∷ rest else rest

  pub dedup : List A → List A
  dedup [] = []
  dedup (x ∷ xs) = let rest = dedup xs in if elem x xs then rest else x ∷ rest

  pub elem-list_intersect :
      (xs ys : List A) (a : A) → elem a (list_intersect xs ys) ≡ (elem a xs && elem a ys)
  unfolding list_intersect
  elem-list_intersect [] ys a = refl
  elem-list_intersect (x ∷ xs) ys a = ground (arith, elem-list_intersect xs ys a, e.same_iff a x)

  pub elem-dedup : (xs : List A) (a : A) → elem a (dedup xs) ≡ elem a xs
  unfolding dedup
  elem-dedup [] a = refl
  elem-dedup (x ∷ xs) a = ground (arith, elem-dedup xs a, e.same_iff a x)

  pub nodup-dedup : (xs : List A) → nodup (dedup xs) ≡ true
  unfolding dedup
  nodup-dedup [] = refl
  nodup-dedup (x ∷ xs) = ground (arith, nodup-dedup xs, elem-dedup xs x)

  pub all-elem_iff :
      (xs ys : List A)
      → (all (λ x. elem x ys) xs ≡ true) ↔ ((a : A) → elem a xs ≡ true → elem a ys ≡ true)
  all-elem_iff [] ys = (λ h a k. ground arith, λ h. refl)
  all-elem_iff (x ∷ xs) ys = (
    λ h a k. ground (arith, (all-elem_iff xs ys).0 (ground arith) a, e.same_iff a x),
    λ h. ground (arith, h x, e.same_iff x x, (all-elem_iff xs ys).1 (λ a k. ground (arith, h a))),
  )

  pub list_equal_iff :
      (xs ys : List A)
      → ((all (λ x. elem x ys) xs && all (λ y. elem y xs) ys) ≡ true)
        ↔ ((a : A) → elem a xs ≡ elem a ys)
  list_equal_iff xs ys = (
    λ h a.
        ground
          (arith, (all-elem_iff xs ys).0 (ground arith) a, (all-elem_iff ys xs).0 (ground arith) a),
    λ h. ground (
      arith,
      (all-elem_iff xs ys).1 (λ a k. ground (arith, h a)),
      (all-elem_iff ys xs).1 (λ a k. ground (arith, h a)),
    ),
  )

  pub elem-concat : (s : List A) (a b : A) → elem b (s ++ a ∷ []) ≡ ((a == b) || elem b s)
  elem-concat s a b = ground (arith, elem-append b s (a ∷ []), e.same_iff a b, e.same_iff b a)

  unfoldable pub list_set : MapSet A
  unfolding list_intersect dedup
  list_set = record {
    Carrier = List A;
    new_set = [];
    add = λ s a. (s ++ a ∷ [], not (elem a s));
    contains = λ s a. elem a s;
    union = λ s t. s ++ t;
    intersect = list_intersect;
    is_subset = λ s t. all (λ x. elem x t) s;
    equal = λ s t. all (λ x. elem x t) s && all (λ y. elem y s) t;
    iter = dedup;
    contains-new_set = λ a. refl;
    contains-add = elem-concat;
    newly_added = λ s a. refl;
    contains-union = λ s t a. elem-append a s t;
    contains-intersect = elem-list_intersect;
    is_subset_iff = all-elem_iff;
    equal_iff = list_equal_iff;
    elem-iter = elem-dedup;
    nodup-iter = nodup-dedup;
  }

module _ {A : Type 0} ⦃e : Comparable A⦄ (M : MapSet A) (s t : M.Carrier) where
  -- Equal sets are equal to the same sets.
  pub equal_cong : (r : M.Carrier) → M.equal s t ≡ true → M.equal r s ≡ M.equal r t
  equal_cong r h =
      let same_elements = (M.equal_iff s t).0 h in
      Bool-ext (M.equal r s) (M.equal r t)
        (λ k. (M.equal_iff r t).1 (λ a. (M.equal_iff r s).0 k a ∙ same_elements a))
        (λ k. (M.equal_iff r s).1 (λ a. (M.equal_iff r t).0 k a ∙ sym (same_elements a)))

  pub equal_refl : M.equal s s ≡ true
  equal_refl = (M.equal_iff s s).1 (λ a. refl)
