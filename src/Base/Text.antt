-- ===== src/Base/Text.antt =====
-- Go's `strings` and `fmt.Sprintf` on whole texts: splitting at a separator, trimming a suffix,
-- decimal numbers. A separator is given by its code point.
use Prim.Native.Nat.{ℕ, zero, suc, ◌+◌, ◌*◌, ◌-◌, ◌/◌, ◌%◌, ◌<◌}
use Prim.Native.Char.{Char, code}
use Prim.Native.String
use Prim.Native.String.{String, [], ◌∷◌, count}
use mathlib.Core.Path.{◌≡◌, refl, ap, sym, ◌∙◌}
use mathlib.Core.Bool.{Bool, true, false, ◌||◌}
use mathlib.Core.List.{List}
use native.Mathlib.Omega.{arith}
use text.Mathlib.TextEquality.{eq_iff}
use text.Mathlib.TextPositions.{eq_refl}
use text.Mathlib.TextLemmas.{nil-append, cons-append, length-append, append_cancel_left}
use osm_edge.Base.Tests.{ltb, nat_same, nat_same_iff, if◌then◌else◌, Bool-cases}
use osm_edge.Base.Equality.{◌==◌, string_comparable}
use mathlib.Core.Logic.{inl, inr}

-- The pieces of a formatted text, one after the other.
abbrev pub sprintf : List String → String
sprintf List.[] = ""
sprintf (List.◌∷◌ s List.[]) = s
sprintf (List.◌∷◌ s (List.◌∷◌ t rest)) = String.◌++◌ s (sprintf (List.◌∷◌ t rest))

-- The separator stands in the text.
unfoldable pub has : ℕ → String → Bool
has d [] = false
has d (c ∷ s) = nat_same (code c) d || has d s

abbrev pub push : Char → List String → List String
push c List.[] = List.◌∷◌ (c ∷ []) List.[]
push c (List.◌∷◌ t rest) = List.◌∷◌ (c ∷ t) rest

-- `strings.Split` at a separator of one character: never empty.
unfoldable pub split : ℕ → String → List String
split d [] = List.◌∷◌ "" List.[]
split d (c ∷ s) =
    let rest = split d s in if nat_same (code c) d then List.◌∷◌ "" rest else push c rest

pub split-free : (d : ℕ) (s : String) → has d s ≡ false → split d s ≡ List.◌∷◌ s List.[]
unfolding split has
split-free d [] h = refl
split-free d (c ∷ s) h = ground (arith, split-free d s)

-- Splitting after a first piece that holds no separator.
split-cons :
    (d : ℕ) (a : String) (c : Char) (s : String)
    → has d a ≡ false
    → nat_same (code c) d ≡ true
    → split d (String.◌++◌ a (c ∷ s)) ≡ List.◌∷◌ a (split d s)
unfolding split has
split-cons d [] c s h k = rw (nil-append (c ∷ s)) (ground arith)
split-cons d (b ∷ a) c s h k = rw (cons-append b a (c ∷ s)) (ground (arith, split-cons d a c s))

-- A separator in a format string stands between the pieces as a character.
pub separate : (c : Char) (s : String) → String.◌++◌ (c ∷ "") s ≡ c ∷ s
separate c s = cons-append c "" s ∙ ap (λ t. c ∷ t) (nil-append s)

module _ (c : Char) (a s : String) (free : has (code c) a ≡ false) where
  -- The first piece of a text `a`, separator, rest.
  pub split-separator :
      split (code c) (String.◌++◌ a (String.◌++◌ (c ∷ "") s)) ≡ List.◌∷◌ a (split (code c) s)
  split-separator =
      rw separate (split-cons (code c) a c s free ((nat_same_iff (code c) (code c)).1 refl))

head-eq : {x y : String} {xs ys : List String} → List.◌∷◌ x xs ≡ List.◌∷◌ y ys → x ≡ y
head-eq h = cc

-- A separator that does not occur in the first pieces cuts two equal texts at the same place.
pub cut :
    (c : Char) (a b s t : String)
    → has (code c) a ≡ false
    → has (code c) b ≡ false
    → String.◌++◌ a (String.◌++◌ (c ∷ "") s) ≡ String.◌++◌ b (String.◌++◌ (c ∷ "") t)
    → (a ≡ b) × (s ≡ t)
cut c a b s t ha hb h =
    let same_head : a ≡ b =
      head-eq (sym (split-separator c a s ha) ∙ ap (split (code c)) h ∙ split-separator c b t hb) in
    (
      same_head,
      append_cancel_left (c ∷ "") s t (
          append_cancel_left a _ _
            (h ∙ ap (λ u. String.◌++◌ u (String.◌++◌ (c ∷ "") t)) (sym same_head))),
    )

pub has-append : (d : ℕ) (s t : String) → has d (String.◌++◌ s t) ≡ (has d s || has d t)
unfolding has
has-append d [] t = rw (nil-append t)
has-append d (c ∷ s) t = rw (cons-append c s t) (ground (arith, has-append d s t))

-- `strings.TrimSuffix`
unfoldable pub trim_suffix : String → String → String
trim_suffix [] suffix = ""
trim_suffix (c ∷ s) suffix =
    let rest = trim_suffix s suffix in if (c ∷ s) == suffix then "" else c ∷ rest

longer : (c : Char) (s t : String) → ((c ∷ String.◌++◌ s t) == t) ≡ false
longer c s t = elim (Bool-cases ((c ∷ String.◌++◌ s t) == t)) [
  | inl e ↦ absurd (
      omega (
        arith,
        ap count ((eq_iff (c ∷ String.◌++◌ s t) t).0 e),
        length-append s t,
        String.count.cons c (String.◌++◌ s t),
      ))
  | inr e ↦ e
]

pub trim_suffix-append : (s t : String) → trim_suffix (String.◌++◌ s t) t ≡ s
unfolding trim_suffix
trim_suffix-append [] [] = rw (nil-append "")
trim_suffix-append [] (c ∷ t) = rw (nil-append (c ∷ t), eq_refl (c ∷ t))
trim_suffix-append (c ∷ s) t =
    rw (cons-append c s t, longer c s t) (ap (λ u. c ∷ u) (trim_suffix-append s t))

-- `%d`
digit : ℕ → String
digit zero = "0"
digit (suc zero) = "1"
digit (suc (suc zero)) = "2"
digit (suc (suc (suc zero))) = "3"
digit (suc (suc (suc (suc zero)))) = "4"
digit (suc (suc (suc (suc (suc zero))))) = "5"
digit (suc (suc (suc (suc (suc (suc zero)))))) = "6"
digit (suc (suc (suc (suc (suc (suc (suc zero))))))) = "7"
digit (suc (suc (suc (suc (suc (suc (suc (suc zero)))))))) = "8"
digit _ = "9"

decimal_from : ℕ → ℕ → String
decimal_from zero n = ""
decimal_from (suc fuel) n =
    let front = decimal_from fuel (n / 10) in
    if ltb n 10 then digit n else String.◌++◌ front (digit (n % 10))

-- The number's own value is fuel enough, since each digit divides it by ten.
unfoldable pub decimal : ℕ → String
unfolding decimal_from digit
decimal n = decimal_from (suc n) n

number_from : ℕ → String → ℕ
number_from n [] = n
number_from n (c ∷ s) = number_from (n * 10 + (code c - 48)) s

number_from-append :
    (n : ℕ) (s t : String) → number_from n (String.◌++◌ s t) ≡ number_from (number_from n s) t
unfolding number_from
number_from-append n [] t = rw (nil-append t)
number_from-append n (c ∷ s) t =
    rw (cons-append c s t) (number_from-append (n * 10 + (code c - 48)) s t)

number_from-digit : (n k : ℕ) → k < 10 → number_from n (digit k) ≡ n * 10 + k
unfolding number_from digit
number_from-digit n zero h = refl
number_from-digit n (suc zero) h = refl
number_from-digit n (suc (suc zero)) h = refl
number_from-digit n (suc (suc (suc zero))) h = refl
number_from-digit n (suc (suc (suc (suc zero)))) h = refl
number_from-digit n (suc (suc (suc (suc (suc zero))))) h = refl
number_from-digit n (suc (suc (suc (suc (suc (suc zero)))))) h = refl
number_from-digit n (suc (suc (suc (suc (suc (suc (suc zero))))))) h = refl
number_from-digit n (suc (suc (suc (suc (suc (suc (suc (suc zero)))))))) h = refl
number_from-digit n (suc (suc (suc (suc (suc (suc (suc (suc (suc zero))))))))) h = refl
number_from-digit n (suc (suc (suc (suc (suc (suc (suc (suc (suc (suc k)))))))))) h =
    absurd (omega arith)

number_from-decimal_from : (fuel n : ℕ) → n < fuel → number_from 0 (decimal_from fuel n) ≡ n
unfolding decimal_from
number_from-decimal_from zero n h = absurd (omega arith)
number_from-decimal_from (suc fuel) n h = elim (Bool-cases (ltb n 10)) [
  | inl e ↦ rw e (number_from-digit 0 n (ground arith) ∙ omega arith)
  | inr e ↦ rw e (
      number_from-append 0 (decimal_from fuel (n / 10)) (digit (n % 10))
      ∙ ap (λ m. number_from m (digit (n % 10)))
          (number_from-decimal_from fuel (n / 10) (ground arith))
      ∙ number_from-digit (n / 10) (n % 10) (omega arith)
      ∙ omega arith)
]

-- Two numbers that are printed alike are equal.
pub decimal_injective : (m n : ℕ) → decimal m ≡ decimal n → m ≡ n
unfolding decimal
decimal_injective m n h =
    sym (number_from-decimal_from (suc m) m (omega arith))
    ∙ ap (number_from 0) h
    ∙ number_from-decimal_from (suc n) n (omega arith)

decimal_test : sprintf (List.◌∷◌ (decimal 65535) (List.◌∷◌ (decimal 0) List.[])) ≡ "655350"
unfolding decimal
decimal_test = refl

split_test : split b'.' "a.bc." ≡ List.◌∷◌ "a" (List.◌∷◌ "bc" (List.◌∷◌ "" List.[]))
unfolding split
split_test = refl
