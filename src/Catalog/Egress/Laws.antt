-- ===== src/Catalog/Egress/Laws.antt =====
-- What the removal of duplicates and the settings of an egress policy promise.
use osm_edge.TrafficPolicy.Types.{TrafficMatch, EgressClusterConfig}
use osm_edge.SetLibrary.{SetLibrary}
use osm_edge.Catalog.Egress.{
  Externals, entries_by_hash, values, deduplicate, deduplicate_traffic_matches,
  deduplicate_cluster_configs, allowed_ip_ranges,
}
use osm_edge.Base.{
  ℕ, String, Bool, true, not, ◌&&◌, ◌||◌, Option, none, some, List, [], ◌∷◌, map, ◌≡◌, refl, sym,
  ap, ◌∙◌, inl, inr, arith, ◌==◌, nat_comparable, string_comparable, option_comparable,
  list_comparable, pair_comparable, Bool-cases, Option-cases, is_some, or_assoc, or_comm, and_true,
  and_true_right, and_cong, same_sym, any, all, All, elem, nodup, insert,
}

module _ {A : Type 0} (hash : A → Option ℕ) where
  -- The hashes of some entries, in order; none if one cannot be hashed.
  abbrev pub all_hashed : List A → Bool
  all_hashed xs = all (λ x. is_some (hash x)) xs

  abbrev pub has_hash : ℕ → A → Bool
  has_hash h x = hash x == some h

  -- Each entry is kept at its hash.
  abbrev AtHashes : List (ℕ × A) → Type 0
  AtHashes m = All (λ entry. hash entry.1 ≡ some entry.0) m

  abbrev keys_of : List (ℕ × A) → List ℕ
  keys_of m = map (λ entry. entry.0) m

  AtHashes-insert :
      (h : ℕ) (x : A) (m : List (ℕ × A)) → hash x ≡ some h → AtHashes m → AtHashes (insert h x m)
  AtHashes-insert h x [] e t = (e, t)
  AtHashes-insert h x ((k, y) ∷ m) e t = elim (Bool-cases (k == h)) [
    | inl s ↦ rw s (e, t.1)
    | inr s ↦ rw s (t.0, AtHashes-insert h x m e t.1)
  ]

  elem-keys-insert :
      (h : ℕ) (x : A) (m : List (ℕ × A)) (k : ℕ)
      → elem k (keys_of (insert h x m)) ≡ ((k == h) || elem k (keys_of m))
  elem-keys-insert h x [] k = refl
  elem-keys-insert h x ((j, y) ∷ m) k = ground (arith, elem-keys-insert h x m k)

  nodup-keys-insert :
      (h : ℕ) (x : A) (m : List (ℕ × A))
      → nodup (keys_of m) ≡ true
      → nodup (keys_of (insert h x m)) ≡ true
  nodup-keys-insert h x [] n = refl
  nodup-keys-insert h x ((j, y) ∷ m) n =
      ground (arith, nodup-keys-insert h x m, elem-keys-insert h x m j)

  -- The values of such a map have the hashes that are its keys.
  any-has_hash :
      (m : List (ℕ × A)) (k : ℕ) → AtHashes m → any (has_hash k) (values m) ≡ elem k (keys_of m)
  any-has_hash [] k t = refl
  any-has_hash ((j, y) ∷ m) k t = rw t.0 (
      ap (λ b. b || any (has_hash k) (values m)) (same_sym j k)
      ∙ ap (λ b. (k == j) || b) (any-has_hash m k t.1))

  elem-map_hash :
      (m : List (ℕ × A)) (k : ℕ)
      → AtHashes m
      → elem (some k) (map hash (values m)) ≡ elem k (keys_of m)
  elem-map_hash [] k t = refl
  elem-map_hash ((j, y) ∷ m) k t = rw t.0 (ap (λ b. (k == j) || b) (elem-map_hash m k t.1))

  nodup-map_hash :
      (m : List (ℕ × A))
      → AtHashes m
      → nodup (keys_of m) ≡ true
      → nodup (map hash (values m)) ≡ true
  nodup-map_hash [] t n = refl
  nodup-map_hash ((j, y) ∷ m) t n =
      let parts = and_true (not (elem j (keys_of m))) (nodup (keys_of m)) n in
      rw t.0 (and_cong (ap not (elem-map_hash m j t.1) ∙ parts.0) (nodup-map_hash m t.1 parts.1))

  all-values-insert :
      (p : A → Bool) (h : ℕ) (x : A) (m : List (ℕ × A))
      → p x ≡ true
      → all p (values m) ≡ true
      → all p (values (insert h x m)) ≡ true
  all-values-insert p h x [] e t = ground arith
  all-values-insert p h x ((j, y) ∷ m) e t = ground (arith, all-values-insert p h x m)

  -- How the loops go on after their fallible step.
  abbrev insert_next : A → List A → List (ℕ × A) → Option ℕ → Option (List (ℕ × A))
  insert_next x xs m none = none
  insert_next x xs m (some h) = entries_by_hash hash (insert h x m) xs

  abbrev map_values : Option (List (ℕ × A)) → Option (List A)
  map_values none = none
  map_values (some m) = some (values m)

  -- The map after the loop: its keys are those from before and the hashes of the entries.
  record IsFilled (m : List (ℕ × A)) (xs : List A) (m' : List (ℕ × A)) : Type 0 where
    at_hashes : AtHashes m'
    distinct : nodup (keys_of m') ≡ true
    keys : (k : ℕ) → elem k (keys_of m') ≡ (elem k (keys_of m) || any (has_hash k) xs)
    members : (p : A → Bool) → all p (values m) ≡ true → all p xs ≡ true → all p (values m') ≡ true

  entries_by_hash-IsFilled :
      (xs : List A) (m : List (ℕ × A))
      → AtHashes m
      → nodup (keys_of m) ≡ true
      → all_hashed xs ≡ true
      → (m' : List (ℕ × A)) × (entries_by_hash hash m xs ≡ some m') × IsFilled m xs m'
  unfolding entries_by_hash
  entries_by_hash-IsFilled [] m t n h = (
    m,
    refl,
    record { at_hashes = t; distinct = n; keys = λ k. ground arith; members = λ p a b. a },
  )
  entries_by_hash-IsFilled (x ∷ xs) m t n h =
      let parts = and_true (is_some (hash x)) (all_hashed xs) h in
      elim (Option-cases (hash x)) [
        | inl e ↦ absurd (let clash = sym (ap is_some e) ∙ parts.0 in ground arith)
        | inr (k, e) ↦
            let rest =
              entries_by_hash-IsFilled xs (insert k x m) (AtHashes-insert k x m e t)
                (nodup-keys-insert k x m n) parts.1 in
            (
              rest.0,
              ap (insert_next x xs m) e ∙ rest.1,
              record {
                at_hashes = rest.2.at_hashes;
                distinct = rest.2.distinct;
                keys = λ j.
                    rest.2.keys j
                    ∙ rw e (
                        ap (λ b. b || any (has_hash j) xs)
                          (elem-keys-insert k x m j ∙ or_comm (j == k) (elem j (keys_of m)))
                        ∙ (or_assoc (elem j (keys_of m)) (j == k) (any (has_hash j) xs)
                            ∙ ap (λ b. elem j (keys_of m) || (b || any (has_hash j) xs))
                                (same_sym j k)));
                members = λ p a b.
                    let both = and_true (p x) (all p xs) b in
                    rest.2.members p (all-values-insert p k x m both.0 a) both.1;
              },
            )
      ]

  -- The list without duplicates: each hash once, exactly the hashes of the list, and only entries
  -- of the list.
  pub record IsDeduplicated (xs ys : List A) : Type 0 where
    pub distinct : nodup (map hash ys) ≡ true
    pub same_hashes : (k : ℕ) → any (has_hash k) ys ≡ any (has_hash k) xs
    pub members : (p : A → Bool) → all p xs ≡ true → all p ys ≡ true

  deduplicate-IsDeduplicated :
      (xs : List A)
      → all_hashed xs ≡ true
      → (ys : List A) × (deduplicate hash xs ≡ some ys) × IsDeduplicated xs ys
  unfolding deduplicate
  deduplicate-IsDeduplicated xs h =
      let filled = entries_by_hash-IsFilled xs [] tt refl h in
      (
        values filled.0,
        ap map_values filled.1,
        record {
          distinct = nodup-map_hash filled.0 filled.2.at_hashes filled.2.distinct;
          same_hashes = λ k. any-has_hash filled.0 k filled.2.at_hashes ∙ filled.2.keys k;
          members = λ p b. filled.2.members p refl b;
        },
      )

-- If every traffic match can be hashed, the matches without duplicates have the same hashes as the
-- given ones, each once, and are among them.
pub deduplicate_traffic_matches-IsDeduplicated :
    (x : Externals) (matches : List TrafficMatch)
    → all_hashed x.hash_match matches ≡ true
    → (ys : List TrafficMatch) × (deduplicate_traffic_matches x matches ≡ some ys)
      × IsDeduplicated x.hash_match matches ys
unfolding deduplicate_traffic_matches
deduplicate_traffic_matches-IsDeduplicated x matches h =
    deduplicate-IsDeduplicated x.hash_match matches h

-- If every cluster configuration can be hashed, the configurations without duplicates have the same
-- hashes as the given ones, each once, and are among them.
pub deduplicate_cluster_configs-IsDeduplicated :
    (x : Externals) (configs : List EgressClusterConfig)
    → all_hashed x.hash_config configs ≡ true
    → (ys : List EgressClusterConfig) × (deduplicate_cluster_configs x configs ≡ some ys)
      × IsDeduplicated x.hash_config configs ys
unfolding deduplicate_cluster_configs
deduplicate_cluster_configs-IsDeduplicated x configs h =
    deduplicate-IsDeduplicated x.hash_config configs h

-- The ranges of an HTTP egress route are those of the policy that parse, each once.
allowed_ip_ranges-parse :
    (x : Externals) (S : SetLibrary) (ranges : List String) (seen : S.strings.Carrier)
    → ((range : String)
        → elem range (allowed_ip_ranges x S seen ranges)
          ≡ (elem range ranges && x.parses_cidr range && not (S.strings.contains seen range)))
      × (nodup (allowed_ip_ranges x S seen ranges) ≡ true)
unfolding allowed_ip_ranges
allowed_ip_ranges-parse x S [] seen = (λ range. refl, refl)
allowed_ip_ranges-parse x S (r ∷ ranges) seen = (
  λ range. ground (
    arith,
    (allowed_ip_ranges-parse x S ranges seen).0 range,
    (allowed_ip_ranges-parse x S ranges (S.strings.add seen r).0).0 range,
    S.strings.contains-add seen r range,
    S.strings.newly_added seen r,
    string_comparable.same_iff range r,
    string_comparable.same_iff r range,
  ),
  ground (
    arith,
    (allowed_ip_ranges-parse x S ranges seen).1,
    (allowed_ip_ranges-parse x S ranges (S.strings.add seen r).0).1,
    (allowed_ip_ranges-parse x S ranges (S.strings.add seen r).0).0 r,
    S.strings.contains-add seen r r,
    S.strings.newly_added seen r,
    string_comparable.same_iff r r,
  ),
)

-- The IP ranges of an HTTP egress route are those of the policy that parse, each once.
pub allowed_ip_ranges-new_set :
    (x : Externals) (S : SetLibrary) (ranges : List String)
    → (nodup (allowed_ip_ranges x S S.strings.new_set ranges) ≡ true)
      × ((range : String)
          → elem range (allowed_ip_ranges x S S.strings.new_set ranges)
            ≡ (elem range ranges && x.parses_cidr range))
allowed_ip_ranges-new_set x S ranges =
    let found = allowed_ip_ranges-parse x S ranges S.strings.new_set in
    (
      found.1,
      λ range.
          found.0 range
          ∙ (ap (λ b. elem range ranges && x.parses_cidr range && not b)
                (S.strings.contains-new_set range)
              ∙ and_true_right (elem range ranges && x.parses_cidr range)),
    )
