-- ===== src/Dict/Names.antt =====
-- The key set of a dict: what updates and sorting do to `set(d)` and to its comparisons.
use azure_lakehouse_pipeline.Prelude.{
  String, List, ◌≡◌, true, ◌&&◌, ◌∙◌, some, sym, ◌∷◌, [], arith, Bool-cases, eq_iff, ap, refl,
  str_eq, inl, ◌||◌, inr,
}
use azure_lakehouse_pipeline.Dict.{
  contains, Dict, put, member, keys, subset, same_set, map_values, get,
}
use azure_lakehouse_pipeline.Dict.Sort.{sort_keys, contains-sort_keys, insert_key}
use mathlib.Core.Path.{ap₂}

module _ {ℓ} {V : Type ℓ} where
  pub member-keys : (k : String) (d : Dict V) → member k (keys d) ≡ contains k d
  unfolding contains
  member-keys k [] = refl
  member-keys k ((j, v) ∷ d) = ap (λ b. str_eq j k || b) (member-keys k d)

  pub keys-put : (k : String) (v : V) (d : Dict V) → contains k d ≡ true → keys (put k v d) ≡ keys d
  unfolding put contains
  keys-put k v [] h = cc
  keys-put k v ((j, w) ∷ d) h = ground (arith, keys-put k v d)

subset-member :
    (k : String) (xs ys : List String)
    → subset xs ys ≡ true
    → member k xs ≡ true
    → member k ys ≡ true
subset-member k [] ys h m = cc
subset-member k (x ∷ xs) ys h m = ground (arith, eq_iff x k, subset-member k xs ys)

subset-cong :
    (xs ys zs : List String)
    → ((k : String) → member k ys ≡ member k zs)
    → subset xs ys ≡ subset xs zs
subset-cong [] ys zs h = refl
subset-cong (x ∷ xs) ys zs h = ground (arith, h x, subset-cong xs ys zs h)

module _ {ℓ} {V : Type ℓ} where
  subset-insert_key :
      (k : String) (v : V) (d : Dict V) (ys : List String)
      → subset (keys (insert_key k v d)) ys ≡ member k ys && subset (keys d) ys
  unfolding insert_key
  subset-insert_key k v [] ys = ground arith
  subset-insert_key k v ((j, w) ∷ d) ys = ground (arith, subset-insert_key k v d ys)

  subset-sort_keys :
      (d : Dict V) (ys : List String) → subset (keys (sort_keys d)) ys ≡ subset (keys d) ys
  unfolding sort_keys
  subset-sort_keys [] ys = refl
  subset-sort_keys ((k, v) ∷ d) ys =
      ground (arith, subset-insert_key k v (sort_keys d) ys, subset-sort_keys d ys)

  -- Sorting keeps the set of keys.
  pub same_set-sort_keys :
      (d : Dict V) (ys : List String) → same_set (keys (sort_keys d)) ys ≡ same_set (keys d) ys
  same_set-sort_keys d ys = ap₂ ◌&&◌ (subset-sort_keys d ys) (
      subset-cong ys (keys (sort_keys d)) (keys d)
        (λ k. member-keys k (sort_keys d) ∙ contains-sort_keys k d ∙ sym (member-keys k d)))

  get-of_contains : (k : String) (d : Dict V) → contains k d ≡ true → (v : V) × (get k d ≡ some v)
  unfolding get contains
  get-of_contains k [] h = absurd (ground arith)
  get-of_contains k ((j, v) ∷ d) h = elim (Bool-cases (str_eq j k)) [
    | inl same ↦ (v, rw same)
    | inr other ↦ let (w, e) = get-of_contains k d (ground arith) in (w, rw other e)
  ]

  -- A name of a set that equals the key set of a dict is a key of the dict.
  pub get-of_subset :
      (k : String) (names : List String) (d : Dict V)
      → subset names (keys d) ≡ true
      → member k names ≡ true
      → (v : V) × (get k d ≡ some v)
  get-of_subset k names d h m =
      get-of_contains k d (sym (member-keys k d) ∙ subset-member k names (keys d) h m)

pub keys-map_values {ℓ κ} :
    {V : Type ℓ} {W : Type κ} (f : V → W) (d : Dict V) → keys (map_values f d) ≡ keys d
keys-map_values f [] = refl
keys-map_values f ((k, v) ∷ d) = ap (λ e. k ∷ e) (keys-map_values f d)

pub contains-of_get {ℓ} :
    {V : Type ℓ} (k : String) {v : V} (d : Dict V) → get k d ≡ some v → contains k d ≡ true
unfolding get contains
contains-of_get k [] h = cc
contains-of_get k {v} ((j, w) ∷ d) h = ground (arith, contains-of_get k {v = v} d)
