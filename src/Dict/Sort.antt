-- ===== src/Dict/Sort.antt =====
-- `json.dumps(..., sort_keys=True)` sorts the entries of a dict by key.
use azure_lakehouse_pipeline.Prelude.{
  String, ◌||◌, false, ◌≡◌, refl, ap, ◌∙◌, [], ◌∷◌, some, str_eq, eq_iff, if◌then◌else◌, arith,
  Bool-cases, inl, inr,
}
use Prim.Native.String.{compare}
use text.Mathlib.Text.{is_le}
use azure_lakehouse_pipeline.Dict.{Dict, get, contains, map_values, IsDistinct, AllEntries}

module _ {ℓ} {V : Type ℓ} where
  unfoldable pub insert_key : String → V → Dict V → Dict V
  insert_key k v [] = (k, v) ∷ []
  insert_key k v ((j, w) ∷ d) =
      if is_le (compare k j) then (k, v) ∷ (j, w) ∷ d else (j, w) ∷ insert_key k v d

  unfoldable pub sort_keys : Dict V → Dict V
  sort_keys [] = []
  sort_keys ((k, v) ∷ d) = insert_key k v (sort_keys d)

  pub contains-insert_key :
      (k j : String) (v : V) (d : Dict V)
      → contains j (insert_key k v d) ≡ str_eq k j || contains j d
  unfolding contains insert_key
  contains-insert_key k j v [] = refl
  contains-insert_key k j v ((i, w) ∷ d) = ground (arith, contains-insert_key k j v d)

  pub contains-sort_keys : (j : String) (d : Dict V) → contains j (sort_keys d) ≡ contains j d
  unfolding contains sort_keys
  contains-sort_keys j [] = refl
  contains-sort_keys j ((k, v) ∷ d) =
      ground (arith, contains-insert_key k j v (sort_keys d), contains-sort_keys j d)

  get-insert_key :
      (k j : String) (v : V) (d : Dict V)
      → contains k d ≡ false
      → get j (insert_key k v d) ≡ (if str_eq k j then some v else get j d)
  unfolding get contains insert_key
  get-insert_key k j v [] h = refl
  get-insert_key k j v ((i, w) ∷ d) h =
      ground (arith, get-insert_key k j v d, eq_iff k j, eq_iff i j, eq_iff i k)

  -- Sorting a dict changes no lookup.
  pub get-sort_keys : (j : String) (d : Dict V) → IsDistinct d → get j (sort_keys d) ≡ get j d
  unfolding get sort_keys
  get-sort_keys j [] h = refl
  get-sort_keys j ((k, v) ∷ d) (new, h) =
      ground
        (arith, contains-sort_keys k d, get-insert_key k j v (sort_keys d), get-sort_keys j d h)

  IsDistinct-insert_key :
      (k : String) (v : V) (d : Dict V)
      → contains k d ≡ false
      → IsDistinct d
      → IsDistinct (insert_key k v d)
  unfolding contains insert_key
  IsDistinct-insert_key k v [] h d = (refl, tt)
  IsDistinct-insert_key k v ((i, w) ∷ e) h (new, d) =
      ground
        (arith, IsDistinct-insert_key k v e, contains-insert_key k i v e, eq_iff i k, eq_iff k i)

  pub IsDistinct-sort_keys : (d : Dict V) → IsDistinct d → IsDistinct (sort_keys d)
  unfolding sort_keys
  IsDistinct-sort_keys [] h = tt
  IsDistinct-sort_keys ((k, v) ∷ d) (new, h) =
      IsDistinct-insert_key k v (sort_keys d) (contains-sort_keys k d ∙ new)
        (IsDistinct-sort_keys d h)

module _ {ℓ κ} {V : Type ℓ} {W : Type κ} (f : V → W) where
  insert_key-map_values :
      (k : String) (v : V) (d : Dict V)
      → insert_key k (f v) (map_values f d) ≡ map_values f (insert_key k v d)
  unfolding insert_key
  insert_key-map_values k v [] = refl
  insert_key-map_values k v ((j, w) ∷ d) = ground (arith, insert_key-map_values k v d)

  -- Sorting looks at the keys only.
  pub sort_keys-map_values : (d : Dict V) → sort_keys (map_values f d) ≡ map_values f (sort_keys d)
  unfolding sort_keys
  sort_keys-map_values [] = refl
  sort_keys-map_values ((k, v) ∷ d) =
      ap (insert_key k (f v)) (sort_keys-map_values d) ∙ insert_key-map_values k v (sort_keys d)

  pub contains-map_values : (k : String) (d : Dict V) → contains k (map_values f d) ≡ contains k d
  unfolding contains
  contains-map_values k [] = refl
  contains-map_values k ((j, v) ∷ d) = ground (arith, contains-map_values k d)

  pub IsDistinct-map_values : (d : Dict V) → IsDistinct d → IsDistinct (map_values f d)
  IsDistinct-map_values [] h = tt
  IsDistinct-map_values ((k, v) ∷ d) (new, h) =
      (contains-map_values k d ∙ new, IsDistinct-map_values d h)

pub map_values-map_values {ℓ κ μ} :
    {U : Type ℓ} {V : Type κ} {W : Type μ} (g : V → W) (f : U → V) (d : Dict U)
    → map_values g (map_values f d) ≡ map_values (λ u. g (f u)) d
map_values-map_values g f [] = refl
map_values-map_values g f ((k, v) ∷ d) = ap (λ e. (k, g (f v)) ∷ e) (map_values-map_values g f d)

module _ {ℓ κ} {V : Type ℓ} (P : String → V → Type κ) where
  insert_key-AllEntries :
      (k : String) (v : V) (d : Dict V) → P k v → AllEntries P d → AllEntries P (insert_key k v d)
  unfolding insert_key
  insert_key-AllEntries k v [] h hs = (h, tt)
  insert_key-AllEntries k v ((j, w) ∷ d) h (hw, hs) = elim (Bool-cases (is_le (compare k j))) [
    | inl before ↦ rw before (h, (hw, hs))
    | inr after ↦ rw after (hw, insert_key-AllEntries k v d h hs)
  ]

  pub AllEntries-sort_keys : (d : Dict V) → AllEntries P d → AllEntries P (sort_keys d)
  unfolding sort_keys
  AllEntries-sort_keys [] h = tt
  AllEntries-sort_keys ((k, v) ∷ d) (h, hs) =
      insert_key-AllEntries k v (sort_keys d) h (AllEntries-sort_keys d hs)
