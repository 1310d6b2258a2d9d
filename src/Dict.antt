-- ===== src/Dict.antt =====
-- Python's `dict` with string keys, as the list of its entries in insertion order.
pub mod Laws
pub mod Sort
pub mod Names
use azure_lakehouse_pipeline.Prelude.{
  ℕ, String, Bool, true, false, ◌||◌, ◌≡◌, List, [], ◌∷◌, map, Option, none, some, str_eq,
  if◌then◌else◌, ◌&&◌,
}

abbrev pub Dict {ℓ} : Type ℓ → Type ℓ
Dict V = List (String × V)

module _ {ℓ} {V : Type ℓ} where
  -- `d.get(k)`; `d[k]` raises where this is `none`.
  unfoldable pub get : String → Dict V → Option V
  get k [] = none
  get k ((j, v) ∷ d) = if str_eq j k then some v else get k d

  -- `k in d`.
  unfoldable pub contains : String → Dict V → Bool
  contains k [] = false
  contains k ((j, v) ∷ d) = str_eq j k || contains k d

  -- `d[k] = v`: an old key keeps its place, a new one comes last.
  unfoldable pub put : String → V → Dict V → Dict V
  put k v [] = (k, v) ∷ []
  put k v ((j, w) ∷ d) = if str_eq j k then (j, v) ∷ d else (j, w) ∷ put k v d

  -- `{k: v for k, v in entries}`, from the entries already in `d`.
  unfoldable pub put_all : Dict V → Dict V → Dict V
  put_all d [] = d
  put_all d ((k, v) ∷ entries) = put_all (put k v d) entries

  abbrev pub of_entries : Dict V → Dict V
  of_entries entries = put_all [] entries

  abbrev pub keys : Dict V → List String
  keys [] = []
  keys ((k, v) ∷ d) = k ∷ keys d

  abbrev pub values : Dict V → List V
  values [] = []
  values ((k, v) ∷ d) = v ∷ values d

  -- No key occurs twice, as in every Python dict.
  abbrev pub IsDistinct : Dict V → Type 0
  IsDistinct [] = Unit
  IsDistinct ((k, v) ∷ d) = (contains k d ≡ false) × IsDistinct d

-- A predicate of every entry.
abbrev pub AllEntries {ℓ κ} : {V : Type ℓ} → (String → V → Type κ) → Dict V → Type κ
AllEntries P [] = Unit
AllEntries P ((k, v) ∷ d) = P k v × AllEntries P d

-- The same keys, with a function of each value.
abbrev pub map_values {ℓ κ} : {V : Type ℓ} {W : Type κ} → (V → W) → Dict V → Dict W
map_values f [] = []
map_values f ((k, v) ∷ d) = (k, f v) ∷ map_values f d

-- `k in names` for a sequence of names.
abbrev pub member : String → List String → Bool
member k [] = false
member k (j ∷ names) = str_eq j k || member k names

-- `set(xs) <= set(ys)`.
abbrev pub subset : List String → List String → Bool
subset [] ys = true
subset (x ∷ xs) ys = if member x ys then subset xs ys else false

-- `set(xs) == set(ys)`.
abbrev pub same_set : List String → List String → Bool
same_set xs ys = subset xs ys && subset ys xs
