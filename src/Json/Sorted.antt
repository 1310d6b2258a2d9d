-- ===== src/Json/Sorted.antt =====
-- `sort_keys=True` on values whose objects are well formed.
use azure_lakehouse_pipeline.Prelude.{
  ◌≡◌, refl, ap, ◌∙◌, ◌||◌, [], ◌∷◌, String, false, str_eq, eq_iff, arith,
}
use azure_lakehouse_pipeline.Dict.{Dict, contains, map_values, IsDistinct, AllEntries}
use azure_lakehouse_pipeline.Dict.Sort.{
  insert_key, sort_keys, contains-insert_key, contains-map_values, sort_keys-map_values,
}
use azure_lakehouse_pipeline.Json.{
  Json, Items, Fields, null, bool, int, float, non_finite, str, array, object, nil, cons, end,
  field, entries, of_dict, entries-of_dict, sorted, sorted_items, sorted_fields, IsWellFormed,
  IsWellFormedItems, IsWellFormedFields,
}
use azure_lakehouse_pipeline.Prelude.Int.{ℤ}

pub sorted_fields-of_dict :
    (d : Dict Json) → sorted_fields (of_dict d) ≡ sort_keys (map_values sorted d)
unfolding sorted_fields sort_keys
sorted_fields-of_dict [] = refl
sorted_fields-of_dict ((k, v) ∷ d) = ap (insert_key k (sorted v)) (sorted_fields-of_dict d)

contains-sorted_fields :
    (k : String) (fs : Fields) → contains k (sorted_fields fs) ≡ contains k (entries fs)
unfolding sorted_fields contains
contains-sorted_fields k end = refl
contains-sorted_fields k (field j v fs) =
    contains-insert_key j k (sorted v) (sorted_fields fs)
    ∙ ap (λ b. str_eq j k || b) (contains-sorted_fields k fs)

-- A dict of well-formed values, without a key twice.
abbrev pub IsWellFormedDict : Dict Json → Type 0
IsWellFormedDict [] = Unit
IsWellFormedDict ((k, v) ∷ d) = (contains k d ≡ false) × IsWellFormed v × IsWellFormedDict d

pub of_dict-IsWellFormed : (d : Dict Json) → IsWellFormedDict d → IsWellFormedFields (of_dict d)
unfolding IsWellFormed
of_dict-IsWellFormed [] h = tt
of_dict-IsWellFormed ((k, v) ∷ d) (new, hv, h) =
    (ap (contains k) (entries-of_dict d) ∙ new, hv, of_dict-IsWellFormed d h)

pub entries-IsWellFormed : (fs : Fields) → IsWellFormedFields fs → IsWellFormedDict (entries fs)
unfolding IsWellFormed
entries-IsWellFormed end h = tt
entries-IsWellFormed (field k v fs) (new, hv, h) = (new, hv, entries-IsWellFormed fs h)

insert_key-IsWellFormed :
    (k : String) (v : Json) (d : Dict Json)
    → contains k d ≡ false
    → IsWellFormed v
    → IsWellFormedDict d
    → IsWellFormedDict (insert_key k v d)
unfolding insert_key contains
insert_key-IsWellFormed k v [] new hv h = (refl, hv, tt)
insert_key-IsWellFormed k v ((j, w) ∷ d) new hv (new', hw, h) =
    ground
      (arith, insert_key-IsWellFormed k v d, contains-insert_key k j v d, eq_iff j k, eq_iff k j)

mutual
  unfolding IsWellFormed sorted

  -- Sorting a well-formed value gives one.
  pub sorted-IsWellFormed : (v : Json) → IsWellFormed v → IsWellFormed (sorted v)
  sorted-IsWellFormed null h = tt
  sorted-IsWellFormed (bool b) h = tt
  sorted-IsWellFormed (int n) h = tt
  sorted-IsWellFormed (float m k) h = tt
  sorted-IsWellFormed (non_finite s) h = tt
  sorted-IsWellFormed (str s) h = tt
  sorted-IsWellFormed (array xs) h = sorted_items-IsWellFormed xs h
  sorted-IsWellFormed (object fs) h =
      of_dict-IsWellFormed (sorted_fields fs) (sorted_fields-IsWellFormed fs h)

  sorted_items-IsWellFormed :
      (xs : Items) → IsWellFormedItems xs → IsWellFormedItems (sorted_items xs)
  sorted_items-IsWellFormed nil h = tt
  sorted_items-IsWellFormed (cons v vs) (hv, h) =
      (sorted-IsWellFormed v hv, sorted_items-IsWellFormed vs h)

  sorted_fields-IsWellFormed :
      (fs : Fields) → IsWellFormedFields fs → IsWellFormedDict (sorted_fields fs)
  sorted_fields-IsWellFormed end h = tt
  sorted_fields-IsWellFormed (field k v fs) (new, hv, h) =
      insert_key-IsWellFormed k (sorted v) (sorted_fields fs) (contains-sorted_fields k fs ∙ new)
        (sorted-IsWellFormed v hv) (sorted_fields-IsWellFormed fs h)

-- An object of encoded values, under distinct keys, is well formed.
pub map_values-IsWellFormed {ℓ} :
    {V : Type ℓ} (encode : V → Json) (d : Dict V)
    → IsDistinct d
    → AllEntries (λ k v. IsWellFormed (encode v)) d
    → IsWellFormedDict (map_values encode d)
map_values-IsWellFormed encode [] h a = tt
map_values-IsWellFormed encode ((k, v) ∷ d) (new, h) (hv, a) =
    (contains-map_values encode k d ∙ new, hv, map_values-IsWellFormed encode d h a)

map_values_ints : (d : Dict ℤ) → map_values sorted (map_values int d) ≡ map_values int d
unfolding sorted
map_values_ints [] = refl
map_values_ints ((k, n) ∷ d) = ap (λ e. (k, int n) ∷ e) (map_values_ints d)

-- An object of integers, sorted.
pub sorted_ints :
    (d : Dict ℤ) → sorted_fields (of_dict (map_values int d)) ≡ map_values int (sort_keys d)
sorted_ints d =
    sorted_fields-of_dict (map_values int d)
    ∙ ap sort_keys (map_values_ints d)
    ∙ sort_keys-map_values int d

pub ints-IsWellFormed : (d : Dict ℤ) → IsDistinct d → IsWellFormedDict (map_values int d)
unfolding IsWellFormed
ints-IsWellFormed [] h = tt
ints-IsWellFormed ((k, n) ∷ d) (new, h) =
    (contains-map_values int k d ∙ new, tt, ints-IsWellFormed d h)
