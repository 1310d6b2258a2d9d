-- ===== src/Json/Values.antt =====
-- A codec whose texts are the values themselves, for the runs at concrete inputs.
use azure_lakehouse_pipeline.Json.{
  JsonCodec, IsWellFormed, Json, array, bool, object, Items, int, cons, float, non_finite, str,
  Fields, field, IsWellFormedItems, IsWellFormedFields, entries, nil, end, null,
}
use azure_lakehouse_pipeline.Prelude.{
  ◌≡◌, Bool, Option, if◌then◌else◌, true, some, none, Bool-cases, inl, arith, ◌&&◌, inr, not, refl,
  false,
}
use mathlib.Core.Path.{subst}
use azure_lakehouse_pipeline.Dict.{contains}

unfoldable mutual
  pub is_well_formed : Json → Bool
  is_well_formed (array xs) = is_well_formed_items xs
  is_well_formed (object fs) = is_well_formed_fields fs
  is_well_formed _ = true

  pub is_well_formed_items : Items → Bool
  is_well_formed_items nil = true
  is_well_formed_items (cons v vs) = is_well_formed v && is_well_formed_items vs

  pub is_well_formed_fields : Fields → Bool
  is_well_formed_fields end = true
  is_well_formed_fields (field k v fs) =
      not (contains k (entries fs)) && (is_well_formed v && is_well_formed_fields fs)

mutual
  unfolding is_well_formed IsWellFormed

  pub is_well_formed_complete : (v : Json) → IsWellFormed v → is_well_formed v ≡ true
  is_well_formed_complete null h = refl
  is_well_formed_complete (bool b) h = refl
  is_well_formed_complete (int n) h = refl
  is_well_formed_complete (float m k) h = refl
  is_well_formed_complete (non_finite s) h = refl
  is_well_formed_complete (str s) h = refl
  is_well_formed_complete (array xs) h = items_complete xs h
  is_well_formed_complete (object fs) h = fields_complete fs h

  items_complete : (xs : Items) → IsWellFormedItems xs → is_well_formed_items xs ≡ true
  items_complete nil h = refl
  items_complete (cons v vs) (hv, h) = rw (is_well_formed_complete v hv) (items_complete vs h)

  fields_complete : (fs : Fields) → IsWellFormedFields fs → is_well_formed_fields fs ≡ true
  fields_complete end h = refl
  fields_complete (field k v fs) (new, hv, h) =
      rw (new, is_well_formed_complete v hv) (fields_complete fs h)

both : (a b : Bool) → (a && b) ≡ true → (a ≡ true) × (b ≡ true)
both a b h = (ground arith, ground arith)

not-true : (a : Bool) → not a ≡ true → a ≡ false
not-true a h = ground arith

mutual
  unfolding is_well_formed IsWellFormed

  is_well_formed_sound : (v : Json) → is_well_formed v ≡ true → IsWellFormed v
  is_well_formed_sound null h = tt
  is_well_formed_sound (bool b) h = tt
  is_well_formed_sound (int n) h = tt
  is_well_formed_sound (float m k) h = tt
  is_well_formed_sound (non_finite s) h = tt
  is_well_formed_sound (str s) h = tt
  is_well_formed_sound (array xs) h = items_sound xs h
  is_well_formed_sound (object fs) h = fields_sound fs h

  items_sound : (xs : Items) → is_well_formed_items xs ≡ true → IsWellFormedItems xs
  items_sound nil h = tt
  items_sound (cons v vs) h =
      let (hv, hvs) = both (is_well_formed v) (is_well_formed_items vs) h in
      (is_well_formed_sound v hv, items_sound vs hvs)

  fields_sound : (fs : Fields) → is_well_formed_fields fs ≡ true → IsWellFormedFields fs
  fields_sound end h = tt
  fields_sound (field k v fs) h =
      let (new, h') =
        both (not (contains k (entries fs))) (is_well_formed v && is_well_formed_fields fs) h in
      let (hv, hfs) = both (is_well_formed v) (is_well_formed_fields fs) h' in
      (not-true (contains k (entries fs)) new, is_well_formed_sound v hv, fields_sound fs hfs)

abbrev pub load_value : Json → Option Json
load_value v = if is_well_formed v then some v else none

pub load_value_sound : (t v : Json) → load_value t ≡ some v → IsWellFormed v
load_value_sound t v h = elim (Bool-cases (is_well_formed t)) [
  | inl good ↦
      let same : t ≡ v = ground arith in subst IsWellFormed same (is_well_formed_sound t good)
  | inr bad ↦ absurd (ground arith)
]

abbrev pub value_codec : JsonCodec
value_codec = record {
  Text = Json;
  dumps = λ v. v;
  loads = load_value;
  loads-dumps = λ v h. rw (is_well_formed_complete v h);
  loads-IsWellFormed = load_value_sound;
}
