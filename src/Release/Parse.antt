-- ===== src/Release/Parse.antt =====
-- `_release_from_json` of control/gold_releases.py, and what a valid release is.
use azure_lakehouse_pipeline.Release.{
  release_from_loaded, GoldRelease, invalid_entry, versions_from_value, version_of,
  validate_versions, release_from_metadata, check_names, metadata, batch_id_of, is_current_schema,
  GoldCandidateManifest, candidate_release,
}
use azure_lakehouse_pipeline.Prelude.{
  String, Option, str_eq, List, ◌≡◌, some, false, any, true, [], ◌∷◌, none, arith, ap, refl, ◌∙◌,
  not, not-false,
}
use azure_lakehouse_pipeline.Prelude.Int.{ℤ, pos, negsuc, ◌+ℤ◌}
use azure_lakehouse_pipeline.Dict.Sort.{sort_keys, insert_key, AllEntries-sort_keys}
use azure_lakehouse_pipeline.Dict.{Dict, map_values, AllEntries, same_set, get, keys, put, subset}
use azure_lakehouse_pipeline.Json.{
  sorted, Json, int, dict, entries-of_dict, sorted_fields, of_dict, str, object, entries,
}
use azure_lakehouse_pipeline.Result.{
  ok, >>=-eq-ok, raise_if, ok-injective, value_error, index, key_error, index-eq-ok, raise_if-eq-ok,
}
use azure_lakehouse_pipeline.Contracts.Gold.{gold_tables}
use azure_lakehouse_pipeline.Dict.Names.{keys-map_values, same_set-sort_keys}
use azure_lakehouse_pipeline.Json.Sorted.{sorted_ints}
use mathlib.Core.Path.{subst}

abbrev pub IsVersion : String → ℤ → Type 0
IsVersion name (pos n) = str_eq name "" ≡ false
IsVersion name (negsuc n) = ⊥

-- A release names its batch, its versions are counts under names, and it pins every Gold table.
pub record IsValidRelease (r : GoldRelease) : Type 0 where
  pub named : str_eq r.batch_id "" ≡ false
  pub silver : AllEntries IsVersion r.silver_versions
  pub gold : AllEntries IsVersion r.gold_versions
  pub complete : same_set (keys r.gold_versions) gold_tables ≡ true

valid_ints : (d : Dict ℤ) → AllEntries IsVersion d → any invalid_entry (map_values int d) ≡ false
unfolding invalid_entry
valid_ints [] h = refl
valid_ints ((k, pos n) ∷ d) (hk, h) = ground (arith, valid_ints d h)
valid_ints ((k, negsuc n) ∷ d) (hk, h) = elim hk [ ]

valid_versions :
    (d : Dict Json) → any invalid_entry d ≡ false → AllEntries IsVersion (map_values version_of d)
unfolding invalid_entry version_of
valid_versions [] h = tt
valid_versions ((k, int (pos n)) ∷ d) h = (ground arith, valid_versions d (ground arith))
valid_versions ((k, v) ∷ d) h = absurd (ground arith)

ints_valid : (d : Dict ℤ) → any invalid_entry (map_values int d) ≡ false → AllEntries IsVersion d
unfolding invalid_entry
ints_valid [] h = tt
ints_valid ((k, pos n) ∷ d) h = (ground arith, ints_valid d (ground arith))
ints_valid ((k, negsuc n) ∷ d) h = absurd (ground arith)

version_of-int : (d : Dict ℤ) → map_values version_of (map_values int d) ≡ d
unfolding version_of
version_of-int [] = refl
version_of-int ((k, n) ∷ d) = ap (λ e. (k, n) ∷ e) (version_of-int d)

abbrev HasNames : Option (List String) → List String → Type 0
HasNames none names = Unit
HasNames (some expected) names = same_set names expected ≡ true

validate_ints :
    (d : Dict ℤ) (expected : Option (List String))
    → AllEntries IsVersion d
    → HasNames expected (keys d)
    → validate_versions (map_values int d) expected ≡ ok tt
unfolding validate_versions check_names
validate_ints d none h n = rw (valid_ints d h)
validate_ints d (some names) h n = rw (valid_ints d h, keys-map_values int d, n)

validate_sound :
    (d : Dict Json) (expected : Option (List String)) {u : Unit {0}}
    → validate_versions d expected ≡ ok u
    → (any invalid_entry d ≡ false) × HasNames expected (keys d)
unfolding validate_versions check_names
validate_sound d none h = (ground arith, tt)
validate_sound d (some names) h = (ground arith, ground arith)

-- The versions of a marker are read back in the order of their names.
versions-sorted :
    (d : Dict ℤ) (expected : Option (List String))
    → AllEntries IsVersion d
    → HasNames expected (keys (sort_keys d))
    → versions_from_value (some (sorted (dict (map_values int d)))) expected ≡ ok (sort_keys d)
unfolding versions_from_value sorted
versions-sorted d expected h n =
    let e = entries-of_dict (sorted_fields (of_dict (map_values int d))) ∙ sorted_ints d in
    rw (e, validate_ints (sort_keys d) expected (AllEntries-sort_keys IsVersion d h) n)
      (ap ok (version_of-int (sort_keys d)))

abbrev pub sorted_release : GoldRelease → GoldRelease
sorted_release r = record r {
  silver_versions = sort_keys r.silver_versions;
  gold_versions = sort_keys r.gold_versions;
}

-- The marker of a valid release is read back as that release.
pub release_from_metadata_lem :
    (candidate : GoldCandidateManifest) (r : GoldRelease)
    → IsValidRelease r
    → release_from_loaded (some (sorted (metadata candidate r))) ≡ ok (sorted_release r)
unfolding release_from_loaded release_from_metadata metadata sorted insert_key get batch_id_of
    is_current_schema
release_from_metadata_lem candidate r v =
    rw
      (
        versions-sorted r.silver_versions none v.silver tt,
        versions-sorted r.gold_versions (some gold_tables) v.gold
            (same_set-sort_keys r.gold_versions gold_tables ∙ v.complete),
      )
      (ground (arith, v.named))

versions_from_value_sound :
    (o : Option Json) (expected : Option (List String)) {d : Dict ℤ}
    → versions_from_value o expected ≡ ok d
    → AllEntries IsVersion d × HasNames expected (keys d)
unfolding versions_from_value
versions_from_value_sound (some (object fs)) expected {d} h =
    let (u, hu, k) = >>=-eq-ok (validate_versions (entries fs) expected) _ h in
    let (clean, names) = validate_sound (entries fs) expected hu in
    let e = ok-injective k in
    subst (λ d. AllEntries IsVersion d × HasNames expected (keys d)) e
      (valid_versions (entries fs) clean, rw (keys-map_values version_of (entries fs)) names)
versions_from_value_sound o expected h = absurd (ground arith)

batch_id_sound : (o : Option Json) {s : String} → batch_id_of o ≡ ok s → str_eq s "" ≡ false
unfolding batch_id_of
batch_id_sound (some (str s)) h = ground arith
batch_id_sound o h = absurd (ground arith)

metadata_sound :
    (d : Dict Json) {r : GoldRelease} → release_from_metadata d ≡ ok r → IsValidRelease r
unfolding release_from_metadata
metadata_sound d {r} h =
    let (u, hu, h1) =
      >>=-eq-ok
        (raise_if (not (is_current_schema (get "schema_version" d)))
          (value_error "Unsupported Gold release schema"))
        _ h in
    let (b, hb, h2) = >>=-eq-ok (batch_id_of (get "batch_id" d)) _ h1 in
    let (s, hs, h3) = >>=-eq-ok (versions_from_value (get "silver_versions" d) none) _ h2 in
    let (g, hg, h4) =
      >>=-eq-ok (versions_from_value (get "gold_versions" d) (some gold_tables)) _ h3 in
    let (gold, names) = versions_from_value_sound (get "gold_versions" d) (some gold_tables) hg in
    subst IsValidRelease (ok-injective h4) (record {
      named = batch_id_sound (get "batch_id" d) hb;
      silver = (versions_from_value_sound (get "silver_versions" d) none hs).0;
      gold = gold;
      complete = names;
    })

-- A marker that parses gives a valid release.
pub release_from_loaded_sound :
    (o : Option Json) {r : GoldRelease} → release_from_loaded o ≡ ok r → IsValidRelease r
unfolding release_from_loaded
release_from_loaded_sound (some (object fs)) h = metadata_sound (entries fs) h
release_from_loaded_sound o h = absurd (ground arith)

-- What the checks of `publish` establish of the release that it writes.
pub record IsCandidateRelease (c : GoldCandidateManifest) (r : GoldRelease) : Type 0 where
  pub batch : r.batch_id ≡ c.batch_id
  pub same_silver : r.silver_versions ≡ c.silver_versions
  pub fact_version : ℤ
  pub had_fact : get "fact_sales" c.committed_versions ≡ some fact_version
  pub next_fact : r.gold_versions ≡ put "fact_sales" (fact_version +ℤ pos 1) c.committed_versions
  pub silver : AllEntries IsVersion c.silver_versions
  pub gold : AllEntries IsVersion c.committed_versions
  pub complete : same_set (keys c.committed_versions) gold_tables ≡ true
  pub known : subset c.changed_tables gold_tables ≡ true

pub candidate_release_sound :
    (c : GoldCandidateManifest) {r : GoldRelease}
    → candidate_release c ≡ ok r
    → IsCandidateRelease c r
unfolding candidate_release
candidate_release_sound c {r} h =
    let silver = map_values int c.silver_versions in
    let gold = map_values int c.committed_versions in
    let (u, hu, h1) = >>=-eq-ok (validate_versions silver none) _ h in
    let (w, hw, h2) = >>=-eq-ok (validate_versions gold (some gold_tables)) _ h1 in
    let (x, hx, h3) =
      >>=-eq-ok
        (raise_if (not (subset c.changed_tables gold_tables))
          (value_error "Unknown changed Gold tables"))
        _ h2 in
    let (v, hv, h4) =
      >>=-eq-ok (index (get "fact_sales" c.committed_versions) (key_error "fact_sales")) _ h3 in
    let (silver_clean, _) = validate_sound silver none hu in
    let (gold_clean, names) = validate_sound gold (some gold_tables) hw in
    subst (IsCandidateRelease c) (ok-injective h4) (record {
      batch = refl;
      same_silver = refl;
      fact_version = v;
      had_fact = index-eq-ok (get "fact_sales" c.committed_versions) (key_error "fact_sales") hv;
      next_fact = refl;
      silver = ints_valid c.silver_versions silver_clean;
      gold = ints_valid c.committed_versions gold_clean;
      complete = rw (keys-map_values int c.committed_versions) at names;
      known = not-false (
          raise_if-eq-ok (not (subset c.changed_tables gold_tables))
            (value_error "Unknown changed Gold tables") hx);
    })
