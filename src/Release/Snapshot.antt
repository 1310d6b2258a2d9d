-- ===== src/Release/Snapshot.antt =====
-- `latest` and `snapshot` of control/gold_releases.py, for a reader of the active release.
use azure_lakehouse_pipeline.Json.{JsonCodec, sorted}
use azure_lakehouse_pipeline.Release.Delta.{DeltaProperties}
use azure_lakehouse_pipeline.Release.Store.{snapshot, latest, version_as_of, publish}
use azure_lakehouse_pipeline.Release.{
  GoldRelease, GoldCandidateManifest, gold_release_property, release_from_loaded, metadata,
}
use azure_lakehouse_pipeline.Prelude.{
  some, ◌≡◌, String, str_eq, false, Option-cases, inl, true, arith, inr, sym, ◌∙◌,
}
use azure_lakehouse_pipeline.Result.{ok, ◌>>=◌, >>=-eq-ok}
use azure_lakehouse_pipeline.Release.Parse.{IsValidRelease, release_from_loaded_sound}
use azure_lakehouse_pipeline.Dict.{IsDistinct, get, member, Dict}
use azure_lakehouse_pipeline.Contracts.Gold.{gold_tables}
use azure_lakehouse_pipeline.Prelude.Int.{ℤ}
use azure_lakehouse_pipeline.Release.Publish.{latest-publish, publish-IsDistinct}
use azure_lakehouse_pipeline.Dict.Sort.{sort_keys, get-sort_keys}
use azure_lakehouse_pipeline.Dict.Names.{get-of_subset}
use mathlib.Core.Path.{subst}
use azure_lakehouse_pipeline.Json.Plain.{is_plain}

module _ (json : JsonCodec) (delta : DeltaProperties json) where
  open delta use {Table}

  -- Whatever marker stands on the fact table, the release that `latest` returns is valid: it names a batch
  -- and pins a version of each Gold table and of no other.
  pub latest_sound :
      (t : Table) {r : GoldRelease} → latest json delta (some t) ≡ ok (some r) → IsValidRelease r
  unfolding latest
  latest_sound t {r} h = elim (Option-cases (get gold_release_property (delta.properties t))) [
    | inl missing ↦ absurd (ground arith)
    | inr (raw, e) ↦
        let h' : (release_from_loaded (json.loads raw) >>= λ release. ok (some release))
            ≡ ok (some r) =
          rw e at h in
        let (r0, e0, k) = >>=-eq-ok (release_from_loaded (json.loads raw)) _ h' in
        let same : r0 ≡ r = ground arith in
        subst IsValidRelease same (release_from_loaded_sound (json.loads raw) e0)
  ]

  -- After a publication that succeeds, a snapshot reads every Gold table, at the version that the
  -- release pins. The batch id is not empty, the version dicts of the candidate have no key twice, and the
  -- strings of the marker have no character that JSON escapes and no single quote.
  pub snapshot-publish :
      (c : GoldCandidateManifest) (t : Table) {r : GoldRelease} {t' : Table} (name : String)
      → str_eq c.batch_id "" ≡ false
      → IsDistinct c.silver_versions
      → IsDistinct c.committed_versions
      → publish json delta c t ≡ ok (r, t')
      → is_plain (sorted (metadata c r)) ≡ true
      → member name gold_tables ≡ true
      → (versions : Dict ℤ) × (v : ℤ) × (snapshot json delta (some t') ≡ ok versions)
        × (version_as_of (some versions) "gold" name ≡ ok (some v))
        × (get name r.gold_versions ≡ some v)
  unfolding snapshot version_as_of
  snapshot-publish c t {r} {t'} name named ds dg h plain m =
      let latest' = latest-publish json delta c t named ds dg h plain in
      let valid = latest_sound t' latest' in
      let versions = sort_keys r.gold_versions in
      let (v, e) = get-of_subset name gold_tables versions (ground (arith, valid.complete)) m in
      let gold : IsDistinct r.gold_versions = publish-IsDistinct json delta c t dg h in
      (versions, v, rw latest', rw e, sym (get-sort_keys name r.gold_versions gold) ∙ e)
