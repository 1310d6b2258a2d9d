-- ===== src/Release/Publish.antt =====
-- `publish` and `latest` of control/gold_releases.py.
use azure_lakehouse_pipeline.Release.{
  GoldCandidateManifest, GoldRelease, texts, metadata, candidate_release, gold_release_property,
  sort_names,
}
use azure_lakehouse_pipeline.Prelude.Int.{◌+ℤ◌, ℤ, pos, negsuc}
use azure_lakehouse_pipeline.Prelude.{
  String, str_eq, ◌≡◌, false, arith, ap, List, ◌∷◌, ◌∙◌, some, [], refl, true,
}
use azure_lakehouse_pipeline.Release.Parse.{
  IsVersion, IsCandidateRelease, IsValidRelease, candidate_release_sound, sorted_release,
  release_from_metadata_lem,
}
use azure_lakehouse_pipeline.Dict.Laws.{AllEntries-get, put-AllEntries, get-put, put-IsDistinct}
use azure_lakehouse_pipeline.Json.{JsonCodec, IsWellFormed, IsWellFormedItems, sorted, int}
use azure_lakehouse_pipeline.Release.Delta.{DeltaProperties, set_delta_table_property, sql_literal}
use azure_lakehouse_pipeline.Dict.{same_set, contains, keys, IsDistinct, get, map_values}
use azure_lakehouse_pipeline.Release.Store.{publish, latest}
use azure_lakehouse_pipeline.Contracts.Gold.{gold_tables}
use azure_lakehouse_pipeline.Result.{ok, >>=-eq-ok, ok-injective}
use azure_lakehouse_pipeline.Json.Sorted.{
  of_dict-IsWellFormed, ints-IsWellFormed, sorted-IsWellFormed,
}
use azure_lakehouse_pipeline.Dict.Names.{keys-put, contains-of_get}
use mathlib.Core.Path.{subst}
use azure_lakehouse_pipeline.Json.Plain.{is_plain}

IsVersion-next : (name : String) (n : ℤ) → IsVersion name n → IsVersion name (n +ℤ pos 1)
unfolding ◌+ℤ◌
IsVersion-next name (pos n) h = ground arith
IsVersion-next name (negsuc n) h = elim h [ ]

candidate-IsValidRelease :
    {c : GoldCandidateManifest} {r : GoldRelease}
    → str_eq c.batch_id "" ≡ false
    → IsCandidateRelease c r
    → IsValidRelease r
candidate-IsValidRelease {c} {r} named w =
    let fact = AllEntries-get IsVersion "fact_sales" c.committed_versions w.gold w.had_fact in
    record {
      named = rw w.batch named;
      silver = rw w.same_silver w.silver;
      gold = rw w.next_fact (
          put-AllEntries IsVersion "fact_sales" (w.fact_version +ℤ pos 1) c.committed_versions
            (IsVersion-next "fact_sales" w.fact_version fact) w.gold);
      complete =
          ap (λ ks. same_set ks gold_tables)
            (ap keys w.next_fact
              ∙ keys-put "fact_sales" (w.fact_version +ℤ pos 1) c.committed_versions
                  (contains-of_get "fact_sales" c.committed_versions w.had_fact))
          ∙ w.complete;
    }

texts-IsWellFormed : (names : List String) → IsWellFormedItems (texts names)
unfolding texts IsWellFormed
texts-IsWellFormed [] = tt
texts-IsWellFormed (s ∷ names) = (tt, texts-IsWellFormed names)

metadata-IsWellFormed :
    (c : GoldCandidateManifest) (r : GoldRelease)
    → IsDistinct r.silver_versions
    → IsDistinct r.gold_versions
    → IsWellFormed (metadata c r)
unfolding metadata IsWellFormed contains
metadata-IsWellFormed c r s g =
    let silver =
      of_dict-IsWellFormed (map_values int r.silver_versions)
        (ints-IsWellFormed r.silver_versions s) in
    let gold =
      of_dict-IsWellFormed (map_values int r.gold_versions) (ints-IsWellFormed r.gold_versions g) in
    (
      refl,
      tt,
      (
        refl,
        tt,
        (
          refl,
          tt,
          (
            refl,
            texts-IsWellFormed (sort_names c.changed_tables),
            (refl, tt, (refl, silver, (refl, gold, tt))),
          ),
        ),
      ),
    )

module _ (json : JsonCodec) (delta : DeltaProperties json) where
  open delta use {Table, version}

  publish_inv :
      (c : GoldCandidateManifest) (t : Table) {r : GoldRelease} {t' : Table}
      → publish json delta c t ≡ ok (r, t')
      → (candidate_release c ≡ ok r)
        × (delta.set_property
              (json.dumps (sorted (metadata c r)))
              gold_release_property
              (delta.double_quotes (json.dumps (sorted (metadata c r))))
              t
            ≡ ok t')
  unfolding publish set_delta_table_property sql_literal
  publish_inv c t {r} {t'} h =
      let (r0, e, k) = >>=-eq-ok (candidate_release c) _ h in
      let text = json.dumps (sorted (metadata c r0)) in
      let (t0, e', k') =
        >>=-eq-ok (delta.set_property text gold_release_property (delta.double_quotes text) t) _
          k in
      let same : r0 ≡ r = ap (λ x. x.0) (ok-injective k') in
      let same_table : t0 ≡ t' = ap (λ x. x.1) (ok-injective k') in
      (
        e ∙ ap ok same,
        subst
            (λ x.
              delta.set_property (json.dumps (sorted (metadata c x))) gold_release_property
                (delta.double_quotes (json.dumps (sorted (metadata c x)))) t
              ≡ ok t')
            same (e' ∙ ap ok same_table),
      )

  -- After a publication that succeeds, a reader resolves exactly the release that was returned, its
  -- versions in the order of their tables. The batch id is not empty, as `latest` wants it, the
  -- version dicts of the candidate have no key twice, and the strings of the marker have no character
  -- that JSON escapes and no single quote, since `_sql_literal` leaves backslashes as they are.
  pub latest-publish :
      (c : GoldCandidateManifest) (t : Table) {r : GoldRelease} {t' : Table}
      → str_eq c.batch_id "" ≡ false
      → IsDistinct c.silver_versions
      → IsDistinct c.committed_versions
      → publish json delta c t ≡ ok (r, t')
      → is_plain (sorted (metadata c r)) ≡ true
      → latest json delta (some t') ≡ ok (some (sorted_release r))
  unfolding latest
  latest-publish c t {r} {t'} named ds dg h plain =
      let (e, set) = publish_inv c t h in
      let w = candidate_release_sound c e in
      let text = sorted (metadata c r) in
      let silver : IsDistinct r.silver_versions = rw w.same_silver ds in
      let gold : IsDistinct r.gold_versions =
        rw w.next_fact
          (put-IsDistinct "fact_sales" (w.fact_version +ℤ pos 1) c.committed_versions dg) in
      let wf = sorted-IsWellFormed (metadata c r) (metadata-IsWellFormed c r silver gold) in
      let (no_quote, no_backslash) = delta.dumps-plain text plain in
      let literal = delta.double_quotes-plain (json.dumps text) no_quote in
      let stored =
        delta.get-set_property (json.dumps text) gold_release_property (json.dumps text) t t'
          (subst (λ x. delta.set_property (json.dumps text) gold_release_property x t ≡ ok t')
            literal set)
          no_quote no_backslash in
      rw (
        stored,
        json.loads-dumps text wf,
        release_from_metadata_lem c r (candidate-IsValidRelease named w),
      )

  pub publish-IsDistinct :
      (c : GoldCandidateManifest) (t : Table) {r : GoldRelease} {t' : Table}
      → IsDistinct c.committed_versions
      → publish json delta c t ≡ ok (r, t')
      → IsDistinct r.gold_versions
  publish-IsDistinct c t {r} dg h =
      let w = candidate_release_sound c (publish_inv c t h).0 in
      rw w.next_fact (put-IsDistinct "fact_sales" (w.fact_version +ℤ pos 1) c.committed_versions dg)

  -- Where a publication succeeds and the candidate has the fact table at the table's version, the release
  -- pins the fact table at the version that the publication's own commit made, and every other name at
  -- the version that the candidate committed.
  pub publish-versions :
      (c : GoldCandidateManifest) (t : Table) {r : GoldRelease} {t' : Table}
      → publish json delta c t ≡ ok (r, t')
      → get "fact_sales" c.committed_versions ≡ some (version t)
      → (get "fact_sales" r.gold_versions ≡ some (version t'))
        × ((name : String)
            → str_eq "fact_sales" name ≡ false
            → get name r.gold_versions ≡ get name c.committed_versions)
  publish-versions c t {r} {t'} h at_table =
      let (e, set) = publish_inv c t h in
      let w = candidate_release_sound c e in
      let text = json.dumps (sorted (metadata c r)) in
      let fact : w.fact_version ≡ version t = ground (arith, w.had_fact) in
      let next =
        delta.version-set_property text gold_release_property (delta.double_quotes text) t t' set in
      (rw (w.next_fact, get-put, next) (cc fact), λ name other. rw (w.next_fact, get-put, other))
