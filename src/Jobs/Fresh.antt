-- ===== src/Jobs/Fresh.antt =====
-- When `_downstream_is_current` lets a batch skip Silver and Gold.
use azure_lakehouse_pipeline.Json.{JsonCodec}
use azure_lakehouse_pipeline.Prelude.Int.{ℤ, eq_ℤ, pos, negsuc}
use azure_lakehouse_pipeline.Jobs.Current.{
  is_at_version, inspect_table, downstream_is_current, committed_version, is_silver_schema,
  silver_pipelines,
}
use azure_lakehouse_pipeline.Prelude.{
  Option, String, ◌≡◌, List, true, some, arith, all, ap, All, none, ◌∷◌, Bool-cases, refl, inl, ◌∙◌,
  inr, false, sym, [],
}
use azure_lakehouse_pipeline.Delta.{Commit, DeltaPipelineCommit, try_latest_delta_pipeline_commit}
use azure_lakehouse_pipeline.Release.{GoldRelease}
use azure_lakehouse_pipeline.Result.{Result, traverse, ok, ◌>>=◌, >>=-eq-ok, ok-injective}
use azure_lakehouse_pipeline.Dict.{same_set, get, keys}
use azure_lakehouse_pipeline.Contracts.Silver.{silver_tables}
use mathlib.Core.Path.{subst}

eq_ℤ_sound : (a b : ℤ) → eq_ℤ a b ≡ true → a ≡ b
eq_ℤ_sound (pos m) (pos n) h = ap pos (ground arith)
eq_ℤ_sound (pos m) (negsuc n) h = absurd (ground arith)
eq_ℤ_sound (negsuc m) (pos n) h = absurd (ground arith)
eq_ℤ_sound (negsuc m) (negsuc n) h = ap negsuc (ground arith)

at_version_sound :
    (o v : Option ℤ) → is_at_version o v ≡ true → (w : ℤ) × (o ≡ some w) × (v ≡ some w)
unfolding is_at_version
at_version_sound none v h = absurd (ground arith)
at_version_sound (some a) none h = absurd (ground arith)
at_version_sound (some a) (some b) h = (b, ap some (eq_ℤ_sound a b h), refl)

module _ (json : JsonCodec) (history : String → Option (List (Commit json.Text))) where
  -- The newest data commit of a Silver table has the current schema, and its version is the release's.
  pub record IsConsumed (release : GoldRelease) (name : String) : Type 0 where
    pub commit : DeltaPipelineCommit
    pub newest :
        try_latest_delta_pipeline_commit json silver_pipelines (history name) ≡ ok (some commit)
    pub schema : is_silver_schema (get "silver_schema_version" commit.metadata) ≡ true
    pub pinned : get name release.silver_versions ≡ some (pos commit.version)

  committed_sound :
      (o : Option DeltaPipelineCommit) {v : ℤ}
      → committed_version o ≡ some v
      → (c : DeltaPipelineCommit) × (o ≡ some c)
        × (is_silver_schema (get "silver_schema_version" c.metadata) ≡ true)
        × (v ≡ pos c.version)
  unfolding committed_version
  committed_sound none h = absurd (ground arith)
  committed_sound (some c) {v} h =
      elim (Bool-cases (is_silver_schema (get "silver_schema_version" c.metadata))) [
        | inl good ↦
            let e : some (pos c.version) ≡ some v = rw good at h in (c, refl, good, ground arith)
        | inr bad ↦ let e : none ≡ some v = rw bad at h in absurd (ground arith)
      ]

  table_sound :
      (release : GoldRelease) (name : String) {v : Option ℤ}
      → inspect_table json (history name) ≡ ok v
      → is_at_version (get name release.silver_versions) v ≡ true
      → IsConsumed release name
  unfolding inspect_table
  table_sound release name {v} h at =
      let (commit, e, k) =
        >>=-eq-ok (try_latest_delta_pipeline_commit json silver_pipelines (history name)) _ h in
      let (w, e_release, e_table) = at_version_sound (get name release.silver_versions) v at in
      let (c, ec, good, version) = committed_sound commit {v = w} (ok-injective k ∙ e_table) in
      record {
        commit = c;
        newest = e ∙ ap ok ec;
        schema = good;
        pinned = e_release ∙ ap some version;
      }

  abbrev inspect : String → Result (String × Option ℤ)
  inspect name =
      inspect_table json (history name) >>= λ v. (let p : String × Option ℤ = (name, v) in ok p)

  inspected_sound :
      (release : GoldRelease) (names : List String) {inspected : List (String × Option ℤ)}
      → traverse inspect names ≡ ok inspected
      → all (λ entry. is_at_version (get entry.0 release.silver_versions) entry.1) inspected ≡ true
      → All (IsConsumed release) names
  inspected_sound release [] h a = tt
  inspected_sound release (name ∷ names) {inspected} h a =
      let (entry, e, k) = >>=-eq-ok (inspect name) _ h in
      let (rest, e', k') = >>=-eq-ok (traverse inspect names) _ k in
      let (v, ev, kv) = >>=-eq-ok (inspect_table json (history name)) _ e in
      let same_entry = ok-injective kv in
      let all_ok =
        subst
          (λ es.
            all (λ entry. is_at_version (get entry.0 release.silver_versions) entry.1) es ≡ true)
          (sym (ok-injective k')) a in
      let both : (is_at_version (get entry.0 release.silver_versions) entry.1 ≡ true)
          × (all (λ entry. is_at_version (get entry.0 release.silver_versions) entry.1) rest
              ≡ true) =
        (ground (arith, all_ok), ground (arith, all_ok)) in
      (
        table_sound release name ev (
            subst
              (λ (x : String × Option ℤ).
                is_at_version (get x.0 release.silver_versions) x.1 ≡ true)
              (sym same_entry) both.0),
        inspected_sound release names e' both.1,
      )

  -- Where the downstream tables count as current under a release, its Silver versions cover exactly the
  -- Silver tables, and of every Silver table the newest data commit has the current schema and is the
  -- version that the release has consumed.
  pub downstream_is_current-IsConsumed :
      (release : GoldRelease)
      → downstream_is_current json (some release) history ≡ ok true
      → (same_set (keys release.silver_versions) (keys silver_tables) ≡ true)
        × All (IsConsumed release) (keys silver_tables)
  unfolding downstream_is_current
  downstream_is_current-IsConsumed release h =
      elim (Bool-cases (same_set (keys release.silver_versions) (keys silver_tables))) [
        | inr other ↦
            let bad : ok false ≡ ok true = rw (other, downstream_is_current) at h in
            absurd (ground arith)
        | inl same ↦
            let h' : (traverse inspect (keys silver_tables) >>= λ inspected.
            ok (
              all (λ entry. is_at_version (get entry.0 release.silver_versions) entry.1) inspected))
                ≡ ok true =
              rw (same, downstream_is_current) at h in
            let (inspected, e, k) = >>=-eq-ok (traverse inspect (keys silver_tables)) _ h' in
            (same, inspected_sound release (keys silver_tables) e (ok-injective k))
      ]
