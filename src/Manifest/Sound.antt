-- ===== src/Manifest/Sound.antt =====
-- The validation in `deserialize_manifest`.
use azure_lakehouse_pipeline.Manifest.{
  as_text, as_count, counts, cons_count, decode_bronze, as_counts, table_name, non_negative_int,
  string_field, operation_counts, require, BronzeTableResult, SilverTableResult, decode_silver,
  by_table_name, decode_silver_payload, decode_payload, payload_tables, decode_bronze_payload,
  PipelineManifest, has_type, from_results, bronze, tables_of, deserialize_manifest,
}
use azure_lakehouse_pipeline.Prelude.{
  Option, String, ◌≡◌, some, arith, ◌∷◌, ◌∙◌, ap, str_eq, ◌||◌, [], none, refl, Bool-cases, inl,
  inr, List, sym, Option-cases,
}
use azure_lakehouse_pipeline.Dict.{contains, Dict, IsDistinct, get}
use azure_lakehouse_pipeline.Json.{
  Json, str, int, IsWellFormed, object, entries, Fields, IsWellFormedFields, JsonCodec,
}
use azure_lakehouse_pipeline.Prelude.Int.{ℤ, pos}
use azure_lakehouse_pipeline.Json.Sorted.{IsWellFormedDict, entries-IsWellFormed}
use azure_lakehouse_pipeline.Manifest.Valid.{
  IsCount, IsName, AllCounts, IsValidBronze, IsValidSilver, AllSilver, AllBronze, IsValidManifest,
}
use mathlib.Core.Path.{subst}
use azure_lakehouse_pipeline.Result.{ok, traverse, ok-injective, >>=-eq-ok}
use azure_lakehouse_pipeline.Dict.Laws.{of_entries-IsDistinct, of_entries-AllEntries}
use azure_lakehouse_pipeline.Manifest.Build.{from_results_sound}

pub as_count-IsCount : (o : Option Json) {n : ℤ} → as_count o ≡ some n → IsCount n
unfolding as_count
as_count-IsCount (some (int (pos n))) h = ground arith
as_count-IsCount o h = ground arith

as_text-IsName : (o : Option Json) {s : String} → as_text o ≡ some s → IsName s
unfolding as_text
as_text-IsName (some (str s)) h = ground arith
as_text-IsName o h = ground arith

cons_count-some :
    (j : String) (o : Option ℤ) (r : Option (Dict ℤ)) {ns : Dict ℤ}
    → cons_count j o r ≡ some ns
    → (n : ℤ) × (rest : Dict ℤ) × (o ≡ some n) × (r ≡ some rest) × ((j, n) ∷ rest ≡ ns)
unfolding cons_count
cons_count-some j (some n) (some rest) h = (n, rest, refl, refl, ground arith)
cons_count-some j (some n) none h = cc
cons_count-some j none r h = cc

-- An accepted dict of counts has the keys of the object that it was read from.
counts-keys :
    (d : Dict Json) {ns : Dict ℤ} (k : String) → counts d ≡ some ns → contains k ns ≡ contains k d
unfolding contains counts
counts-keys [] {ns} k h = ground arith
counts-keys ((j, v) ∷ d) {ns} k h =
    let (n, rest, hn, hd, e) = cons_count-some j (as_count (some v)) (counts d) h in
    rw (← e) (ap (λ b. str_eq j k || b) (counts-keys d k hd))

counts_sound :
    (d : Dict Json) {ns : Dict ℤ}
    → IsWellFormedDict d
    → counts d ≡ some ns
    → AllCounts ns × IsDistinct ns
unfolding counts contains
counts_sound [] w h = ground arith
counts_sound ((j, v) ∷ d) {ns} (new, hv, w) h =
    let (n, rest, hn, hd, e) = cons_count-some j (as_count (some v)) (counts d) h in
    let (a, b) = counts_sound d w hd in
    rw (← e) ((as_count-IsCount (some v) hn, a), (counts-keys d j hd ∙ new, b))

get-IsWellFormed :
    (k : String) (d : Dict Json) (v : Json) → IsWellFormedDict d → get k d ≡ some v → IsWellFormed v
unfolding get
get-IsWellFormed k [] v w h = cc
get-IsWellFormed k ((j, u) ∷ d) v (new, hu, w) h = elim (Bool-cases (str_eq j k)) [
  | inl same ↦ (let e : u ≡ v = ground arith in subst IsWellFormed e hu)
  | inr other ↦ get-IsWellFormed k d v w (ground arith)
]

as_counts_sound :
    (o : Option Json) {ns : Dict ℤ}
    → ((v : Json) → o ≡ some v → IsWellFormed v)
    → as_counts o ≡ some ns
    → AllCounts ns × IsDistinct ns
unfolding as_counts IsWellFormed
as_counts_sound (some (object fs)) w h =
    counts_sound (entries fs) (entries-IsWellFormed fs (w (object fs) refl)) h
as_counts_sound o w h = cc

decode_bronze_sound :
    (batch_id name : String) (fs : Fields) {r : BronzeTableResult}
    → IsWellFormedFields fs
    → decode_bronze batch_id (name, object fs) ≡ ok r
    → IsValidBronze batch_id name r
unfolding decode_bronze table_name non_negative_int string_field operation_counts require
decode_bronze_sound batch_id name fs {r} w h =
    let d = entries fs in
    let counts' =
      as_counts_sound (get "operation_counts" d) {ns = r.operation_counts}
        (λ v e. get-IsWellFormed "operation_counts" d v (entries-IsWellFormed fs w) e)
        (ground arith) in
    record {
      own_batch = ground arith;
      own_name = ground arith;
      named = ground arith;
      records = as_count-IsCount (get "record_count" d) (ground arith);
      typed = as_text-IsName (get "ingestion_type" d) (ground arith);
      version = as_count-IsCount (get "delta_version" d) (ground arith);
      operations = counts'.0;
      operations_distinct = counts'.1;
      schema = as_count-IsCount (get "schema_version" d) (ground arith);
    }

decode_bronze-object :
    (batch_id name : String) (v : Json) {r : BronzeTableResult}
    → IsWellFormed v
    → decode_bronze batch_id (name, v) ≡ ok r
    → IsValidBronze batch_id name r
unfolding decode_bronze table_name non_negative_int IsWellFormed
decode_bronze-object batch_id name (object fs) w h = decode_bronze_sound batch_id name fs w h
decode_bronze-object batch_id name v w h = absurd (ground arith)

traverse-bronze_sound :
    (batch_id : String) (d : Dict Json) {rs : List BronzeTableResult}
    → IsWellFormedDict d
    → traverse (decode_bronze batch_id) d ≡ ok rs
    → AllBronze batch_id (by_table_name rs)
traverse-bronze_sound batch_id [] w h =
    subst (λ rs. AllBronze batch_id (by_table_name rs)) (ok-injective h) tt
traverse-bronze_sound batch_id ((k, v) ∷ d) {rs} (new, hv, w) h =
    let (r, hr, h') = >>=-eq-ok (decode_bronze batch_id (k, v)) _ h in
    let (rest, hd, h'') = >>=-eq-ok (traverse (decode_bronze batch_id) d) _ h' in
    let valid = decode_bronze-object batch_id k v hv hr in
    subst (λ rs. AllBronze batch_id (by_table_name rs)) (ok-injective h'')
      (
        subst (λ x. IsValidBronze batch_id x r) (sym valid.own_name) valid,
        traverse-bronze_sound batch_id d w hd,
      )

decode_silver-object :
    (name : String) (v : Json) {e : String × SilverTableResult}
    → decode_silver (name, v) ≡ ok e
    → IsValidSilver e.0 e.1
unfolding decode_silver table_name non_negative_int require
decode_silver-object name (object fs) {e} h = record {
  own_name = ground arith;
  named = ground arith;
  version = as_count-IsCount (get "committed_version" (entries fs)) (ground arith);
  schema = as_count-IsCount (get "schema_version" (entries fs)) (ground arith);
}
decode_silver-object name v h = absurd (ground arith)

traverse-silver_sound :
    (d : Dict Json) {rs : Dict SilverTableResult} → traverse decode_silver d ≡ ok rs → AllSilver rs
traverse-silver_sound [] h = subst AllSilver (ok-injective h) tt
traverse-silver_sound ((k, v) ∷ d) {rs} h =
    let (e, he, h') = >>=-eq-ok (decode_silver (k, v)) _ h in
    let (rest, hd, h'') = >>=-eq-ok (traverse decode_silver d) _ h' in
    subst AllSilver (ok-injective h'') (decode_silver-object k v he, traverse-silver_sound d hd)

bronze_sound :
    (id : Option Json) (d : Dict Json) {m : PipelineManifest}
    → IsWellFormedDict d
    → decode_bronze_payload (as_text id) d ≡ ok m
    → IsValidManifest m
unfolding decode_bronze_payload
bronze_sound id d {m} w h = elim (Option-cases (as_text id)) [
  | inl missing ↦ absurd (ground arith)
  | inr (batch_id, e) ↦
      let h' : decode_bronze_payload (some batch_id) d ≡ ok m = rw e at h in
      let (rs, hr, k) = >>=-eq-ok (traverse (decode_bronze batch_id) d) _ h' in
      let (b, hb, k') = >>=-eq-ok (from_results batch_id rs) _ k in
      let (same, distinct, own) = from_results_sound batch_id rs hb in
      subst IsValidManifest (ok-injective k') (
        subst (λ x. IsValidManifest (bronze x)) (sym same)
          (as_text-IsName id e, distinct, traverse-bronze_sound batch_id d w hr))
]

silver_sound :
    (d : Dict Json) {m : PipelineManifest} → decode_silver_payload d ≡ ok m → IsValidManifest m
unfolding decode_silver_payload
silver_sound d h =
    let (rs, hr, k) = >>=-eq-ok (traverse decode_silver d) _ h in
    subst IsValidManifest (ok-injective k) (
      of_entries-IsDistinct rs,
      of_entries-AllEntries IsValidSilver rs (traverse-silver_sound d hr),
    )

decode_payload_sound :
    (payload tables : Dict Json) {m : PipelineManifest}
    → IsWellFormedDict tables
    → decode_payload (some (payload, tables)) ≡ ok m
    → IsValidManifest m
unfolding decode_payload
decode_payload_sound payload tables w h =
    elim (Bool-cases (has_type "bronze" (get "type" payload))) [
      | inl b ↦ bronze_sound (get "batch_id" payload) tables w (rw b at h)
      | inr nb ↦ elim (Bool-cases (has_type "silver" (get "type" payload))) [
        | inl sv ↦ silver_sound tables (rw (nb, sv) at h)
        | inr ns ↦ absurd (ground arith)
      ]
    ]

tables_of-IsWellFormed :
    (payload : Dict Json) (o : Option Json) {p t : Dict Json}
    → ((v : Json) → o ≡ some v → IsWellFormed v)
    → tables_of payload o ≡ some (p, t)
    → IsWellFormedDict t
unfolding tables_of IsWellFormed
tables_of-IsWellFormed payload (some (object fs)) {p} {t} w h =
    let e : entries fs ≡ t = ground arith in
    subst IsWellFormedDict e (entries-IsWellFormed fs (w (object fs) refl))
tables_of-IsWellFormed payload o w h = cc

payload_tables-IsWellFormed :
    (v : Json) {p t : Dict Json}
    → IsWellFormed v
    → payload_tables v ≡ some (p, t)
    → IsWellFormedDict t
unfolding payload_tables IsWellFormed
payload_tables-IsWellFormed (object fs) w h =
    tables_of-IsWellFormed (entries fs) (get "tables" (entries fs))
      (λ v e. get-IsWellFormed "tables" (entries fs) v (entries-IsWellFormed fs w) e) h
payload_tables-IsWellFormed v w h = cc

-- A text that `deserialize_manifest` accepts gives a valid manifest: names are not empty, tables and
-- counts have distinct keys, and no count or version is negative.
pub deserialize_sound :
    (json : JsonCodec) (raw : json.Text) {m : PipelineManifest}
    → deserialize_manifest json raw ≡ ok m
    → IsValidManifest m
unfolding deserialize_manifest
deserialize_sound json raw {m} h = elim (Option-cases (json.loads raw)) [
  | inl bad ↦ absurd (ground arith)
  | inr (v, e) ↦
      let h' : decode_payload (payload_tables v) ≡ ok m = rw e at h in
      elim (Option-cases (payload_tables v)) [
        | inl bad ↦ absurd (unfold decode_payload in ground arith)
        | inr ((p, t), e') ↦
            decode_payload_sound p t
              (payload_tables-IsWellFormed v (json.loads-IsWellFormed raw v e) e') (rw e' at h')
      ]
]
