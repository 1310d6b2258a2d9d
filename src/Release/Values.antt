-- ===== src/Release/Values.antt =====
-- A Delta table as its version and its properties.
use azure_lakehouse_pipeline.Dict.{get, Dict}
use azure_lakehouse_pipeline.Prelude.Int.{ℤ, ◌+ℤ◌, pos}
use azure_lakehouse_pipeline.Release.Delta.{DeltaProperties}
use azure_lakehouse_pipeline.Prelude.{
  String, ◌≡◌, some, refl, ◌∷◌, eq_refl, not, true, ap, sym, false, ◌∙◌,
}
use azure_lakehouse_pipeline.Json.{Json}
use azure_lakehouse_pipeline.Json.Values.{value_codec}
use azure_lakehouse_pipeline.Result.{Result, ok, ok-injective}
use azure_lakehouse_pipeline.Json.Plain.{is_plain}

pub record PropertyTable (Text : Type 0) : Type 0 where
  pub table_version : ℤ
  pub table_properties : Dict Text

abbrev set_value : Json → String → Json → PropertyTable Json → Result (PropertyTable Json)
set_value meta key value t = ok (record {
  table_version = t.table_version +ℤ pos 1;
  table_properties = (key, value) ∷ t.table_properties;
})

pub version-set_value :
    (meta : Json) (key : String) (value : Json) (t t' : PropertyTable Json)
    → set_value meta key value t ≡ ok t'
    → t'.table_version ≡ t.table_version +ℤ pos 1
version-set_value meta key value t t' h =
    ap (λ (x : PropertyTable Json). x.table_version) (sym (ok-injective h))

pub get-set_value :
    (meta : Json) (key : String) (value : Json) (t t' : PropertyTable Json)
    → set_value meta key value t ≡ ok t'
    → get key t'.table_properties ≡ some value
unfolding get
get-set_value meta key value t t' h =
    ap (λ (x : PropertyTable Json). get key x.table_properties) (sym (ok-injective h))
    ∙ rw (eq_refl key) refl

pub not_plain : (v : Json) → is_plain v ≡ true → not (is_plain v) ≡ false
not_plain v h = rw h refl

abbrev pub value_properties : DeltaProperties value_codec
value_properties = record {
  has_quote = λ v. not (is_plain v);
  has_backslash = λ v. not (is_plain v);
  double_quotes = λ v. v;
  double_quotes-plain = λ v h. refl;
  dumps-plain = λ v h. (not_plain v h, not_plain v h);
  Table = PropertyTable Json;
  version = λ t. t.table_version;
  properties = λ t. t.table_properties;
  set_property = set_value;
  version-set_property = version-set_value;
  get-set_property = λ meta key value t t' h quote backslash. get-set_value meta key value t t' h;
}
