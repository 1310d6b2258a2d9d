-- ===== src/Json/Plain.antt =====
-- Values whose strings `json.dumps` writes without an escape, and that have no single quote.
use Prim.Native.String.{[], ◌∷◌}
use Prim.Native.Char.{Char, code}
use azure_lakehouse_pipeline.Json.{Json, str, array, object, Items, nil, cons, Fields, end, field}
use azure_lakehouse_pipeline.Prelude.{String, Bool, true, leb, not, ◌&&◌, ◌==◌}

-- A printable character of ASCII that is not `"`, `'` or `\`.
abbrev pub is_plain_char : Char → Bool
is_plain_char c =
    leb 32 (code c)
    && (leb (code c) 126 && (not (code c == 34) && (not (code c == 39) && not (code c == 92))))

unfoldable pub is_plain_text : String → Bool
is_plain_text [] = true
is_plain_text (c ∷ s) = is_plain_char c && is_plain_text s

unfoldable mutual
  unfolding is_plain_text

  pub is_plain : Json → Bool
  is_plain (str s) = is_plain_text s
  is_plain (array xs) = is_plain_items xs
  is_plain (object fs) = is_plain_fields fs
  is_plain _ = true

  pub is_plain_items : Items → Bool
  is_plain_items nil = true
  is_plain_items (cons v vs) = is_plain v && is_plain_items vs

  pub is_plain_fields : Fields → Bool
  is_plain_fields end = true
  is_plain_fields (field k v fs) = is_plain_text k && (is_plain v && is_plain_fields fs)
