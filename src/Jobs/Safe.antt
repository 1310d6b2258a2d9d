-- ===== src/Jobs/Safe.antt =====
-- `_validate_safe_name` of control/batch_runs.py.
use Prim.Native.String.{String, [], ◌∷◌, count}
use Prim.Native.Char.{Char, code}
use azure_lakehouse_pipeline.Prelude.{ℕ, Bool, false, ◌||◌, true, leb, ◌&&◌, ◌==◌}

abbrev between : ℕ → ℕ → Char → Bool
between low high c = leb low (code c) && leb (code c) high

-- `[A-Za-z0-9]`, and the same with `.`, `_` and `-`.
abbrev pub is_alphanumeric : Char → Bool
is_alphanumeric c = between 65 90 c || (between 97 122 c || between 48 57 c)

abbrev pub is_name_char : Char → Bool
is_name_char c = is_alphanumeric c || (code c == 46 || (code c == 95 || code c == 45))

unfoldable pub name_chars : String → Bool
name_chars [] = true
name_chars (c ∷ s) = is_name_char c && name_chars s

-- `_SAFE_NAME.fullmatch`: one of the first characters, and up to 127 of the others.
unfoldable pub is_safe_name : String → Bool
unfolding name_chars
is_safe_name [] = false
is_safe_name (c ∷ s) = is_alphanumeric c && (leb (count s) 127 && name_chars s)
