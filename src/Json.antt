-- ===== src/Json.antt =====
-- Values of Python's `json` module, and the module itself as a codec between values and text.
pub mod Plain
pub mod Sorted
pub mod Values
use azure_lakehouse_pipeline.Prelude.{
  String, Bool, false, ◌≡◌, refl, ap, List, [], ◌∷◌, Option, none, some, ℕ,
}
use azure_lakehouse_pipeline.Prelude.Int.{ℤ}
use azure_lakehouse_pipeline.Dict.{Dict, contains, IsDistinct}
use azure_lakehouse_pipeline.Dict.Sort.{insert_key}

-- A finite float is the dyadic fraction `m / 2 ^ k` that it denotes.
mutual
  pub data Json : Type 0 where
    null : Json
    bool : Bool → Json
    int : ℤ → Json
    float : ℤ → ℕ → Json
    non_finite : String → Json
    str : String → Json
    array : Items → Json
    object : Fields → Json

  pub data Items : Type 0 where
    nil : Items
    cons : Json → Items → Items

  pub data Fields : Type 0 where
    end : Fields
    field : String → Json → Fields → Fields

-- The entries of an object as a dict, and back.
abbrev pub entries : Fields → Dict Json
entries end = []
entries (field k v fs) = (k, v) ∷ entries fs

abbrev pub of_dict : Dict Json → Fields
of_dict [] = end
of_dict ((k, v) ∷ d) = field k v (of_dict d)

abbrev pub dict : Dict Json → Json
dict d = object (of_dict d)

pub entries-of_dict : (d : Dict Json) → entries (of_dict d) ≡ d
entries-of_dict [] = refl
entries-of_dict ((k, v) ∷ d) = ap (λ e. (k, v) ∷ e) (entries-of_dict d)

-- `sort_keys=True`: every object of a value has its entries in the order of their keys.
unfoldable mutual
  pub sorted : Json → Json
  sorted null = null
  sorted (bool b) = bool b
  sorted (int n) = int n
  sorted (float m k) = float m k
  sorted (non_finite s) = non_finite s
  sorted (str s) = str s
  sorted (array xs) = array (sorted_items xs)
  sorted (object fs) = object (of_dict (sorted_fields fs))

  pub sorted_items : Items → Items
  sorted_items nil = nil
  sorted_items (cons v vs) = cons (sorted v) (sorted_items vs)

  pub sorted_fields : Fields → Dict Json
  sorted_fields end = []
  sorted_fields (field k v fs) = insert_key k (sorted v) (sorted_fields fs)

-- No object of a value has a key twice.
unfoldable mutual
  pub IsWellFormed : Json → Type 0
  IsWellFormed null = Unit
  IsWellFormed (bool b) = Unit
  IsWellFormed (int n) = Unit
  IsWellFormed (float m k) = Unit
  IsWellFormed (non_finite s) = Unit
  IsWellFormed (str s) = Unit
  IsWellFormed (array xs) = IsWellFormedItems xs
  IsWellFormed (object fs) = IsWellFormedFields fs

  pub IsWellFormedItems : Items → Type 0
  IsWellFormedItems nil = Unit
  IsWellFormedItems (cons v vs) = IsWellFormed v × IsWellFormedItems vs

  pub IsWellFormedFields : Fields → Type 0
  IsWellFormedFields end = Unit
  IsWellFormedFields (field k v fs) =
      (contains k (entries fs) ≡ false) × IsWellFormed v × IsWellFormedFields fs

-- `json.dumps` and `json.loads` on text: a text that `dumps` wrote is read back. What `loads`
-- returns has no key twice, and `none` stands for a JSONDecodeError.
pub record JsonCodec : Type 1 where
  pub Text : Type 0
  pub dumps : Json → Text
  pub loads : Text → Option Json
  pub loads-dumps : (v : Json) → IsWellFormed v → loads (dumps v) ≡ some v
  pub loads-IsWellFormed : (t : Text) (v : Json) → loads t ≡ some v → IsWellFormed v
