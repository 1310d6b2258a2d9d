-- ===== src/Result.antt =====
-- Python's exceptions as values. An error carries its class and the fixed part of its message;
-- the values that an f-string interpolates into the message are left out.
use azure_lakehouse_pipeline.Prelude.{
  String, Bool, true, false, List, [], ◌∷◌, ◌≡◌, refl, Option, some, none, ◌⊎◌, inl, inr,
}

pub data Error : Type 0 where
  value_error runtime_error key_error assertion_error : String → Error
  -- Not an `Exception`.
  system_exit keyboard_interrupt : String → Error

-- What `except Exception` handles.
abbrev pub is_exception : Error → Bool
is_exception (system_exit text) = false
is_exception (keyboard_interrupt text) = false
is_exception _ = true

pub data Result {ℓ} (A : Type ℓ) : Type ℓ where
  ok : A → Result A
  raise : Error → Result A

-- `if test: raise error`.
abbrev pub raise_if : Bool → Error → Result (Unit {0})
raise_if true error = raise error
raise_if false error = ok tt

-- What follows a part that may raise.
infixl 5 ◌>>=◌ ◌>>◌
abbrev pub ◌>>=◌ {ℓ κ} : {A : Type ℓ} {B : Type κ} → Result A → (A → Result B) → Result B
raise error >>= next = raise error
ok value >>= next = next value

abbrev pub ◌>>◌ {κ} : {B : Type κ} → Result (Unit {0}) → Result B → Result B
first >> next = first >>= λ done. next

-- A comprehension whose element expression may raise: the first error ends it.
abbrev pub traverse {ℓ κ} : {A : Type ℓ} {B : Type κ} → (A → Result B) → List A → Result (List B)
traverse f [] = ok []
traverse f (x ∷ xs) = do y ← f x; ys ← traverse f xs; ok (y ∷ ys)

-- Where a chain returns, its first part does, and so does what follows that.
pub >>=-eq-ok {κ ℓ} :
    {B : Type κ} {A : Type ℓ} (part : Result B) (next : B → Result A) {value : A}
    → (part >>= next) ≡ ok value
    → (between : B) × (part ≡ ok between) × (next between ≡ ok value)
>>=-eq-ok (raise error) next returned = cc
>>=-eq-ok (ok between) next returned = (between, refl, returned)

pub ok-injective {ℓ} : {A : Type ℓ} {a b : A} → ok a ≡ ok b → a ≡ b
ok-injective h = cc

-- `d[k]`, from what `d.get(k)` finds.
abbrev pub index {ℓ} : {A : Type ℓ} → Option A → Error → Result A
index (some a) e = ok a
index none e = raise e

pub raise_if-eq-ok : (b : Bool) (e : Error) {u : Unit {0}} → raise_if b e ≡ ok u → b ≡ false
raise_if-eq-ok true e h = cc
raise_if-eq-ok false e h = refl

pub index-eq-ok {ℓ} :
    {A : Type ℓ} (o : Option A) (e : Error) {a : A} → index o e ≡ ok a → o ≡ some a
index-eq-ok (some b) e h = cc
index-eq-ok none e h = cc

pub Result-cases {ℓ} :
    {A : Type ℓ} (r : Result A) → ((a : A) × (r ≡ ok a)) ⊎ ((e : Error) × (r ≡ raise e))
Result-cases (ok a) = inl (a, refl)
Result-cases (raise e) = inr (e, refl)
