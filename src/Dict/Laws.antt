-- ===== src/Dict/Laws.antt =====
-- The laws of dictionary updates, and when a dict of entries loses none of them.
use azure_lakehouse_pipeline.Prelude.{
  suc, ◌+◌, ◌≤◌, String, false, ◌||◌, ◌≡◌, refl, sym, ap, ◌∙◌, [], ◌∷◌, ◌++◌, none, some, str_eq,
  eq_iff, if◌then◌else◌, length, arith, Bool-cases, inl, inr, List, All, true,
}
use mathlib.Core.List.{append-nil, append_assoc}
use azure_lakehouse_pipeline.Dict.{
  Dict, get, contains, put, put_all, of_entries, IsDistinct, AllEntries, member,
}
use mathlib.Core.Path.{subst}

module _ {ℓ} {V : Type ℓ} where
  pub get-put :
      (k j : String) (v : V) (d : Dict V)
      → get j (put k v d) ≡ (if str_eq k j then some v else get j d)
  unfolding get put
  get-put k j v [] = refl
  get-put k j v ((i, w) ∷ d) = ground (arith, eq_iff k j, eq_iff i k, eq_iff i j, get-put k j v d)

  pub contains-put :
      (k j : String) (v : V) (d : Dict V) → contains j (put k v d) ≡ str_eq k j || contains j d
  unfolding contains put
  contains-put k j v [] = refl
  contains-put k j v ((i, w) ∷ d) =
      ground (arith, eq_iff k j, eq_iff i k, eq_iff i j, contains-put k j v d)

  pub get-absent : (k : String) (d : Dict V) → contains k d ≡ false → get k d ≡ none
  unfolding get contains
  get-absent k [] h = refl
  get-absent k ((j, v) ∷ d) h = ground (arith, get-absent k d)

  pub put-absent :
      (k : String) (v : V) (d : Dict V) → contains k d ≡ false → put k v d ≡ d ++ (k, v) ∷ []
  unfolding put contains
  put-absent k v [] h = refl
  put-absent k v ((j, w) ∷ d) h = ground (arith, put-absent k v d)

  pub contains-append :
      (k : String) (d e : Dict V) → contains k (d ++ e) ≡ contains k d || contains k e
  unfolding contains
  contains-append k [] e = refl
  contains-append k ((j, v) ∷ d) e = ground (arith, contains-append k d e)

  length-put :
      (k : String) (v : V) (d : Dict V)
      → length (put k v d) ≡ (if contains k d then length d else length d + 1)
  unfolding put contains
  length-put k v [] = refl
  length-put k v ((j, w) ∷ d) = ground (arith, length-put k v d)

  length-put_all-le : (d e : Dict V) → length (put_all d e) ≤ length d + length e
  unfolding put_all
  length-put_all-le d [] = omega arith
  length-put_all-le d ((k, v) ∷ e) =
      ground (arith, length-put_all-le (put k v d) e, length-put k v d)

  -- No key of `e` is in `d`.
  abbrev pub IsFresh : Dict V → Dict V → Type 0
  IsFresh d [] = Unit
  IsFresh d ((k, v) ∷ e) = (contains k d ≡ false) × IsFresh d e

  IsFresh-put :
      (k : String) (v : V) (d e : Dict V)
      → IsFresh d e
      → contains k e ≡ false
      → IsFresh (put k v d) e
  unfolding contains
  IsFresh-put k v d [] f h = tt
  IsFresh-put k v d ((j, w) ∷ e) f h =
      let (a, b) = f in
      (
        ground (arith, contains-put k j v d, eq_iff j k, eq_iff k j),
        IsFresh-put k v d e b (ground arith),
      )

  pub IsFresh-nil : (e : Dict V) → IsFresh [] e
  unfolding contains
  IsFresh-nil [] = tt
  IsFresh-nil ((k, v) ∷ e) = (refl, IsFresh-nil e)

  put_all-fresh : (d e : Dict V) → IsFresh d e → IsDistinct e → put_all d e ≡ d ++ e
  unfolding put_all
  put_all-fresh d [] f h = sym (append-nil d)
  put_all-fresh d ((k, v) ∷ e) (fk, f) (hk, h) =
      put_all-fresh (put k v d) e (IsFresh-put k v d e f hk) h
      ∙ ap (λ x. x ++ e) (put-absent k v d fk)
      ∙ append_assoc d ((k, v) ∷ []) e

  -- Entries with distinct keys are kept as they are.
  pub of_entries-distinct : (e : Dict V) → IsDistinct e → of_entries e ≡ e
  of_entries-distinct e h = put_all-fresh [] e (IsFresh-nil e) h

  IsFresh-put_inv :
      (k : String) (v : V) (d e : Dict V)
      → IsFresh (put k v d) e
      → IsFresh d e × (contains k e ≡ false)
  unfolding contains
  IsFresh-put_inv k v d [] f = (tt, refl)
  IsFresh-put_inv k v d ((j, w) ∷ e) (a, f) =
      let (g, h) = IsFresh-put_inv k v d e f in
      (
        (ground (arith, contains-put k j v d), g),
        ground (arith, contains-put k j v d, eq_iff j k, eq_iff k j),
      )

  put-new :
      (k : String) (v : V) (d e : Dict V)
      → length (put_all (put k v d) e) ≡ length d + suc (length e)
      → contains k d ≡ false
  put-new k v d e h = elim (Bool-cases (contains k d)) [
    | inl old ↦ absurd (ground (arith, length-put_all-le (put k v d) e, length-put k v d))
    | inr new ↦ new
  ]

  length-put_all-IsDistinct :
      (d e : Dict V) → length (put_all d e) ≡ length d + length e → IsFresh d e × IsDistinct e
  unfolding put_all
  length-put_all-IsDistinct d [] h = (tt, tt)
  length-put_all-IsDistinct d ((k, v) ∷ e) h =
      let new = put-new k v d e h in
      let (f, g) = length-put_all-IsDistinct (put k v d) e (ground (arith, length-put k v d)) in
      let (f', k_new) = IsFresh-put_inv k v d e f in ((new, f'), (k_new, g))

  -- A dict has as many keys as it was given entries only if their keys are distinct.
  pub of_entries-length : (e : Dict V) → length (of_entries e) ≡ length e → IsDistinct e
  of_entries-length e h = (length-put_all-IsDistinct [] e (omega arith)).1

module _ {ℓ} {V : Type ℓ} where
  pub put-IsDistinct : (k : String) (v : V) (d : Dict V) → IsDistinct d → IsDistinct (put k v d)
  unfolding put contains
  put-IsDistinct k v [] h = (refl, tt)
  put-IsDistinct k v ((j, w) ∷ d) (new, h) =
      ground (arith, put-IsDistinct k v d h, contains-put k j v d, eq_iff j k, eq_iff k j)

  put_all-IsDistinct : (d e : Dict V) → IsDistinct d → IsDistinct (put_all d e)
  unfolding put_all
  put_all-IsDistinct d [] h = h
  put_all-IsDistinct d ((k, v) ∷ e) h = put_all-IsDistinct (put k v d) e (put-IsDistinct k v d h)

  -- What a dict comprehension builds has no key twice.
  pub of_entries-IsDistinct : (e : Dict V) → IsDistinct (of_entries e)
  of_entries-IsDistinct e = put_all-IsDistinct [] e tt

module _ {ℓ κ} {V : Type ℓ} (P : String → V → Type κ) where
  pub put-AllEntries :
      (k : String) (v : V) (d : Dict V) → P k v → AllEntries P d → AllEntries P (put k v d)
  unfolding put
  put-AllEntries k v [] h hs = (h, tt)
  put-AllEntries k v ((j, w) ∷ d) h (hw, hs) = elim (Bool-cases (str_eq j k)) [
    | inl same ↦ rw same (subst (λ x. P x v) (sym ((eq_iff j k).0 same)) h, hs)
    | inr other ↦ rw other (hw, put-AllEntries k v d h hs)
  ]

  put_all-AllEntries : (d e : Dict V) → AllEntries P d → AllEntries P e → AllEntries P (put_all d e)
  unfolding put_all
  put_all-AllEntries d [] h hs = h
  put_all-AllEntries d ((k, v) ∷ e) h (hv, hs) =
      put_all-AllEntries (put k v d) e (put-AllEntries k v d hv h) hs

  pub of_entries-AllEntries : (e : Dict V) → AllEntries P e → AllEntries P (of_entries e)
  of_entries-AllEntries e h = put_all-AllEntries [] e tt h

module _ {ℓ κ} {V : Type ℓ} (P : String → V → Type κ) where
  pub AllEntries-get : (k : String) {v : V} (d : Dict V) → AllEntries P d → get k d ≡ some v → P k v
  unfolding get
  AllEntries-get k [] h e = cc
  AllEntries-get k {v} ((j, w) ∷ d) (h, hs) e = elim (Bool-cases (str_eq j k)) [
    | inl same ↦
        let wv : w ≡ v = ground arith in subst (P k) wv (subst (λ x. P x w) ((eq_iff j k).0 same) h)
    | inr other ↦ AllEntries-get k d hs (ground arith)
  ]

-- A predicate of all the names of a list holds of each member.
pub All-member {κ} :
    (P : String → Type κ) (k : String) (names : List String)
    → All P names
    → member k names ≡ true
    → P k
All-member P k [] h m = cc
All-member P k (j ∷ names) (h, hs) m = elim (Bool-cases (str_eq j k)) [
  | inl same ↦ subst P ((eq_iff j k).0 same) h
  | inr other ↦ All-member P k names hs (ground arith)
]
