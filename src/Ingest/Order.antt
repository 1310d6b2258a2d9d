-- ===== src/Ingest/Order.antt =====
-- The ids that `ORDER BY event_id LIMIT n` keeps, and their maximum.
use azure_lakehouse_pipeline.Prelude.{
  List, ℕ, ◌∷◌, All, [], ◌≢◌, ◌<◌, if◌then◌else◌, ◌≡◌, leb, ◌+◌, arith, refl, some, Bool-cases, inl,
  inr, Option, ◌≤◌, max, none, suc, Option-cases, zero, All-map,
}
use azure_lakehouse_pipeline.Ingest.Query.{order_ids, insert_id, maximum, larger}
use mathlib.Core.Path.{subst}
use mathlib.Core.Option.{some-injective}
use azure_lakehouse_pipeline.Delta.{take}

abbrev pub count_le : ℕ → List ℕ → ℕ
count_le m [] = 0
count_le m (n ∷ ns) = (if leb n m then 1 else 0) + count_le m ns

abbrev pub IsUnique : List ℕ → Type 0
IsUnique [] = Unit
IsUnique (n ∷ ns) = All (λ m. n ≢ m) ns × IsUnique ns

abbrev pub IsAscending : List ℕ → Type 0
IsAscending [] = Unit
IsAscending (n ∷ ns) = All (λ m. n < m) ns × IsAscending ns

insert_id-All : (P : ℕ → Type 0) (n : ℕ) (ns : List ℕ) → P n → All P ns → All P (insert_id n ns)
unfolding insert_id
insert_id-All P n [] h hs = (h, tt)
insert_id-All P n (m ∷ ns) h (hm, hs) = elim (Bool-cases (leb n m)) [
  | inl before ↦ rw before (h, (hm, hs))
  | inr after ↦ rw after (hm, insert_id-All P n ns h hs)
]

pub order_ids-All : (P : ℕ → Type 0) (ns : List ℕ) → All P ns → All P (order_ids ns)
unfolding order_ids
order_ids-All P [] h = tt
order_ids-All P (n ∷ ns) (h, hs) = insert_id-All P n (order_ids ns) h (order_ids-All P ns hs)

insert_id-IsAscending :
    (n : ℕ) (ns : List ℕ) → All (λ m. n ≢ m) ns → IsAscending ns → IsAscending (insert_id n ns)
unfolding insert_id
insert_id-IsAscending n [] new h = (tt, tt)
insert_id-IsAscending n (m ∷ ns) (ne, new) (above, h) = elim (Bool-cases (leb n m)) [
  | inl before ↦
      let lt : n < m = ground arith in
      rw before
        ((lt, All-map (λ k (hk : m < k). let r : n < k = omega arith in r) ns above), (above, h))
  | inr after ↦
      let lt : m < n = ground arith in
      rw after (insert_id-All (λ k. m < k) n ns lt above, insert_id-IsAscending n ns new h)
]

order_ids-IsAscending : (ns : List ℕ) → IsUnique ns → IsAscending (order_ids ns)
unfolding order_ids
order_ids-IsAscending [] h = tt
order_ids-IsAscending (n ∷ ns) (new, h) =
    insert_id-IsAscending n (order_ids ns) (order_ids-All (λ m. n ≢ m) ns new)
      (order_ids-IsAscending ns h)

insert_id-count : (k n : ℕ) (ns : List ℕ) → count_le k (insert_id n ns) ≡ count_le k (n ∷ ns)
unfolding insert_id
insert_id-count k n [] = refl
insert_id-count k n (m ∷ ns) = ground (arith, insert_id-count k n ns)

order_ids-count : (k : ℕ) (ns : List ℕ) → count_le k (order_ids ns) ≡ count_le k ns
unfolding order_ids
order_ids-count k [] = refl
order_ids-count k (n ∷ ns) =
    ground (arith, insert_id-count k n (order_ids ns), order_ids-count k ns)

count_le-above : (m : ℕ) (ns : List ℕ) → All (λ k. m < k) ns → count_le m ns ≡ 0
count_le-above m [] h = refl
count_le-above m (n ∷ ns) (h, hs) = ground (arith, count_le-above m ns hs)

larger_of :
    (P : ℕ → Type 0) (n : ℕ) (o : Option ℕ) → P n → ((m : ℕ) → o ≡ some m → P m) → P (larger n o)
unfolding larger
larger_of P n none h hs = h
larger_of P n (some m) h hs = elim (Bool-cases (leb n m)) [
  | inl le ↦ subst P (let e : m ≡ max n m = ground arith in e) (hs m refl)
  | inr gt ↦ subst P (let e : n ≡ max n m = ground arith in e) h
]

pub maximum_of : (P : ℕ → Type 0) (ns : List ℕ) {m : ℕ} → All P ns → maximum ns ≡ some m → P m
unfolding maximum
maximum_of P [] h e = cc
maximum_of P (n ∷ ns) (hn, hs) e =
    subst P (some-injective _ _ e)
      (larger_of P n (maximum ns) hn (λ m e'. maximum_of P ns {m = m} hs e'))

pub All-take {ℓ κ} :
    {A : Type ℓ} (P : A → Type κ) (n : ℕ) (xs : List A) → All P xs → All P (take n xs)
All-take P zero xs h = tt
All-take P (suc n) [] h = tt
All-take P (suc n) (x ∷ xs) (h, hs) = (h, All-take P n xs hs)

maximum-take :
    (n : ℕ) (ns : List ℕ) {m : ℕ}
    → IsAscending ns
    → maximum (take n ns) ≡ some m
    → (1 ≤ count_le m ns) × (count_le m ns ≤ n)
unfolding maximum larger
maximum-take zero ns h e = cc
maximum-take (suc n) [] h e = cc
maximum-take (suc n) (x ∷ ns) {m} (above, h) e = elim (Option-cases (maximum (take n ns))) [
  | inl last ↦ ground (arith, count_le-above x ns above)
  | inr (k, more) ↦
      let x_lt : x < k =
        maximum_of (λ j. x < j) (take n ns) (All-take (λ j. x < j) n ns above) more in
      ground (arith, maximum-take n ns {m = k} h more)
]

-- The maximum of the `n` smallest of distinct ids has between one and `n` of them at or below it.
pub maximum-order_ids :
    (n : ℕ) (ns : List ℕ) {m : ℕ}
    → IsUnique ns
    → maximum (take n (order_ids ns)) ≡ some m
    → (1 ≤ count_le m ns) × (count_le m ns ≤ n)
maximum-order_ids n ns {m} unique e =
    rw (← order_ids-count m ns) (maximum-take n (order_ids ns) (order_ids-IsAscending ns unique) e)

insert_id-cons : (n : ℕ) (ns : List ℕ) → (x : ℕ) × (rest : List ℕ) × (insert_id n ns ≡ x ∷ rest)
unfolding insert_id
insert_id-cons n [] = (n, [], refl)
insert_id-cons n (m ∷ ns) = elim (Bool-cases (leb n m)) [
  | inl before ↦ (n, m ∷ ns, rw before)
  | inr after ↦ (m, insert_id n ns, rw after)
]

-- With room for one id, some ids have a maximum.
pub maximum-some :
    (n : ℕ) (i : ℕ) (ns : List ℕ) → (m : ℕ) × (maximum (take (suc n) (order_ids (i ∷ ns))) ≡ some m)
unfolding maximum order_ids
maximum-some n i ns =
    let (x, rest, e) = insert_id-cons i (order_ids ns) in (larger x (maximum (take n rest)), rw e)
