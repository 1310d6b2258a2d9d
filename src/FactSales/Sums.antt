-- ===== src/FactSales/Sums.antt =====
-- transformations/gold/fact_sales.py: sums over the lines of an order.
use azure_lakehouse_pipeline.FactSales.{sum_of, numbered, last_line, insert, OrderItem}
use azure_lakehouse_pipeline.Prelude.Int.{ℤ, ◌+ℤ◌, ◌-ℤ◌, eq_of_parts, int_laws}
use azure_lakehouse_pipeline.Prelude.{
  List, ℕ, map, ◌≡◌, ◌∷◌, ◌∙◌, Bool-cases, ap, [], suc, leb, inl, refl, inr,
}

add_add : (a b c d : ℤ) → a +ℤ b +ℤ (c +ℤ d) ≡ a +ℤ c +ℤ (b +ℤ d)
add_add a b c d = eq_of_parts _ _ (omega int_laws)

sub_add : (a b c d : ℤ) → a -ℤ b +ℤ (c -ℤ d) ≡ a +ℤ c -ℤ (b +ℤ d)
sub_add a b c d = eq_of_parts _ _ (omega int_laws)

add_swap : (a b c : ℤ) → a +ℤ (b +ℤ c) ≡ b +ℤ (a +ℤ c)
add_swap a b c = eq_of_parts _ _ (omega int_laws)

pub sum_of_add :
    {A : Type 0} (f g : A → ℤ) (xs : List A)
    → sum_of (λ x. f x +ℤ g x) xs ≡ sum_of f xs +ℤ sum_of g xs
unfolding sum_of ◌+ℤ◌
sum_of_add f g [] = refl
sum_of_add f g (x ∷ xs) =
    ap (λ n. f x +ℤ g x +ℤ n) (sum_of_add f g xs) ∙ add_add (f x) (g x) (sum_of f xs) (sum_of g xs)

pub sum_of_sub :
    {A : Type 0} (f g : A → ℤ) (xs : List A)
    → sum_of (λ x. f x -ℤ g x) xs ≡ sum_of f xs -ℤ sum_of g xs
unfolding sum_of ◌-ℤ◌
sum_of_sub f g [] = refl
sum_of_sub f g (x ∷ xs) =
    ap (λ n. f x -ℤ g x +ℤ n) (sum_of_sub f g xs) ∙ sub_add (f x) (g x) (sum_of f xs) (sum_of g xs)

pub sum_of_same :
    {A : Type 0} (f g : A → ℤ) → ((x : A) → f x ≡ g x) → (xs : List A) → sum_of f xs ≡ sum_of g xs
unfolding sum_of
sum_of_same f g same [] = refl
sum_of_same f g same (x ∷ xs) =
    ap (λ n. n +ℤ sum_of f xs) (same x) ∙ ap (λ n. g x +ℤ n) (sum_of_same f g same xs)

pub sum_of-map :
    {A B : Type 0} (f : B → ℤ) (g : A → B) (xs : List A)
    → sum_of f (map g xs) ≡ sum_of (λ x. f (g x)) xs
unfolding sum_of
sum_of-map f g [] = refl
sum_of-map f g (x ∷ xs) = ap (λ n. f (g x) +ℤ n) (sum_of-map f g xs)

pub sum_of-numbered :
    (f : OrderItem → ℤ) (n : ℕ) (items : List OrderItem)
    → sum_of (λ line. f line.1) (numbered n items) ≡ sum_of f items
unfolding sum_of numbered
sum_of-numbered f n [] = refl
sum_of-numbered f n (item ∷ items) = ap (λ n. f item +ℤ n) (sum_of-numbered f (suc n) items)

sum_of-insert :
    (f : OrderItem → ℤ) (item : OrderItem) (items : List OrderItem)
    → sum_of f (insert item items) ≡ f item +ℤ sum_of f items
unfolding sum_of insert
sum_of-insert f item [] = refl
sum_of-insert f item (other ∷ items) =
    let rest = sum_of-insert f item items in
    elim (Bool-cases (leb other.order_item_id item.order_item_id)) [
      | inl here ↦ rw here refl
      | inr later ↦
          rw later (ap (λ n. f other +ℤ n) rest ∙ add_swap (f other) (f item) (sum_of f items))
    ]

-- The order of a window keeps every line once.
pub sum_of-last_line :
    (f : OrderItem → ℤ) (items : List OrderItem) → sum_of f (last_line items) ≡ sum_of f items
unfolding sum_of last_line
sum_of-last_line f [] = refl
sum_of-last_line f (item ∷ items) =
    sum_of-insert f item (last_line items) ∙ ap (λ n. f item +ℤ n) (sum_of-last_line f items)
