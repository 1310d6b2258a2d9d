-- ===== src/FactSales.antt =====
-- transformations/gold/fact_sales.py: the money columns of the fact rows of one order. Amounts are in
-- cents and not NULL.
pub mod Sums
pub mod Allocation
mod Tests
use azure_lakehouse_pipeline.Prelude.{ℕ, List, if◌then◌else◌, ◌∷◌, map, ◌==◌, leb, not, [], suc}
use azure_lakehouse_pipeline.Prelude.Int.{ℤ, ◌+ℤ◌, ◌-ℤ◌, ◌*ℤ◌, pos, ltb_ℤ}

-- A line of an order, of the joined frame.
pub record OrderItem : Type 0 where
  pub order_item_id : ℕ
  pub quantity : ℤ
  pub unit_price : ℤ
  pub discount_amount : ℤ
  pub tax_amount : ℤ

pub record Order : Type 0 where
  pub discount_amount : ℤ
  pub shipping_amount : ℤ

pub record FactRow : Type 0 where
  pub order_item_id : ℕ
  pub gross : ℤ
  pub order_discount_allocated : ℤ
  pub shipping_allocated : ℤ
  pub total_discount : ℤ
  pub net_sales : ℤ

-- `F.sum(...).over(partition)`.
unfoldable pub sum_of : {A : Type 0} → (A → ℤ) → List A → ℤ
sum_of f [] = pos 0
sum_of f (x ∷ xs) = f x +ℤ sum_of f xs

-- The lines of a window, and their row numbers. Spark leaves open the order of equal ids.
unfoldable pub insert : OrderItem → List OrderItem → List OrderItem
insert item [] = item ∷ []
insert item (other ∷ items) =
    let rest = insert item items in
    if leb other.order_item_id item.order_item_id then item ∷ other ∷ items else other ∷ rest

unfoldable pub last_line : List OrderItem → List OrderItem
last_line [] = []
last_line (item ∷ items) = insert item (last_line items)

unfoldable pub numbered : ℕ → List OrderItem → List (ℕ × OrderItem)
numbered n [] = []
numbered n (item ∷ items) = (n, item) ∷ numbered (suc n) items

abbrev pub gross : OrderItem → ℤ
gross item = item.quantity *ℤ item.unit_price

abbrev pub greatest : ℤ → ℤ → ℤ
greatest a b = if ltb_ℤ a b then b else a

abbrev pub line_discount : OrderItem → ℤ
line_discount item = item.discount_amount

abbrev pub order_discount_total : Order → List OrderItem → ℤ
order_discount_total order items =
    greatest (order.discount_amount -ℤ sum_of line_discount items) (pos 0)

-- `share total weight weight_total` is Spark's `F.bround(total * weight / weight_total, 2)`.
module _ (share : ℤ → ℤ → ℤ → ℤ) where
  unfoldable pub raw : ℤ → ℤ → (OrderItem → ℤ) → OrderItem → ℤ
  raw total weight_total weight item =
      if ltb_ℤ (pos 0) weight_total then share total (weight item) weight_total else pos 0

  unfoldable pub residual_allocation : ℤ → (OrderItem → ℤ) → ℤ → List OrderItem → ℕ × OrderItem → ℤ
  residual_allocation total weight weight_total items (row_number, item) =
      let of_line = raw total weight_total weight in
      let raw_sum = sum_of of_line items in
      if row_number == 1 then total -ℤ (raw_sum -ℤ of_line item) else of_line item

  abbrev pub allocated : ℤ → List OrderItem → ℕ × OrderItem → ℤ
  allocated total items = residual_allocation total gross (sum_of gross items) items

  unfoldable pub total_discount : Order → List OrderItem → ℕ × OrderItem → ℤ
  total_discount order items line =
      if not (ltb_ℤ order.discount_amount (sum_of line_discount items))
      then line_discount line.1 +ℤ allocated (order_discount_total order items) items line
      else allocated order.discount_amount items line

  unfoldable pub net_sales : Order → List OrderItem → ℕ × OrderItem → ℤ
  net_sales order items line =
      gross line.1
      +ℤ line.1.tax_amount
      +ℤ allocated order.shipping_amount items line
      -ℤ total_discount order items line

  abbrev pub fact_row : Order → List OrderItem → ℕ × OrderItem → FactRow
  fact_row order items line = record {
    order_item_id = line.1.order_item_id;
    gross = gross line.1;
    order_discount_allocated = allocated (order_discount_total order items) items line;
    shipping_allocated = allocated order.shipping_amount items line;
    total_discount = total_discount order items line;
    net_sales = net_sales order items line;
  }

  unfoldable pub fact_rows : Order → List OrderItem → List FactRow
  fact_rows order items = map (fact_row order items) (numbered 1 (last_line items))
