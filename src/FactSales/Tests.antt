-- ===== src/FactSales/Tests.antt =====
-- Runs of the money columns.
use azure_lakehouse_pipeline.FactSales.{
  OrderItem, Order, FactRow, fact_rows, gross, sum_of, numbered, last_line, residual_allocation,
  net_sales, raw, total_discount, insert,
}
use azure_lakehouse_pipeline.Prelude.{
  List, ◌≡◌, ◌≢◌, ℕ, ◌/◌, [], ◌∷◌, ◌*◌, ◌%◌, map, if◌then◌else◌, ltb, refl, ◌+◌,
}
use azure_lakehouse_pipeline.Prelude.Int.{pos, ℤ, ◌+ℤ◌, pos_part, ◌-ℤ◌, ◌*ℤ◌}
use azure_lakehouse_pipeline.FactSales.Allocation.{residual_allocation-sum_of, fact_rows-net_sales}

-- Rounding to the even cent.
abbrev bround : ℕ → ℕ → ℕ
bround n d =
    let q = n / d in
    let r = 2 * (n % d) in if ltb r d then q else if ltb d r then q + 1 else q + q % 2

abbrev share : ℤ → ℤ → ℤ → ℤ
share total weight weight_total =
    pos (bround (pos_part total * pos_part weight) (pos_part weight_total))

abbrev item : ℕ → ℕ → ℕ → OrderItem
item id price discount = record {
  order_item_id = id;
  quantity = pos 2;
  unit_price = pos price;
  discount_amount = pos discount;
  tax_amount = pos 5;
}

abbrev three_items : List OrderItem
three_items = item 7 50 10 ∷ item 9 50 0 ∷ item 8 50 0 ∷ []

abbrev discounted : Order
discounted = record { discount_amount = pos 40; shipping_amount = pos 100 }

-- The residual cent of the shipping is on the line with the highest id, which comes first.
shares_of_three :
    map (λ (row : FactRow). row.shipping_allocated) (fact_rows share discounted three_items)
    ≡ pos 34 ∷ pos 33 ∷ pos 33 ∷ []
unfolding fact_rows residual_allocation raw sum_of numbered last_line insert ◌+ℤ◌ ◌-ℤ◌ ◌*ℤ◌
shares_of_three = refl

net_sales_of_three :
    map (λ (row : FactRow). row.net_sales) (fact_rows share discounted three_items)
    ≡ pos 129 ∷ pos 128 ∷ pos 118 ∷ []
unfolding fact_rows net_sales total_discount residual_allocation raw sum_of numbered last_line
    insert ◌+ℤ◌ ◌-ℤ◌ ◌*ℤ◌
net_sales_of_three = refl

three_items_not_empty : three_items ≢ []
three_items_not_empty = λ e. cc

residual_allocation-sum_of_example :
    sum_of
      (residual_allocation share (pos 100) gross (pos 300) three_items)
      (numbered 1 (last_line three_items))
    ≡ pos 100
residual_allocation-sum_of_example =
    residual_allocation-sum_of share (pos 100) (pos 300) gross three_items three_items_not_empty

fact_rows-net_sales_example :
    sum_of (λ (row : FactRow). row.net_sales) (fact_rows share discounted three_items)
    ≡ sum_of gross three_items
      +ℤ sum_of (λ (i : OrderItem). i.tax_amount) three_items
      +ℤ pos 100
      -ℤ pos 40
fact_rows-net_sales_example = fact_rows-net_sales share discounted three_items three_items_not_empty
