-- ===== src/FactSales/Allocation.antt =====
-- transformations/gold/fact_sales.py: the money columns add up to the amounts of the order.
use azure_lakehouse_pipeline.FactSales.{
  sum_of, fact_rows, total_discount, OrderItem, numbered, Order, net_sales, residual_allocation,
  raw, last_line, gross, line_discount, allocated, greatest, insert, order_discount_total, fact_row,
}
use azure_lakehouse_pipeline.Prelude.Int.{ℤ, ◌-ℤ◌, ◌+ℤ◌, eq_of_parts, int_laws, ltb_ℤ, pos}
use azure_lakehouse_pipeline.Prelude.{
  List, ◌≡◌, ◌≢◌, ℕ, suc, [], Bool-cases, sym, ◌∷◌, ◌∙◌, ap, refl, inl, inr, arith, ◌<◌, ◌==◌,
  false, leb,
}
use azure_lakehouse_pipeline.FactSales.Sums.{
  sum_of-numbered, sum_of-last_line, sum_of_same, sum_of-map, sum_of_add, sum_of_sub,
}

cancel_residual : (total r s : ℤ) → total -ℤ (r +ℤ s -ℤ r) +ℤ s ≡ total
cancel_residual total r s = eq_of_parts _ _ (omega int_laws)

insert_not_empty : (item : OrderItem) (items : List OrderItem) → insert item items ≢ []
unfolding insert
insert_not_empty item [] = λ e. cc
insert_not_empty item (other ∷ items) =
    elim (Bool-cases (leb other.order_item_id item.order_item_id)) [
      | inl here ↦ rw here (λ e. cc)
      | inr later ↦ rw later (λ e. cc)
    ]

last_line_not_empty : (items : List OrderItem) → items ≢ [] → last_line items ≢ []
unfolding last_line
last_line_not_empty [] not_empty = not_empty
last_line_not_empty (item ∷ items) not_empty = insert_not_empty item (last_line items)

capped : (d l : ℤ) → ltb_ℤ d l ≡ false → l +ℤ greatest (d -ℤ l) (pos 0) ≡ d
unfolding ◌+ℤ◌ ◌-ℤ◌
capped d l within = ground (arith, within)

not_first : (n : ℕ) → 1 < n → (n == 1) ≡ false
not_first n after_first = ground (arith, after_first)

module _ (share : ℤ → ℤ → ℤ → ℤ) where
  -- A line after the first of the window has its rounded share.
  later_lines :
      (total weight_total : ℤ) (weight : OrderItem → ℤ) (all_items : List OrderItem) (n : ℕ)
      (items : List OrderItem)
      → 1 < n
      → sum_of (residual_allocation share total weight weight_total all_items) (numbered n items)
        ≡ sum_of (raw share total weight_total weight) items
  unfolding sum_of numbered residual_allocation
  later_lines total weight_total weight all_items n [] after_first = refl
  later_lines total weight_total weight all_items n (item ∷ items) after_first =
      rw (not_first n after_first) (
        ap (λ m. raw share total weight_total weight item +ℤ m)
          (later_lines total weight_total weight all_items (suc n) items
            (omega (arith, after_first))))

  all_lines :
      (total weight_total : ℤ) (weight : OrderItem → ℤ) (all_items items : List OrderItem)
      → sum_of (raw share total weight_total weight) all_items
        ≡ sum_of (raw share total weight_total weight) items
      → items ≢ []
      → sum_of (residual_allocation share total weight weight_total all_items) (numbered 1 items)
        ≡ total
  unfolding sum_of numbered residual_allocation
  all_lines total weight_total weight all_items [] same not_empty = elim (not_empty refl) [ ]
  all_lines total weight_total weight all_items (item ∷ items) same not_empty =
      let of_line = raw share total weight_total weight in
      ap
        (λ m.
          total
          -ℤ (m -ℤ of_line item)
          +ℤ sum_of (residual_allocation share total weight weight_total all_items)
              (numbered 2 items))
        same
      ∙ ap (λ m. total -ℤ (of_line item +ℤ sum_of of_line items -ℤ of_line item) +ℤ m)
          (later_lines total weight_total weight all_items 2 items (omega arith))
      ∙ cancel_residual total (of_line item) (sum_of of_line items)

  -- The amounts that `_residual_allocation` gives the lines of an order add up to the total, whatever
  -- the weights and however the shares are rounded, where the order has a line.
  pub residual_allocation-sum_of :
      (total weight_total : ℤ) (weight : OrderItem → ℤ) (items : List OrderItem)
      → items ≢ []
      → sum_of
          (residual_allocation share total weight weight_total items)
          (numbered 1 (last_line items))
        ≡ total
  residual_allocation-sum_of total weight_total weight items not_empty =
      all_lines total weight_total weight items (last_line items)
        (sym (sum_of-last_line (raw share total weight_total weight) items))
        (last_line_not_empty items not_empty)

  abbrev lines : List OrderItem → List (ℕ × OrderItem)
  lines items = numbered 1 (last_line items)

  sum_of-lines :
      (f : OrderItem → ℤ) (items : List OrderItem)
      → sum_of (λ line. f line.1) (lines items) ≡ sum_of f items
  sum_of-lines f items = sum_of-numbered f 1 (last_line items) ∙ sum_of-last_line f items

  -- The discounts of the lines of an order add up to the discount of the order, where the order has a
  -- line, also where its lines alone have more.
  total_discount-sum_of :
      (order : Order) (items : List OrderItem)
      → items ≢ []
      → sum_of (total_discount share order items) (lines items) ≡ order.discount_amount
  unfolding total_discount
  total_discount-sum_of order items not_empty =
      let limit = order_discount_total order items in
      let share_of = λ (total : ℤ).
        residual_allocation-sum_of total (sum_of gross items) gross items not_empty in
      elim (Bool-cases (ltb_ℤ order.discount_amount (sum_of line_discount items))) [
        | inl above ↦
            sum_of_same (total_discount share order items)
              (allocated share order.discount_amount items) (λ line. rw above refl) (lines items)
            ∙ share_of order.discount_amount
        | inr within ↦
            sum_of_same (total_discount share order items)
              (λ line. line_discount line.1 +ℤ allocated share limit items line)
              (λ line. rw within refl) (lines items)
            ∙ sum_of_add (λ line. line_discount line.1) (allocated share limit items) (lines items)
            ∙ ap (λ m. m +ℤ sum_of (allocated share limit items) (lines items))
                (sum_of-lines line_discount items)
            ∙ ap (λ m. sum_of line_discount items +ℤ m) (share_of limit)
            ∙ capped order.discount_amount (sum_of line_discount items) within
      ]

  -- The net sales of the lines of an order add up to its gross amount and its tax, with the shipping
  -- and without the discount of the order, where the order has a line.
  pub fact_rows-net_sales :
      (order : Order) (items : List OrderItem)
      → items ≢ []
      → sum_of (λ row. row.net_sales) (fact_rows share order items)
        ≡ sum_of gross items
          +ℤ sum_of (λ item. item.tax_amount) items
          +ℤ order.shipping_amount
          -ℤ order.discount_amount
  unfolding fact_rows net_sales
  fact_rows-net_sales order items not_empty =
      let shipping = allocated share order.shipping_amount items in
      let tax = λ (item : OrderItem). item.tax_amount in
      sum_of-map (λ row. row.net_sales) (fact_row share order items) (lines items)
      ∙ sum_of_sub (λ line. gross line.1 +ℤ tax line.1 +ℤ shipping line)
          (total_discount share order items) (lines items)
      ∙ ap (λ m. m -ℤ sum_of (total_discount share order items) (lines items))
          (sum_of_add (λ line. gross line.1 +ℤ tax line.1) shipping (lines items)
            ∙ ap (λ m. m +ℤ sum_of shipping (lines items))
                (sum_of_add (λ line. gross line.1) (λ line. tax line.1) (lines items)
                  ∙ ap (λ m. m +ℤ sum_of (λ line. tax line.1) (lines items))
                      (sum_of-lines gross items)
                  ∙ ap (λ m. sum_of gross items +ℤ m) (sum_of-lines tax items))
            ∙ ap (λ m. sum_of gross items +ℤ sum_of tax items +ℤ m)
                (residual_allocation-sum_of order.shipping_amount (sum_of gross items) gross items
                  not_empty))
      ∙ ap (λ m. sum_of gross items +ℤ sum_of tax items +ℤ order.shipping_amount -ℤ m)
          (total_discount-sum_of order items not_empty)
