-- ===== src/Orders/UseCases/Pricing.antt =====
-- What `CreateOrderUseCase` works out before it stores an order.
use agrilink_backend.Base.{
  ℕ, ◌+◌, ◌*◌, ◌≡◌, ◌≢◌, refl, ◌∙◌, ap, false, inl, inr, Option, none, some, List, [], ◌∷◌,
  Result-cases, Option-cases, Result, ok, codes, arith, All, ◌==◌, ==_ne_of_false,
}
use agrilink_backend.Commerce.MoneyVnd
use agrilink_backend.Commerce.MoneyVnd.{MoneyVnd}
use agrilink_backend.Commerce.MoneyVnd.Arithmetic.{multiply_exact}
use agrilink_backend.Commerce.Quantity
use agrilink_backend.Commerce.Quantity.{Quantity}
use agrilink_backend.Orders.Order.{OrderItem, new_order_item}
use agrilink_backend.Orders.UseCases.{
  ItemInput, CreateOrderInput, ProductProjection, PricedOrder, find_all, has_null, not_null,
  has_other_seller, build_items, sum_items, price_order, check_products,
}

unfoldable pub sum_of_lines : List OrderItem → ℕ
sum_of_lines [] = 0
sum_of_lines (item ∷ items) = item.line_total.value + sum_of_lines items

sum_items_lem :
    (total : MoneyVnd) (items : List OrderItem)
    → (sum_items total items).value ≡ total.value + sum_of_lines items
unfolding sum_items sum_of_lines
sum_items_lem total [] = omega arith
sum_items_lem total (item ∷ items) =
    omega (arith, sum_items_lem (MoneyVnd.add total item.line_total) items)

-- What a line has of a product and of the quantity asked for: the line total is price times
-- quantity, with nothing rounded.
pub record IsLineFor (p : ProductProjection) (input : ItemInput) (item : OrderItem) : Type 0 where
  pub id : item.product_id ≡ p.id
  pub name : item.product_name ≡ p.name
  pub quantity : Quantity.parse input.quantity ≡ ok item.quantity
  pub price : MoneyVnd.parse p.price_per_unit ≡ ok item.unit_price
  pub exact : item.line_total.value * 1000 ≡ item.unit_price.value * item.quantity.thousandths

module _ (find : ℕ → Result (Option ProductProjection)) where
  -- The line of the product that is found under the id asked for, which the seller sells.
  pub record IsLineOf (seller_id : ℕ) (input : ItemInput) (item : OrderItem) : Type 0 where
    pub product : ProductProjection
    pub found : find input.product_id ≡ ok (some product)
    pub sold : product.seller_id ≡ seller_id
    pub line : IsLineFor product input item

  -- A line for each item asked for, in order, and no other.
  abbrev pub AllLines : ℕ → List ItemInput → List OrderItem → Type 0
  AllLines seller_id [] [] = Unit
  AllLines seller_id [] (x ∷ items) = ⊥
  AllLines seller_id (input ∷ inputs) [] = ⊥
  AllLines seller_id (input ∷ inputs) (item ∷ items) =
      IsLineOf seller_id input item × AllLines seller_id inputs items

  abbrev AllFound : List ItemInput → List ProductProjection → Type 0
  AllFound [] [] = Unit
  AllFound [] (p ∷ products) = ⊥
  AllFound (input ∷ inputs) [] = ⊥
  AllFound (input ∷ inputs) (p ∷ products) =
      (find input.product_id ≡ ok (some p)) × AllFound inputs products

  find_all-AllFound :
      (inputs : List ItemInput) (projections : List (Option ProductProjection))
      → find_all find inputs ≡ ok projections
      → has_null projections ≡ false
      → AllFound inputs (not_null projections)
  unfolding find_all
  find_all-AllFound [] [] h whole = tt
  find_all-AllFound [] (x ∷ projections) h whole = absurd (cc)
  find_all-AllFound (input ∷ inputs) projections h whole =
      elim (Result-cases (find input.product_id)) [
        | inl (e, failed) ↦ absurd (ground (arith, failed))
        | inr (o, asked) ↦ elim (Result-cases (find_all find inputs)) [
          | inl (e, failed) ↦ absurd (ground (arith, asked, failed))
          | inr (rest, others) ↦
              let same : projections ≡ o ∷ rest = ground (arith, asked, others) in
              let whole' : has_null (o ∷ rest) ≡ false = rw same at whole in
              elim (Option-cases o) [
                | inl gone ↦ absurd (ground (arith, ap (λ q. has_null (q ∷ rest)) gone))
                | inr (p, there) ↦
                    let left : has_null rest ≡ false =
                      ground (arith, ap (λ q. has_null (q ∷ rest)) there) in
                    rw (same, there)
                      ((asked ∙ ap ok there), find_all-AllFound inputs rest others left)
              ]
        ]
      ]

  new_order_item-IsLineFor :
      (p : ProductProjection) (input : ItemInput) (quantity : Quantity) (price : MoneyVnd)
      (item : OrderItem)
      → Quantity.parse input.quantity ≡ ok quantity
      → MoneyVnd.parse p.price_per_unit ≡ ok price
      → new_order_item p.id p.name quantity price none ≡ ok item
      → IsLineFor p input item
  unfolding new_order_item
  new_order_item-IsLineFor p input quantity price item q m h =
      elim (Result-cases (MoneyVnd.multiply price quantity)) [
        | inl (e, failed) ↦ absurd (ground (arith, failed))
        | inr (total, done) ↦
            let exact = (multiply_exact price total quantity).0 done in
            record {
              id = ground (arith, done);
              name = ground (arith, done);
              quantity = q ∙ ground (arith, done);
              price = m ∙ ground (arith, done);
              exact = ground (arith, done, exact);
            }
      ]

  build_items-AllLines :
      (seller_id : ℕ) (inputs : List ItemInput) (products : List ProductProjection)
      (items : List OrderItem)
      → AllFound inputs products
      → All (λ (p : ProductProjection). p.seller_id ≡ seller_id) products
      → build_items products inputs ≡ ok items
      → AllLines seller_id inputs items
  unfolding build_items
  build_items-AllLines seller_id [] [] [] found own h = tt
  build_items-AllLines seller_id [] [] (x ∷ items) found own h = absurd (cc)
  build_items-AllLines seller_id [] (p ∷ products) items found own h = elim found [ ]
  build_items-AllLines seller_id (input ∷ inputs) [] items found own h = elim found [ ]
  build_items-AllLines seller_id (input ∷ inputs) (p ∷ products) items (found, others) (sold, own)
        h =
      elim (Result-cases (Quantity.parse input.quantity)) [
        | inl (e, failed) ↦ absurd (ground (arith, failed))
        | inr (quantity, q) ↦ elim (Result-cases (MoneyVnd.parse p.price_per_unit)) [
          | inl (e, failed) ↦ absurd (ground (arith, q, failed))
          | inr (price, m) ↦ elim (Result-cases (new_order_item p.id p.name quantity price none)) [
            | inl (e, failed) ↦ absurd (ground (arith, q, m, failed))
            | inr (item, made) ↦ elim (Result-cases (build_items products inputs)) [
              | inl (e, failed) ↦ absurd (ground (arith, q, m, made, failed))
              | inr (rest, built) ↦
                  let same : items ≡ item ∷ rest = ground (arith, q, m, made, built) in
                  rw same (
                    record {
                      product = p;
                      found = found;
                      sold = sold;
                      line = new_order_item-IsLineFor p input quantity price item q m made;
                    },
                    build_items-AllLines seller_id inputs products rest others own built,
                  )
            ]
          ]
        ]
      ]

  -- The lines and the amounts of an order for what was asked for.
  pub record IsPriced (input : CreateOrderInput) (priced : PricedOrder) : Type 0 where
    pub lines : AllLines priced.seller_id input.items priced.items
    pub subtotal : priced.subtotal.value ≡ sum_of_lines priced.items
    pub shipping_fee : MoneyVnd.parse input.shipping_fee ≡ ok priced.shipping_fee
    pub platform_fee : MoneyVnd.parse input.platform_fee ≡ ok priced.platform_fee
    pub total :
        priced.total_amount.value
        ≡ priced.subtotal.value + priced.shipping_fee.value + priced.platform_fee.value

IsFromSeller-All :
    (seller_id : ℕ) (products : List ProductProjection)
    → has_other_seller seller_id products ≡ false
    → All (λ (p : ProductProjection). p.seller_id ≡ seller_id) products
IsFromSeller-All seller_id [] h = tt
IsFromSeller-All seller_id (p ∷ products) h =
    (ground arith, IsFromSeller-All seller_id products (ground arith))

zero_parses : MoneyVnd.parse (codes "0") ≡ ok (record { value = 0 })
unfolding MoneyVnd.parse
zero_parses = refl

module _ (find : ℕ → Result (Option ProductProjection)) (buyer_id : ℕ)
    (input : CreateOrderInput) where
  price_order-IsPriced :
      (seller_id : ℕ) (products : List ProductProjection) (priced : PricedOrder)
      → AllFound find input.items products
      → All (λ (p : ProductProjection). p.seller_id ≡ seller_id) products
      → price_order buyer_id input seller_id products ≡ ok priced
      → IsPriced find input priced × (priced.seller_id ≡ seller_id)
  unfolding price_order
  price_order-IsPriced seller_id products priced found own h =
      elim (Result-cases (build_items products input.items)) [
        | inl (e, failed) ↦ absurd (ground (arith, failed))
        | inr (items, built) ↦ elim (Result-cases (MoneyVnd.parse input.shipping_fee)) [
          | inl (e, failed) ↦ absurd (ground (arith, built, zero_parses, failed))
          | inr (shipping, ship) ↦ elim (Result-cases (MoneyVnd.parse input.platform_fee)) [
            | inl (e, failed) ↦ absurd (ground (arith, built, zero_parses, ship, failed))
            | inr (platform, plat) ↦
                let same : priced.items ≡ items = ground (arith, built, zero_parses, ship, plat) in
                let subtotal : priced.subtotal ≡ sum_items (record { value = 0 }) items =
                  ground (arith, built, zero_parses, ship, plat) in
                let seller : priced.seller_id ≡ seller_id =
                  ground (arith, built, zero_parses, ship, plat) in
                (
                  record {
                    lines =
                        rw (same, seller)
                          (build_items-AllLines find seller_id input.items products items found own
                            built);
                    subtotal =
                        rw (subtotal, same)
                          (omega (arith, sum_items_lem (record { value = 0 }) items));
                    shipping_fee = ship ∙ ground (arith, built, zero_parses, ship, plat);
                    platform_fee = plat ∙ ground (arith, built, zero_parses, ship, plat);
                    total = ground (arith, built, zero_parses, ship, plat);
                  },
                  seller,
                )
          ]
        ]
      ]

  sold_to_another :
      (products : List ProductProjection) (priced : PricedOrder)
      → AllFound find input.items products
      → check_products buyer_id input products ≡ ok priced
      → IsPriced find input priced × (priced.seller_id ≢ buyer_id)
  unfolding check_products
  sold_to_another [] priced found h = absurd (cc)
  sold_to_another (p ∷ rest) priced found h =
      let one_seller : has_other_seller p.seller_id (p ∷ rest) ≡ false = ground arith in
      let other : (p.seller_id == buyer_id) ≡ false = ground arith in
      let priced_at : price_order buyer_id input p.seller_id (p ∷ rest) ≡ ok priced =
        rw (one_seller, other) at h in
      let (amounts, same) =
        price_order-IsPriced p.seller_id (p ∷ rest) priced found
          (IsFromSeller-All p.seller_id (p ∷ rest) one_seller) priced_at in
      (amounts, rw same (==_ne_of_false p.seller_id buyer_id other))

  -- An order that the use case prices, after it has found all products, has one line for each item
  -- asked for, in order: of the product found under the id asked for, with its name, its price and
  -- the quantity asked for. All these products are of the seller of the order, who is not the buyer.
  -- Each line total is exactly price times quantity, the subtotal is the sum of the line totals, the
  -- fees are the ones asked for, and the total is the subtotal with both fees.
  pub check_products-IsPriced :
      (projections : List (Option ProductProjection)) (priced : PricedOrder)
      → find_all find input.items ≡ ok projections
      → has_null projections ≡ false
      → check_products buyer_id input (not_null projections) ≡ ok priced
      → IsPriced find input priced × (priced.seller_id ≢ buyer_id)
  check_products-IsPriced projections priced found whole =
      sold_to_another (not_null projections) priced
        (find_all-AllFound find input.items projections found whole)
