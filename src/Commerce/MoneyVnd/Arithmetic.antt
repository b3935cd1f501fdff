-- ===== src/Commerce/MoneyVnd/Arithmetic.antt =====
-- The amounts that `subtract` and `multiply` return, and when they refuse.
use agrilink_backend.Base.{◌*◌, ◌/◌, ◌<◌, ◌≡◌, ◌≢◌, ◌↔◌, ok, err, money_validation, arith}
use agrilink_backend.Commerce.Quantity.{Quantity}
use agrilink_backend.Commerce.MoneyVnd.{MoneyVnd, add, subtract, multiply}

-- Price times quantity is exact, or refused: `multiply` returns the amount `total` exactly when
-- a thousand times `total` is the price times the thousandths of the quantity.
pub multiply_exact :
    (price total : MoneyVnd) (quantity : Quantity)
    → (multiply price quantity ≡ ok total)
      ↔ (total.value * 1000 ≡ price.value * quantity.thousandths)
unfolding multiply
multiply_exact price total quantity = (λ h. ground arith, λ h. ground arith)

-- `multiply` refuses only amounts with a fraction, with the money error.
pub multiply_fails :
    (price : MoneyVnd) (quantity : Quantity)
    → ((total : MoneyVnd) → total.value * 1000 ≢ price.value * quantity.thousandths)
    → multiply price quantity ≡ err money_validation
unfolding multiply
multiply_fails price quantity never =
    let scaled = price.value * quantity.thousandths in
    ground (arith, never (record { value = scaled / 1000 }))

-- `subtract` takes back what `add` added, and refuses exactly what would be negative.
pub subtract_lem :
    (a b c : MoneyVnd)
    → (subtract (add a b) b ≡ ok a)
      × ((subtract a b ≡ ok c) ↔ (a ≡ add c b))
      × ((subtract a b ≡ err money_validation) ↔ (a.value < b.value))
unfolding subtract add
subtract_lem a b c =
    (ground arith, (λ h. ground arith, λ h. ground arith), (λ h. ground arith, λ h. ground arith))
