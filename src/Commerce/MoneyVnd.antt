-- ===== src/Commerce/MoneyVnd.antt =====
-- `MoneyVnd` of modules/commerce/domain/commerce-values.ts. A BigInt that the code keeps
-- non-negative is a natural number.
pub mod RoundTrip
pub mod Arithmetic
use agrilink_backend.Base.{
  ℕ, ◌+◌, ◌-◌, ◌*◌, ◌/◌, ◌%◌, Result, ok, err, money_validation, Text, is_whole, read_digits, print,
  ltb, ◌==◌, if◌then◌else◌,
}
use agrilink_backend.Commerce.Quantity.{Quantity}

pub record MoneyVnd : Type 0 where
  pub value : ℕ

unfoldable pub parse : Text → Result MoneyVnd
parse input =
    if is_whole input then ok (record { value = read_digits 0 input }) else err money_validation

unfoldable pub add : MoneyVnd → MoneyVnd → MoneyVnd
add a b = record { value = a.value + b.value }

unfoldable pub subtract : MoneyVnd → MoneyVnd → Result MoneyVnd
subtract a b =
    if ltb a.value b.value then err money_validation else ok (record { value = a.value - b.value })

unfoldable pub multiply : MoneyVnd → Quantity → Result MoneyVnd
multiply price quantity =
    let scaled = price.value * quantity.thousandths in
    if scaled % 1000 == 0 then ok (record { value = scaled / 1000 }) else err money_validation

unfoldable pub to_string : MoneyVnd → Text
unfolding print
to_string a = print a.value
