-- ===== src/Commerce/MoneyVnd/RoundTrip.antt =====
-- `MoneyVnd.parse` and `toString` undo one another.
use agrilink_backend.Base.{◌≡◌, ok, Text, arith, is_whole, Bool-cases, inl, inr}
use agrilink_backend.Base.Decimal.{read_digits-print, print-is_whole, print-read_digits_whole}
use agrilink_backend.Commerce.MoneyVnd.{MoneyVnd, parse, to_string}

-- Every amount is read back from its text.
pub money_parse-to_string : (a : MoneyVnd) → parse (to_string a) ≡ ok a
unfolding parse to_string
money_parse-to_string a = rw (print-is_whole a.value, read_digits-print a.value)

-- A text that is accepted is the text of the amount that it is read as: no amount has two texts.
pub money_to_string-parse : (s : Text) (a : MoneyVnd) → parse s ≡ ok a → to_string a ≡ s
unfolding parse to_string
money_to_string-parse s a h = elim (Bool-cases (is_whole s)) [
  | inl whole ↦ rw (← print-read_digits_whole s whole) (ground (arith, whole))
  | inr other ↦ ground arith
]
