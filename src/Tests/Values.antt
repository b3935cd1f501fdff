-- ===== src/Tests/Values.antt =====
-- Amounts, quantities and single decisions of the domain.
use agrilink_backend.Base.{
  ◌+◌, ◌≤◌, ◌<◌, ◌*◌, ◌≡◌, ◌↔◌, ◌⊎◌, refl, true, none, some, [], ◌∷◌, ok, err, codes, arith,
  money_validation, payment_domain,
}
use agrilink_backend.Commerce.MoneyVnd
use agrilink_backend.Commerce.MoneyVnd.{MoneyVnd}
use agrilink_backend.Commerce.MoneyVnd.RoundTrip.{money_parse-to_string, money_to_string-parse}
use agrilink_backend.Commerce.MoneyVnd.Arithmetic.{multiply_exact, subtract_lem}
use agrilink_backend.Commerce.Quantity
use agrilink_backend.Commerce.Quantity.{Quantity}
use agrilink_backend.Commerce.Quantity.RoundTrip.{quantity_parse-to_string, quantity_parse_positive}
use agrilink_backend.Contracts.Contract.{Contract, pending_signature, is_set, sign}
use agrilink_backend.Contracts.Contract.Laws.{sign_sound}
use agrilink_backend.Orders.Status.{
  pending, confirmed, preparing, cancelled, seller, admin, assert_order_transition,
}
use agrilink_backend.Orders.Status.Laws.{Step, assert_order_transition_iff, run, run_bounded}
use agrilink_backend.Payments.Payment
use agrilink_backend.Payments.Payment.{Payment, paid, partially_refunded, refunded, cod, refund}
use agrilink_backend.Payments.Payment.Laws.{IsRefundable, refund_sound, refund_refused}

abbrev vnd_1200 : MoneyVnd
vnd_1200 = record { value = 1200 }

abbrev vnd_300 : MoneyVnd
vnd_300 = record { value = 300 }

abbrev half : Quantity
half = record { thousandths = 2500 }

money_parse-to_string_example : MoneyVnd.parse (MoneyVnd.to_string vnd_1200) ≡ ok vnd_1200
money_parse-to_string_example = money_parse-to_string vnd_1200

money_to_string-parse_example : MoneyVnd.to_string vnd_1200 ≡ codes "1200"
unfolding MoneyVnd.parse
money_to_string-parse_example = money_to_string-parse (codes "1200") vnd_1200 refl

quantity_parse-to_string_example : Quantity.parse (Quantity.to_string half) ≡ ok half
quantity_parse-to_string_example = quantity_parse-to_string half (omega arith)

quantity_parse_positive_example : 0 < 2500
unfolding Quantity.parse Quantity.parse_parts Quantity.split_dot
quantity_parse_positive_example = quantity_parse_positive (codes "2.5") half refl

multiply_exact_example :
    (MoneyVnd.multiply vnd_1200 half ≡ ok (record { value = 3000 })) ↔ (3000 * 1000 ≡ 1200 * 2500)
multiply_exact_example = multiply_exact vnd_1200 (record { value = 3000 }) half

subtract_lem_example :
    (MoneyVnd.subtract (MoneyVnd.add vnd_300 vnd_1200) vnd_1200 ≡ ok vnd_300)
    × ((MoneyVnd.subtract vnd_300 vnd_1200 ≡ ok vnd_300)
        ↔ (vnd_300 ≡ MoneyVnd.add vnd_300 vnd_1200))
    × ((MoneyVnd.subtract vnd_300 vnd_1200 ≡ err money_validation) ↔ (300 < 1200))
subtract_lem_example = subtract_lem vnd_300 vnd_1200 vnd_300

assert_order_transition_iff_example :
    (assert_order_transition pending confirmed seller ≡ ok tt) ↔ Step seller pending confirmed
assert_order_transition_iff_example = assert_order_transition_iff pending confirmed seller

run_bounded_example : 3 + 0 ≤ 5
unfolding run assert_order_transition
run_bounded_example =
    run_bounded pending cancelled
      ((confirmed, seller) ∷ (preparing, admin) ∷ (cancelled, seller) ∷ []) refl

abbrev payment : Payment
payment = record {
  order_id = 7;
  amount = vnd_1200;
  method = cod;
  status = paid;
  refunded_amount = record { value = 0 };
}

abbrev part_refunded : Payment
part_refunded = record payment { status = partially_refunded; refunded_amount = vnd_300 }

refund_sound_example :
    IsRefundable vnd_300 Payment.admin payment
    × (part_refunded.amount ≡ payment.amount)
    × (part_refunded.refunded_amount.value ≡ payment.refunded_amount.value + vnd_300.value)
    × (((part_refunded.status ≡ refunded)
          × (part_refunded.refunded_amount.value ≡ payment.amount.value))
        ⊎ ((part_refunded.status ≡ partially_refunded)
            × (part_refunded.refunded_amount.value < payment.amount.value)))
unfolding refund
refund_sound_example = refund_sound vnd_300 Payment.admin payment part_refunded refl

refund_refused_example :
    (refund vnd_300 Payment.seller payment ≡ err payment_domain)
    ↔ (¬ IsRefundable vnd_300 Payment.seller payment)
refund_refused_example = refund_refused vnd_300 Payment.seller payment

abbrev contract : Contract
contract = record {
  buyer_id = 1;
  seller_id = 2;
  quantity = half;
  unit_price = vnd_1200;
  total_value = record { value = 3000 };
  status = pending_signature;
  buyer_signed_at = none;
  seller_signed_at = none;
}

abbrev seller_signed : Contract
seller_signed = record contract { seller_signed_at = some 50 }

sign_sound_example :
    (contract.status ≡ pending_signature)
    × (seller_signed.status ≡ pending_signature)
    × (((2 ≡ contract.buyer_id)
          × (is_set seller_signed.buyer_signed_at ≡ true)
          × (seller_signed.seller_signed_at ≡ contract.seller_signed_at))
        ⊎ ((2 ≡ contract.seller_id)
            × (is_set seller_signed.seller_signed_at ≡ true)
            × (seller_signed.buyer_signed_at ≡ contract.buyer_signed_at)))
unfolding sign
sign_sound_example = sign_sound 2 50 contract seller_signed refl
