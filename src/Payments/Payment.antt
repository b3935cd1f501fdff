-- ===== src/Payments/Payment.antt =====
-- modules/payments/domain/payment.ts.
pub mod Laws
use agrilink_backend.Base.{
  ℕ, Bool, true, false, ◌||◌, ◌&&◌, not, Result, ok, err, payment_domain, Text, ltb, ◌==◌,
  if◌then◌else◌,
}
use agrilink_backend.Base.Errors.{◌>>=◌}
use agrilink_backend.Commerce.MoneyVnd
use agrilink_backend.Commerce.MoneyVnd.{MoneyVnd}

pub data PaymentStatus : Type 0 where
  unpaid paid partially_refunded refunded : PaymentStatus

pub data PaymentMethod : Type 0 where
  cod bank_transfer manual : PaymentMethod

pub data PaymentActor : Type 0 where
  seller admin : PaymentActor

abbrev pub status_code : PaymentStatus → ℕ
status_code unpaid = 0
status_code paid = 1
status_code partially_refunded = 2
status_code refunded = 3

-- `status === other`
abbrev pub same_status : PaymentStatus → PaymentStatus → Bool
same_status a b = status_code a == status_code b

abbrev pub is_admin : PaymentActor → Bool
is_admin seller = false
is_admin admin = true

pub record Payment : Type 0 where
  pub order_id : ℕ
  pub amount : MoneyVnd
  pub method : PaymentMethod
  pub status : PaymentStatus
  pub refunded_amount : MoneyVnd

-- `new Payment`
unfoldable pub new_payment : ℕ → MoneyVnd → PaymentMethod → MoneyVnd → Result Payment
new_payment order_id amount method order_total =
    if amount.value == order_total.value
    then ok (record {
      order_id = order_id;
      amount = amount;
      method = method;
      status = unpaid;
      refunded_amount = record { value = 0 };
    })
    else err payment_domain

-- The fields of a row or of a model that `rehydrate` reads.
pub record PaymentValues : Type 0 where
  pub order_id : ℕ
  pub amount : Text
  pub method : PaymentMethod
  pub status : PaymentStatus
  pub refunded_amount : Text

unfoldable pub rehydrate : PaymentValues → Result Payment
unfolding new_payment
rehydrate input = do
  amount ← MoneyVnd.parse input.amount
  payment ← new_payment input.order_id amount input.method amount
  refunded_amount ← MoneyVnd.parse input.refunded_amount
  (if ltb amount.value refunded_amount.value
      then err payment_domain
      else ok (record payment { status = input.status; refunded_amount = refunded_amount }))

-- Both actors of the type stand in the list that the source tests.
unfoldable pub mark_paid : PaymentActor → Payment → Result Payment
mark_paid actor p =
    if not (same_status p.status unpaid)
    then err payment_domain
    else ok (record p { status = paid })

unfoldable pub refund : MoneyVnd → PaymentActor → Payment → Result Payment
unfolding MoneyVnd.add
refund amount actor p =
    let next = MoneyVnd.add p.refunded_amount amount in
    if not (is_admin actor)
      || not (same_status p.status paid || same_status p.status partially_refunded)
    then err payment_domain
    else if amount.value == 0
    then err payment_domain
    else if ltb p.amount.value next.value
    then err payment_domain
    else ok (record p {
      refunded_amount = next;
      status = if next.value == p.amount.value then refunded else partially_refunded;
    })
