-- ===== src/Payments/Repository.antt =====
-- TypeOrmPaymentRepository
-- (modules/payments/infrastructure/persistence/repositories/typeorm-payment.repository.ts) and the
-- mapper beside it.
pub mod Updates
pub mod Replay
pub mod Ledger
pub mod Winner
use agrilink_backend.Base.{
  ℕ, ◌+◌, Bool, true, false, ◌&&◌, not, Option, none, some, List, [], ◌∷◌, ◌++◌, Result, ok, err,
  commerce_not_found, commerce_conflict, unique_violation, Error, Text, codes, ◌==◌, if◌then◌else◌,
}
use agrilink_backend.Base.Action.{Action, ◌>>=◌, ◌>>◌, pure, gets, lift, or_throw, throw_if, modify}
use agrilink_backend.Base.Table.{find_one, update_where, count_where}
use agrilink_backend.Commerce.MoneyVnd
use agrilink_backend.Commerce.Operations.{OperationKey, idempotent, complete}
use agrilink_backend.Payments.Payment.{
  PaymentMethod, PaymentStatus, unpaid, PaymentActor, admin, same_status, Payment, PaymentValues,
  rehydrate, mark_paid, refund,
}
use agrilink_backend.Store.{
  Store, PaymentRow, Draw, create_payment, mark_payment_paid, refund_payment,
}

-- PaymentModel; the currency is always VND.
pub record PaymentModel : Type 0 where
  pub id : ℕ
  pub order_id : ℕ
  pub amount : Text
  pub method : PaymentMethod
  pub status : PaymentStatus
  pub refunded_amount : Text
  pub version : ℕ
  pub created_at : ℕ
  pub updated_at : ℕ

-- PaymentPersistenceMapper.toModel
abbrev pub to_model : PaymentRow → PaymentModel
to_model r = record {
  id = r.id;
  order_id = r.order_id;
  amount = r.amount;
  method = r.method;
  status = r.status;
  refunded_amount = r.refunded_amount;
  version = r.version;
  created_at = r.created_at;
  updated_at = r.updated_at;
}

-- PaymentPersistenceMapper.toDomain
unfoldable pub to_domain : PaymentRow → Result Payment
unfolding rehydrate
to_domain r = rehydrate (record {
  order_id = r.order_id;
  amount = r.amount;
  method = r.method;
  status = r.status;
  refunded_amount = r.refunded_amount;
})

pub record CreatePaymentInput : Type 0 where
  pub order_id : ℕ
  pub actor_id : ℕ
  pub amount : Text
  pub method : PaymentMethod
  pub operation_key : ℕ
  pub request_fingerprint : ℕ

pub record MarkPaidInput : Type 0 where
  pub payment_id : ℕ
  pub actor_id : ℕ
  pub actor : PaymentActor
  pub expected_version : ℕ
  pub operation_key : ℕ
  pub request_fingerprint : ℕ

pub record RefundInput : Type 0 where
  pub payment_id : ℕ
  pub actor_id : ℕ
  pub amount : Text
  pub expected_version : ℕ
  pub operation_key : ℕ
  pub request_fingerprint : ℕ

abbrev pub to_model? : Option PaymentRow → Option PaymentModel
to_model? none = none
to_model? (some r) = some (to_model r)

unfoldable pub find_by_id : ℕ → Action Store (Option PaymentModel)
find_by_id id = gets (λ s. to_model? (find_one (λ (r : PaymentRow). r.id == id) s.payments))

unfoldable pub find_by_order_id : ℕ → Action Store (Option PaymentModel)
find_by_order_id order_id =
    gets (λ s. to_model? (find_one (λ (r : PaymentRow). r.order_id == order_id) s.payments))

-- `save` of a new row: the column `order_id` is unique.
abbrev pub save_new : PaymentRow → Action Store (Unit {0})
save_new row s = elim (find_one (λ (r : PaymentRow). r.order_id == row.order_id) s.payments) [
  | none ↦ (ok tt, record s { payments = s.payments ++ row ∷ [] })
  | some r ↦ (err unique_violation, s)
]

abbrev pub is_unique_violation : Error → Bool
is_unique_violation unique_violation = true
is_unique_violation _ = false

-- `catch (error) { if (isUniqueViolation(error)) throw new CommerceConflictError(…); throw error; }`
abbrev pub conflict_if_unique : {A : Type 0} → Result A × Store → Result A × Store
conflict_if_unique (ok a, s) = (ok a, s)
conflict_if_unique (err e, s) =
    ((if is_unique_violation e then err commerce_conflict else err e), s)

abbrev pub new_row : Draw → CreatePaymentInput → PaymentRow
new_row draw input = record {
  id = draw.id;
  order_id = input.order_id;
  amount = input.amount;
  method = input.method;
  status = unpaid;
  refunded_amount = codes "0";
  version = 1;
  created_at = draw.now;
  updated_at = draw.now;
}

-- the body of the `try`
unfoldable pub try_create : Draw → CreatePaymentInput → ℕ → Action Store PaymentModel
try_create draw input operation_id = do
  save_new (new_row draw input)
  complete operation_id draw.id draw.id
  pure (to_model (new_row draw input))

unfoldable pub create_body : Draw → CreatePaymentInput → ℕ → Action Store PaymentModel
unfolding try_create
create_body draw input operation_id s = conflict_if_unique (try_create draw input operation_id s)

unfoldable pub create_atomically : Draw → CreatePaymentInput → Action Store PaymentModel
create_atomically draw input =
    idempotent (λ model. model) find_by_id draw.operation_id
      (record {
        actor_id = input.actor_id;
        operation_type = create_payment;
        idempotency_key = input.operation_key;
        request_fingerprint = input.request_fingerprint;
      })
      (create_body draw input)

-- WHERE id = :id AND version = :version AND status = :status
abbrev pub is_current : ℕ → ℕ → PaymentStatus → PaymentRow → Bool
is_current id version status r = r.id == id && r.version == version && same_status r.status status

abbrev pub set_paid : ℕ → PaymentStatus → PaymentRow → PaymentRow
set_paid now status r = record r { status = status; version = r.version + 1; updated_at = now }

unfoldable pub mark_paid_body : Draw → MarkPaidInput → ℕ → Action Store (Option PaymentModel)
mark_paid_body draw input operation_id = do
  found ← gets (λ s. find_one (λ (r : PaymentRow). r.id == input.payment_id) s.payments)
  entity ← or_throw found commerce_not_found
  payment ← lift (to_domain entity)
  next ← lift (mark_paid input.actor payment)
  affected ←
      gets (λ s. count_where (is_current entity.id input.expected_version entity.status) s.payments)
  modify (λ s. record s {
    payments =
        update_where (is_current entity.id input.expected_version entity.status)
          (set_paid draw.now next.status) s.payments;
  })
  throw_if (not (affected == 1)) commerce_conflict
  complete operation_id entity.id entity.id
  find_by_id entity.id

unfoldable pub mark_paid_atomically : Draw → MarkPaidInput → Action Store (Option PaymentModel)
mark_paid_atomically draw input =
    idempotent some find_by_id draw.operation_id
      (record {
        actor_id = input.actor_id;
        operation_type = mark_payment_paid;
        idempotency_key = input.operation_key;
        request_fingerprint = input.request_fingerprint;
      })
      (mark_paid_body draw input)

abbrev pub set_refunded : ℕ → PaymentStatus → Text → PaymentRow → PaymentRow
set_refunded now status refunded_amount r = record r {
  status = status;
  refunded_amount = refunded_amount;
  version = r.version + 1;
  updated_at = now;
}

unfoldable pub refund_body : Draw → RefundInput → ℕ → Action Store (Option PaymentModel)
refund_body draw input operation_id = do
  found ← gets (λ s. find_one (λ (r : PaymentRow). r.id == input.payment_id) s.payments)
  entity ← or_throw found commerce_not_found
  payment ← lift (to_domain entity)
  amount ← lift (MoneyVnd.parse input.amount)
  next ← lift (refund amount admin payment)
  affected ←
      gets (λ s. count_where (is_current entity.id input.expected_version entity.status) s.payments)
  modify (λ s. record s {
    payments =
        update_where (is_current entity.id input.expected_version entity.status)
          (set_refunded draw.now next.status (MoneyVnd.to_string next.refunded_amount)) s.payments;
  })
  throw_if (not (affected == 1)) commerce_conflict
  complete operation_id entity.id entity.id
  find_by_id entity.id

unfoldable pub refund_atomically : Draw → RefundInput → Action Store (Option PaymentModel)
refund_atomically draw input =
    idempotent some find_by_id draw.operation_id
      (record {
        actor_id = input.actor_id;
        operation_type = refund_payment;
        idempotency_key = input.operation_key;
        request_fingerprint = input.request_fingerprint;
      })
      (refund_body draw input)
