-- ===== src/Commerce/Operations.antt =====
-- TypeOrmCommerceOperationRepository
-- (modules/commerce/infrastructure/persistence/repositories/typeorm-commerce-operation.repository.ts),
-- and the opening and the replay that every repository method of the commerce modules shares.
pub mod Replay
pub mod Refusal
use agrilink_backend.Base.{
  ℕ, Bool, true, false, ◌&&◌, ◌||◌, not, Option, none, some, List, [], ◌∷◌, ◌++◌, ok, err,
  idempotency_conflict, operation_in_progress, missing_result, ◌==◌, if◌then◌else◌,
}
use agrilink_backend.Base.Action.{
  Action, ◌>>=◌, ◌>>◌, pure, throw, gets, or_throw, throw_if, modify, execute,
}
use agrilink_backend.Base.Table.{find_one, update_where}
use agrilink_backend.Store.{
  OperationType, create_order, transition_order, create_payment, mark_payment_paid, refund_payment,
  create_purchase_request, close_purchase_request, cancel_purchase_request, create_contract,
  sign_contract, transition_contract, OperationStatus, started, completed, OperationRow, Store,
}

abbrev pub type_code : OperationType → ℕ
type_code create_order = 0
type_code transition_order = 1
type_code create_payment = 2
type_code mark_payment_paid = 3
type_code refund_payment = 4
type_code create_purchase_request = 5
type_code close_purchase_request = 6
type_code cancel_purchase_request = 7
type_code create_contract = 8
type_code sign_contract = 9
type_code transition_contract = 10

abbrev pub is_completed : OperationStatus → Bool
is_completed started = false
is_completed completed = true

pub record OperationKey : Type 0 where
  pub actor_id : ℕ
  pub operation_type : OperationType
  pub idempotency_key : ℕ
  pub request_fingerprint : ℕ

-- The columns of UQ_commerce_operations_scope.
abbrev pub in_scope : OperationKey → OperationRow → Bool
in_scope k r =
    k.actor_id == r.actor_id
    && type_code k.operation_type == type_code r.operation_type
    && k.idempotency_key == r.idempotency_key

abbrev pub new_operation : ℕ → OperationKey → OperationRow
new_operation id k = record {
  id = id;
  actor_id = k.actor_id;
  operation_type = k.operation_type;
  idempotency_key = k.idempotency_key;
  request_fingerprint = k.request_fingerprint;
  aggregate_id = none;
  result_reference = none;
  status = started;
}

-- INSERT … ON CONFLICT DO NOTHING RETURNING *
abbrev pub insert_or_ignore : ℕ → OperationKey → Action Store Bool
insert_or_ignore id k s = elim (find_one (in_scope k) s.operations) [
  | none ↦ (ok true, record s { operations = s.operations ++ new_operation id k ∷ [] })
  | some r ↦ (ok false, s)
]

unfoldable pub claim : ℕ → OperationKey → Action Store (OperationRow × Bool)
claim id k = do
  claimed ← insert_or_ignore id k
  found ← gets (λ s. find_one (in_scope k) s.operations)
  entity ← or_throw found missing_result
  throw_if (not (entity.request_fingerprint == k.request_fingerprint)) idempotency_conflict
  pure (entity, claimed)

abbrev pub is_started : ℕ → OperationRow → Bool
is_started id r = r.id == id && not (is_completed r.status)

abbrev pub completed_by : ℕ → ℕ → OperationRow → OperationRow
completed_by aggregate_id reference r = record r {
  aggregate_id = some aggregate_id;
  result_reference = some reference;
  status = completed;
}

unfoldable pub complete : ℕ → ℕ → ℕ → Action Store (Unit {0})
complete id aggregate_id reference = modify (λ s. record s {
  operations = update_where (is_started id) (completed_by aggregate_id reference) s.operations;
})

-- `replay`, over the `findById` of the repository
unfoldable pub replay : {A : Type 0} → (ℕ → Action Store (Option A)) → OperationRow → Action Store A
replay find_by_id r = elim r.result_reference [
  | none ↦ throw operation_in_progress
  | some reference ↦ do
    throw_if (not (is_completed r.status)) operation_in_progress
    result ← find_by_id reference
    or_throw result missing_result
]

-- `this.transactions.execute(async () => { claim; if (!claimed) return replay; … })`. The body may
-- return null where the replay may not: `wrap` is the inclusion.
unfoldable pub idempotent :
    {A B : Type 0}
    → (A → B)
    → (ℕ → Action Store (Option A))
    → ℕ
    → OperationKey
    → (ℕ → Action Store B)
    → Action Store B
unfolding execute
idempotent wrap find_by_id id k body = execute false (
    claim id k >>= λ (entity, claimed).
    if claimed then body entity.id else (replay find_by_id entity >>= λ result. pure (wrap result)))
