-- ===== src/Contracts/ContractRepository.antt =====
-- TypeOrmContractRepository
-- (modules/contracts/infrastructure/persistence/repositories/typeorm-contract.repository.ts). The
-- text that PostgreSQL gives for the SUM of a quantity column is a parameter.
pub mod Updates
pub mod Replay
pub mod Calls
pub mod SignReplay
pub mod Signatures
pub mod Allocation
use agrilink_backend.Base.{
  ℕ, ◌+◌, Bool, ◌&&◌, ◌||◌, not, Option, none, some, List, [], ◌∷◌, ◌++◌, map, Result, ok,
  commerce_not_found, commerce_conflict, commerce_forbidden, missing_result, Text, ltb, ◌==◌,
  if◌then◌else◌,
}
use agrilink_backend.Base.Action.{Action, ◌>>=◌, ◌>>◌, pure, gets, lift, or_throw, throw_if, modify}
use agrilink_backend.Base.Table.{find_one, select, update_where, count_where}
use agrilink_backend.Base.Sort.{sort_by}
use agrilink_backend.Commerce.Quantity
use agrilink_backend.Commerce.Operations.{idempotent, complete}
use agrilink_backend.Contracts.PurchaseRequest.{allocate}
use agrilink_backend.Contracts.Contract.{
  ContractStatus, draft, active, same_status, is_set, Contract, rehydrate, transition, sign,
}
use agrilink_backend.Contracts.RequestRepository.{request_to_domain, allocated_for}
use agrilink_backend.Store.{
  Store, PurchaseRequestRow, ContractRow, Draw, create_contract, sign_contract, transition_contract,
}

pub record ContractModel : Type 0 where
  pub id : ℕ
  pub contract_code : ℕ
  pub purchase_request_id : Option ℕ
  pub buyer_id : ℕ
  pub seller_id : ℕ
  pub product_category_id : Option ℕ
  pub quantity : Text
  pub unit : Text
  pub unit_price : Text
  pub total_value : Text
  pub status : ContractStatus
  pub buyer_signed_at : Option ℕ
  pub seller_signed_at : Option ℕ
  pub version : ℕ
  pub created_at : ℕ
  pub updated_at : ℕ

pub record CreateContractInput : Type 0 where
  pub contract_code : ℕ
  pub purchase_request_id : ℕ
  pub buyer_id : ℕ
  pub seller_id : ℕ
  pub product_category_id : Option ℕ
  pub quantity : Text
  pub unit : Text
  pub unit_price : Text
  pub total_value : Text
  pub operation_key : ℕ
  pub request_fingerprint : ℕ

pub record SignInput : Type 0 where
  pub id : ℕ
  pub actor_id : ℕ
  pub expected_version : ℕ
  pub operation_key : ℕ
  pub request_fingerprint : ℕ

pub record TransitionContractInput : Type 0 where
  pub id : ℕ
  pub actor_id : ℕ
  pub to_status : ContractStatus
  pub expected_version : ℕ
  pub operation_key : ℕ
  pub request_fingerprint : ℕ

-- ContractPersistenceMapper.contractToModel
abbrev pub contract_to_model : ContractRow → ContractModel
contract_to_model r = record {
  id = r.id;
  contract_code = r.contract_code;
  purchase_request_id = r.purchase_request_id;
  buyer_id = r.buyer_id;
  seller_id = r.seller_id;
  product_category_id = r.product_category_id;
  quantity = r.quantity;
  unit = r.unit;
  unit_price = r.unit_price;
  total_value = r.total_value;
  status = r.status;
  buyer_signed_at = r.buyer_signed_at;
  seller_signed_at = r.seller_signed_at;
  version = r.version;
  created_at = r.created_at;
  updated_at = r.updated_at;
}

-- ContractPersistenceMapper.contractToDomain
unfoldable pub contract_to_domain : ContractRow → Result Contract
unfolding rehydrate
contract_to_domain r = rehydrate (record {
  buyer_id = r.buyer_id;
  seller_id = r.seller_id;
  quantity = r.quantity;
  unit_price = r.unit_price;
  total_value = r.total_value;
  status = r.status;
  buyer_signed_at = r.buyer_signed_at;
  seller_signed_at = r.seller_signed_at;
})

abbrev pub to_model? : Option ContractRow → Option ContractModel
to_model? none = none
to_model? (some r) = some (contract_to_model r)

unfoldable pub find_by_id : ℕ → Action Store (Option ContractModel)
find_by_id id = gets (λ s. to_model? (find_one (λ (r : ContractRow). r.id == id) s.contracts))

-- `created_at DESC, id DESC`
abbrev pub contract_before : ContractRow → ContractRow → Bool
contract_before a b =
    ltb b.created_at a.created_at || (a.created_at == b.created_at && ltb b.id a.id)

unfoldable pub list_for_party : ℕ → Action Store (List ContractModel)
list_for_party user_id = gets (λ s. map contract_to_model (
    sort_by contract_before
      (select (λ (r : ContractRow). r.buyer_id == user_id || r.seller_id == user_id) s.contracts)))

abbrev pub new_row : Draw → CreateContractInput → ContractRow
new_row draw input = record {
  id = draw.id;
  contract_code = input.contract_code;
  purchase_request_id = some input.purchase_request_id;
  buyer_id = input.buyer_id;
  seller_id = input.seller_id;
  product_category_id = input.product_category_id;
  quantity = input.quantity;
  unit = input.unit;
  unit_price = input.unit_price;
  total_value = input.total_value;
  status = draft;
  buyer_signed_at = none;
  seller_signed_at = none;
  version = 1;
  created_at = draw.now;
  updated_at = draw.now;
}

module _ (sum_quantities : List Text → Text) where
  unfoldable pub create_body : Draw → CreateContractInput → ℕ → Action Store ContractModel
  create_body draw input operation_id = do
    found ← gets (λ s.
        find_one (λ (r : PurchaseRequestRow). r.id == input.purchase_request_id)
          s.purchase_requests)
    request ← or_throw found commerce_not_found
    throw_if (not (request.buyer_id == input.buyer_id)) commerce_forbidden
    allocation ← gets (allocated_for sum_quantities input.purchase_request_id)
    domain ← lift (request_to_domain request allocation)
    quantity ← lift (Quantity.parse input.quantity)
    lift (allocate quantity domain)
    modify (λ s. record s { contracts = s.contracts ++ new_row draw input ∷ [] })
    complete operation_id draw.id draw.id
    pure (contract_to_model (new_row draw input))

  unfoldable pub create_from_request_atomically :
      Draw → CreateContractInput → Action Store ContractModel
  create_from_request_atomically draw input =
      idempotent (λ model. model) find_by_id draw.operation_id
        (record {
          actor_id = input.buyer_id;
          operation_type = create_contract;
          idempotency_key = input.operation_key;
          request_fingerprint = input.request_fingerprint;
        })
        (create_body draw input)

-- WHERE id = :id AND version = :version AND status = :status
abbrev pub is_current : ℕ → ℕ → ContractStatus → ContractRow → Bool
is_current id version status r = r.id == id && r.version == version && same_status r.status status

abbrev pub set_signed : ℕ → Contract → ContractRow → ContractRow
set_signed now next r = record r {
  status = next.status;
  buyer_signed_at = next.buyer_signed_at;
  seller_signed_at = next.seller_signed_at;
  version = r.version + 1;
  updated_at = now;
}

-- `if (domain.buyerSignatureTime && domain.sellerSignatureTime) domain.transition('active')`
unfoldable pub activate_if_signed : Contract → Result Contract
activate_if_signed c =
    if is_set c.buyer_signed_at && is_set c.seller_signed_at then transition active c else ok c

-- The row of a party that has signed before, seen by the signer whose update found no row.
abbrev pub has_signed : ℕ → ContractRow → Bool
has_signed actor_id r =
    (r.buyer_id == actor_id && is_set r.buyer_signed_at)
    || (r.seller_id == actor_id && is_set r.seller_signed_at)

unfoldable pub sign_lost : SignInput → ℕ → ℕ → Action Store (Option ContractModel)
sign_lost input operation_id id = do
  found ← gets (λ s. find_one (λ (r : ContractRow). r.id == id) s.contracts)
  current ← or_throw found missing_result
  throw_if (not (has_signed input.actor_id current)) commerce_conflict
  complete operation_id current.id current.id
  pure (some (contract_to_model current))

unfoldable pub sign_won : ℕ → ℕ → Action Store (Option ContractModel)
sign_won operation_id id = complete operation_id id id >> find_by_id id

unfoldable pub sign_body : Draw → SignInput → ℕ → Action Store (Option ContractModel)
unfolding sign_lost sign_won
sign_body draw input operation_id = do
  found ← gets (λ s. find_one (λ (r : ContractRow). r.id == input.id) s.contracts)
  entity ← or_throw found commerce_not_found
  domain ← lift (contract_to_domain entity)
  signed ← lift (sign input.actor_id draw.now domain)
  next ← lift (activate_if_signed signed)
  affected ←
      gets
        (λ s. count_where (is_current entity.id input.expected_version entity.status) s.contracts)
  modify (λ s. record s {
    contracts =
        update_where (is_current entity.id input.expected_version entity.status)
          (set_signed draw.now next) s.contracts;
  })
  (if not (affected == 1)
      then sign_lost input operation_id entity.id
      else sign_won operation_id entity.id)

unfoldable pub sign_atomically : Draw → SignInput → Action Store (Option ContractModel)
sign_atomically draw input =
    idempotent some find_by_id draw.operation_id
      (record {
        actor_id = input.actor_id;
        operation_type = sign_contract;
        idempotency_key = input.operation_key;
        request_fingerprint = input.request_fingerprint;
      })
      (sign_body draw input)

abbrev pub set_status : ℕ → ContractStatus → ContractRow → ContractRow
set_status now status r = record r { status = status; version = r.version + 1; updated_at = now }

unfoldable pub transition_body :
    Draw → TransitionContractInput → ℕ → Action Store (Option ContractModel)
transition_body draw input operation_id = do
  found ← gets (λ s. find_one (λ (r : ContractRow). r.id == input.id) s.contracts)
  entity ← or_throw found commerce_not_found
  throw_if (not (entity.buyer_id == input.actor_id) && not (entity.seller_id == input.actor_id))
      commerce_forbidden
  domain ← lift (contract_to_domain entity)
  next ← lift (transition input.to_status domain)
  affected ←
      gets
        (λ s. count_where (is_current entity.id input.expected_version entity.status) s.contracts)
  modify (λ s. record s {
    contracts =
        update_where (is_current entity.id input.expected_version entity.status)
          (set_status draw.now next.status) s.contracts;
  })
  throw_if (not (affected == 1)) commerce_conflict
  complete operation_id entity.id entity.id
  find_by_id entity.id

unfoldable pub transition_atomically :
    Draw → TransitionContractInput → Action Store (Option ContractModel)
transition_atomically draw input =
    idempotent some find_by_id draw.operation_id
      (record {
        actor_id = input.actor_id;
        operation_type = transition_contract;
        idempotency_key = input.operation_key;
        request_fingerprint = input.request_fingerprint;
      })
      (transition_body draw input)
