-- ===== src/Contracts/UseCases.antt =====
-- modules/contracts/application/use-cases/contract.use-cases.ts. The fingerprint of a request and
-- the SUM of a quantity column are parameters.
use agrilink_backend.Base.{
  ℕ, Bool, ◌&&◌, ◌||◌, not, Option, none, some, List, commerce_not_found, commerce_conflict,
  commerce_forbidden, Text, codes, ◌==◌,
}
use agrilink_backend.Base.Action.{Action, ◌>>=◌, ◌>>◌, pure, lift, or_throw, throw_if}
use agrilink_backend.Enums.{UserRole, same_role, CommerceActorContext}
use agrilink_backend.Commerce.MoneyVnd
use agrilink_backend.Commerce.Quantity
use agrilink_backend.Commerce.Fingerprint.{Json, null, text, opaque, number, object, end, field}
use agrilink_backend.Orders.UseCases.{is_seller_role}
use agrilink_backend.Contracts.Contract.{
  ContractStatus, draft, negotiating, pending_signature, active, completed, cancelled, Contract,
  new_contract, rehydrate, transition, sign,
}
use agrilink_backend.Contracts.RequestRepository
use agrilink_backend.Contracts.RequestRepository.{
  PurchaseRequestModel, RequestAction, do_close, do_cancel,
}
use agrilink_backend.Contracts.ContractRepository
use agrilink_backend.Contracts.ContractRepository.{ContractModel}
use agrilink_backend.Store.{Store, Draw}

pub record CreatePurchaseRequestInput : Type 0 where
  pub product_category_id : Option ℕ
  pub province_id : Option ℕ
  pub quantity_needed : Text
  pub unit : Text

pub record CreateContractRequest : Type 0 where
  pub purchase_request_id : ℕ
  pub seller_id : ℕ
  pub quantity : Text
  pub unit_price : Text

-- `contractPartyRoles`
abbrev pub is_party_role : UserRole → Bool
is_party_role role = same_role role UserRole.enterprise || is_seller_role role

abbrev pub json_id : Option ℕ → Json
json_id none = null
json_id (some id) = opaque id

abbrev pub status_text : ContractStatus → Text
status_text draft = codes "draft"
status_text negotiating = codes "negotiating"
status_text pending_signature = codes "pending_signature"
status_text active = codes "active"
status_text completed = codes "completed"
status_text cancelled = codes "cancelled"

abbrev pub action_text : RequestAction → Text
action_text do_close = codes "close"
action_text do_cancel = codes "cancel"

abbrev pub action_operation : RequestAction → Text
action_operation do_close = codes "close-purchase-request"
action_operation do_cancel = codes "cancel-purchase-request"

abbrev pub create_request_payload : CreatePurchaseRequestInput → Json
create_request_payload input = object (
    field (codes "productCategoryId") (json_id input.product_category_id) (
      field (codes "provinceId") (json_id input.province_id) (
        field (codes "quantityNeeded") (text input.quantity_needed)
          (field (codes "unit") (text input.unit) end))))

abbrev pub create_contract_payload : CreateContractRequest → Json
create_contract_payload input = object (
    field (codes "purchaseRequestId") (opaque input.purchase_request_id) (
      field (codes "sellerId") (opaque input.seller_id) (
        field (codes "quantity") (text input.quantity)
          (field (codes "unitPrice") (text input.unit_price) end))))

-- `Contract.rehydrate(contract)` on a model
unfoldable pub model_to_domain : ContractModel → Action Store Contract
unfolding rehydrate
model_to_domain model = lift (
    rehydrate (record {
      buyer_id = model.buyer_id;
      seller_id = model.seller_id;
      quantity = model.quantity;
      unit_price = model.unit_price;
      total_value = model.total_value;
      status = model.status;
      buyer_signed_at = model.buyer_signed_at;
      seller_signed_at = model.seller_signed_at;
    }))

-- GetContractUseCase
unfoldable pub get_contract : CommerceActorContext → ℕ → Action Store ContractModel
unfolding ContractRepository.find_by_id
get_contract actor id = do
  found ← ContractRepository.find_by_id id
  contract ← or_throw found commerce_not_found
  throw_if
      (not (contract.buyer_id == actor.id)
        && not (contract.seller_id == actor.id)
        && not (same_role actor.role UserRole.admin))
      commerce_forbidden
  pure contract

-- ListMyContractsUseCase
unfoldable pub list_my_contracts : CommerceActorContext → Action Store (List ContractModel)
unfolding ContractRepository.list_for_party
list_my_contracts actor = ContractRepository.list_for_party actor.id

module _ (sum_quantities : List Text → Text) where
  -- GetPurchaseRequestUseCase
  unfoldable pub get_purchase_request : CommerceActorContext → ℕ → Action Store PurchaseRequestModel
  unfolding RequestRepository.find_by_id
  get_purchase_request actor id = do
    found ← RequestRepository.find_by_id sum_quantities id
    request ← or_throw found commerce_not_found
    throw_if (not (request.buyer_id == actor.id) && not (same_role actor.role UserRole.admin))
        commerce_forbidden
    pure request

  -- ListPurchaseRequestsUseCase
  unfoldable pub list_purchase_requests :
      CommerceActorContext → Action Store (List PurchaseRequestModel)
  unfolding RequestRepository.list_for_buyer
  list_purchase_requests actor = do
    throw_if (not (same_role actor.role UserRole.enterprise)) commerce_forbidden
    RequestRepository.list_for_buyer sum_quantities actor.id

  module _ (fingerprint : Text → ℕ → Json → ℕ) where
    -- CreatePurchaseRequestUseCase
    unfoldable pub create_purchase_request :
        Draw
        → CommerceActorContext
        → CreatePurchaseRequestInput
        → ℕ
        → Action Store PurchaseRequestModel
    create_purchase_request draw actor input key = do
      throw_if (not (same_role actor.role UserRole.enterprise)) commerce_forbidden
      quantity ← lift (Quantity.parse input.quantity_needed)
      RequestRepository.create_atomically sum_quantities draw (record {
        buyer_id = actor.id;
        product_category_id = input.product_category_id;
        province_id = input.province_id;
        quantity_needed = Quantity.to_string quantity;
        unit = input.unit;
        operation_key = key;
        request_fingerprint =
            fingerprint (codes "create-purchase-request") actor.id (create_request_payload input);
      })

    -- TransitionPurchaseRequestUseCase
    unfoldable pub transition_purchase_request :
        Draw → CommerceActorContext → ℕ → RequestAction → ℕ → ℕ → Action Store PurchaseRequestModel
    transition_purchase_request draw actor id action expected_version key = do
      throw_if (not (same_role actor.role UserRole.enterprise)) commerce_forbidden
      result ← RequestRepository.transition_atomically sum_quantities draw (record {
        id = id;
        buyer_id = actor.id;
        action = action;
        expected_version = expected_version;
        operation_key = key;
        request_fingerprint = fingerprint (action_operation action) actor.id (
            object (
              field (codes "id") (opaque id) (
                field (codes "action") (text (action_text action))
                  (field (codes "expectedVersion") (number expected_version) end))));
      })
      or_throw result commerce_conflict

    -- CreateContractFromPurchaseRequestUseCase
    unfoldable pub create_contract :
        Draw → ℕ → CommerceActorContext → CreateContractRequest → ℕ → Action Store ContractModel
    unfolding RequestRepository.find_by_id new_contract
    create_contract draw contract_code actor input key = do
      throw_if (not (same_role actor.role UserRole.enterprise)) commerce_forbidden
      found ← RequestRepository.find_by_id sum_quantities input.purchase_request_id
      request ← or_throw found commerce_not_found
      throw_if (not (request.buyer_id == actor.id)) commerce_forbidden
      quantity ← lift (Quantity.parse input.quantity)
      unit_price ← lift (MoneyVnd.parse input.unit_price)
      total_value ← lift (MoneyVnd.multiply unit_price quantity)
      lift (new_contract actor.id input.seller_id quantity unit_price total_value)
      ContractRepository.create_from_request_atomically sum_quantities draw (record {
        contract_code = contract_code;
        purchase_request_id = request.id;
        buyer_id = actor.id;
        seller_id = input.seller_id;
        product_category_id = request.product_category_id;
        quantity = Quantity.to_string quantity;
        unit = request.unit;
        unit_price = MoneyVnd.to_string unit_price;
        total_value = MoneyVnd.to_string total_value;
        operation_key = key;
        request_fingerprint =
            fingerprint (codes "create-contract") actor.id (create_contract_payload input);
      })

module _ (fingerprint : Text → ℕ → Json → ℕ) where
  -- SignContractUseCase: `sign` on the model is a check only, made at the time `draw.now`.
  unfoldable pub sign_contract :
      Draw → CommerceActorContext → ℕ → ℕ → ℕ → Action Store ContractModel
  unfolding ContractRepository.find_by_id model_to_domain
  sign_contract draw actor id expected_version key = do
    throw_if (not (is_party_role actor.role)) commerce_forbidden
    found ← ContractRepository.find_by_id id
    contract ← or_throw found commerce_not_found
    throw_if (not (contract.buyer_id == actor.id) && not (contract.seller_id == actor.id))
        commerce_forbidden
    domain ← model_to_domain contract
    lift (sign actor.id draw.now domain)
    result ← ContractRepository.sign_atomically draw (record {
      id = id;
      actor_id = actor.id;
      expected_version = expected_version;
      operation_key = key;
      request_fingerprint = fingerprint (codes "sign-contract") actor.id (
          object (
            field (codes "id") (opaque id)
              (field (codes "expectedVersion") (number expected_version) end)));
    })
    or_throw result commerce_conflict

  -- TransitionContractStatusUseCase
  unfoldable pub transition_contract :
      Draw → CommerceActorContext → ℕ → ContractStatus → ℕ → ℕ → Action Store ContractModel
  unfolding ContractRepository.find_by_id model_to_domain
  transition_contract draw actor id to_status expected_version key = do
    throw_if (not (is_party_role actor.role)) commerce_forbidden
    found ← ContractRepository.find_by_id id
    contract ← or_throw found commerce_not_found
    throw_if (not (contract.buyer_id == actor.id) && not (contract.seller_id == actor.id))
        commerce_forbidden
    domain ← model_to_domain contract
    lift (transition to_status domain)
    result ← ContractRepository.transition_atomically draw (record {
      id = id;
      actor_id = actor.id;
      to_status = to_status;
      expected_version = expected_version;
      operation_key = key;
      request_fingerprint = fingerprint (codes "transition-contract") actor.id (
          object (
            field (codes "id") (opaque id) (
              field (codes "toStatus") (text (status_text to_status))
                (field (codes "expectedVersion") (number expected_version) end))));
    })
    or_throw result commerce_conflict
