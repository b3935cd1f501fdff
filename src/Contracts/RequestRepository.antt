-- ===== src/Contracts/RequestRepository.antt =====
-- TypeOrmPurchaseRequestRepository
-- (modules/contracts/infrastructure/persistence/repositories/typeorm-contract.repository.ts). The
-- text that PostgreSQL gives for the SUM of a quantity column is a parameter.
use agrilink_backend.Base.{
  ℕ, ◌+◌, Bool, false, ◌&&◌, ◌||◌, not, Option, none, some, List, [], ◌∷◌, ◌++◌, map, Result,
  commerce_not_found, commerce_conflict, commerce_forbidden, Text, codes, ltb, ◌==◌, if◌then◌else◌,
}
use agrilink_backend.Base.Action.{Action, ◌>>=◌, ◌>>◌, pure, gets, lift, or_throw, throw_if, modify}
use agrilink_backend.Base.Table.{find_one, select, update_where, count_where}
use agrilink_backend.Base.Sort.{sort_by}
use agrilink_backend.Commerce.Operations.{idempotent, complete}
use agrilink_backend.Contracts.PurchaseRequest.{
  PurchaseRequestStatus, opened, same_status, PurchaseRequest, rehydrate, close, cancel,
}
use agrilink_backend.Store.{
  Store, PurchaseRequestRow, ContractRow, Draw, OperationType, create_purchase_request,
  close_purchase_request, cancel_purchase_request,
}

pub record PurchaseRequestModel : Type 0 where
  pub id : ℕ
  pub buyer_id : ℕ
  pub product_category_id : Option ℕ
  pub province_id : Option ℕ
  pub quantity_needed : Text
  pub allocated_quantity : Text
  pub unit : Text
  pub status : PurchaseRequestStatus
  pub version : ℕ
  pub created_at : ℕ
  pub updated_at : ℕ

pub record CreateRequestInput : Type 0 where
  pub buyer_id : ℕ
  pub product_category_id : Option ℕ
  pub province_id : Option ℕ
  pub quantity_needed : Text
  pub unit : Text
  pub operation_key : ℕ
  pub request_fingerprint : ℕ

-- `'close' | 'cancel'`
pub data RequestAction : Type 0 where
  do_close do_cancel : RequestAction

pub record TransitionRequestInput : Type 0 where
  pub id : ℕ
  pub buyer_id : ℕ
  pub action : RequestAction
  pub expected_version : ℕ
  pub operation_key : ℕ
  pub request_fingerprint : ℕ

-- ContractPersistenceMapper.purchaseRequestToModel
abbrev pub request_to_model : PurchaseRequestRow → Text → PurchaseRequestModel
request_to_model r allocated_quantity = record {
  id = r.id;
  buyer_id = r.buyer_id;
  product_category_id = r.product_category_id;
  province_id = r.province_id;
  quantity_needed = r.quantity_needed;
  allocated_quantity = allocated_quantity;
  unit = r.unit;
  status = r.status;
  version = r.version;
  created_at = r.created_at;
  updated_at = r.updated_at;
}

-- ContractPersistenceMapper.purchaseRequestToDomain
unfoldable pub request_to_domain : PurchaseRequestRow → Text → Result PurchaseRequest
unfolding rehydrate
request_to_domain r allocated_quantity = rehydrate (record {
  buyer_id = r.buyer_id;
  quantity_needed = r.quantity_needed;
  allocated_quantity = allocated_quantity;
  status = r.status;
})

-- `contracts.purchase_request_id = :id`; NULL matches nothing.
abbrev pub is_for : ℕ → ContractRow → Bool
is_for id r = elim r.purchase_request_id [ none ↦ false | some request ↦ request == id ]

-- The quantities of the contracts of one request.
unfoldable pub quantities_for : ℕ → List ContractRow → List Text
quantities_for id [] = []
quantities_for id (r ∷ rs) =
    let rest = quantities_for id rs in if is_for id r then r.quantity ∷ rest else rest

abbrev pub action_type : RequestAction → OperationType
action_type do_close = close_purchase_request
action_type do_cancel = cancel_purchase_request

abbrev pub apply_action : RequestAction → PurchaseRequest → Result PurchaseRequest
apply_action do_close r = close r
apply_action do_cancel r = cancel r

-- `createdAt DESC, id DESC`
abbrev pub request_before : PurchaseRequestRow → PurchaseRequestRow → Bool
request_before a b =
    ltb b.created_at a.created_at || (a.created_at == b.created_at && ltb b.id a.id)

abbrev pub new_row : Draw → CreateRequestInput → PurchaseRequestRow
new_row draw input = record {
  id = draw.id;
  buyer_id = input.buyer_id;
  product_category_id = input.product_category_id;
  province_id = input.province_id;
  quantity_needed = input.quantity_needed;
  unit = input.unit;
  status = opened;
  version = 1;
  created_at = draw.now;
  updated_at = draw.now;
}

-- WHERE id = :id AND version = :version AND status = :status
abbrev pub is_current : ℕ → ℕ → PurchaseRequestStatus → PurchaseRequestRow → Bool
is_current id version status r = r.id == id && r.version == version && same_status r.status status

abbrev pub set_status : ℕ → PurchaseRequestStatus → PurchaseRequestRow → PurchaseRequestRow
set_status now status r = record r { status = status; version = r.version + 1; updated_at = now }

module _ (sum_quantities : List Text → Text) where
  -- The map of `allocationsFor` and its `?? '0'`; `readAllocated` with COALESCE gives the same.
  unfoldable pub allocated_for : ℕ → Store → Text
  unfolding quantities_for
  allocated_for id s = elim (quantities_for id s.contracts) [
    | [] ↦ codes "0"
    | q ∷ qs ↦ sum_quantities (q ∷ qs)
  ]

  unfoldable pub find_by_id : ℕ → Action Store (Option PurchaseRequestModel)
  find_by_id id = gets (λ s.
      elim (find_one (λ (r : PurchaseRequestRow). r.id == id) s.purchase_requests) [
        | none ↦ none
        | some r ↦ some (request_to_model r (allocated_for id s))
      ])

  unfoldable pub list_for_buyer : ℕ → Action Store (List PurchaseRequestModel)
  list_for_buyer buyer_id = gets (λ s.
      map (λ (r : PurchaseRequestRow). request_to_model r (allocated_for r.id s))
        (sort_by request_before
          (select (λ (r : PurchaseRequestRow). r.buyer_id == buyer_id) s.purchase_requests)))

  unfoldable pub create_body : Draw → CreateRequestInput → ℕ → Action Store PurchaseRequestModel
  create_body draw input operation_id = do
    modify (λ s. record s { purchase_requests = s.purchase_requests ++ new_row draw input ∷ [] })
    complete operation_id draw.id draw.id
    pure (request_to_model (new_row draw input) (codes "0"))

  unfoldable pub create_atomically : Draw → CreateRequestInput → Action Store PurchaseRequestModel
  create_atomically draw input =
      idempotent (λ model. model) find_by_id draw.operation_id
        (record {
          actor_id = input.buyer_id;
          operation_type = create_purchase_request;
          idempotency_key = input.operation_key;
          request_fingerprint = input.request_fingerprint;
        })
        (create_body draw input)

  unfoldable pub transition_body :
      Draw → TransitionRequestInput → ℕ → Action Store (Option PurchaseRequestModel)
  transition_body draw input operation_id = do
    found ← gets (λ s. find_one (λ (r : PurchaseRequestRow). r.id == input.id) s.purchase_requests)
    entity ← or_throw found commerce_not_found
    throw_if (not (entity.buyer_id == input.buyer_id)) commerce_forbidden
    allocated ← gets (allocated_for entity.id)
    domain ← lift (request_to_domain entity allocated)
    next ← lift (apply_action input.action domain)
    affected ← gets (λ s.
        count_where (is_current entity.id input.expected_version entity.status) s.purchase_requests)
    modify (λ s. record s {
      purchase_requests =
          update_where (is_current entity.id input.expected_version entity.status)
            (set_status draw.now next.status) s.purchase_requests;
    })
    throw_if (not (affected == 1)) commerce_conflict
    complete operation_id entity.id entity.id
    find_by_id entity.id

  unfoldable pub transition_atomically :
      Draw → TransitionRequestInput → Action Store (Option PurchaseRequestModel)
  transition_atomically draw input =
      idempotent some find_by_id draw.operation_id
        (record {
          actor_id = input.buyer_id;
          operation_type = action_type input.action;
          idempotency_key = input.operation_key;
          request_fingerprint = input.request_fingerprint;
        })
        (transition_body draw input)
