-- ===== src/Contracts/ContractRepository/Updates.antt =====
-- What the bodies of the contract operations have done when they succeed.
use agrilink_backend.Base.{
  ℕ, ◌≡◌, inl, inr, Option, some, List, [], ◌∷◌, ◌++◌, Result, ok, Text, arith, Option-cases,
  Result-cases, ◌==◌,
}
use agrilink_backend.Base.Table.{find_one, update_where}
use agrilink_backend.Commerce.Quantity
use agrilink_backend.Commerce.Quantity.{Quantity}
use agrilink_backend.Commerce.Operations.{complete, is_started, completed_by}
use agrilink_backend.Contracts.Contract.{Contract, transition, sign}
use agrilink_backend.Contracts.PurchaseRequest.{PurchaseRequest, allocate}
use agrilink_backend.Contracts.RequestRepository.{request_to_domain, allocated_for}
use agrilink_backend.Contracts.ContractRepository.{
  ContractModel, CreateContractInput, SignInput, TransitionContractInput, contract_to_domain,
  find_by_id, new_row, create_body, is_current, set_signed, set_status, activate_if_signed,
  sign_body, transition_body,
}
use agrilink_backend.Store.{Store, ContractRow, PurchaseRequestRow, Draw}

-- A transition that succeeds has read the contract, moved it, and written the row that it read.
pub record Moved (draw : Draw) (input : TransitionContractInput) (i : ℕ) (t t' : Store)
    (b : Option ContractModel) : Type 0 where
  pub entity : ContractRow
  pub contract : Contract
  pub next : Contract
  pub found : find_one (λ (r : ContractRow). r.id == input.id) t.contracts ≡ some entity
  pub loaded : contract_to_domain entity ≡ ok contract
  pub allowed : transition input.to_status contract ≡ ok next
  pub contracts :
      t'.contracts
      ≡ update_where
          (is_current entity.id input.expected_version entity.status)
          (set_status draw.now next.status)
          t.contracts
  pub requests : t'.purchase_requests ≡ t.purchase_requests
  pub operations :
      t'.operations ≡ update_where (is_started i) (completed_by entity.id entity.id) t.operations
  pub result : ◌≡◌ {A = Result (Option ContractModel) × Store} (find_by_id entity.id t') (ok b, t')

pub transition_body-Moved :
    (draw : Draw) (input : TransitionContractInput) (i : ℕ) (t t' : Store)
    (b : Option ContractModel)
    → transition_body draw input i t ≡ (ok b, t')
    → Moved draw input i t t' b
unfolding transition_body complete find_by_id
transition_body-Moved draw input i t t' b h =
    elim (Option-cases (find_one (λ (r : ContractRow). r.id == input.id) t.contracts)) [
      | inl e ↦ absurd (ground arith)
      | inr (entity, found) ↦ elim (Result-cases (contract_to_domain entity)) [
        | inl (e, loaded) ↦ absurd (ground arith)
        | inr (contract, loaded) ↦ elim (Result-cases (transition input.to_status contract)) [
          | inl (e, allowed) ↦ absurd (ground arith)
          | inr (next, allowed) ↦ record {
            entity = entity;
            contract = contract;
            next = next;
            found = found;
            loaded = loaded;
            allowed = allowed;
            contracts = ground arith;
            requests = ground arith;
            operations = ground arith;
            result = ground arith;
          }
        ]
      ]
    ]

-- A signature that succeeds has read the contract, signed it, activated it if that was the second
-- signature, and written the row that it read, or has found that its party had signed before.
pub record Signed (draw : Draw) (input : SignInput) (i : ℕ) (t t' : Store)
    (b : Option ContractModel) : Type 0 where
  pub entity : ContractRow
  pub contract : Contract
  pub signed : Contract
  pub next : Contract
  pub found : find_one (λ (r : ContractRow). r.id == input.id) t.contracts ≡ some entity
  pub loaded : contract_to_domain entity ≡ ok contract
  pub allowed : sign input.actor_id draw.now contract ≡ ok signed
  pub activated : activate_if_signed signed ≡ ok next
  pub contracts :
      t'.contracts
      ≡ update_where
          (is_current entity.id input.expected_version entity.status)
          (set_signed draw.now next)
          t.contracts
  pub requests : t'.purchase_requests ≡ t.purchase_requests

pub sign_body-Signed :
    (draw : Draw) (input : SignInput) (i : ℕ) (t t' : Store) (b : Option ContractModel)
    → sign_body draw input i t ≡ (ok b, t')
    → Signed draw input i t t' b
unfolding sign_body complete find_by_id
sign_body-Signed draw input i t t' b h =
    elim (Option-cases (find_one (λ (r : ContractRow). r.id == input.id) t.contracts)) [
      | inl e ↦ absurd (ground arith)
      | inr (entity, found) ↦ elim (Result-cases (contract_to_domain entity)) [
        | inl (e, loaded) ↦ absurd (ground arith)
        | inr (contract, loaded) ↦ elim (Result-cases (sign input.actor_id draw.now contract)) [
          | inl (e, allowed) ↦ absurd (ground arith)
          | inr (signed, allowed) ↦ elim (Result-cases (activate_if_signed signed)) [
            | inl (e, activated) ↦ absurd (ground arith)
            | inr (next, activated) ↦ record {
              entity = entity;
              contract = contract;
              signed = signed;
              next = next;
              found = found;
              loaded = loaded;
              allowed = allowed;
              activated = activated;
              contracts = ground arith;
              requests = ground arith;
            }
          ]
        ]
      ]
    ]

module _ (sum_quantities : List Text → Text) where
  -- A creation that succeeds has read the request and what is allocated of it, allocated the
  -- quantity, and added the contract.
  pub record Created (draw : Draw) (input : CreateContractInput) (i : ℕ) (t t' : Store)
      (b : ContractModel) : Type 0 where
    pub request : PurchaseRequestRow
    pub domain : PurchaseRequest
    pub quantity : Quantity
    pub next : PurchaseRequest
    pub found :
        find_one (λ (r : PurchaseRequestRow). r.id == input.purchase_request_id) t.purchase_requests
        ≡ some request
    pub loaded :
        request_to_domain request (allocated_for sum_quantities input.purchase_request_id t)
        ≡ ok domain
    pub parsed : Quantity.parse input.quantity ≡ ok quantity
    pub allowed : allocate quantity domain ≡ ok next
    pub contracts : t'.contracts ≡ t.contracts ++ new_row draw input ∷ []
    pub requests : t'.purchase_requests ≡ t.purchase_requests

  pub create_body-Created :
      (draw : Draw) (input : CreateContractInput) (i : ℕ) (t t' : Store) (b : ContractModel)
      → create_body sum_quantities draw input i t ≡ (ok b, t')
      → Created draw input i t t' b
  unfolding create_body complete
  create_body-Created draw input i t t' b h =
      elim (Option-cases (
        find_one (λ (r : PurchaseRequestRow). r.id == input.purchase_request_id)
          t.purchase_requests)) [
            | inl e ↦ absurd (ground arith)
            | inr (request, found) ↦
                elim (Result-cases (
                  request_to_domain request
                    (allocated_for sum_quantities input.purchase_request_id t))) [
                      | inl (e, loaded) ↦ absurd (ground arith)
                      | inr (domain, loaded) ↦ elim (Result-cases (Quantity.parse input.quantity)) [
                        | inl (e, parsed) ↦ absurd (ground arith)
                        | inr (quantity, parsed) ↦ elim (Result-cases (allocate quantity domain)) [
                          | inl (e, allowed) ↦ absurd (ground arith)
                          | inr (next, allowed) ↦ record {
                            request = request;
                            domain = domain;
                            quantity = quantity;
                            next = next;
                            found = found;
                            loaded = loaded;
                            parsed = parsed;
                            allowed = allowed;
                            contracts = ground arith;
                            requests = ground arith;
                          }
                        ]
                      ]
                    ]
          ]
