-- ===== src/Tests/Contracts.antt =====
-- A contract from a purchase request: negotiated, signed by both parties, and completed.
use agrilink_backend.Base.{ℕ, ◌≡◌, refl, Option, none, some, List, [], ◌∷◌, ok, arith, codes}
use agrilink_backend.Base.Action.{execute}
use agrilink_backend.Base.Table.{find_one, update_where, count_where}
use agrilink_backend.Commerce.MoneyVnd
use agrilink_backend.Commerce.Quantity
use agrilink_backend.Commerce.Operations.{claim, replay, complete, idempotent}
use agrilink_backend.Contracts.Contract.{
  ContractStatus, draft, negotiating, pending_signature, completed, transition, sign,
}
use agrilink_backend.Contracts.PurchaseRequest.{opened}
use agrilink_backend.Contracts.ContractRepository.{
  ContractModel, CreateContractInput, SignInput, TransitionContractInput, find_by_id,
  contract_to_domain, sign_atomically, sign_body, sign_won, activate_if_signed, transition_body,
  transition_atomically,
}
use agrilink_backend.Contracts.ContractRepository.Calls
use agrilink_backend.Contracts.ContractRepository.Calls.{ContractCall, create, move, run_calls}
use agrilink_backend.Contracts.ContractRepository.SignReplay.{sign_again}
use agrilink_backend.Contracts.ContractRepository.Replay.{contract_transition_again}
use agrilink_backend.Contracts.ContractRepository.Signatures.{IsSignedBook, run_calls-IsSignedBook}
use agrilink_backend.Contracts.ContractRepository.Allocation.{
  IsAllocated, total_of, run_calls-IsAllocated,
}
use agrilink_backend.Contracts.RequestRepository.{quantities_for}
use agrilink_backend.Tests.Sums.{exact_sum, exact_sum-ReadsSum}
use agrilink_backend.Store.{Store, PurchaseRequestRow}
use agrilink_backend.Tests.Data.{empty_store, draw_at}

abbrev request : PurchaseRequestRow
request = record {
  id = 9;
  buyer_id = 1;
  product_category_id = none;
  province_id = none;
  quantity_needed = codes "10";
  unit = codes "kg";
  status = opened;
  version = 1;
  created_at = 1;
  updated_at = 1;
}

abbrev request_store : Store
request_store = record empty_store { purchase_requests = request ∷ [] }

abbrev created : CreateContractInput
created = record {
  contract_code = 88;
  purchase_request_id = 9;
  buyer_id = 1;
  seller_id = 2;
  product_category_id = none;
  quantity = codes "2";
  unit = codes "kg";
  unit_price = codes "20";
  total_value = codes "40";
  operation_key = 51;
  request_fingerprint = 61;
}

abbrev moved : ℕ → ℕ → ContractStatus → TransitionContractInput
moved key version to = record {
  id = 4;
  actor_id = 1;
  to_status = to;
  expected_version = version;
  operation_key = key;
  request_fingerprint = 62;
}

abbrev signed : ℕ → ℕ → SignInput
signed actor_id version = record {
  id = 4;
  actor_id = actor_id;
  expected_version = version;
  operation_key = 70;
  request_fingerprint = 63;
}

abbrev calls : List ContractCall
calls =
    create (draw_at 4) created
    ∷ move (draw_at 5) (moved 52 1 negotiating)
    ∷ move (draw_at 6) (moved 53 2 pending_signature)
    ∷ Calls.sign (draw_at 7) (signed 1 3)
    ∷ Calls.sign (draw_at 8) (signed 2 4)
    ∷ move (draw_at 9) (moved 54 5 completed)
    ∷ []

empty-IsSignedBook : IsSignedBook request_store.contracts
empty-IsSignedBook = record { ids = tt; signed = tt }

run_calls-IsSignedBook_example : IsSignedBook (run_calls exact_sum calls request_store).contracts
unfolding find_one
run_calls-IsSignedBook_example =
    run_calls-IsSignedBook exact_sum calls request_store (refl, (tt, (tt, (tt, (tt, (tt, tt))))))
      empty-IsSignedBook

request_store-IsAllocated : IsAllocated request_store
unfolding total_of quantities_for Quantity.parse Quantity.parse_parts Quantity.split_dot find_one
request_store-IsAllocated = record {
  ids = (refl, tt);
  within = (
    record {
      needed = record { thousandths = 10000 };
      total = 0;
      needed_parses = refl;
      total_parses = refl;
      within = omega arith;
    },
    tt,
  );
}

run_calls-IsAllocated_example : IsAllocated (run_calls exact_sum calls request_store)
run_calls-IsAllocated_example =
    run_calls-IsAllocated exact_sum calls request_store exact_sum-ReadsSum request_store-IsAllocated

abbrev draft_store : Store
draft_store = record empty_store {
  contracts =
      record {
        id = 4;
        contract_code = 88;
        purchase_request_id = some 9;
        buyer_id = 1;
        seller_id = 2;
        product_category_id = none;
        quantity = codes "2";
        unit = codes "kg";
        unit_price = codes "20";
        total_value = codes "40";
        status = draft;
        buyer_signed_at = none;
        seller_signed_at = none;
        version = 1;
        created_at = 5004;
        updated_at = 5004;
      }
      ∷ [];
}

abbrev moved_store : Store
moved_store = (transition_atomically (draw_at 5) (moved 52 1 negotiating) draft_store).1

abbrev moved_model : Option ContractModel
moved_model = some (record {
  id = 4;
  contract_code = 88;
  purchase_request_id = some 9;
  buyer_id = 1;
  seller_id = 2;
  product_category_id = none;
  quantity = codes "2";
  unit = codes "kg";
  unit_price = codes "20";
  total_value = codes "40";
  status = negotiating;
  buyer_signed_at = none;
  seller_signed_at = none;
  version = 2;
  created_at = 5004;
  updated_at = 5005;
})

contract_transition_again_example :
    transition_atomically (draw_at 9) (moved 52 1 negotiating) moved_store
    ≡ (ok moved_model, moved_store)
unfolding transition_atomically transition_body execute idempotent claim replay complete find_by_id
    find_one update_where count_where contract_to_domain transition Quantity.parse
    Quantity.parse_parts Quantity.split_dot MoneyVnd.parse MoneyVnd.multiply
contract_transition_again_example =
    contract_transition_again (draw_at 5) (draw_at 9) (moved 52 1 negotiating) draft_store
      moved_store moved_model refl

abbrev pending_store : Store
pending_store = (transition_atomically (draw_at 6) (moved 53 2 pending_signature) moved_store).1

abbrev signed_store : Store
signed_store = (sign_atomically (draw_at 7) (signed 1 3) pending_store).1

abbrev signed_model : Option ContractModel
signed_model = some (record {
  id = 4;
  contract_code = 88;
  purchase_request_id = some 9;
  buyer_id = 1;
  seller_id = 2;
  product_category_id = none;
  quantity = codes "2";
  unit = codes "kg";
  unit_price = codes "20";
  total_value = codes "40";
  status = pending_signature;
  buyer_signed_at = some 5007;
  seller_signed_at = none;
  version = 4;
  created_at = 5004;
  updated_at = 5007;
})

sign_again_example :
    sign_atomically (draw_at 9) (signed 1 3) signed_store ≡ (ok signed_model, signed_store)
unfolding transition_atomically transition_body sign_atomically sign_body sign_won
    activate_if_signed execute idempotent claim replay complete find_by_id find_one update_where
    count_where contract_to_domain transition sign Quantity.parse Quantity.parse_parts
    Quantity.split_dot MoneyVnd.parse MoneyVnd.multiply
sign_again_example =
    sign_again (draw_at 7) (draw_at 9) (signed 1 3) pending_store signed_store signed_model refl
