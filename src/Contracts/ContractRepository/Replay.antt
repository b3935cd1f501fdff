-- ===== src/Contracts/ContractRepository/Replay.antt =====
-- A contract transition that is called again with its key and its request returns the recorded
-- contract.
use agrilink_backend.Base.{ℕ, ◌≡◌, refl, Option, some, Result, ok, ◌==◌}
use agrilink_backend.Base.Table.{find_one}
use agrilink_backend.Base.Keyed.{found_again}
use agrilink_backend.Commerce.Operations.Replay.{Finishes, Reads, idempotent_again}
use agrilink_backend.Contracts.ContractRepository.{
  ContractModel, TransitionContractInput, contract_to_model, find_by_id, transition_body,
  transition_atomically,
}
use agrilink_backend.Contracts.ContractRepository.Updates.{transition_body-Moved}
use agrilink_backend.Store.{Store, ContractRow, Draw}

pub find_by_id-Reads : Reads some find_by_id
unfolding find_by_id
find_by_id-Reads reference t = refl

pub found_by_id :
    (id : ℕ) (t : Store) (r : ContractRow)
    → find_one (λ (r : ContractRow). r.id == id) t.contracts ≡ some r
    → find_by_id id t ≡ (ok (some (contract_to_model r)), t)
unfolding find_by_id
found_by_id id t r h = rw h

same_result :
    {A : Type 0} (a b : A) (s : Store) (r : Result A × Store)
    → r ≡ (ok a, s)
    → r ≡ (ok b, s)
    → a ≡ b
same_result a b s r h k = cc

transition_body-Finishes :
    (draw : Draw) (input : TransitionContractInput)
    → Finishes some find_by_id (transition_body draw input)
transition_body-Finishes draw input i t t' b h =
    let done = transition_body-Moved draw input i t t' b h in
    let (r', again) =
      found_again (λ r. r.id) input.id t.contracts t'.contracts done.entity _ _ (λ r. refl)
        done.found done.contracts in
    let found = found_by_id done.entity.id t' r' again in
    (
      done.entity.id,
      contract_to_model r',
      done.operations,
      found,
      same_result b _ t' _ done.result found,
    )

-- A contract transition that is sent to the repository again with its key and its request is not
-- made again: the recorded contract is returned and the store stays as it is.
pub contract_transition_again :
    (draw draw' : Draw) (input : TransitionContractInput) (s s' : Store) (b : Option ContractModel)
    → transition_atomically draw input s ≡ (ok b, s')
    → transition_atomically draw' input s' ≡ (ok b, s')
unfolding transition_atomically
contract_transition_again draw draw' input s s' b h =
    idempotent_again some find_by_id find_by_id-Reads draw.operation_id draw'.operation_id _ _ _ s
      s' (transition_body-Finishes draw input) h
