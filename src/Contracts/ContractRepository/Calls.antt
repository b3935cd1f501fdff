-- ===== src/Contracts/ContractRepository/Calls.antt =====
-- Sequences of calls of the repository that writes contracts.
use agrilink_backend.Base.{◌≡◌, none, List, [], ◌∷◌, Text, ◌==◌}
use agrilink_backend.Base.Table.{find_one}
use agrilink_backend.Contracts.ContractRepository.{
  CreateContractInput, SignInput, TransitionContractInput, create_from_request_atomically,
  sign_atomically, transition_atomically,
}
use agrilink_backend.Store.{Store, ContractRow, Draw}

pub data ContractCall : Type 0 where
  create : Draw → CreateContractInput → ContractCall
  sign : Draw → SignInput → ContractCall
  move : Draw → TransitionContractInput → ContractCall

module _ (sum_quantities : List Text → Text) where
  abbrev pub run_call : ContractCall → Store → Store
  run_call (create draw input) s = (create_from_request_atomically sum_quantities draw input s).1
  run_call (sign draw input) s = (sign_atomically draw input s).1
  run_call (move draw input) s = (transition_atomically draw input s).1

  abbrev pub run_calls : List ContractCall → Store → Store
  run_calls [] s = s
  run_calls (c ∷ cs) s = run_calls cs (run_call c s)

  -- The id that the database draws for a new contract is new.
  abbrev pub IsGranted : ContractCall → Store → Type 0
  IsGranted (create draw input) s =
      find_one (λ (r : ContractRow). r.id == draw.id) s.contracts ≡ none
  IsGranted (sign draw input) s = Unit
  IsGranted (move draw input) s = Unit

  abbrev pub AllGranted : List ContractCall → Store → Type 0
  AllGranted [] s = Unit
  AllGranted (c ∷ cs) s = IsGranted c s × AllGranted cs (run_call c s)
