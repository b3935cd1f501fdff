-- ===== src/Contracts/ContractRepository/SignReplay.antt =====
-- A signature that is sent again with its key and its request returns the recorded contract, also
-- where it was recorded as made before.
use agrilink_backend.Base.{
  ℕ, ◌≡◌, refl, Option, some, Option-cases, Bool-cases, inl, inr, ok, arith, ◌==◌, ==_eq,
}
use agrilink_backend.Base.Table.{find_one, update_where, count_where}
use agrilink_backend.Base.TableLaws.{find_one_sound}
use agrilink_backend.Base.Keyed.{found_again}
use agrilink_backend.Commerce.Operations.{complete, is_started, completed_by}
use agrilink_backend.Commerce.Operations.Replay.{Finishes, idempotent_again}
use agrilink_backend.Contracts.ContractRepository.{
  ContractModel, SignInput, contract_to_model, find_by_id, is_current, set_signed, sign_lost,
  sign_won, sign_body, sign_atomically,
}
use agrilink_backend.Contracts.ContractRepository.Replay.{find_by_id-Reads, found_by_id}
use agrilink_backend.Contracts.ContractRepository.Updates.{sign_body-Signed}
use agrilink_backend.Store.{Store, ContractRow, Draw}

-- How the end of a signature leaves the operation and the contracts, and what it returns.
record Ended (i : ℕ) (id : ℕ) (t t' : Store) (b : Option ContractModel) : Type 0 where
  current : ContractRow
  found : find_one (λ (r : ContractRow). r.id == id) t.contracts ≡ some current
  contracts : t'.contracts ≡ t.contracts
  operations : t'.operations ≡ update_where (is_started i) (completed_by id id) t.operations
  result : b ≡ some (contract_to_model current)

sign_lost-Ended :
    (input : SignInput) (i id : ℕ) (t t' : Store) (b : Option ContractModel)
    → sign_lost input i id t ≡ (ok b, t')
    → Ended i id t t' b
unfolding sign_lost complete
sign_lost-Ended input i id t t' b h =
    elim (Option-cases (find_one (λ (r : ContractRow). r.id == id) t.contracts)) [
      | inl e ↦ absurd (ground arith)
      | inr (current, found) ↦
          let same : current.id ≡ id =
            ==_eq current.id id (find_one_sound _ t.contracts current found) in
          record {
            current = current;
            found = found;
            contracts = ground arith;
            operations = rw (← same) (ground arith);
            result = ground arith;
          }
    ]

sign_won-Ended :
    (i id : ℕ) (t t' : Store) (b : Option ContractModel) (current : ContractRow)
    → find_one (λ (r : ContractRow). r.id == id) t.contracts ≡ some current
    → sign_won i id t ≡ (ok b, t')
    → Ended i id t t' b
unfolding sign_won complete find_by_id
sign_won-Ended i id t t' b current found h = record {
  current = current;
  found = found;
  contracts = ground arith;
  operations = ground arith;
  result = ground arith;
}

ended :
    (i id : ℕ) (t u t' : Store) (b : Option ContractModel)
    → u.operations ≡ t.operations
    → Ended i id u t' b
    → (reference : ℕ) × (a : ContractModel) × (t'.operations
        ≡ update_where (is_started i) (completed_by reference reference) t.operations)
      × (find_by_id reference t' ≡ (ok (some a), t'))
      × (b ≡ some a)
ended i id t u t' b same e = (
  id,
  contract_to_model e.current,
  rw (← same) e.operations,
  found_by_id id t' e.current (rw e.contracts e.found),
  e.result,
)

sign_body-Finishes :
    (draw : Draw) (input : SignInput) → Finishes some find_by_id (sign_body draw input)
unfolding sign_body
sign_body-Finishes draw input i t t' b h =
    let done = sign_body-Signed draw input i t t' b h in
    let current = is_current done.entity.id input.expected_version done.entity.status in
    let u : Store = record t {
      contracts = update_where current (set_signed draw.now done.next) t.contracts;
    } in
    let rest = rw (done.found, done.loaded, done.allowed, done.activated) at h in
    let (r', again) =
      found_again (λ r. r.id) input.id t.contracts u.contracts done.entity current _ (λ r. refl)
        done.found refl in
    ended i done.entity.id t u t' b refl (elim (Bool-cases (count_where current t.contracts == 1)) [
      | inl one ↦ sign_won-Ended i done.entity.id u t' b r' again (rw one at rest)
      | inr lost ↦ sign_lost-Ended input i done.entity.id u t' b (rw lost at rest)
    ])

-- A signature that is sent to the repository again with its key and its request is not made again:
-- the recorded contract is returned and the store stays as it is.
pub sign_again :
    (draw draw' : Draw) (input : SignInput) (s s' : Store) (b : Option ContractModel)
    → sign_atomically draw input s ≡ (ok b, s')
    → sign_atomically draw' input s' ≡ (ok b, s')
unfolding sign_atomically
sign_again draw draw' input s s' b h =
    idempotent_again some find_by_id find_by_id-Reads draw.operation_id draw'.operation_id _ _ _ s
      s' (sign_body-Finishes draw input) h
