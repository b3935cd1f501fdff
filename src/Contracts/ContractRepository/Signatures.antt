-- ===== src/Contracts/ContractRepository/Signatures.antt =====
-- The signatures of the contracts: a contract is active or completed only with both.
use agrilink_backend.Base.{
  ℕ, true, false, ◌&&◌, ◌≡◌, refl, sym, ap, subst, ◌∙◌, inl, inr, some, List, [], ◌∷◌, ok, Text,
  arith, ◌==◌, All, All-append, Bool-cases,
}
use agrilink_backend.Base.Table.{find_one, update_where}
use agrilink_backend.Base.Keyed.{
  IsKeyed, IsKeyed-append, IsKeyed-update_where, All-find_one, All-update_found,
}
use agrilink_backend.Commerce.Operations.Replay.{idempotent_preserves}
use agrilink_backend.Contracts.Contract.{ContractStatus, active, Contract, is_set, transition, sign}
use agrilink_backend.Contracts.Contract.Laws.{
  SignaturesFit, transition_sound, transition-SignaturesFit, sign_sound, rehydrate_sound,
}
use agrilink_backend.Contracts.ContractRepository.{
  contract_to_domain, find_by_id, new_row, is_current, set_signed, set_status, activate_if_signed,
  create_from_request_atomically, sign_atomically, transition_atomically,
}
use agrilink_backend.Contracts.ContractRepository.Calls
use agrilink_backend.Contracts.ContractRepository.Calls.{ContractCall}
use agrilink_backend.Contracts.ContractRepository.Replay.{find_by_id-Reads}
use agrilink_backend.Contracts.ContractRepository.Updates.{
  transition_body-Moved, sign_body-Signed, create_body-Created,
}
use agrilink_backend.Store.{Store, ContractRow}

abbrev pub IsSigned : ContractRow → Type 0
IsSigned r = SignaturesFit r.status r.buyer_signed_at r.seller_signed_at

pub record IsSignedBook (rows : List ContractRow) : Type 0 where
  pub ids : IsKeyed (λ r. r.id) rows
  pub signed : All IsSigned rows

loaded_fits :
    (r : ContractRow) (c : Contract)
    → contract_to_domain r ≡ ok c
    → IsSigned r
    → SignaturesFit c.status c.buyer_signed_at c.seller_signed_at
unfolding contract_to_domain
loaded_fits r c loaded fits =
    let (same_status, same_buyer, same_seller, _, _) = rehydrate_sound _ c loaded in
    rw (same_status, same_buyer, same_seller) fits

set_status-IsSigned :
    (r : ContractRow) (c next : Contract) (to : ContractStatus) (now : ℕ)
    → contract_to_domain r ≡ ok c
    → transition to c ≡ ok next
    → IsSigned r
    → IsSigned (set_status now next.status r)
unfolding contract_to_domain
set_status-IsSigned r c next to now loaded moved fits =
    let (_, same_buyer, same_seller, _, _) = rehydrate_sound _ c loaded in
    let (_, _, same) = transition_sound to c next moved in
    let buyer : next.buyer_signed_at ≡ r.buyer_signed_at =
      ap (λ (n : Contract). n.buyer_signed_at) same ∙ same_buyer in
    let seller : next.seller_signed_at ≡ r.seller_signed_at =
      ap (λ (n : Contract). n.seller_signed_at) same ∙ same_seller in
    rw (← buyer, ← seller) (transition-SignaturesFit to c next (loaded_fits r c loaded fits) moved)

abbrev IsFit : Contract → Type 0
IsFit c = SignaturesFit c.status c.buyer_signed_at c.seller_signed_at

waiting :
    (s next : Contract)
    → activate_if_signed s ≡ ok next
    → (is_set s.buyer_signed_at && is_set s.seller_signed_at) ≡ false
    → s ≡ next
unfolding activate_if_signed
waiting s next h part = ground arith

activated_fits :
    (s next : Contract)
    → transition active s ≡ ok next
    → (is_set s.buyer_signed_at && is_set s.seller_signed_at) ≡ true
    → IsFit next
activated_fits s next h both =
    subst IsFit (sym (transition_sound active s next h).2) (ground arith, ground arith)

set_signed-IsSigned :
    (r : ContractRow) (c s next : Contract) (actor_id at now : ℕ)
    → contract_to_domain r ≡ ok c
    → sign actor_id at c ≡ ok s
    → activate_if_signed s ≡ ok next
    → IsSigned r
    → IsSigned (set_signed now next r)
unfolding activate_if_signed
set_signed-IsSigned r c s next actor_id at now loaded signed activated fits =
    let (_, waits, _) = sign_sound actor_id at c s signed in
    elim (Bool-cases (is_set s.buyer_signed_at && is_set s.seller_signed_at)) [
      | inl both ↦ activated_fits s next (rw both at activated) both
      | inr part ↦ subst IsFit (waiting s next activated part) (rw waits part)
    ]

update-IsSignedBook :
    (rows : List ContractRow) (id : ℕ) (entity : ContractRow) (version : ℕ)
    (f : ContractRow → ContractRow)
    → IsSignedBook rows
    → find_one (λ (r : ContractRow). r.id == id) rows ≡ some entity
    → ((r : ContractRow) → (f r).id ≡ r.id)
    → (IsSigned entity → IsSigned (f entity))
    → IsSignedBook (update_where (is_current entity.id version entity.status) f rows)
update-IsSignedBook rows id entity version f book found keeps step = record {
  ids = IsKeyed-update_where (λ r. r.id) _ f rows keeps book.ids;
  signed =
      All-update_found (λ r. r.id) IsSigned id rows entity _ f book.ids found
        (λ r current. ground arith) book.signed
        (step (All-find_one IsSigned _ rows entity book.signed found));
}

run_call-IsSignedBook :
    (sum_quantities : List Text → Text) (c : ContractCall) (s : Store)
    → Calls.IsGranted sum_quantities c s
    → IsSignedBook s.contracts
    → IsSignedBook (Calls.run_call sum_quantities c s).contracts
unfolding create_from_request_atomically sign_atomically transition_atomically
run_call-IsSignedBook sum (Calls.create draw input) s fresh book =
    idempotent_preserves (λ m. m) find_by_id find_by_id-Reads (λ t. IsSignedBook t.contracts) _ _ _
      s
      (λ b t ran.
        let done = create_body-Created sum draw input _ _ t b ran in
        rw done.contracts (record {
          ids = IsKeyed-append (λ r. r.id) s.contracts (new_row draw input) book.ids fresh;
          signed = All-append IsSigned s.contracts _ book.signed ((refl, refl), tt);
        }))
      book
run_call-IsSignedBook sum (Calls.sign draw input) s g book =
    idempotent_preserves some find_by_id find_by_id-Reads (λ t. IsSignedBook t.contracts) _ _ _ s
      (λ b t ran.
        let done = sign_body-Signed draw input _ _ t b ran in
        rw done.contracts (
          update-IsSignedBook s.contracts input.id done.entity input.expected_version _ book
            done.found (λ r. refl)
            (set_signed-IsSigned done.entity done.contract done.signed done.next input.actor_id
              draw.now draw.now done.loaded done.allowed done.activated)))
      book
run_call-IsSignedBook sum (Calls.move draw input) s g book =
    idempotent_preserves some find_by_id find_by_id-Reads (λ t. IsSignedBook t.contracts) _ _ _ s
      (λ b t ran.
        let done = transition_body-Moved draw input _ _ t b ran in
        rw done.contracts (
          update-IsSignedBook s.contracts input.id done.entity input.expected_version _ book
            done.found (λ r. refl)
            (set_status-IsSigned done.entity done.contract done.next input.to_status draw.now
              done.loaded done.allowed)))
      book

-- A table of contracts with the following properties keeps them, whatever creations, signatures and
-- transitions the repository gets, in any order and whether they succeed or throw: ids are distinct; no draft and no contract under
-- negotiation is signed; a contract that waits for signatures, or was cancelled, has at most one; an
-- active or completed contract has both. A creation has to get a new id from the database.
pub run_calls-IsSignedBook :
    (sum_quantities : List Text → Text) (cs : List ContractCall) (s : Store)
    → Calls.AllGranted sum_quantities cs s
    → IsSignedBook s.contracts
    → IsSignedBook (Calls.run_calls sum_quantities cs s).contracts
run_calls-IsSignedBook sum [] s g h = h
run_calls-IsSignedBook sum (c ∷ cs) s (g, gs) h =
    run_calls-IsSignedBook sum cs (Calls.run_call sum c s) gs (run_call-IsSignedBook sum c s g h)
