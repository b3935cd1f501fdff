-- ===== src/Contracts/Contract/Laws.antt =====
-- The contract status machine and its signatures.
use agrilink_backend.Base.{
  ℕ, true, false, ◌&&◌, ◌||◌, not, sym, subst, Bool-cases, ◌==◌, ◌≡◌, ◌⊎◌, inl, inr, Option, ok,
  arith,
}
use agrilink_backend.Contracts.Contract.{
  ContractStatus, draft, negotiating, pending_signature, active, completed, cancelled, Contract,
  ContractValues, rehydrate, is_set, same_status, includes, allowed, transition, sign,
}

-- What the status of a contract says of its signatures.
abbrev pub SignaturesFit : ContractStatus → Option ℕ → Option ℕ → Type 0
SignaturesFit draft b s = (is_set b ≡ false) × (is_set s ≡ false)
SignaturesFit negotiating b s = (is_set b ≡ false) × (is_set s ≡ false)
SignaturesFit pending_signature b s = (is_set b && is_set s) ≡ false
SignaturesFit active b s = (is_set b ≡ true) × (is_set s ≡ true)
SignaturesFit completed b s = (is_set b ≡ true) × (is_set s ≡ true)
SignaturesFit cancelled b s = (is_set b && is_set s) ≡ false

-- A transition that succeeds is a listed one, needs both signatures where it activates, and changes
-- the status alone.
pub transition_sound :
    (to : ContractStatus) (c next : Contract)
    → transition to c ≡ ok next
    → (includes (allowed c.status) to ≡ true)
      × (same_status to active
            && (not (is_set c.buyer_signed_at) || not (is_set c.seller_signed_at))
          ≡ false)
      × (next ≡ record c { status = to })
unfolding transition
transition_sound to c next h = (ground arith, ground arith, ground arith)

fit_step :
    (from to : ContractStatus) (b s : Option ℕ)
    → SignaturesFit from b s
    → includes (allowed from) to ≡ true
    → (same_status to active && (not (is_set b) || not (is_set s))) ≡ false
    → SignaturesFit to b s
unfolding allowed
fit_step draft negotiating b s fits listed signed = fits
fit_step draft cancelled b s fits listed signed = ground arith
fit_step negotiating pending_signature b s fits listed signed = ground arith
fit_step negotiating cancelled b s fits listed signed = ground arith
fit_step pending_signature active b s fits listed signed = (ground arith, ground arith)
fit_step pending_signature cancelled b s fits listed signed = fits
fit_step active completed b s fits listed signed = fits
fit_step _ _ b s fits listed signed = absurd (ground arith)

pub transition-SignaturesFit :
    (to : ContractStatus) (c next : Contract)
    → SignaturesFit c.status c.buyer_signed_at c.seller_signed_at
    → transition to c ≡ ok next
    → SignaturesFit next.status next.buyer_signed_at next.seller_signed_at
transition-SignaturesFit to c next fits h =
    let (listed, signed, same) = transition_sound to c next h in
    subst (λ (n : Contract). SignaturesFit n.status n.buyer_signed_at n.seller_signed_at) (sym same)
      (fit_step c.status to c.buyer_signed_at c.seller_signed_at fits listed signed)

-- A signature needs a contract that waits for signatures and an actor that is one of its parties.
-- It leaves the status, marks that party as signed, and leaves the signature of the other party.
pub sign_sound :
    (actor_id at : ℕ) (c next : Contract)
    → sign actor_id at c ≡ ok next
    → (c.status ≡ pending_signature)
      × (next.status ≡ pending_signature)
      × (((actor_id ≡ c.buyer_id)
            × (is_set next.buyer_signed_at ≡ true)
            × (next.seller_signed_at ≡ c.seller_signed_at))
          ⊎ ((actor_id ≡ c.seller_id)
              × (is_set next.seller_signed_at ≡ true)
              × (next.buyer_signed_at ≡ c.buyer_signed_at)))
unfolding sign
sign_sound actor_id at c next h = (
  ground arith,
  ground arith,
  elim (Bool-cases (actor_id == c.buyer_id)) [
    | inl buyer ↦ inl (ground arith, ground arith, ground arith)
    | inr other ↦ inr (ground arith, ground arith, ground arith)
  ],
)

pub rehydrate_sound :
    (v : ContractValues) (c : Contract)
    → rehydrate v ≡ ok c
    → (c.status ≡ v.status)
      × (c.buyer_signed_at ≡ v.buyer_signed_at)
      × (c.seller_signed_at ≡ v.seller_signed_at)
      × (c.buyer_id ≡ v.buyer_id)
      × (c.seller_id ≡ v.seller_id)
unfolding rehydrate
rehydrate_sound v c h = (ground arith, ground arith, ground arith, ground arith, ground arith)
