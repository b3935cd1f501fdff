-- ===== src/Base/Errors.antt =====
-- The error classes that the modelled code throws, and the result of a call that may throw.
-- The messages are left out: no code branches on them.
use mathlib.Core.Path.{◌≡◌, refl}
use mathlib.Core.Logic.{◌⊎◌, inl, inr}

pub data Error : Type 0 where
  money_validation quantity_validation : Error
  order_invariant order_transition order_authorization : Error
  payment_domain contract_domain purchase_request_domain : Error
  commerce_input commerce_forbidden commerce_not_found commerce_conflict : Error
  operation_in_progress idempotency_conflict price_incompatible : Error
  missing_result unique_violation check_violation : Error
  product_for_review_not_found reviewer_not_eligible review_already_exists : Error
  review_not_found review_ownership review_state : Error
  product_forbidden product_not_found invalid_product_transition : Error
  stored_file_not_found invalid_stored_file_transition unauthorized_review upload_not_completed :
      Error
  invalid_certification_file invalid_verification certification_not_found : Error
  verification_conflict certification_consistency storage_failure : Error

pub data Result {ℓ} (A : Type ℓ) : Type ℓ where
  ok : A → Result A
  err : Error → Result A

infixl 5 ◌>>=◌ ◌>>◌
abbrev pub ◌>>=◌ {ℓ κ} : {A : Type ℓ} {B : Type κ} → Result A → (A → Result B) → Result B
ok a >>= f = f a
err e >>= f = err e

abbrev pub ◌>>◌ {ℓ κ} : {A : Type ℓ} {B : Type κ} → Result A → Result B → Result B
m >> k = m >>= λ _. k

abbrev pub map_ok {ℓ κ} : {A : Type ℓ} {B : Type κ} → (A → B) → Result A → Result B
map_ok f (ok a) = ok (f a)
map_ok f (err e) = err e

pub Result-cases {ℓ} :
    {A : Type ℓ} (r : Result A) → ((e : Error) × (r ≡ err e)) ⊎ ((a : A) × (r ≡ ok a))
Result-cases (ok a) = inr (a, refl)
Result-cases (err e) = inl (e, refl)
