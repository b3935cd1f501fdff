-- ===== src/Base.antt =====
-- The names that every module shares: the libraries', passed on, and those of the children.
mod Tests
mod Lists
mod Codes
pub mod Errors
pub mod Action
pub mod Table
pub mod Decimal
pub mod Sort
pub mod Keyed
pub mod TableLaws
pub mod Versions
pub mod Distinct
pub mod Words
pub mod Paging
pub mod Affected
pub mod Membership
pub use Tests.*
pub use Lists.*
unfoldable pub use Codes.*
pub use Errors.{Error, Result, ok, err, map_ok, Result-cases}
pub use Errors.{
  money_validation, quantity_validation, order_invariant, order_transition, order_authorization,
  payment_domain, contract_domain, purchase_request_domain, commerce_input, commerce_forbidden,
  commerce_not_found, commerce_conflict, operation_in_progress, idempotency_conflict,
  price_incompatible, missing_result, unique_violation, check_violation,
  product_for_review_not_found, reviewer_not_eligible, review_already_exists, review_not_found,
  review_ownership, review_state, product_forbidden, product_not_found, invalid_product_transition,
  stored_file_not_found, invalid_stored_file_transition, unauthorized_review, upload_not_completed,
  invalid_certification_file, invalid_verification, certification_not_found, verification_conflict,
  certification_consistency, storage_failure,
}
pub use Prim.Native.Nat.{ℕ, zero, suc, ◌+◌, ◌-◌, ◌*◌, ◌/◌, ◌%◌, ◌≤◌, ◌<◌}
pub use mathlib.Core.Path.{◌≡◌, refl, sym, ap, subst, ◌∙◌}
pub use mathlib.Core.Logic.{◌≢◌, ◌↔◌, ◌⊎◌, inl, inr}
pub use mathlib.Core.Bool.{Bool, true, false, not, ◌&&◌, ◌||◌}
pub use mathlib.Core.Option.{Option, none, some}
pub use mathlib.Core.List.{List, [], ◌∷◌, ◌++◌, map}
pub use native.Mathlib.Omega.{arith}
