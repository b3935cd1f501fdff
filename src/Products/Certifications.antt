-- ===== src/Products/Certifications.antt =====
-- The certificates of a product: the use cases of
-- modules/products/application/use-cases/product.use-cases.ts that write a certificate and a stored
-- file together, the policy product-certification-verification.policy.ts, and the methods of the
-- product repository that they call. The dates of a certificate, which no code branches on, are left
-- out.
use agrilink_backend.Base.{
  ℕ, Bool, true, false, ◌&&◌, not, Option, none, some, List, [], ◌∷◌, ◌++◌, Error, Result, ok, err,
  invalid_certification_file, invalid_verification, certification_not_found, verification_conflict,
  certification_consistency, stored_file_not_found, invalid_stored_file_transition, Text, is_empty,
  ltb, ◌==◌, if◌then◌else◌,
}
use agrilink_backend.Base.Action.{
  Action, ◌>>=◌, ◌>>◌, pure, throw, gets, lift, or_throw, throw_if, modify, attempt,
}
use agrilink_backend.Base.Sort.{sort_by}
use agrilink_backend.Base.Table.{find_one, select, update_where, count_where}
use agrilink_backend.Base.Words.{trim}
use agrilink_backend.Enums.{UserRole}
use agrilink_backend.Products.UseCases.{find_product_or_fail, assert_product_owner}
use agrilink_backend.Storage.Service.{
  ResourceInput, attach_owned_file, detach_owned_file, retire_owned_file, review_file,
}
use agrilink_backend.Platform.{
  Platform, CertificationRow, CertificationStatus, awaiting, verified, refused,
}

abbrev pub status_code : CertificationStatus → ℕ
status_code awaiting = 0
status_code verified = 1
status_code refused = 2

abbrev pub same_status : CertificationStatus → CertificationStatus → Bool
same_status a b = status_code a == status_code b

-- The numbers that stand for 'CERTIFICATION' among the asset types and 'PRODUCT' among the
-- resource types.
abbrev pub certification_asset : ℕ
certification_asset = 1

abbrev pub product_resource : ℕ
product_resource = 1

pub record VerificationInput : Type 0 where
  pub status : CertificationStatus
  pub rejection_reason : Option Text

-- `!reason?.trim()`
abbrev pub is_blank : Option Text → Bool
is_blank none = true
is_blank (some reason) = is_empty (trim reason)

unfoldable pub assert_valid_certification_verification : VerificationInput → Result (Unit {0})
assert_valid_certification_verification input =
    if same_status input.status awaiting
    then err invalid_verification
    else if same_status input.status refused && is_blank input.rejection_reason
    then err invalid_verification
    else ok tt

abbrev pub by_id : ℕ → CertificationRow → Bool
by_id id c = c.id == id

unfoldable pub find_by_id_with_product : ℕ → Action Platform (Option CertificationRow)
find_by_id_with_product id = gets (λ s. find_one (by_id id) s.certifications)

-- `created_at DESC`
abbrev pub newer : CertificationRow → CertificationRow → Bool
newer a b = ltb b.created_at a.created_at

unfoldable pub find_pending : Action Platform (List CertificationRow)
find_pending =
    gets (λ s. sort_by newer (select (λ c. same_status c.status awaiting) s.certifications))

pub record CertificationInput : Type 0 where
  pub cert_type : ℕ
  pub cert_number : Option Text
  pub issued_by : Option Text
  pub stored_file_id : ℕ

abbrev pub new_certification : ℕ → ℕ → ℕ → CertificationInput → CertificationRow
new_certification id now product_id input = record {
  id = id;
  product_id = product_id;
  cert_type = input.cert_type;
  cert_number = input.cert_number;
  issued_by = input.issued_by;
  stored_file_id = some input.stored_file_id;
  is_verified = false;
  status = awaiting;
  verified_by = none;
  verified_at = none;
  rejection_reason = none;
  created_at = now;
}

-- The outcome of the insertion is the database's: an argument.
unfoldable pub add_certification :
    Result (Unit {0}) → ℕ → ℕ → ℕ → CertificationInput → Action Platform CertificationRow
add_certification inserted id now product_id input = do
  lift inserted
  modify (λ s. record s {
    certifications = s.certifications ++ new_certification id now product_id input ∷ [];
  })
  pure (new_certification id now product_id input)

abbrev pub is_invalid_private_document : Error → Bool
is_invalid_private_document stored_file_not_found = true
is_invalid_private_document invalid_stored_file_transition = true
is_invalid_private_document _ = false

unfoldable pub add_product_certification :
    Result (Unit {0}) → ℕ → ℕ → ℕ → ℕ → CertificationInput → Action Platform CertificationRow
unfolding find_product_or_fail assert_product_owner add_certification
add_product_certification inserted id now product_id seller_id input = do
  product ← find_product_or_fail product_id
  lift (assert_product_owner product seller_id)
  let resource : ResourceInput = record {
    file_id = input.stored_file_id;
    owner_id = seller_id;
    resource_type = product_resource;
    resource_id = product_id;
  }
  attempt (attach_owned_file resource certification_asset)
      (λ e. if is_invalid_private_document e then throw invalid_certification_file else throw e)
  attempt (add_certification inserted id now product_id input)
      (λ e. attempt (detach_owned_file resource) (λ _. throw certification_consistency) >> throw e)

abbrev pub of_product : ℕ → ℕ → CertificationRow → Bool
of_product product_id cert_id c = c.id == cert_id && c.product_id == product_id

abbrev pub is_found : Option CertificationRow → Bool
is_found none = false
is_found (some c) = true

-- Where no certificate is found, the removal removes none.
unfoldable pub remove_certification_by_product : ℕ → ℕ → Action Platform Bool
remove_certification_by_product product_id cert_id = do
  found ← gets (λ s. find_one (of_product product_id cert_id) s.certifications)
  modify (λ s. record s {
    certifications = select (λ c. not (of_product product_id cert_id c)) s.certifications;
  })
  pure (is_found found)

module _ (delete_fails : Text → Bool) where
  abbrev pub retire : ℕ → Option ℕ → Action Platform (Unit {0})
  retire seller_id none = pure tt
  retire seller_id (some file_id) =
      attempt (retire_owned_file delete_fails seller_id file_id)
        (λ _. throw certification_consistency)

  unfoldable pub remove_product_certification : ℕ → ℕ → ℕ → Action Platform (Unit {0})
  unfolding find_product_or_fail assert_product_owner find_by_id_with_product
      remove_certification_by_product
  remove_product_certification product_id cert_id seller_id = do
    product ← find_product_or_fail product_id
    lift (assert_product_owner product seller_id)
    found ← find_by_id_with_product cert_id
    certification ← or_throw found certification_not_found
    throw_if (not (certification.product_id == product_id)) certification_not_found
    removed ← remove_certification_by_product product_id cert_id
    throw_if (not removed) certification_not_found
    retire seller_id certification.stored_file_id

-- What a verification writes.
pub record CertificationState : Type 0 where
  pub status : CertificationStatus
  pub is_verified : Bool
  pub verified_by : Option ℕ
  pub verified_at : Option ℕ
  pub rejection_reason : Option Text

abbrev pub state_of : CertificationRow → CertificationState
state_of c = record {
  status = c.status;
  is_verified = c.is_verified;
  verified_by = c.verified_by;
  verified_at = c.verified_at;
  rejection_reason = c.rejection_reason;
}

abbrev pub set_state : CertificationState → CertificationRow → CertificationRow
set_state v c = record c {
  status = v.status;
  is_verified = v.is_verified;
  verified_by = v.verified_by;
  verified_at = v.verified_at;
  rejection_reason = v.rejection_reason;
}

abbrev pub has_status : ℕ → CertificationStatus → CertificationRow → Bool
has_status id expected c = c.id == id && same_status c.status expected

abbrev pub write_one :
    (CertificationRow → Bool) → (CertificationRow → CertificationRow) → Action Platform Bool
write_one condition change = do
  affected ← gets (λ s. count_where condition s.certifications)
  modify (λ s. record s { certifications = update_where condition change s.certifications })
  pure (affected == 1)

unfoldable pub transition_certification :
    ℕ → CertificationStatus → CertificationState → Action Platform (Option CertificationRow)
unfolding find_by_id_with_product
transition_certification id expected_status transition = do
  affected ← write_one (has_status id expected_status) (set_state transition)
  (if affected then find_by_id_with_product id else pure none)

abbrev pub same_number : Option ℕ → Option ℕ → Bool
same_number none none = true
same_number none (some b) = false
same_number (some a) none = false
same_number (some a) (some b) = a == b

-- `WHERE id = … AND status = … AND verified_by = … AND verified_at = …`
abbrev pub is_as_left : ℕ → CertificationState → CertificationRow → Bool
is_as_left id left c =
    c.id == id
    && same_status c.status left.status
    && same_number c.verified_by left.verified_by
    && same_number c.verified_at left.verified_at

unfoldable pub restore_certification_transition :
    ℕ → CertificationState → CertificationState → Action Platform Bool
restore_certification_transition id transitioned_state previous_state =
    write_one (is_as_left id transitioned_state) (set_state previous_state)

-- `rejectionReason!.trim()` of a refusal
abbrev pub trimmed : Option Text → Option Text
trimmed none = none
trimmed (some reason) = some (trim reason)

abbrev pub transitioned : ℕ → ℕ → VerificationInput → CertificationState
transitioned now admin_id input = record {
  status = input.status;
  is_verified = same_status input.status verified;
  verified_by = some admin_id;
  verified_at = some now;
  rejection_reason =
      if same_status input.status refused then trimmed input.rejection_reason else none;
}

-- No transaction holds the steps of a verification together. `meanwhile` is what happens while it
-- waits for its n-th answer: other requests write to any table, and the call that it waits for may
-- fail. 0 is before the certificate is read; 1 and 2 before and after it is written; 3 and 4 before
-- and after its file is reviewed; 5 and 6 before and after the certificate is taken back.
module _ (meanwhile : ℕ → Action Platform (Unit {0})) where
  abbrev pub review_attached : Option ℕ → UserRole → Bool → Action Platform (Unit {0})
  review_attached none reviewer_role approve = pure tt
  review_attached (some file_id) reviewer_role approve = do
    meanwhile 3
    review_file file_id reviewer_role approve
    meanwhile 4

  abbrev pub undo : ℕ → CertificationState → CertificationState → Action Platform (Unit {0})
  undo cert_id transitioned_state previous_state = do
    meanwhile 5
    restored ← restore_certification_transition cert_id transitioned_state previous_state
    meanwhile 6
    throw_if (not restored) certification_consistency

  abbrev pub compensate :
      ℕ → CertificationState → CertificationState → Error → Action Platform (Unit {0})
  compensate cert_id transitioned_state previous_state e =
      attempt (undo cert_id transitioned_state previous_state)
        (λ _. throw certification_consistency)
      >> throw e

  unfoldable pub verify_product_certification :
      ℕ → ℕ → ℕ → UserRole → VerificationInput → Action Platform CertificationRow
  unfolding find_by_id_with_product assert_valid_certification_verification transition_certification
      restore_certification_transition
  verify_product_certification now cert_id admin_id reviewer_role input = do
    meanwhile 0
    found ← find_by_id_with_product cert_id
    certification ← or_throw found certification_not_found
    lift (assert_valid_certification_verification input)
    throw_if (not (same_status certification.status awaiting)) verification_conflict
    meanwhile 1
    written ←
        transition_certification cert_id certification.status (transitioned now admin_id input)
    meanwhile 2
    saved ← or_throw written verification_conflict
    attempt (review_attached saved.stored_file_id reviewer_role (same_status input.status verified))
        (compensate cert_id (transitioned now admin_id input) (state_of certification))
    pure saved
