-- ===== src/Tests/Products.antt =====
-- Products off the market, and a certificate that is verified with its file.
use agrilink_backend.Base.{
  Bool, true, ◌≡◌, ◌↔◌, refl, false, none, some, List, [], ◌∷◌, Text, Result, ok, err,
  storage_failure, certification_consistency, codes, ℕ, ltb, ◌==◌, if◌then◌else◌,
}
use agrilink_backend.Base.Action.{Action}
use agrilink_backend.Base.Table.{find_one, update_where, count_where}
use agrilink_backend.Enums.{admin, farmer, farmer_seller}
use agrilink_backend.Products.Certifications.{
  VerificationInput, CertificationInput, verify_product_certification, add_product_certification,
  add_certification, assert_valid_certification_verification, find_by_id_with_product,
  transition_certification, restore_certification_transition,
}
use agrilink_backend.Products.OffMarket.{
  SellerCall, delete, change, run_calls, IsHeldBack, run_calls-IsHeldBack,
}
use agrilink_backend.Products.Status.{
  draft, pending_approval, active, suspended, ProductStatusTransitionContext,
  assert_product_status_transition,
}
use agrilink_backend.Products.Status.Laws.{Step, at, assert_product_status_transition_iff}
use agrilink_backend.Products.UseCases.{find_product_or_fail, assert_product_owner, to_integer_vnd}
use agrilink_backend.Products.Verification.{Ends, verify_product_certification-cases}
use agrilink_backend.Storage.Files.{
  attach_to_resource, detach_from_resource, find_by_id_for_owner, find_by_id, update_status, create,
}
use agrilink_backend.Storage.Service.{
  Content, attach_owned_file, detach_owned_file, require_owned_file, create_upload_intent,
  complete_upload_intent, review_stored_file, transition_reviewed_file, create_file_download_url,
}
use agrilink_backend.Storage.Calls
use agrilink_backend.Storage.Calls.{FileCall, intend, complete, review}
use agrilink_backend.Storage.Content.{IsContent, IsFileBook}
use agrilink_backend.Storage.Download.{Served, run_calls-Served}
use agrilink_backend.Platform.{
  Platform, ProductRow, FileRow, CertificationRow, quarantined, supabase, private_file, awaiting,
  verified,
}
use agrilink_backend.Tests.Data.{empty_platform}

abbrev rice : ProductRow
rice = record {
  id = 5;
  seller_id = 2;
  seller_type = farmer_seller;
  name = some (codes "rice");
  description = none;
  price_per_unit = codes "20.00";
  unit = codes "kg";
  available_quantity = 500;
  status = suspended;
  rejection_reason = none;
}

abbrev proof : FileRow
proof = record {
  id = 8;
  owner_id = 2;
  asset_type = 1;
  provider = supabase;
  visibility = private_file;
  status = quarantined;
  object_key = codes "k";
  original_name = codes "a.pdf";
  declared_mime = codes "application/pdf";
  size_bytes = 12;
  expires_at = 90;
  resource_type = some 1;
  resource_id = some 5;
  detected_mime = some (codes "application/pdf");
  checksum_sha256 = some (codes "00");
  extension = some (codes "pdf");
  deletion_attempts = 0;
}

abbrev organic : CertificationRow
organic = record {
  id = 40;
  product_id = 5;
  cert_type = 3;
  cert_number = none;
  issued_by = none;
  stored_file_id = some 8;
  is_verified = false;
  status = awaiting;
  verified_by = none;
  verified_at = none;
  rejection_reason = none;
  created_at = 7;
}

abbrev farm : Platform
farm = record empty_platform {
  products = rice ∷ [];
  certifications = organic ∷ [];
  files = proof ∷ [];
}

price_read : to_integer_vnd (codes "20.00") ≡ ok (codes "20")
unfolding to_integer_vnd
price_read = refl

abbrev submission : ProductStatusTransitionContext
submission = record {
  current_status = draft;
  next_status = pending_approval;
  seller_id = 2;
  actor_id = 2;
  actor_role = farmer;
  available_quantity = 0;
}

assert_product_status_transition_iff_example :
    (assert_product_status_transition (at draft pending_approval submission) ≡ ok tt)
    ↔ Step submission draft pending_approval
assert_product_status_transition_iff_example =
    assert_product_status_transition_iff draft pending_approval submission

abbrev calls : List SellerCall
calls = delete 5 2 ∷ change 5 2 farmer refl pending_approval ∷ change 5 2 farmer refl active ∷ []

run_calls-IsHeldBack_example : IsHeldBack 5 (run_calls calls farm)
run_calls-IsHeldBack_example = run_calls-IsHeldBack 5 calls farm (λ _. tt, tt)

abbrev approval : VerificationInput
approval = record { status = verified; rejection_reason = none }

-- The review of the file gets no answer.
abbrev storage_down : ℕ → Action Platform (Unit {0})
storage_down n t = (if n == 3 then err storage_failure else ok tt, t)

-- Nor does the write that takes the certificate back.
abbrev all_down : ℕ → Action Platform (Unit {0})
all_down n t = (if ltb 2 n then err storage_failure else ok tt, t)

taken_back :
    verify_product_certification storage_down 60 40 9 admin approval farm
    ≡ (err storage_failure, farm)
unfolding verify_product_certification assert_valid_certification_verification
    find_by_id_with_product transition_certification restore_certification_transition find_one
    update_where count_where
taken_back = refl

reported :
    (verify_product_certification all_down 60 40 9 admin approval farm).0
    ≡ err certification_consistency
unfolding verify_product_certification assert_valid_certification_verification
    find_by_id_with_product transition_certification restore_certification_transition find_one
    update_where count_where
reported = refl

-- The answer to the write of the certificate is lost: the certificate stays verified, and its file
-- goes on waiting for its review.
abbrev write_unanswered : ℕ → Action Platform (Unit {0})
write_unanswered n t = (if n == 2 then err storage_failure else ok tt, t)

verified_alone : verify_product_certification write_unanswered 60 40 9 admin approval farm ≡ (
  err storage_failure,
  record farm {
    certifications =
        record organic {
          is_verified = true;
          status = verified;
          verified_by = some 9;
          verified_at = some 60;
        }
        ∷ [];
  },
)
unfolding verify_product_certification assert_valid_certification_verification
    find_by_id_with_product transition_certification restore_certification_transition find_one
    update_where count_where
verified_alone = refl

verify_product_certification-cases_example :
    Ends storage_down 60 40 9 admin approval farm
      (verify_product_certification storage_down 60 40 9 admin approval farm)
unfolding find_one
verify_product_certification-cases_example =
    verify_product_certification-cases storage_down 60 40 9 admin approval farm
      (λ n t kept. (kept, refl)) (refl, tt)

abbrev second : CertificationInput
second = record { cert_type = 3; cert_number = none; issued_by = none; stored_file_id = 8 }

-- A second certificate with the file of the first, whose insertion fails, takes the file from the
-- first: the attachment changed nothing, but the compensation detaches.
detached_from_first : add_product_certification (err storage_failure) 41 61 5 2 second farm ≡ (
  err storage_failure,
  record farm { files = record proof { resource_type = none; resource_id = none } ∷ [] },
)
unfolding add_product_certification find_product_or_fail assert_product_owner attach_owned_file
    require_owned_file find_by_id_for_owner attach_to_resource add_certification detach_owned_file
    detach_from_resource find_one update_where count_where
detached_from_first = refl

abbrev all_there : Text → Bool
all_there key = true

abbrev all_pdf : Text → Result Content
all_pdf key = ok (record {
  detected_mime = codes "application/pdf";
  checksum_sha256 = codes "00";
  extension = codes "pdf";
})

abbrev file_calls : List FileCall
file_calls =
    intend 9 2 90 (codes "k2") (ok (codes "u")) (record {
      asset_type = 1;
      original_name = codes "b.pdf";
      declared_mime = codes "application/pdf";
      size_bytes = 3;
    })
    ∷ complete 2 9
    ∷ review 9 admin true
    ∷ []

abbrev proof-IsContent :
    IsContent all_pdf proof.object_key proof.detected_mime proof.checksum_sha256 proof.extension
proof-IsContent = record {
  content = record {
    detected_mime = codes "application/pdf";
    checksum_sha256 = codes "00";
    extension = codes "pdf";
  };
  valid = refl;
  found_mime = refl;
  found_checksum = refl;
  found_extension = refl;
}

proof-IsFileBook : IsFileBook all_pdf farm.files
unfolding find_one
proof-IsFileBook = record {
  ids = (refl, tt);
  safe = (record { looked_at = λ _. proof-IsContent; attached = λ k held. proof-IsContent }, tt);
}

run_calls-Served_example :
    Served all_pdf 1 9 admin
      (Calls.run_calls all_there all_there all_pdf file_calls farm)
      (codes "k2")
unfolding find_one create_upload_intent create complete_upload_intent require_owned_file
    find_by_id_for_owner update_status review_stored_file transition_reviewed_file find_by_id
    create_file_download_url update_where
run_calls-Served_example =
    run_calls-Served all_there all_there all_pdf file_calls farm 1 9 admin (codes "k2")
      (refl, (tt, (tt, tt))) proof-IsFileBook refl
