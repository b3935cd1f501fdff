-- ===== src/Products/Verification.antt =====
-- How `VerifyProductCertificationUseCase`
-- (modules/products/application/use-cases/product.use-cases.ts) ends.
use agrilink_backend.Base.{
  ℕ, Bool, true, ◌≡◌, refl, sym, ap, ◌∙◌, ◌⊎◌, inl, inr, none, some, Error, Result, ok, err,
  certification_not_found, verification_conflict, certification_consistency, arith, Bool-cases,
  Option-cases, Result-cases,
}
use agrilink_backend.Base.Action.{Action, attempt, or_throw, ◌>>◌, ◌>>=◌, pure}
use agrilink_backend.Base.Table.{find_one}
use agrilink_backend.Enums.{UserRole}
use agrilink_backend.Products.Certifications.{
  same_status, VerificationInput, assert_valid_certification_verification, find_by_id_with_product,
  CertificationState, state_of, set_state, CertificationState, transition_certification,
  transitioned, compensate, review_attached, verify_product_certification,
}
use agrilink_backend.Storage.Files
use agrilink_backend.Storage.Files.{find_by_id, update_status}
use agrilink_backend.Storage.Service.{reviewed_status}
use agrilink_backend.Platform.{
  Platform, FileRow, CertificationRow, CertificationStatus, awaiting, verified,
}
use agrilink_backend.Products.Compensation.{
  row, IsKept, IsLeftAlone, Fails, Has, answers, transition_runs, compensate-cases,
  review_attached-cases,
}

awaiting_of :
    (status : CertificationStatus) → same_status status awaiting ≡ true → status ≡ awaiting
awaiting_of awaiting h = refl
awaiting_of verified h = absurd (ground arith)
awaiting_of CertificationStatus.refused h = absurd (ground arith)

module _ (meanwhile : ℕ → Action Platform (Unit {0})) (now cert_id admin_id : ℕ) (role : UserRole)
    (input : VerificationInput) (s : Platform) where
  -- The call throws and the certificate is what it was.
  abbrev pub LeavesCertificate : Result CertificationRow × Platform → Type 0
  LeavesCertificate r =
      (e : Error) × (t : Platform) × (r ≡ (err e, t)) × (row cert_id t ≡ row cert_id s)

  -- The call throws with the certificate written, since the answer to the write was lost.
  pub record IsUnanswered (r : Result CertificationRow × Platform) : Type 0 where
    pub before : CertificationRow
    pub error : Error
    pub after : Platform
    pub found : row cert_id s ≡ some before
    pub waiting : before.status ≡ awaiting
    pub thrown : r ≡ (err error, after)
    pub written : row cert_id after ≡ some (set_state (transitioned now admin_id input) before)
    pub lost : Fails meanwhile 2

  -- The call reports that the certificate could not be taken back for sure.
  abbrev pub IsReported : Result CertificationRow × Platform → Type 0
  IsReported r =
      (t : Platform) × (r ≡ (err certification_consistency, t))
      × (Fails meanwhile 5 ⊎ Fails meanwhile 6)

  -- The certificate waited and has the state that was asked for, and its file, when its review was
  -- answered, had the status of the review.
  pub record IsVerified (r : Result CertificationRow × Platform) : Type 0 where
    pub before : CertificationRow
    pub after : Platform
    pub found : row cert_id s ≡ some before
    pub waiting : before.status ≡ awaiting
    pub returned : r ≡ (ok (set_state (transitioned now admin_id input) before), after)
    pub written : row cert_id after ≡ some (set_state (transitioned now admin_id input) before)
    pub reviewed :
        (file_id : ℕ)
        → before.stored_file_id ≡ some file_id
        → (u : Platform) × (f : FileRow) × (find_one (Files.by_id file_id) u.files ≡ some f)
          × (f.status ≡ reviewed_status (same_status input.status verified))
          × (after ≡ (meanwhile 4 u).1)

  -- The ways a verification ends.
  abbrev pub Ends : Result CertificationRow × Platform → Type 0
  Ends r = LeavesCertificate r ⊎ IsUnanswered r ⊎ IsReported r ⊎ IsVerified r

  abbrev v : CertificationState
  v = transitioned now admin_id input

  abbrev approve : Bool
  approve = same_status input.status verified

  -- What is left to do after the certificate was written.
  abbrev and_review : CertificationRow → Action Platform CertificationRow
  and_review c =
      attempt (review_attached meanwhile c.stored_file_id role approve)
        (compensate meanwhile cert_id v (state_of c))
      >> pure (set_state v c)

  and_review-Ends :
      (quiet : IsLeftAlone meanwhile cert_id) (c : CertificationRow)
      → row cert_id s ≡ some c
      → c.status ≡ awaiting
      → (t : Platform) → Has meanwhile cert_id (some (set_state v c)) t
      → Ends (and_review c t)
  and_review-Ends quiet c found waiting t h =
      elim (review_attached-cases meanwhile cert_id quiet c.stored_file_id role approve
        (some (set_state v c)) t h) [
          | inr (t', ran, h', seen) ↦ inr (
              inr (
                inr (record {
                  before = c;
                  after = t';
                  found = found;
                  waiting = waiting;
                  returned = rw ran refl;
                  written = h'.1;
                  reviewed = seen;
                })))
          | inl (e, t', failed, h') ↦ elim (compensate-cases meanwhile cert_id v c quiet e t' h') [
            | inl (u, undone, back) ↦ inl (e, u, rw (failed, undone) refl, back ∙ sym found)
            | inr (u, reported, why) ↦ inr (inr (inl (u, rw (failed, reported) refl, why)))
          ]
        ]

  -- The write of a certificate that waits, and what follows.
  written-Ends :
      (quiet : IsLeftAlone meanwhile cert_id) (c : CertificationRow)
      → row cert_id s ≡ some c
      → c.status ≡ awaiting
      → (t : Platform) → Has meanwhile cert_id (some c) t
      → Ends (
          (do
            meanwhile 1
            written ← transition_certification cert_id c.status v
            meanwhile 2
            saved ← or_throw written verification_conflict
            attempt
                (review_attached meanwhile saved.stored_file_id role approve)
                (compensate meanwhile cert_id v (state_of c))
            pure saved)
            t)
  written-Ends quiet c found waiting t h = elim (answers meanwhile cert_id quiet 1 (some c) t h) [
    | inl (e, t', lost, h') ↦ inl (e, t', rw lost refl, h'.1 ∙ sym found)
    | inr (t', came, h') ↦
        let (u, moved, w) = transition_runs meanwhile cert_id v c t' h' in
        elim (answers meanwhile cert_id quiet 2 (some (set_state v c)) u w) [
          | inl (e, u', lost, w') ↦ inr (
              inl (record {
                before = c;
                error = e;
                after = u';
                found = found;
                waiting = waiting;
                thrown = rw (came, moved, lost) refl;
                written = w'.1;
                lost = (u, e, ap (λ r. r.0) lost);
              }))
          | inr (u', answered, w') ↦
              rw (came, moved, answered) (and_review-Ends quiet c found waiting u' w')
        ]
  ]

  -- Where ids of certificates are distinct and no other request writes this certificate meanwhile,
  -- while they may write anything else and any call may fail, a verification ends in one of four
  -- ways. It throws and the certificate is what it was, taken back where a failed review of the
  -- file made that necessary. Or the certificate waited, it is written, and the answer to that write
  -- was lost, which throws. Or it throws the consistency error, and then taking the certificate back
  -- failed or its answer was lost. Or it returns; then the certificate waited and has the state that
  -- was asked for, and its file, if it has one, was active where the certificate is verified and
  -- failed where it is refused, when the review of the file was answered.
  pub verify_product_certification-cases :
      IsLeftAlone meanwhile cert_id
      → IsKept s
      → Ends (verify_product_certification meanwhile now cert_id admin_id role input s)
  unfolding verify_product_certification find_by_id_with_product
  verify_product_certification-cases quiet kept =
      elim (answers meanwhile cert_id quiet 0 (row cert_id s) s (kept, refl)) [
        | inl (e, t, lost, h) ↦ inl (e, t, rw lost refl, h.1)
        | inr (t, came, h) ↦ elim (Option-cases (row cert_id s)) [
          | inl gone ↦
              let none_there : row cert_id t ≡ none = h.1 ∙ gone in
              inl (certification_not_found, t, rw (came, none_there) refl, h.1)
          | inr (c, found) ↦
              let there : row cert_id t ≡ some c = h.1 ∙ found in
              elim (Result-cases (assert_valid_certification_verification input)) [
                | inl (e, invalid) ↦ inl (e, t, rw (came, there, invalid) refl, h.1)
                | inr (_, valid) ↦ elim (Bool-cases (same_status c.status awaiting)) [
                  | inr done ↦
                      inl (verification_conflict, t, rw (came, there, valid, done) refl, h.1)
                  | inl waits ↦
                      rw (came, there, valid, waits)
                        (written-Ends quiet c found (awaiting_of c.status waits) t (h.0, there))
                ]
              ]
        ]
      ]
