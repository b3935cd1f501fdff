-- ===== src/Products/Compensation.antt =====
-- The steps of `VerifyProductCertificationUseCase`, while other requests write and calls fail.
use agrilink_backend.Base.{
  ℕ, Bool, true, ◌≡◌, refl, sym, subst, ap, ◌∙◌, ◌⊎◌, inl, inr, Option, none, some, Error, Result,
  ok, err, certification_consistency, arith, ==_refl,
}
use agrilink_backend.Base.Action.{Action}
use agrilink_backend.Base.Affected.{count_where-found}
use agrilink_backend.Base.Keyed.{IsKeyed, IsKeyed-update_where}
use agrilink_backend.Base.Table.{find_one, update_where}
use agrilink_backend.Base.TableLaws.{find_one_sound, find_one-update_where}
use agrilink_backend.Enums.{UserRole}
use agrilink_backend.Products.Certifications.{
  by_id, status_code, find_by_id_with_product, CertificationState, state_of, set_state, has_status,
  is_as_left, same_number, transition_certification, restore_certification_transition, compensate,
  review_attached,
}
use agrilink_backend.Storage.Files
use agrilink_backend.Storage.Files.{find_by_id, update_status}
use agrilink_backend.Storage.Service.{reviewed_status}
use agrilink_backend.Platform.{Platform, FileRow, CertificationRow}
use agrilink_backend.Products.FileReview.{review_file-cases}

same_number_refl : (o : Option ℕ) → same_number o o ≡ true
same_number_refl none = refl
same_number_refl (some a) = ==_refl a

abbrev pub row : ℕ → Platform → Option CertificationRow
row cert_id t = find_one (by_id cert_id) t.certifications

abbrev pub IsKept : Platform → Type 0
IsKept t = IsKeyed (λ (x : CertificationRow). x.id) t.certifications

-- The n-th answer does not come.
abbrev pub Fails : (ℕ → Action Platform (Unit {0})) → ℕ → Type 0
Fails meanwhile n = (t : Platform) × (e : Error) × ((meanwhile n t).0 ≡ err e)

module _ (meanwhile : ℕ → Action Platform (Unit {0})) (cert_id : ℕ) where
  -- Others may write anything but this certificate, and calls may fail anywhere.
  abbrev pub IsLeftAlone : Type 0
  IsLeftAlone =
      (n : ℕ) (t : Platform)
      → IsKept t
      → IsKept (meanwhile n t).1 × (row cert_id (meanwhile n t).1 ≡ row cert_id t)

  -- A platform in which the certificate is `o`.
  abbrev pub Has : Option CertificationRow → Platform → Type 0
  Has o t = IsKept t × (row cert_id t ≡ o)

  -- What an answer brings: a failure or not, and a platform with the same certificate.
  abbrev pub Answer : Option CertificationRow → Result (Unit {0}) × Platform → Type 0
  Answer o r =
      ((e : Error) × (t : Platform) × (r ≡ (err e, t)) × Has o t)
      ⊎ (t : Platform) × (r ≡ (ok tt, t)) × Has o t

  answer : (o : Option CertificationRow) (r : Result (Unit {0}) × Platform) → Has o r.1 → Answer o r
  answer o (err e, t) h = inl (e, t, refl, h)
  answer o (ok tt, t) h = inr (t, refl, h)

  pub answers :
      (quiet : IsLeftAlone) (n : ℕ) (o : Option CertificationRow) (t : Platform)
      → Has o t
      → Answer o (meanwhile n t)
  answers quiet n o t (kept, there) =
      let (still, same) = quiet n t kept in answer o (meanwhile n t) (still, same ∙ there)

  module _ (v : CertificationState) (c : CertificationRow) where
    -- The certificate is written, under the condition that it has the status that was read.
    pub transition_runs :
        (t : Platform)
        → Has (some c) t
        → (u : Platform) × (transition_certification cert_id c.status v t
            ≡ (ok (some (set_state v c)), u))
          × Has (some (set_state v c)) u
    unfolding transition_certification find_by_id_with_product
    transition_runs t (kept, there) =
        let own = find_one_sound (by_id cert_id) t.certifications c there in
        let chosen : has_status cert_id c.status c ≡ true =
          rw (own, ==_refl (status_code c.status)) refl in
        let one =
          count_where-found (λ (x : CertificationRow). x.id) (has_status cert_id c.status) cert_id
            t.certifications c kept there (λ x h. ground arith) in
        let written : find_one (by_id cert_id)
              (update_where (has_status cert_id c.status) (set_state v) t.certifications)
            ≡ some (set_state v c) =
          find_one-update_where (by_id cert_id) (has_status cert_id c.status) (set_state v)
            t.certifications (λ r. refl)
          ∙ rw (there, chosen) refl in
        (
          record t {
            certifications =
                update_where (has_status cert_id c.status) (set_state v) t.certifications;
          },
          rw (one, chosen, written) refl,
          (
            IsKeyed-update_where (λ (x : CertificationRow). x.id) (has_status cert_id c.status)
                (set_state v) t.certifications (λ r. refl) kept,
            written,
          ),
        )

    -- A certificate that is as the transition left it is taken back.
    restore_runs :
        (t : Platform)
        → Has (some (set_state v c)) t
        → (u : Platform) × (restore_certification_transition cert_id v (state_of c) t
            ≡ (ok true, u))
          × Has (some c) u
    unfolding restore_certification_transition
    restore_runs t (kept, there) =
        let own = find_one_sound (by_id cert_id) t.certifications (set_state v c) there in
        let as_left : is_as_left cert_id v (set_state v c) ≡ true =
          rw
            (
              own,
              ==_refl (status_code v.status),
              same_number_refl v.verified_by,
              same_number_refl v.verified_at,
            )
            refl in
        let one =
          count_where-found (λ (x : CertificationRow). x.id) (is_as_left cert_id v) cert_id
            t.certifications (set_state v c) kept there (λ x h. ground arith) in
        (
          record t {
            certifications =
                update_where (is_as_left cert_id v) (set_state (state_of c)) t.certifications;
          },
          rw (one, as_left) refl,
          (
            IsKeyed-update_where (λ (x : CertificationRow). x.id) (is_as_left cert_id v)
                (set_state (state_of c)) t.certifications (λ r. refl) kept,
            find_one-update_where (by_id cert_id) (is_as_left cert_id v) (set_state (state_of c))
                  t.certifications (λ r. refl)
                ∙ rw (there, as_left) refl,
          ),
        )

    -- A compensation takes the certificate back and throws the error of the review, or reports that
    -- it could not be sure of that.
    abbrev pub Compensated : Error → Result (Unit {0}) × Platform → Type 0
    Compensated e r =
        ((t : Platform) × (r ≡ (err e, t)) × (row cert_id t ≡ some c))
        ⊎ (t : Platform) × (r ≡ (err certification_consistency, t))
          × (Fails meanwhile 5 ⊎ Fails meanwhile 6)

    pub compensate-cases :
        (quiet : IsLeftAlone) (e : Error) (t : Platform)
        → Has (some (set_state v c)) t
        → Compensated e (compensate meanwhile cert_id v (state_of c) e t)
    compensate-cases quiet e t h = elim (answers quiet 5 (some (set_state v c)) t h) [
      | inl (f, t', lost, h') ↦ inr (t', rw lost refl, inl (t, f, ap (λ r. r.0) lost))
      | inr (t', came, h') ↦
          let (u, restored, back) = restore_runs t' h' in
          elim (answers quiet 6 (some c) u back) [
            | inl (f, u', lost, _) ↦
                inr (u', rw (came, restored, lost) refl, inr (u, f, ap (λ r. r.0) lost))
            | inr (u', done, h'') ↦ inl (u', rw (came, restored, done) refl, h''.1)
          ]
    ]

  -- The review of the attached file.
  abbrev pub Reviewing :
      Option ℕ → Bool → Option CertificationRow → Result (Unit {0}) × Platform → Type 0
  Reviewing file approve o r =
      ((e : Error) × (t : Platform) × (r ≡ (err e, t)) × Has o t)
      ⊎ (t : Platform) × (r ≡ (ok tt, t))
        × Has o t
        × ((file_id : ℕ)
            → file ≡ some file_id
            → (u : Platform) × (f : FileRow) × (find_one (Files.by_id file_id) u.files ≡ some f)
              × (f.status ≡ reviewed_status approve)
              × (t ≡ (meanwhile 4 u).1))

  pub review_attached-cases :
      (quiet : IsLeftAlone) (file : Option ℕ) (role : UserRole) (approve : Bool)
      (o : Option CertificationRow) (t : Platform)
      → Has o t
      → Reviewing file approve o (review_attached meanwhile file role approve t)
  review_attached-cases quiet none role approve o t h =
      inr (t, refl, h, λ id some_file. absurd (ground arith))
  review_attached-cases quiet (some file_id) role approve o t h = elim (answers quiet 3 o t h) [
    | inl (e, t', lost, h') ↦ inl (e, t', rw lost refl, h')
    | inr (t', came, h') ↦ elim (review_file-cases file_id role approve t') [
      | inl (e, refused) ↦ inl (e, t', rw (came, refused) refl, h')
      | inr (changed, u, ran, seen) ↦
          let same : Has o u = subst (Has o) (sym seen.rest) h' in
          elim (answers quiet 4 o u same) [
            | inl (e, u', lost, h'') ↦ inl (e, u', rw (came, ran, lost) refl, h'')
            | inr (u', done, h'') ↦ inr (
              u',
              rw (came, ran, done) refl,
              h'',
              λ id same_file.
                  subst
                    (λ k.
                      (w : Platform) × (f : FileRow) × (find_one (Files.by_id k) w.files ≡ some f)
                      × (f.status ≡ reviewed_status approve)
                      × (u' ≡ (meanwhile 4 w).1))
                    (ground arith) (u, seen.file, seen.found, seen.fits, sym (ap (λ r. r.1) done)),
            )
          ]
    ]
  ]
