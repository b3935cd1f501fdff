-- ===== src/Products/FileReview.antt =====
-- `reviewFile` of modules/storage/application/storage.service.ts, as the certificates use it.
use agrilink_backend.Base.{
  ℕ, Bool, true, false, ◌≡◌, refl, ◌∙◌, ◌⊎◌, inl, inr, some, Error, Result, ok, err,
  unauthorized_review, stored_file_not_found, invalid_stored_file_transition, arith, Bool-cases,
  Option-cases, ==_refl,
}
use agrilink_backend.Base.Table.{find_one, update_where}
use agrilink_backend.Base.TableLaws.{find_one-update_where}
use agrilink_backend.Enums.{UserRole}
use agrilink_backend.Storage.Files
use agrilink_backend.Storage.Files.{find_by_id, update_status}
use agrilink_backend.Storage.Service.{
  is_reviewer_role, reviewed_status, transition_reviewed_file, review_file,
}
use agrilink_backend.Platform.{Platform, FileRow, FileStatus}

abbrev pub Refused : {A : Type 0} → Result A × Platform → Platform → Type 0
Refused result s = (e : Error) × (result ≡ (err e, s))

-- The file is there with the status of the review, and nothing but files changed.
pub record IsReviewed (file_id : ℕ) (approve : Bool) (s t : Platform) : Type 0 where
  pub file : FileRow
  pub found : find_one (Files.by_id file_id) t.files ≡ some file
  pub fits : file.status ≡ reviewed_status approve
  pub rest : t ≡ record s { files = t.files }

same_reviewed :
    (status : FileStatus) (approve : Bool)
    → Files.same_status status (reviewed_status approve) ≡ true
    → status ≡ reviewed_status approve
same_reviewed FileStatus.pending true h = absurd (ground arith)
same_reviewed FileStatus.pending false h = absurd (ground arith)
same_reviewed FileStatus.uploaded true h = absurd (ground arith)
same_reviewed FileStatus.uploaded false h = absurd (ground arith)
same_reviewed FileStatus.quarantined true h = absurd (ground arith)
same_reviewed FileStatus.quarantined false h = absurd (ground arith)
same_reviewed FileStatus.ready true h = refl
same_reviewed FileStatus.ready false h = absurd (ground arith)
same_reviewed FileStatus.failed true h = absurd (ground arith)
same_reviewed FileStatus.failed false h = refl
same_reviewed FileStatus.deleted true h = absurd (ground arith)
same_reviewed FileStatus.deleted false h = absurd (ground arith)
same_reviewed FileStatus.delete_retry true h = absurd (ground arith)
same_reviewed FileStatus.delete_retry false h = absurd (ground arith)

abbrev Outcome : ℕ → Bool → Platform → Result Bool × Platform → Type 0
Outcome file_id approve s result =
    (changed : Bool) × (t : Platform) × (result ≡ (ok changed, t)) × IsReviewed file_id approve s t

pub review_file-cases :
    (file_id : ℕ) (role : UserRole) (approve : Bool) (s : Platform)
    → Refused (review_file file_id role approve s) s
      ⊎ Outcome file_id approve s (review_file file_id role approve s)
unfolding review_file transition_reviewed_file find_by_id update_status Files.find_by_id_for_owner
review_file-cases file_id role approve s = elim (Bool-cases (is_reviewer_role role)) [
  | inr plain ↦ inl (unauthorized_review, rw plain refl)
  | inl reviews ↦ elim (Option-cases (find_one (Files.by_id file_id) s.files)) [
    | inl gone ↦ inl (stored_file_not_found, rw (reviews, gone) refl)
    | inr (file, found) ↦
        elim (Bool-cases (Files.same_status file.status (reviewed_status approve))) [
          | inl already ↦ inr (
            false,
            s,
            rw (reviews, found, already) refl,
            record {
              file = file;
              found = found;
              fits = same_reviewed file.status approve already;
              rest = refl;
            },
          )
          | inr moves ↦ elim (Bool-cases (Files.same_status file.status FileStatus.quarantined)) [
            | inr other ↦
                inl (invalid_stored_file_transition, rw (reviews, found, moves, other) refl)
            | inl waiting ↦
                let q = Files.by_owner file.id file.owner_id in
                let own : q file ≡ true = rw (==_refl file.id, ==_refl file.owner_id) refl in
                let f : FileRow → FileRow = λ x. record x { status = reviewed_status approve } in
                inr (
                  true,
                  record s { files = update_where q f s.files },
                  rw (reviews, found, moves, waiting) refl,
                  record {
                    file = f file;
                    found =
                        find_one-update_where (Files.by_id file_id) q f s.files (λ r. refl)
                        ∙ rw (found, own) refl;
                    fits = refl;
                    rest = refl;
                  },
                )
          ]
        ]
  ]
]
