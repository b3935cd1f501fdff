-- ===== src/Storage/Steps.antt =====
-- Each operation on private documents keeps the table of files sound.
use agrilink_backend.Base.{
  ℕ, Bool, true, false, not, ◌&&◌, ◌||◌, ◌≡◌, refl, inl, inr, none, [], ◌∷◌, ◌++◌, Error, Result,
  Text, invalid_stored_file_transition, arith, ◌==◌, Bool-cases, Result-cases, Option-cases,
  All-append,
}
use agrilink_backend.Base.Action.{throw_if}
use agrilink_backend.Base.Keyed.{
  IsKeyed-append, IsKeyed-update_where, All-update_found, All-find_one,
}
use agrilink_backend.Base.Table.{find_one}
use agrilink_backend.Enums.{UserRole}
use agrilink_backend.Storage.Content.{
  IsSafe, IsFileBook, Keeps, after, IsLookedAt-of, attach-Keeps, detach-Keeps, restore-Keeps,
  quarantine-Keeps, delete-Keeps, retry-Keeps,
}
use agrilink_backend.Storage.Files.{
  by_id, by_owner, same_status, create, find_by_id, find_by_id_for_owner, update_status, is_absent,
  mark_deletion_retry, holds, is_supabase, is_private,
}
use agrilink_backend.Storage.Service.{
  ResourceInput, Content, UploadInput, require_owned_file, new_file, create_upload_intent,
  complete_upload_intent, delete_stored_file, reviewed_status, is_reviewer_role,
  transition_reviewed_file, review_stored_file, attach_owned_file, detach_owned_file,
  restore_reviewed_file, is_usable,
}
use agrilink_backend.Platform.{Platform, FileRow, pending, quarantined, ready, failed, deleted}

abbrev is_taken : FileRow → ResourceInput → Bool
is_taken file input =
    not (is_absent file.resource_id)
    && (not (holds file.resource_id input.resource_id)
        || not (holds file.resource_type input.resource_type))

module _ (validated : Text → Result Content) where
  -- The last guard of a call: what it throws or returns, it writes nothing.
  last_guard : (b : Bool) (e : Error) (s : Platform) → Keeps validated (throw_if b e) s
  last_guard true e s book = book
  last_guard false e s book = book

  pub attach_owned_file-Keeps :
      (input : ResourceInput) (asset_type : ℕ) (s : Platform)
      → Keeps validated (attach_owned_file input asset_type) s
  unfolding attach_owned_file require_owned_file find_by_id_for_owner
  attach_owned_file-Keeps input asset_type s book =
      elim (Option-cases (find_one (by_owner input.file_id input.owner_id) s.files)) [
        | inl gone ↦ rw gone book
        | inr (file, found) ↦ elim (Bool-cases (file.asset_type == asset_type)) [
          | inr other ↦ rw (found, other) book
          | inl typed ↦
              elim (Bool-cases
                (not (is_supabase file.provider) || not (is_private file.visibility))) [
                  | inl foreign ↦ rw (found, typed, foreign) book
                  | inr private_one ↦ elim (Bool-cases (is_usable file.status)) [
                    | inr waits ↦ rw (found, typed, private_one, waits) book
                    | inl usable ↦ elim (Bool-cases (is_taken file input)) [
                      | inl taken ↦ rw (found, typed, private_one, usable, taken) book
                      | inr free ↦
                          rw (found, typed, private_one, usable, free)
                            (last_guard _ invalid_stored_file_transition _ (
                              attach-Keeps validated file.id input.owner_id asset_type
                                input.resource_type input.resource_id s book))
                    ]
                  ]
                ]
        ]
      ]

  pub detach_owned_file-Keeps :
      (input : ResourceInput) (s : Platform) → Keeps validated (detach_owned_file input) s
  unfolding detach_owned_file require_owned_file find_by_id_for_owner
  detach_owned_file-Keeps input s book =
      elim (Option-cases (find_one (by_owner input.file_id input.owner_id) s.files)) [
        | inl gone ↦ rw gone book
        | inr (file, found) ↦
            elim (Bool-cases (is_absent file.resource_id && is_absent file.resource_type)) [
              | inl free ↦ rw (found, free) book
              | inr taken ↦
                  elim (Bool-cases (
                    not (holds file.resource_id input.resource_id)
                    || not (holds file.resource_type input.resource_type))) [
                      | inl other ↦ rw (found, taken, other) book
                      | inr held ↦
                          rw (found, taken, held)
                            (last_guard _ invalid_stored_file_transition _ (
                              detach-Keeps validated file.id input.owner_id input.resource_type
                                input.resource_id s book))
                    ]
            ]
      ]

  pub restore_reviewed_file-Keeps :
      (id : ℕ) (role : UserRole) (s : Platform) → Keeps validated (restore_reviewed_file id role) s
  unfolding restore_reviewed_file find_by_id
  restore_reviewed_file-Keeps id role s book = elim (Bool-cases (is_reviewer_role role)) [
    | inr plain ↦ rw plain book
    | inl reviews ↦ elim (Option-cases (find_one (by_id id) s.files)) [
      | inl gone ↦ rw (reviews, gone) book
      | inr (file, found) ↦ elim (Bool-cases (same_status file.status quarantined)) [
        | inl waits ↦ rw (reviews, found, waits) book
        | inr seen ↦
            elim (Bool-cases
              (not (same_status file.status ready) && not (same_status file.status failed))) [
                | inl other ↦ rw (reviews, found, seen, other) book
                | inr reviewed ↦
                    rw (reviews, found, seen, reviewed)
                      (last_guard _ invalid_stored_file_transition _
                        (restore-Keeps validated file.id s book))
              ]
      ]
    ]
  ]

  pub complete_upload_intent-Keeps :
      (exists : Text → Bool) (owner_id id : ℕ) (s : Platform)
      → Keeps validated (complete_upload_intent exists validated owner_id id) s
  unfolding complete_upload_intent require_owned_file find_by_id_for_owner
  complete_upload_intent-Keeps exists owner_id id s book =
      elim (Option-cases (find_one (by_owner id owner_id) s.files)) [
        | inl gone ↦ rw gone book
        | inr (file, found) ↦ elim (Bool-cases (same_status file.status pending)) [
          | inr later ↦ rw (found, later) book
          | inl waits ↦ elim (Bool-cases (exists file.object_key)) [
            | inr missing ↦ rw (found, waits, missing) book
            | inl there ↦ elim (Result-cases (validated file.object_key)) [
              | inl (e, invalid) ↦ rw (found, waits, there, invalid) book
              | inr (content, valid) ↦
                  rw (found, waits, there, valid)
                    (quarantine-Keeps validated id owner_id file content s found valid book)
            ]
          ]
        ]
      ]

  pub delete_stored_file-Keeps :
      (delete_fails : Text → Bool) (owner_id id : ℕ) (s : Platform)
      → Keeps validated (delete_stored_file delete_fails owner_id id) s
  unfolding delete_stored_file require_owned_file find_by_id_for_owner mark_deletion_retry
  delete_stored_file-Keeps delete_fails owner_id id s book =
      elim (Option-cases (find_one (by_owner id owner_id) s.files)) [
        | inl gone ↦ rw gone book
        | inr (file, found) ↦ elim (Bool-cases (same_status file.status deleted)) [
          | inl already ↦ rw (found, already) book
          | inr there ↦ elim (Bool-cases (delete_fails file.object_key)) [
            | inr works ↦ rw (found, there, works) (delete-Keeps validated id owner_id s book)
            | inl fails ↦ rw (found, there, fails) (retry-Keeps validated id owner_id s book)
          ]
        ]
      ]

  pub review_stored_file-Keeps :
      (id : ℕ) (role : UserRole) (approve : Bool) (s : Platform)
      → Keeps validated (review_stored_file id role approve) s
  unfolding review_stored_file transition_reviewed_file find_by_id update_status
      find_by_id_for_owner
  review_stored_file-Keeps id role approve s book = elim (Bool-cases (is_reviewer_role role)) [
    | inr plain ↦ rw plain book
    | inl reviews ↦ elim (Option-cases (find_one (by_id id) s.files)) [
      | inl gone ↦ rw (reviews, gone) book
      | inr (file, found) ↦ elim (Bool-cases (same_status file.status (reviewed_status approve))) [
        | inl already ↦ rw (reviews, found, already) book
        | inr moves ↦ elim (Bool-cases (same_status file.status quarantined)) [
          | inr other ↦ rw (reviews, found, moves, other) book
          | inl waiting ↦
              let safe = All-find_one (IsSafe validated) (by_id id) s.files file book.safe found in
              rw (reviews, found, moves, waiting)
                (record {
                  ids =
                      IsKeyed-update_where (λ (f : FileRow). f.id) (by_owner file.id file.owner_id)
                        _ s.files (λ r. refl) book.ids;
                  safe =
                      All-update_found (λ (f : FileRow). f.id) (IsSafe validated) id s.files file
                        (by_owner file.id file.owner_id) _ book.ids found (λ x chosen. ground arith)
                        book.safe
                        (record {
                          looked_at =
                              λ _. safe.looked_at (IsLookedAt-of file.status (rw waiting refl));
                          attached = safe.attached;
                        });
                })
        ]
      ]
    ]
  ]

  pub create_upload_intent-Keeps :
      (id owner_id expires_at : ℕ) (key : Text) (url : Result Text) (input : UploadInput)
      (s : Platform)
      → find_one (by_id id) s.files ≡ none
      → Keeps validated (create_upload_intent id owner_id expires_at key url input) s
  unfolding create_upload_intent create
  create_upload_intent-Keeps id owner_id expires_at key url input s fresh book =
      let file = new_file id owner_id expires_at key input in
      let added : IsFileBook validated (s.files ++ file ∷ []) = record {
        ids = IsKeyed-append (λ (f : FileRow). f.id) s.files file book.ids fresh;
        safe =
            All-append (IsSafe validated) s.files _ book.safe
              (record { looked_at = λ h. elim h [ ]; attached = λ k h. absurd (cc) }, tt);
      } in
      after validated (url, record s { files = s.files ++ file ∷ [] }) _ added λ u t b. b
