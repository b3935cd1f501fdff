-- ===== src/Storage/Download.antt =====
-- What a caller of createFileDownloadUrl (modules/storage/application/storage.service.ts) gets to
-- read.
use agrilink_backend.Base.{
  ℕ, Bool, true, ◌&&◌, ◌||◌, ◌≡◌, ◌⊎◌, inl, inr, some, List, Result, ok, Text, arith, Bool-cases,
  Option-cases,
}
use agrilink_backend.Base.Keyed.{All-find_one, find_one-key}
use agrilink_backend.Base.Table.{find_one}
use agrilink_backend.Base.TableLaws.{find_one_sound}
use agrilink_backend.Enums.{UserRole}
use agrilink_backend.Storage.Calls.{FileCall, run_calls, AllGranted, run_calls-IsFileBook}
use agrilink_backend.Storage.Content.{IsValidated, IsSafe, IsFileBook, IsLookedAt-of}
use agrilink_backend.Storage.Files.{by_id, by_owner, same_status, find_by_id, find_by_id_for_owner}
use agrilink_backend.Storage.Service.{Content, is_reviewer_role, create_file_download_url}
use agrilink_backend.Platform.{Platform, FileRow, quarantined, ready}

-- The key of the object that a caller gets a link to, and the file it belongs to.
pub record Served (validated : Text → Result Content) (caller_id id : ℕ) (role : UserRole)
    (s : Platform) (key : Text) : Type 0 where
  pub file : FileRow
  pub found : find_one (by_id id) s.files ≡ some file
  pub of_file : file.object_key ≡ key
  pub content : IsValidated validated file
  pub allowed : (file.owner_id ≡ caller_id) ⊎ (is_reviewer_role role ≡ true)
  pub status :
      (same_status file.status ready ≡ true)
      ⊎ (is_reviewer_role role ≡ true) × (same_status file.status quarantined ≡ true)

module _ (validated : Text → Result Content) (caller_id id : ℕ) (role : UserRole) (s : Platform)
    (key : Text) (book : IsFileBook validated s.files) where
  readable :
      (file : FileRow)
      → find_one (by_id id) s.files ≡ some file
      → (file.owner_id ≡ caller_id) ⊎ (is_reviewer_role role ≡ true)
      → (same_status file.status ready
          || (is_reviewer_role role && same_status file.status quarantined))
        ≡ true
      → file.object_key ≡ key
      → Served validated caller_id id role s key
  readable file found allowed may_read of_file =
      let safe = All-find_one (IsSafe validated) (by_id id) s.files file book.safe found in
      record {
        file = file;
        found = found;
        of_file = of_file;
        content = safe.looked_at (IsLookedAt-of file.status (ground arith));
        allowed = allowed;
        status = elim (Bool-cases (same_status file.status ready)) [
          | inl active ↦ inl active
          | inr other ↦ inr (ground arith, ground arith)
        ];
      }

  created-Served :
      (create_file_download_url caller_id id role s).0 ≡ ok key
      → Served validated caller_id id role s key
  unfolding create_file_download_url find_by_id find_by_id_for_owner
  created-Served h = elim (Option-cases (find_one (by_owner id caller_id) s.files)) [
    | inr (file, owned) ↦
        let mine = find_one_sound (by_owner id caller_id) s.files file owned in
        let found =
          find_one-key (λ (f : FileRow). f.id) (by_owner id caller_id) id s.files file book.ids
            (λ x chosen. ground arith) owned in
        elim (Bool-cases (
          same_status file.status ready
          || (is_reviewer_role role && same_status file.status quarantined))) [
            | inl may_read ↦
                readable file found (inl (ground arith)) may_read (ground (arith, owned, may_read))
            | inr closed ↦ absurd (ground (arith, owned, closed))
          ]
    | inl foreign ↦ elim (Bool-cases (is_reviewer_role role)) [
      | inr plain ↦ absurd (ground (arith, foreign, plain))
      | inl reviews ↦ elim (Option-cases (find_one (by_id id) s.files)) [
        | inl gone ↦ absurd (ground (arith, foreign, reviews, gone))
        | inr (file, found) ↦
            elim (Bool-cases (
              same_status file.status ready
              || (is_reviewer_role role && same_status file.status quarantined))) [
                | inl may_read ↦
                    readable file found (inr reviews) may_read
                      (ground (arith, foreign, reviews, found, may_read))
                | inr closed ↦ absurd (ground (arith, foreign, reviews, found, closed))
              ]
      ]
    ]
  ]

-- After any sequence of calls of the private documents, a link to an object is given out only for a
-- file that is there, to its owner or to a reviewer, and only where the file is active, or waits for
-- review and the caller is a reviewer; and the type, the checksum and the extension recorded of the
-- file are what validating that object finds. New files have to get new ids.
pub run_calls-Served :
    (delete_fails exists : Text → Bool) (validated : Text → Result Content) (cs : List FileCall)
    (s : Platform) (caller_id id : ℕ) (role : UserRole) (key : Text)
    → AllGranted delete_fails exists validated cs s
    → IsFileBook validated s.files
    → (create_file_download_url caller_id id role (run_calls delete_fails exists validated cs s)).0
      ≡ ok key
    → Served validated caller_id id role (run_calls delete_fails exists validated cs s) key
run_calls-Served delete_fails exists validated cs s caller_id id role key granted book given =
    created-Served validated caller_id id role (run_calls delete_fails exists validated cs s) key
      (run_calls-IsFileBook delete_fails exists validated cs s granted book) given
