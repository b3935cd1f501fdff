-- ===== src/Storage/Calls.antt =====
-- Sequences of calls of the private documents, and what they keep.
use agrilink_backend.Base.{ℕ, Bool, ◌≡◌, none, List, [], ◌∷◌, Result, Text}
use agrilink_backend.Base.Table.{find_one}
use agrilink_backend.Enums.{UserRole}
use agrilink_backend.Storage.Content.{IsFileBook}
use agrilink_backend.Storage.Steps.{
  attach_owned_file-Keeps, detach_owned_file-Keeps, restore_reviewed_file-Keeps,
  complete_upload_intent-Keeps, delete_stored_file-Keeps, review_stored_file-Keeps,
  create_upload_intent-Keeps,
}
use agrilink_backend.Storage.Files.{by_id}
use agrilink_backend.Storage.Service.{
  ResourceInput, Content, UploadInput, create_upload_intent, complete_upload_intent,
  delete_stored_file, review_stored_file, attach_owned_file, detach_owned_file,
  restore_reviewed_file,
}
use agrilink_backend.Platform.{Platform}

pub data FileCall : Type 0 where
  intend : ℕ → ℕ → ℕ → Text → Result Text → UploadInput → FileCall
  complete : ℕ → ℕ → FileCall
  delete : ℕ → ℕ → FileCall
  review : ℕ → UserRole → Bool → FileCall
  attach : ResourceInput → ℕ → FileCall
  detach : ResourceInput → FileCall
  restore : ℕ → UserRole → FileCall

module _ (delete_fails exists : Text → Bool) (validated : Text → Result Content) where
  abbrev pub run_call : FileCall → Platform → Platform
  run_call (intend id owner_id expires_at key url input) s =
      (create_upload_intent id owner_id expires_at key url input s).1
  run_call (complete owner_id id) s = (complete_upload_intent exists validated owner_id id s).1
  run_call (delete owner_id id) s = (delete_stored_file delete_fails owner_id id s).1
  run_call (review id role approve) s = (review_stored_file id role approve s).1
  run_call (attach input asset_type) s = (attach_owned_file input asset_type s).1
  run_call (detach input) s = (detach_owned_file input s).1
  run_call (restore id role) s = (restore_reviewed_file id role s).1

  abbrev pub run_calls : List FileCall → Platform → Platform
  run_calls [] s = s
  run_calls (c ∷ cs) s = run_calls cs (run_call c s)

  -- The id that is drawn for a new file is new.
  abbrev pub IsGranted : FileCall → Platform → Type 0
  IsGranted (intend id owner_id expires_at key url input) s = find_one (by_id id) s.files ≡ none
  IsGranted _ s = Unit

  abbrev pub AllGranted : List FileCall → Platform → Type 0
  AllGranted [] s = Unit
  AllGranted (c ∷ cs) s = IsGranted c s × AllGranted cs (run_call c s)

module _ (delete_fails exists : Text → Bool) (validated : Text → Result Content) where
  run_call-IsFileBook :
      (c : FileCall) (s : Platform)
      → IsGranted delete_fails exists validated c s
      → IsFileBook validated s.files
      → IsFileBook validated (run_call delete_fails exists validated c s).files
  run_call-IsFileBook (intend id owner_id expires_at key url input) s g =
      create_upload_intent-Keeps validated id owner_id expires_at key url input s g
  run_call-IsFileBook (complete owner_id id) s g =
      complete_upload_intent-Keeps validated exists owner_id id s
  run_call-IsFileBook (delete owner_id id) s g =
      delete_stored_file-Keeps validated delete_fails owner_id id s
  run_call-IsFileBook (review id role approve) s g =
      review_stored_file-Keeps validated id role approve s
  run_call-IsFileBook (attach input asset_type) s g =
      attach_owned_file-Keeps validated input asset_type s
  run_call-IsFileBook (detach input) s g = detach_owned_file-Keeps validated input s
  run_call-IsFileBook (restore id role) s g = restore_reviewed_file-Keeps validated id role s

  pub run_calls-IsFileBook :
      (cs : List FileCall) (s : Platform)
      → AllGranted delete_fails exists validated cs s
      → IsFileBook validated s.files
      → IsFileBook validated (run_calls delete_fails exists validated cs s).files
  run_calls-IsFileBook [] s g h = h
  run_calls-IsFileBook (c ∷ cs) s (g, gs) h =
      run_calls-IsFileBook cs (run_call delete_fails exists validated c s) gs
        (run_call-IsFileBook c s g h)
