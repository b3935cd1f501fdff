-- ===== src/Storage/Service.antt =====
-- The private documents of modules/storage/application/storage.service.ts. The object store is a
-- parameter: whether an object is there, what downloading and validating it yields, and whether
-- deleting it fails. Audit records, which no code reads, are left out.
use agrilink_backend.Base.{
  ℕ, Bool, true, false, ◌&&◌, ◌||◌, not, Option, none, some, Result, stored_file_not_found,
  invalid_stored_file_transition, unauthorized_review, upload_not_completed, Text, ◌==◌,
  if◌then◌else◌,
}
use agrilink_backend.Base.Action.{Action, ◌>>=◌, ◌>>◌, pure, throw, lift, or_throw, throw_if}
use agrilink_backend.Enums.{UserRole, admin, state_agency, same_role}
use agrilink_backend.Storage.Files.{
  same_status, is_supabase, is_private, holds, is_absent, find_by_id, find_by_id_for_owner,
  update_status, attach_to_resource, detach_from_resource, restore_reviewed_status,
  mark_deletion_retry, create,
}
use agrilink_backend.Platform.{
  Platform, FileRow, FileStatus, pending, quarantined, ready, failed, deleted, supabase,
  private_file,
}

pub record ResourceInput : Type 0 where
  pub file_id : ℕ
  pub owner_id : ℕ
  pub resource_type : ℕ
  pub resource_id : ℕ

-- What the validation of a private document tells.
pub record Content : Type 0 where
  pub detected_mime : Text
  pub checksum_sha256 : Text
  pub extension : Text

pub record UploadInput : Type 0 where
  pub asset_type : ℕ
  pub original_name : Text
  pub declared_mime : Text
  pub size_bytes : ℕ

abbrev pub is_reviewer_role : UserRole → Bool
is_reviewer_role role = same_role role admin || same_role role state_agency

unfoldable pub require_owned_file : ℕ → ℕ → Action Platform FileRow
unfolding find_by_id_for_owner
require_owned_file id owner_id = do
  found ← find_by_id_for_owner id owner_id
  or_throw found stored_file_not_found

abbrev pub new_file : ℕ → ℕ → ℕ → Text → UploadInput → FileRow
new_file id owner_id expires_at object_key input = record {
  id = id;
  owner_id = owner_id;
  asset_type = input.asset_type;
  provider = supabase;
  visibility = private_file;
  status = pending;
  object_key = object_key;
  original_name = input.original_name;
  declared_mime = input.declared_mime;
  size_bytes = input.size_bytes;
  expires_at = expires_at;
  resource_type = none;
  resource_id = none;
  detected_mime = none;
  checksum_sha256 = none;
  extension = none;
  deletion_attempts = 0;
}

-- The object key and the time of expiry are computed from the configuration, and the signed URL is
-- the object store's: the three are arguments.
unfoldable pub create_upload_intent :
    ℕ → ℕ → ℕ → Text → Result Text → UploadInput → Action Platform (ℕ × Text)
unfolding create
create_upload_intent id owner_id expires_at object_key signed_url input = do
  create (new_file id owner_id expires_at object_key input)
  url ← lift signed_url
  pure (id, url)

abbrev pub set_content : Content → FileRow → FileRow
set_content c f = record f {
  detected_mime = some c.detected_mime;
  checksum_sha256 = some c.checksum_sha256;
  extension = some c.extension;
}

module _ (exists : Text → Bool) (validated : Text → Result Content) where
  abbrev pub quarantine : ℕ → ℕ → FileRow → Action Platform (Option FileRow)
  quarantine owner_id id file = do
    throw_if (not (exists file.object_key)) upload_not_completed
    content ← lift (validated file.object_key)
    update_status id owner_id quarantined (set_content content)

  unfoldable pub complete_upload_intent : ℕ → ℕ → Action Platform (Option FileRow)
  unfolding require_owned_file update_status
  complete_upload_intent owner_id id = do
    file ← require_owned_file id owner_id
    (if not (same_status file.status pending)
        then pure (some file)
        else quarantine owner_id id file)

-- `ownedFile ?? (isReviewer ? … : null)`
abbrev pub or_reviewed : Option FileRow → Bool → Option FileRow → Option FileRow
or_reviewed (some owned) reviews other = some owned
or_reviewed none true other = other
or_reviewed none false other = none

-- The object key whose signed URL the caller gets.
unfoldable pub create_file_download_url : ℕ → ℕ → UserRole → Action Platform Text
unfolding find_by_id find_by_id_for_owner
create_file_download_url caller_id id caller_role = do
  owned ← find_by_id_for_owner id caller_id
  other ← find_by_id id
  file ← or_throw (or_reviewed owned (is_reviewer_role caller_role) other) stored_file_not_found
  throw_if
      (not (
        same_status file.status ready
        || (is_reviewer_role caller_role && same_status file.status quarantined)))
      invalid_stored_file_transition
  pure file.object_key

module _ (delete_fails : Text → Bool) where
  abbrev pub retry_later : ℕ → ℕ → Action Platform (Option FileRow)
  retry_later owner_id id = mark_deletion_retry id owner_id >> find_by_id_for_owner id owner_id

  abbrev pub delete_object : ℕ → ℕ → FileRow → Action Platform (Option FileRow)
  delete_object owner_id id file =
      if delete_fails file.object_key
      then retry_later owner_id id
      else update_status id owner_id deleted (λ f. f)

  unfoldable pub delete_stored_file : ℕ → ℕ → Action Platform (Option FileRow)
  unfolding require_owned_file mark_deletion_retry update_status
  delete_stored_file owner_id id = do
    file ← require_owned_file id owner_id
    (if same_status file.status deleted then pure (some file) else delete_object owner_id id file)

  unfoldable pub retire_owned_file : ℕ → ℕ → Action Platform (Unit {0})
  unfolding delete_stored_file
  retire_owned_file owner_id file_id = delete_stored_file owner_id file_id >> pure tt

abbrev pub reviewed_status : Bool → FileStatus
reviewed_status true = ready
reviewed_status false = failed

abbrev pub move_reviewed : FileRow → Bool → Action Platform (Option FileRow × Bool)
move_reviewed file approve = do
  updated ← update_status file.id file.owner_id (reviewed_status approve) (λ f. f)
  pure (updated, true)

-- The file, and whether it was changed.
unfoldable pub transition_reviewed_file :
    ℕ → UserRole → Bool → Action Platform (Option FileRow × Bool)
unfolding find_by_id update_status
transition_reviewed_file id reviewer_role approve = do
  throw_if (not (is_reviewer_role reviewer_role)) unauthorized_review
  found ← find_by_id id
  file ← or_throw found stored_file_not_found
  (if same_status file.status (reviewed_status approve)
      then pure (some file, false)
      else if not (same_status file.status quarantined)
      then throw invalid_stored_file_transition
      else move_reviewed file approve)

unfoldable pub review_file : ℕ → UserRole → Bool → Action Platform Bool
unfolding transition_reviewed_file
review_file file_id reviewer_role approve = do
  result ← transition_reviewed_file file_id reviewer_role approve
  pure (result.1)

unfoldable pub review_stored_file : ℕ → UserRole → Bool → Action Platform (Option FileRow)
unfolding transition_reviewed_file
review_stored_file id reviewer_role approve = do
  result ← transition_reviewed_file id reviewer_role approve
  pure (result.0)

abbrev pub is_usable : FileStatus → Bool
is_usable status = same_status status quarantined || same_status status ready

unfoldable pub attach_owned_file : ResourceInput → ℕ → Action Platform (Unit {0})
unfolding require_owned_file attach_to_resource
attach_owned_file input asset_type = do
  file ← require_owned_file input.file_id input.owner_id
  throw_if (not (file.asset_type == asset_type)) invalid_stored_file_transition
  throw_if (not (is_supabase file.provider) || not (is_private file.visibility))
      invalid_stored_file_transition
  throw_if (not (is_usable file.status)) invalid_stored_file_transition
  throw_if
      (not (is_absent file.resource_id)
        && (not (holds file.resource_id input.resource_id)
            || not (holds file.resource_type input.resource_type)))
      invalid_stored_file_transition
  attached ←
      attach_to_resource file.id input.owner_id asset_type input.resource_type input.resource_id
  throw_if (not attached) invalid_stored_file_transition

abbrev pub detach_attached : FileRow → ResourceInput → Action Platform (Unit {0})
detach_attached file input = do
  throw_if
      (not (holds file.resource_id input.resource_id)
        || not (holds file.resource_type input.resource_type))
      invalid_stored_file_transition
  detached ← detach_from_resource file.id input.owner_id input.resource_type input.resource_id
  throw_if (not detached) invalid_stored_file_transition

unfoldable pub detach_owned_file : ResourceInput → Action Platform (Unit {0})
unfolding require_owned_file detach_from_resource
detach_owned_file input = do
  file ← require_owned_file input.file_id input.owner_id
  (if is_absent file.resource_id && is_absent file.resource_type
      then pure tt
      else detach_attached file input)

-- The object key that is downloaded.
unfoldable pub read_owned_file : ℕ → ℕ → ℕ → Action Platform Text
unfolding require_owned_file
read_owned_file file_id owner_id asset_type = do
  file ← require_owned_file file_id owner_id
  throw_if
      (not (file.asset_type == asset_type)
        || not (is_supabase file.provider)
        || not (is_private file.visibility))
      invalid_stored_file_transition
  throw_if (not (is_usable file.status)) invalid_stored_file_transition
  pure file.object_key

abbrev pub restore_status : FileRow → Action Platform (Unit {0})
restore_status file = do
  throw_if (not (same_status file.status ready) && not (same_status file.status failed))
      invalid_stored_file_transition
  restored ← restore_reviewed_status file.id
  throw_if (not restored) invalid_stored_file_transition

unfoldable pub restore_reviewed_file : ℕ → UserRole → Action Platform (Unit {0})
unfolding find_by_id restore_reviewed_status
restore_reviewed_file file_id reviewer_role = do
  throw_if (not (is_reviewer_role reviewer_role)) unauthorized_review
  found ← find_by_id file_id
  file ← or_throw found stored_file_not_found
  (if same_status file.status quarantined then pure tt else restore_status file)
