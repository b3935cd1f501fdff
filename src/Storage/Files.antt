-- ===== src/Storage/Files.antt =====
-- TypeOrmStoredFileRepository
-- (modules/storage/infrastructure/persistence/typeorm-stored-file.repository.ts).
use agrilink_backend.Base.{
  ℕ, suc, Bool, true, false, ◌&&◌, ◌||◌, Option, none, some, List, [], ◌∷◌, ◌++◌, ltb, ◌==◌,
}
use agrilink_backend.Base.Action.{Action, ◌>>=◌, ◌>>◌, pure, gets, modify}
use agrilink_backend.Base.Table.{find_one, select, update_where, count_where}
use agrilink_backend.Platform.{
  Platform, FileRow, FileStatus, pending, uploaded, quarantined, ready, failed, deleted,
  delete_retry, Provider, supabase, cloudinary, Visibility, private_file, public_file,
}

abbrev pub status_code : FileStatus → ℕ
status_code pending = 0
status_code uploaded = 1
status_code quarantined = 2
status_code ready = 3
status_code failed = 4
status_code deleted = 5
status_code delete_retry = 6

abbrev pub same_status : FileStatus → FileStatus → Bool
same_status a b = status_code a == status_code b

abbrev pub is_supabase : Provider → Bool
is_supabase supabase = true
is_supabase cloudinary = false

abbrev pub is_private : Visibility → Bool
is_private private_file = true
is_private public_file = false

-- `column === value`, where the column may be NULL
abbrev pub holds : Option ℕ → ℕ → Bool
holds none b = false
holds (some a) b = a == b

abbrev pub is_absent : Option ℕ → Bool
is_absent none = true
is_absent (some a) = false

abbrev pub by_id : ℕ → FileRow → Bool
by_id id f = f.id == id

abbrev pub by_owner : ℕ → ℕ → FileRow → Bool
by_owner id owner_id f = f.id == id && f.owner_id == owner_id

unfoldable pub create : FileRow → Action Platform FileRow
create file = modify (λ s. record s { files = s.files ++ file ∷ [] }) >> pure file

unfoldable pub find_by_id : ℕ → Action Platform (Option FileRow)
find_by_id id = gets (λ s. find_one (by_id id) s.files)

unfoldable pub find_by_id_for_owner : ℕ → ℕ → Action Platform (Option FileRow)
find_by_id_for_owner id owner_id = gets (λ s. find_one (by_owner id owner_id) s.files)

unfoldable pub find_expired_pending : ℕ → Action Platform (List FileRow)
find_expired_pending now =
    gets (λ s. select (λ f. same_status f.status pending && ltb f.expires_at now) s.files)

unfoldable pub find_deletion_retries : Action Platform (List FileRow)
find_deletion_retries = gets (λ s. select (λ f. same_status f.status delete_retry) s.files)

abbrev pub write : (FileRow → Bool) → (FileRow → FileRow) → Action Platform (Unit {0})
write condition change = modify (λ s. record s { files = update_where condition change s.files })

-- The status, and what else is set beside it.
unfoldable pub update_status :
    ℕ → ℕ → FileStatus → (FileRow → FileRow) → Action Platform (Option FileRow)
unfolding find_by_id_for_owner
update_status id owner_id status metadata =
    write (by_owner id owner_id) (λ f. record (metadata f) { status = status })
    >> find_by_id_for_owner id owner_id

abbrev pub can_attach : ℕ → ℕ → ℕ → ℕ → ℕ → FileRow → Bool
can_attach id owner_id asset_type resource_type resource_id f =
    f.id == id
    && f.owner_id == owner_id
    && f.asset_type == asset_type
    && is_supabase f.provider
    && is_private f.visibility
    && (same_status f.status quarantined || same_status f.status ready)
    && (is_absent f.resource_id
        || (holds f.resource_type resource_type && holds f.resource_id resource_id))

abbrev pub set_resource : Option ℕ → Option ℕ → FileRow → FileRow
set_resource resource_type resource_id f = record f {
  resource_type = resource_type;
  resource_id = resource_id;
}

-- An update with a condition: whether it affected one row.
abbrev pub write_one : (FileRow → Bool) → (FileRow → FileRow) → Action Platform Bool
write_one condition change = do
  affected ← gets (λ s. count_where condition s.files)
  write condition change
  pure (affected == 1)

unfoldable pub attach_to_resource : ℕ → ℕ → ℕ → ℕ → ℕ → Action Platform Bool
attach_to_resource id owner_id asset_type resource_type resource_id =
    write_one (can_attach id owner_id asset_type resource_type resource_id)
      (set_resource (some resource_type) (some resource_id))

abbrev pub is_attached : ℕ → ℕ → ℕ → ℕ → FileRow → Bool
is_attached id owner_id resource_type resource_id f =
    f.id == id
    && f.owner_id == owner_id
    && holds f.resource_type resource_type
    && holds f.resource_id resource_id

unfoldable pub detach_from_resource : ℕ → ℕ → ℕ → ℕ → Action Platform Bool
detach_from_resource id owner_id resource_type resource_id =
    write_one (is_attached id owner_id resource_type resource_id) (set_resource none none)

abbrev pub is_reviewed : ℕ → FileRow → Bool
is_reviewed id f = f.id == id && (same_status f.status ready || same_status f.status failed)

unfoldable pub restore_reviewed_status : ℕ → Action Platform Bool
restore_reviewed_status id = write_one (is_reviewed id) (λ f. record f { status = quarantined })

-- The two updates of the method, one after the other.
unfoldable pub mark_deletion_retry : ℕ → ℕ → Action Platform (Unit {0})
mark_deletion_retry id owner_id =
    write (by_owner id owner_id) (λ f. record f { deletion_attempts = suc f.deletion_attempts })
    >> write (by_owner id owner_id) (λ f. record f { status = delete_retry })
