-- ===== src/Storage/Content.antt =====
-- What is recorded of the content of the private documents of
-- modules/storage/application/storage.service.ts, and the updates that keep it.
use agrilink_backend.Base.{
  ℕ, Bool, true, ◌||◌, ◌≡◌, refl, Option, some, List, Result, ok, err, Text, arith, All,
}
use agrilink_backend.Base.Action.{Action, and_then}
use agrilink_backend.Base.Keyed.{
  IsKeyed, IsKeyed-update_where, All-update_where, All-update_found, All-map, find_one-key,
}
use agrilink_backend.Base.Table.{find_one, update_where}
use agrilink_backend.Base.TableLaws.{find_one_sound}
use agrilink_backend.Storage.Files.{
  by_owner, same_status, find_by_id_for_owner, update_status, attach_to_resource, can_attach,
  detach_from_resource, is_attached, restore_reviewed_status, is_reviewed, mark_deletion_retry,
}
use agrilink_backend.Storage.Service.{Content, set_content}
use agrilink_backend.Platform.{
  Platform, FileRow, FileStatus, pending, uploaded, quarantined, ready, failed, deleted,
  delete_retry,
}

-- The statuses of a file whose content was looked at.
abbrev pub IsLookedAt : FileStatus → Type 0
IsLookedAt quarantined = Unit
IsLookedAt ready = Unit
IsLookedAt failed = Unit
IsLookedAt _ = ⊥

pub IsLookedAt-of :
    (status : FileStatus)
    → (same_status status quarantined || same_status status ready) ≡ true
    → IsLookedAt status
IsLookedAt-of quarantined h = tt
IsLookedAt-of ready h = tt
IsLookedAt-of failed h = tt
IsLookedAt-of pending h = absurd (ground arith)
IsLookedAt-of uploaded h = absurd (ground arith)
IsLookedAt-of deleted h = absurd (ground arith)
IsLookedAt-of delete_retry h = absurd (ground arith)

IsLookedAt-of_reviewed :
    (status : FileStatus)
    → (same_status status ready || same_status status failed) ≡ true
    → IsLookedAt status
IsLookedAt-of_reviewed quarantined h = tt
IsLookedAt-of_reviewed ready h = tt
IsLookedAt-of_reviewed failed h = tt
IsLookedAt-of_reviewed pending h = absurd (ground arith)
IsLookedAt-of_reviewed uploaded h = absurd (ground arith)
IsLookedAt-of_reviewed deleted h = absurd (ground arith)
IsLookedAt-of_reviewed delete_retry h = absurd (ground arith)

-- `validated` is what validating the object under a key finds.
module _ (validated : Text → Result Content) where
  -- What is recorded of the content is what the validation of the object under the key finds.
  pub record IsContent (key : Text) (mime checksum extension : Option Text) : Type 0 where
    pub content : Content
    pub valid : validated key ≡ ok content
    pub found_mime : mime ≡ some content.detected_mime
    pub found_checksum : checksum ≡ some content.checksum_sha256
    pub found_extension : extension ≡ some content.extension

  abbrev pub IsValidated : FileRow → Type 0
  IsValidated f = IsContent f.object_key f.detected_mime f.checksum_sha256 f.extension

  pub record IsSafe (f : FileRow) : Type 0 where
    pub looked_at : IsLookedAt f.status → IsValidated f
    pub attached : (id : ℕ) → f.resource_id ≡ some id → IsValidated f

  pub record IsFileBook (files : List FileRow) : Type 0 where
    pub ids : IsKeyed (λ (f : FileRow). f.id) files
    pub safe : All IsSafe files

  abbrev pub Keeps : {A : Type 0} → Action Platform A → Platform → Type 0
  Keeps m s = IsFileBook s.files → IsFileBook (m s).1.files

  -- What follows a call keeps the book if it does so after every result.
  pub after :
      {A B : Type 0} (r : Result A × Platform) (k : A → Action Platform B)
      → IsFileBook r.1.files
      → ((a : A) (t : Platform) → Keeps (k a) t)
      → IsFileBook (and_then r k).1.files
  after (ok a, t) k h step = step a t h
  after (err e, t) k h step = h

  -- An update of rows that keeps them safe.
  updated :
      (q : FileRow → Bool) (f : FileRow → FileRow) (files : List FileRow)
      → ((x : FileRow) → (f x).id ≡ x.id)
      → ((x : FileRow) → q x ≡ true → IsSafe x → IsSafe (f x))
      → IsFileBook files
      → IsFileBook (update_where q f files)
  updated q f files keeps step book = record {
    ids = IsKeyed-update_where (λ (x : FileRow). x.id) q f files keeps book.ids;
    safe =
        All-update_where IsSafe q f files book.safe
          (All-map IsSafe _ (λ x _ safe chosen. step x chosen safe) files book.safe);
  }

  pub attach-Keeps :
      (id owner_id asset_type resource_type resource_id : ℕ) (s : Platform)
      → Keeps (attach_to_resource id owner_id asset_type resource_type resource_id) s
  unfolding attach_to_resource
  attach-Keeps id owner_id asset_type resource_type resource_id s =
      updated (can_attach id owner_id asset_type resource_type resource_id) _ s.files (λ x. refl)
        (λ x chosen safe. record {
          looked_at = safe.looked_at;
          attached = λ k held. safe.looked_at (IsLookedAt-of x.status (ground arith));
        })

  pub detach-Keeps :
      (id owner_id resource_type resource_id : ℕ) (s : Platform)
      → Keeps (detach_from_resource id owner_id resource_type resource_id) s
  unfolding detach_from_resource
  detach-Keeps id owner_id resource_type resource_id s =
      updated (is_attached id owner_id resource_type resource_id) _ s.files (λ x. refl)
        (λ x chosen safe. record { looked_at = safe.looked_at; attached = λ k held. absurd (cc) })

  pub restore-Keeps : (id : ℕ) (s : Platform) → Keeps (restore_reviewed_status id) s
  unfolding restore_reviewed_status
  restore-Keeps id s =
      updated (is_reviewed id) _ s.files (λ x. refl)
        (λ x chosen safe. record {
          looked_at = λ _. safe.looked_at (IsLookedAt-of_reviewed x.status (ground arith));
          attached = safe.attached;
        })

  pub quarantine-Keeps :
      (id owner_id : ℕ) (file : FileRow) (c : Content) (s : Platform)
      → find_one (by_owner id owner_id) s.files ≡ some file
      → validated file.object_key ≡ ok c
      → Keeps (update_status id owner_id quarantined (set_content c)) s
  unfolding update_status find_by_id_for_owner
  quarantine-Keeps id owner_id file c s found valid book =
      let seen : IsValidated (record (set_content c file) { status = quarantined }) = record {
        content = c;
        valid = valid;
        found_mime = refl;
        found_checksum = refl;
        found_extension = refl;
      } in
      let mine =
        find_one-key (λ (f : FileRow). f.id) (by_owner id owner_id) id s.files file book.ids
          (λ x chosen. ground arith) found in
      let named : (x : FileRow) → by_owner id owner_id x ≡ true → x.id ≡ file.id = λ x chosen.
        let own = find_one_sound (by_owner id owner_id) s.files file found in ground arith in
      record {
        ids =
            IsKeyed-update_where (λ (f : FileRow). f.id) (by_owner id owner_id) _ s.files
              (λ r. refl) book.ids;
        safe =
            All-update_found (λ (f : FileRow). f.id) IsSafe id s.files file (by_owner id owner_id) _
              book.ids mine named book.safe
              (record { looked_at = λ _. seen; attached = λ k held. seen });
      }

  pub delete-Keeps :
      (id owner_id : ℕ) (s : Platform) → Keeps (update_status id owner_id deleted (λ f. f)) s
  unfolding update_status find_by_id_for_owner
  delete-Keeps id owner_id s =
      updated (by_owner id owner_id) _ s.files (λ x. refl)
        (λ x chosen safe. record {
          looked_at = λ none_of_them. elim none_of_them [ ];
          attached = safe.attached;
        })

  pub retry-Keeps : (id owner_id : ℕ) (s : Platform) → Keeps (mark_deletion_retry id owner_id) s
  unfolding mark_deletion_retry
  retry-Keeps id owner_id s book =
      updated (by_owner id owner_id) _ _ (λ x. refl)
        (λ x chosen safe. record {
          looked_at = λ none_of_them. elim none_of_them [ ];
          attached = safe.attached;
        })
        (updated (by_owner id owner_id) _ s.files (λ x. refl)
          (λ x chosen safe. record { looked_at = safe.looked_at; attached = safe.attached }) book)
