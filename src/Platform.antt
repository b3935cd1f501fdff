-- ===== src/Platform.antt =====
-- The rows that the modules around the commerce core keep, as their TypeORM entities declare them,
-- and one store with them and the commerce tables. Columns that no modelled code reads are left out
-- of users and products.
use agrilink_backend.Base.{ℕ, Bool, Option, List, Text}
use agrilink_backend.Enums.{UserStatus, SellerType}
use agrilink_backend.Products.Status.{ProductStatus}
use agrilink_backend.Store.{Store}

-- User
pub record UserRow : Type 0 where
  pub id : ℕ
  pub status : UserStatus
  pub full_name : Option Text
  pub avatar_url : Option Text

-- Product. The price is the text of a decimal column, the available quantity stands in hundredths.
pub record ProductRow : Type 0 where
  pub id : ℕ
  pub seller_id : ℕ
  pub seller_type : SellerType
  pub name : Option Text
  pub description : Option Text
  pub price_per_unit : Text
  pub unit : Text
  pub available_quantity : ℕ
  pub status : ProductStatus
  pub rejection_reason : Option Text

-- ProductImage
pub record ProductImageRow : Type 0 where
  pub id : ℕ
  pub product_id : ℕ
  pub image_url : Text
  pub sort_order : ℕ
  pub is_primary : Bool

-- Review
pub record ReviewRow : Type 0 where
  pub id : ℕ
  pub reviewer_id : ℕ
  pub reviewee_id : Option ℕ
  pub product_id : Option ℕ
  pub rating : ℕ
  pub comment : Option Text
  pub images : List Text
  pub is_verified_purchase : Bool
  pub seller_reply : Option Text
  pub seller_reply_at : Option ℕ
  pub is_hidden : Bool
  pub hidden_reason : Option Text
  pub hidden_by : Option ℕ
  pub hidden_at : Option ℕ
  pub created_at : ℕ
  pub updated_at : ℕ

pub data FileStatus : Type 0 where
  pending uploaded quarantined ready failed deleted delete_retry : FileStatus

pub data Provider : Type 0 where
  supabase cloudinary : Provider

pub data Visibility : Type 0 where
  private_file public_file : Visibility

-- StoredFileEntity. Types of assets and resources are only compared and stand as numbers.
pub record FileRow : Type 0 where
  pub id : ℕ
  pub owner_id : ℕ
  pub asset_type : ℕ
  pub provider : Provider
  pub visibility : Visibility
  pub status : FileStatus
  pub object_key : Text
  pub original_name : Text
  pub declared_mime : Text
  pub size_bytes : ℕ
  pub expires_at : ℕ
  pub resource_type : Option ℕ
  pub resource_id : Option ℕ
  pub detected_mime : Option Text
  pub checksum_sha256 : Option Text
  pub extension : Option Text
  pub deletion_attempts : ℕ

pub data CertificationStatus : Type 0 where
  awaiting verified refused : CertificationStatus

-- ProductCertification
pub record CertificationRow : Type 0 where
  pub id : ℕ
  pub product_id : ℕ
  pub cert_type : ℕ
  pub cert_number : Option Text
  pub issued_by : Option Text
  pub stored_file_id : Option ℕ
  pub is_verified : Bool
  pub status : CertificationStatus
  pub verified_by : Option ℕ
  pub verified_at : Option ℕ
  pub rejection_reason : Option Text
  pub created_at : ℕ

-- A notification that a module has published: to whom, and about what.
pub record PublishedRow : Type 0 where
  pub user_id : ℕ
  pub subject_id : ℕ
  pub type_name : Text

pub record Platform : Type 0 where
  pub commerce : Store
  pub users : List UserRow
  pub products : List ProductRow
  pub product_images : List ProductImageRow
  pub certifications : List CertificationRow
  pub files : List FileRow
  pub reviews : List ReviewRow
  pub published : List PublishedRow
