-- ===== src/Enums.antt =====
-- common/enums/index.ts, as far as the modelled code branches on it, and the actor of a request.
use agrilink_backend.Base.{ℕ, Bool, true, false, ◌==◌}

pub data UserRole : Type 0 where
  farmer cooperative buyer enterprise supplier logistics state_agency admin : UserRole

abbrev pub role_code : UserRole → ℕ
role_code farmer = 0
role_code cooperative = 1
role_code buyer = 2
role_code enterprise = 3
role_code supplier = 4
role_code logistics = 5
role_code state_agency = 6
role_code admin = 7

-- `role === other`
abbrev pub same_role : UserRole → UserRole → Bool
same_role a b = role_code a == role_code b

pub record CommerceActorContext : Type 0 where
  pub id : ℕ
  pub role : UserRole

pub data UserStatus : Type 0 where
  pending_verification active locked rejected : UserStatus

-- `status === UserStatus.ACTIVE`
abbrev pub is_active : UserStatus → Bool
is_active active = true
is_active pending_verification = false
is_active locked = false
is_active rejected = false

-- SellerType: its members are those of the sellers among the user roles.
pub data SellerType : Type 0 where
  farmer_seller cooperative_seller supplier_seller : SellerType
