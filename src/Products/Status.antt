-- ===== src/Products/Status.antt =====
-- modules/products/domain/policies: product-status-transition.policy.ts and seller-type.policy.ts.
pub mod Laws
use agrilink_backend.Base.{
  ℕ, Bool, ◌&&◌, ◌||◌, not, List, [], ◌∷◌, Result, ok, err, product_forbidden,
  invalid_product_transition, ◌==◌, if◌then◌else◌,
}
use agrilink_backend.Enums.{
  UserRole, SellerType, admin, state_agency, farmer, cooperative, supplier, buyer, enterprise,
  logistics, same_role, farmer_seller, cooperative_seller, supplier_seller,
}

pub data ProductStatus : Type 0 where
  draft pending_approval active out_of_stock rejected archived suspended : ProductStatus

abbrev pub status_code : ProductStatus → ℕ
status_code draft = 0
status_code pending_approval = 1
status_code active = 2
status_code out_of_stock = 3
status_code rejected = 4
status_code archived = 5
status_code suspended = 6

-- `status === other`
abbrev pub same_status : ProductStatus → ProductStatus → Bool
same_status a b = status_code a == status_code b

-- The available quantity stands in hundredths.
pub record ProductStatusTransitionContext : Type 0 where
  pub current_status : ProductStatus
  pub next_status : ProductStatus
  pub seller_id : ℕ
  pub actor_id : ℕ
  pub actor_role : UserRole
  pub available_quantity : ℕ

-- ALLOWED_TARGETS; a status without an entry has no targets.
unfoldable pub allowed_targets : ProductStatus → List ProductStatus
allowed_targets draft = pending_approval ∷ []
allowed_targets rejected = pending_approval ∷ []
allowed_targets pending_approval = active ∷ []
allowed_targets active = out_of_stock ∷ []
allowed_targets out_of_stock = active ∷ []
allowed_targets archived = []
allowed_targets suspended = []

abbrev pub includes : List ProductStatus → ProductStatus → Bool
includes [] s = Bool.false
includes (t ∷ ts) s = same_status t s || includes ts s

abbrev pub is_reviewer : UserRole → Bool
is_reviewer role = same_role role admin || same_role role state_agency

unfoldable pub assert_product_status_transition : ProductStatusTransitionContext → Result (Unit {0})
unfolding allowed_targets
assert_product_status_transition c =
    let is_owner = c.seller_id == c.actor_id in
    let reviews = is_reviewer c.actor_role in
    if not is_owner && not reviews
    then err product_forbidden
    else if same_status c.current_status c.next_status
    then ok tt
    else if not (includes (allowed_targets c.current_status) c.next_status)
    then err invalid_product_transition
    else if same_status c.next_status pending_approval && not is_owner
    then err product_forbidden
    else if same_status c.current_status pending_approval
        && same_status c.next_status active
        && not reviews
    then err product_forbidden
    else if same_status c.next_status out_of_stock && not is_owner && not reviews
    then err product_forbidden
    else if same_status c.next_status active && c.available_quantity == 0
    then err invalid_product_transition
    else ok tt

unfoldable pub resolve_seller_type : UserRole → Result SellerType
resolve_seller_type farmer = ok farmer_seller
resolve_seller_type cooperative = ok cooperative_seller
resolve_seller_type supplier = ok supplier_seller
resolve_seller_type buyer = err product_forbidden
resolve_seller_type enterprise = err product_forbidden
resolve_seller_type logistics = err product_forbidden
resolve_seller_type state_agency = err product_forbidden
resolve_seller_type admin = err product_forbidden
