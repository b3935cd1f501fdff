-- ===== src/Contracts/Contract.antt =====
-- modules/contracts/domain/contract.ts. A `Date` is the number of its milliseconds.
pub mod Laws
use agrilink_backend.Base.{
  ℕ, Bool, true, false, ◌&&◌, ◌||◌, not, Option, none, some, List, [], ◌∷◌, Result, ok, err,
  contract_domain, Text, ◌==◌, if◌then◌else◌,
}
use agrilink_backend.Base.Errors.{◌>>=◌}
use agrilink_backend.Commerce.MoneyVnd
use agrilink_backend.Commerce.MoneyVnd.{MoneyVnd}
use agrilink_backend.Commerce.Quantity
use agrilink_backend.Commerce.Quantity.{Quantity}

pub data ContractStatus : Type 0 where
  draft negotiating pending_signature active completed cancelled : ContractStatus

abbrev pub status_code : ContractStatus → ℕ
status_code draft = 0
status_code negotiating = 1
status_code pending_signature = 2
status_code active = 3
status_code completed = 4
status_code cancelled = 5

-- `status === other`
abbrev pub same_status : ContractStatus → ContractStatus → Bool
same_status a b = status_code a == status_code b

pub record Contract : Type 0 where
  pub buyer_id : ℕ
  pub seller_id : ℕ
  pub quantity : Quantity
  pub unit_price : MoneyVnd
  pub total_value : MoneyVnd
  pub status : ContractStatus
  pub buyer_signed_at : Option ℕ
  pub seller_signed_at : Option ℕ

-- `new Contract`: the multiplication is made only if the parties differ, and may throw itself.
unfoldable pub new_contract : ℕ → ℕ → Quantity → MoneyVnd → MoneyVnd → Result Contract
new_contract buyer_id seller_id quantity unit_price total_value =
    if buyer_id == seller_id then err contract_domain else (do
      product ← MoneyVnd.multiply unit_price quantity
      (if product.value == total_value.value
          then ok (record {
            buyer_id = buyer_id;
            seller_id = seller_id;
            quantity = quantity;
            unit_price = unit_price;
            total_value = total_value;
            status = draft;
            buyer_signed_at = none;
            seller_signed_at = none;
          })
          else err contract_domain))

-- The fields of a row or of a model that `rehydrate` reads.
pub record ContractValues : Type 0 where
  pub buyer_id : ℕ
  pub seller_id : ℕ
  pub quantity : Text
  pub unit_price : Text
  pub total_value : Text
  pub status : ContractStatus
  pub buyer_signed_at : Option ℕ
  pub seller_signed_at : Option ℕ

unfoldable pub rehydrate : ContractValues → Result Contract
unfolding new_contract
rehydrate input = do
  quantity ← Quantity.parse input.quantity
  unit_price ← MoneyVnd.parse input.unit_price
  total_value ← MoneyVnd.parse input.total_value
  contract ← new_contract input.buyer_id input.seller_id quantity unit_price total_value
  ok (record contract {
    status = input.status;
    buyer_signed_at = input.buyer_signed_at;
    seller_signed_at = input.seller_signed_at;
  })

unfoldable pub allowed : ContractStatus → List ContractStatus
allowed draft = negotiating ∷ cancelled ∷ []
allowed negotiating = pending_signature ∷ cancelled ∷ []
allowed pending_signature = active ∷ cancelled ∷ []
allowed active = completed ∷ []
allowed completed = []
allowed cancelled = []

-- `list.includes(to)`
abbrev pub includes : List ContractStatus → ContractStatus → Bool
includes [] to = false
includes (s ∷ rest) to = same_status s to || includes rest to

-- A `Date | null` as a condition
abbrev pub is_set : Option ℕ → Bool
is_set none = false
is_set (some at) = true

-- `field ??= at`
abbrev pub set_if_null : Option ℕ → ℕ → Option ℕ
set_if_null none at = some at
set_if_null (some old) at = some old

unfoldable pub transition : ContractStatus → Contract → Result Contract
unfolding allowed
transition to c =
    if not (includes (allowed c.status) to)
      || (same_status to active
          && (not (is_set c.buyer_signed_at) || not (is_set c.seller_signed_at)))
    then err contract_domain
    else ok (record c { status = to })

unfoldable pub sign : ℕ → ℕ → Contract → Result Contract
sign actor_id signed_at c =
    if not (same_status c.status pending_signature)
    then err contract_domain
    else if actor_id == c.buyer_id
    then ok (record c { buyer_signed_at = set_if_null c.buyer_signed_at signed_at })
    else if actor_id == c.seller_id
    then ok (record c { seller_signed_at = set_if_null c.seller_signed_at signed_at })
    else err contract_domain
