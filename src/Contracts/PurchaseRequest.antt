-- ===== src/Contracts/PurchaseRequest.antt =====
-- modules/contracts/domain/purchase-request.ts.
use agrilink_backend.Base.{
  ℕ, ◌+◌, Bool, false, ◌&&◌, ◌||◌, not, [], ◌∷◌, Result, ok, err, purchase_request_domain, Text,
  all, is_empty, ltb, ◌==◌, if◌then◌else◌,
}
use agrilink_backend.Base.Errors.{◌>>=◌}
use agrilink_backend.Commerce.Quantity
use agrilink_backend.Commerce.Quantity.{Quantity}

pub data PurchaseRequestStatus : Type 0 where
  opened closed cancelled : PurchaseRequestStatus

abbrev pub status_code : PurchaseRequestStatus → ℕ
status_code opened = 0
status_code closed = 1
status_code cancelled = 2

-- `status === other`
abbrev pub same_status : PurchaseRequestStatus → PurchaseRequestStatus → Bool
same_status a b = status_code a == status_code b

pub record PurchaseRequest : Type 0 where
  pub buyer_id : ℕ
  pub quantity_needed : Quantity
  pub status : PurchaseRequestStatus
  pub allocated : ℕ

unfoldable pub new_purchase_request : ℕ → Quantity → PurchaseRequest
new_purchase_request buyer_id quantity_needed = record {
  buyer_id = buyer_id;
  quantity_needed = quantity_needed;
  status = opened;
  allocated = 0;
}

-- The fields that `rehydrate` reads.
pub record PurchaseRequestValues : Type 0 where
  pub buyer_id : ℕ
  pub quantity_needed : Text
  pub allocated_quantity : Text
  pub status : PurchaseRequestStatus

-- /^0(?:\.0+)?$/
abbrev pub is_zero_text : Text → Bool
is_zero_text [] = false
is_zero_text (c ∷ []) = c == b'0'
is_zero_text (c ∷ d ∷ s) = c == b'0' && d == b'.' && not (is_empty s) && all (λ e. e == b'0') s

unfoldable pub parse_allocated : Text → Result ℕ
parse_allocated input =
    if is_zero_text input then ok 0 else (do q ← Quantity.parse input; ok q.thousandths)

unfoldable pub rehydrate : PurchaseRequestValues → Result PurchaseRequest
unfolding new_purchase_request parse_allocated
rehydrate input = do
  quantity_needed ← Quantity.parse input.quantity_needed
  let request = new_purchase_request input.buyer_id quantity_needed
  allocated ← parse_allocated input.allocated_quantity
  (if ltb quantity_needed.thousandths allocated
      then err purchase_request_domain
      else ok (record request { status = input.status; allocated = allocated }))

unfoldable pub allocate : Quantity → PurchaseRequest → Result PurchaseRequest
allocate quantity r =
    if not (same_status r.status opened)
      || ltb r.quantity_needed.thousandths (r.allocated + quantity.thousandths)
    then err purchase_request_domain
    else ok (record r { allocated = r.allocated + quantity.thousandths })

unfoldable pub close : PurchaseRequest → Result PurchaseRequest
close r =
    if not (same_status r.status opened)
    then err purchase_request_domain
    else ok (record r { status = closed })

unfoldable pub cancel : PurchaseRequest → Result PurchaseRequest
cancel r =
    if not (same_status r.status opened)
    then err purchase_request_domain
    else ok (record r { status = cancelled })
