-- ===== src/Store.antt =====
-- The rows of the commerce tables, as their TypeORM entities declare them. Ids, codes, idempotency
-- keys and fingerprints are values that the code only compares, so they stand as numbers; a
-- numeric column holds the text that the code writes to it and reads from it.
use agrilink_backend.Base.{ℕ, Option, List, Text}
use agrilink_backend.Orders.Status.{OrderStatus}
use agrilink_backend.Payments.Payment.{PaymentMethod, PaymentStatus}
use agrilink_backend.Contracts.Contract.{ContractStatus}
use agrilink_backend.Contracts.PurchaseRequest.{PurchaseRequestStatus}

pub data OperationType : Type 0 where
  create_order transition_order : OperationType
  create_payment mark_payment_paid refund_payment : OperationType
  create_purchase_request close_purchase_request cancel_purchase_request : OperationType
  create_contract sign_contract transition_contract : OperationType

pub data OperationStatus : Type 0 where
  started completed : OperationStatus

-- CommerceOperationOrmEntity
pub record OperationRow : Type 0 where
  pub id : ℕ
  pub actor_id : ℕ
  pub operation_type : OperationType
  pub idempotency_key : ℕ
  pub request_fingerprint : ℕ
  pub aggregate_id : Option ℕ
  pub result_reference : Option ℕ
  pub status : OperationStatus

-- OrderOrmEntity
pub record OrderRow : Type 0 where
  pub id : ℕ
  pub order_code : ℕ
  pub buyer_id : ℕ
  pub seller_id : ℕ
  pub status : OrderStatus
  pub subtotal : Text
  pub shipping_fee : Text
  pub platform_fee : Text
  pub total_amount : Text
  pub payment_method : PaymentMethod
  pub shipping_address_id : Option ℕ
  pub note : Option Text
  pub cancelled_reason : Option Text
  pub delivered_at : Option ℕ
  pub version : ℕ
  pub created_at : ℕ
  pub updated_at : ℕ

-- OrderItemOrmEntity
pub record OrderItemRow : Type 0 where
  pub id : ℕ
  pub order_id : ℕ
  pub product_id : ℕ
  pub product_name : Text
  pub quantity : Text
  pub unit_price : Text
  pub line_total : Text
  pub created_at : ℕ

-- OrderStatusHistoryOrmEntity
pub record HistoryRow : Type 0 where
  pub order_id : ℕ
  pub from_status : Option OrderStatus
  pub to_status : OrderStatus
  pub changed_by : ℕ
  pub note : Option Text
  pub operation_key : ℕ

-- PaymentOrmEntity; the currency is always VND.
pub record PaymentRow : Type 0 where
  pub id : ℕ
  pub order_id : ℕ
  pub amount : Text
  pub method : PaymentMethod
  pub status : PaymentStatus
  pub refunded_amount : Text
  pub version : ℕ
  pub created_at : ℕ
  pub updated_at : ℕ

-- PurchaseRequestOrmEntity
pub record PurchaseRequestRow : Type 0 where
  pub id : ℕ
  pub buyer_id : ℕ
  pub product_category_id : Option ℕ
  pub province_id : Option ℕ
  pub quantity_needed : Text
  pub unit : Text
  pub status : PurchaseRequestStatus
  pub version : ℕ
  pub created_at : ℕ
  pub updated_at : ℕ

-- ContractOrmEntity
pub record ContractRow : Type 0 where
  pub id : ℕ
  pub contract_code : ℕ
  pub purchase_request_id : Option ℕ
  pub buyer_id : ℕ
  pub seller_id : ℕ
  pub product_category_id : Option ℕ
  pub quantity : Text
  pub unit : Text
  pub unit_price : Text
  pub total_value : Text
  pub status : ContractStatus
  pub buyer_signed_at : Option ℕ
  pub seller_signed_at : Option ℕ
  pub version : ℕ
  pub created_at : ℕ
  pub updated_at : ℕ

pub record Store : Type 0 where
  pub operations : List OperationRow
  pub orders : List OrderRow
  pub order_items : List OrderItemRow
  pub order_history : List HistoryRow
  pub payments : List PaymentRow
  pub purchase_requests : List PurchaseRequestRow
  pub contracts : List ContractRow

-- What the database supplies to one call: the ids that it draws and the time.
pub record Draw : Type 0 where
  pub operation_id : ℕ
  pub id : ℕ
  pub item_id : ℕ → ℕ
  pub now : ℕ
