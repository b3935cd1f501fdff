-- ===== src/Tests/Commerce.antt =====
-- A payload in two notations.
use agrilink_backend.Base.{ℕ, Bool, ◌≡◌, refl, inr, Text, codes, arith, length, ltb}
use agrilink_backend.Commerce.Fingerprint.{
  Json, Fields, opaque, number, object, end, field, create_commerce_fingerprint,
}
use agrilink_backend.Commerce.Fingerprint.KeyOrder.{IsKeyOrder, fingerprint_key_order}

-- Keys by their length.
abbrev shorter : Text → Text → Bool
shorter a b = ltb (length a) (length b)

shorter-IsKeyOrder : IsKeyOrder shorter
shorter-IsKeyOrder = record {
  asymmetric = λ a b h. ground arith;
  transitive = λ a b c h k. ground arith;
}

-- A hash that reads the first key of an object.
abbrev first_key : Fields → ℕ
first_key end = 0
first_key (field k v rest) = length k

abbrev hash : Json → ℕ
hash (object fields) = first_key fields
hash _ = 1

fingerprint_key_order_example :
    create_commerce_fingerprint shorter hash (codes "mark-payment-paid") 3 (
      object
        (field (codes "paymentId") (opaque 8) (field (codes "expectedVersion") (number 2) end)))
    ≡ create_commerce_fingerprint shorter hash (codes "mark-payment-paid") 3 (
        object
          (field (codes "expectedVersion") (number 2) (field (codes "paymentId") (opaque 8) end)))
fingerprint_key_order_example =
    fingerprint_key_order shorter hash (codes "mark-payment-paid") 3 (codes "expectedVersion")
      (codes "paymentId") (opaque 8) (number 2) end shorter-IsKeyOrder (inr refl)
