-- ===== src/Commerce/Fingerprint/KeyOrder.antt =====
-- The fingerprint of a request does not depend on the order in which its fields are written.
use agrilink_backend.Base.{ℕ, ◌≡◌, ◌⊎◌, inl, inr, sym, Bool, true, false, Bool-cases, Text, arith}
use agrilink_backend.Commerce.Fingerprint.{
  Json, Fields, object, field, end, insert_field, canonicalize, canonicalize_fields,
  create_commerce_fingerprint,
}

-- What a comparison of keys is documented to be: no two keys stand before one another, and what
-- stands before a key stands before what follows it.
pub record IsKeyOrder (key_before : Text → Text → Bool) : Type 0 where
  pub asymmetric : (a b : Text) → key_before a b ≡ true → key_before b a ≡ false
  pub transitive :
      (a b c : Text) → key_before a b ≡ true → key_before b c ≡ true → key_before a c ≡ true

module _ (key_before : Text → Text → Bool) where
  insert_field_comm :
      (j k : Text) (v w : Json) (fields : Fields)
      → IsKeyOrder key_before
      → key_before j k ≡ true
      → insert_field key_before k v (insert_field key_before j w fields)
        ≡ insert_field key_before j w (insert_field key_before k v fields)
  unfolding insert_field
  insert_field_comm j k v w end order before = rw (before, order.asymmetric j k before)
  insert_field_comm j k v w (field h x rest) order before =
      let later = order.asymmetric j k before in
      elim (Bool-cases (key_before j h)) [
        | inl j_first ↦ elim (Bool-cases (key_before k h)) [
          | inl k_first ↦ ground (arith, j_first, k_first, later)
          | inr k_later ↦ ground (arith, j_first, k_later, later)
        ]
        | inr j_later ↦ elim (Bool-cases (key_before k h)) [
          | inl k_first ↦ absurd (ground (arith, order.transitive j k h before k_first, j_later))
          | inr k_later ↦
              ground (arith, j_later, k_later, insert_field_comm j k v w rest order before)
        ]
      ]

  insert_field_swap :
      (j k : Text) (v w : Json) (fields : Fields)
      → IsKeyOrder key_before
      → (key_before j k ≡ true) ⊎ (key_before k j ≡ true)
      → insert_field key_before k v (insert_field key_before j w fields)
        ≡ insert_field key_before j w (insert_field key_before k v fields)
  insert_field_swap j k v w fields order (inl before) =
      insert_field_comm j k v w fields order before
  insert_field_swap j k v w fields order (inr before) =
      sym (insert_field_comm k j w v fields order before)

  -- Two payloads that differ in the order of two neighbouring fields have one fingerprint, if the
  -- comparison of keys is an order and tells the two keys apart.
  pub fingerprint_key_order :
      (hash : Json → ℕ) (operation_type : Text) (actor_id : ℕ) (j k : Text) (v w : Json)
      (fields : Fields)
      → IsKeyOrder key_before
      → (key_before j k ≡ true) ⊎ (key_before k j ≡ true)
      → create_commerce_fingerprint key_before hash operation_type actor_id
          (object (field k v (field j w fields)))
        ≡ create_commerce_fingerprint key_before hash operation_type actor_id
            (object (field j w (field k v fields)))
  unfolding create_commerce_fingerprint canonicalize
  fingerprint_key_order hash operation_type actor_id j k v w fields order apart = rw (
      insert_field_swap j k (canonicalize key_before v) (canonicalize key_before w)
        (canonicalize_fields key_before fields) order apart)
