-- ===== src/Commerce/Fingerprint.antt =====
-- modules/commerce/application/services/commerce-fingerprint.ts. The order of the keys
-- (`localeCompare`) and `sha256` of `JSON.stringify` are parameters.
pub mod KeyOrder
use agrilink_backend.Base.{ℕ, Bool, Text, codes, if◌then◌else◌}

-- A JSON value. An id or an idempotency key is a text that the code only compares: `opaque`.
mutual
  pub data Json : Type 0 where
    null : Json
    text : Text → Json
    opaque : ℕ → Json
    number : ℕ → Json
    array : Items → Json
    object : Fields → Json

  pub data Items : Type 0 where
    nil : Items
    cons : Json → Items → Items

  pub data Fields : Type 0 where
    end : Fields
    field : Text → Json → Fields → Fields

module _ (key_before : Text → Text → Bool) where
  -- `.sort(([left], [right]) => left.localeCompare(right))`, on entries that are canonical already.
  unfoldable pub insert_field : Text → Json → Fields → Fields
  insert_field k v end = field k v end
  insert_field k v (field j w rest) =
      let later = insert_field k v rest in
      if key_before k j then field k v (field j w rest) else field j w later

  unfoldable mutual
    pub canonicalize : Json → Json
    canonicalize null = null
    canonicalize (text s) = text s
    canonicalize (opaque n) = opaque n
    canonicalize (number n) = number n
    canonicalize (array items) = array (canonicalize_items items)
    canonicalize (object fields) = object (canonicalize_fields fields)

    pub canonicalize_items : Items → Items
    canonicalize_items nil = nil
    canonicalize_items (cons v rest) = cons (canonicalize v) (canonicalize_items rest)

    pub canonicalize_fields : Fields → Fields
    canonicalize_fields end = end
    canonicalize_fields (field k v rest) =
        insert_field k (canonicalize v) (canonicalize_fields rest)

  module _ (hash : Json → ℕ) where
    unfoldable pub create_commerce_fingerprint : Text → ℕ → Json → ℕ
    create_commerce_fingerprint operation_type actor_id payload = hash (
        canonicalize (
          object (
            field (codes "actorId") (opaque actor_id) (
              field (codes "operationType") (text operation_type)
                (field (codes "payload") payload end)))))
