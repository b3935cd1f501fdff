-- ===== src/Tests/Data.antt =====
-- The empty store, the empty platform, and what a database draws.
use agrilink_backend.Base.{ℕ, ◌+◌, []}
use agrilink_backend.Platform.{Platform}
use agrilink_backend.Store.{Store, Draw}

abbrev pub empty_store : Store
empty_store = record {
  operations = [];
  orders = [];
  order_items = [];
  order_history = [];
  payments = [];
  purchase_requests = [];
  contracts = [];
}

abbrev pub draw_at : ℕ → Draw
draw_at n = record { operation_id = 100 + n; id = n; item_id = λ k. 1000 + k; now = 5000 + n }

abbrev pub empty_platform : Platform
empty_platform = record {
  commerce = empty_store;
  users = [];
  products = [];
  product_images = [];
  certifications = [];
  files = [];
  reviews = [];
  published = [];
}
