-- ===== src/Products/OffMarket.antt =====
-- Products that are not on sale stay so under whatever actors do who are no reviewers.
use agrilink_backend.Base.{
  ℕ, false, ◌≡◌, refl, sym, subst, ◌∙◌, ◌⊎◌, inl, inr, none, some, List, [], ◌∷◌, ok, arith, ◌==◌,
  Bool-cases, Option-cases, Result-cases, All,
}
use agrilink_backend.Base.Keyed.{All-update_where, All-map, All-find_one}
use agrilink_backend.Base.Table.{find_one, update_where}
use agrilink_backend.Enums.{UserRole}
use agrilink_backend.Products.Status.{
  ProductStatus, draft, active, out_of_stock, ProductStatusTransitionContext, is_reviewer,
  same_status, assert_product_status_transition,
}
use agrilink_backend.Products.Status.Laws.{Step, assert_product_status_transition_iff}
use agrilink_backend.Products.UseCases.{
  by_id, find_product_or_fail, assert_product_owner, delete_product, change_product_status,
}
use agrilink_backend.Platform.{Platform, ProductRow}

-- Neither on sale nor sold out.
abbrev pub IsOffMarket : ProductStatus → Type 0
IsOffMarket active = ⊥
IsOffMarket out_of_stock = ⊥
IsOffMarket _ = Unit

-- What actors who are no reviewers ask for.
pub data SellerCall : Type 0 where
  delete : ℕ → ℕ → SellerCall
  change : ℕ → ℕ → (role : UserRole) → is_reviewer role ≡ false → ProductStatus → SellerCall

abbrev pub run_call : SellerCall → Platform → Platform
run_call (delete id seller_id) s = (delete_product id seller_id s).1
run_call (change id actor_id role plain next) s = (change_product_status id actor_id role next s).1

abbrev pub run_calls : List SellerCall → Platform → Platform
run_calls [] s = s
run_calls (c ∷ cs) s = run_calls cs (run_call c s)

-- The product with this id, if it is there, is off the market.
abbrev pub IsHeldBack : ℕ → Platform → Type 0
IsHeldBack id s = All (λ (p : ProductRow). p.id ≡ id → IsOffMarket p.status) s.products

off-Step :
    {from to : ProductStatus} (c : ProductStatusTransitionContext)
    → is_reviewer c.actor_role ≡ false
    → IsOffMarket from
    → Step c from to
    → IsOffMarket to
off-Step c plain off (Step.stay may) = off
off-Step c plain off (Step.submit_draft owns) = tt
off-Step c plain off (Step.submit_again owns) = tt
off-Step c plain off (Step.approve reviews stocked) = absurd (ground arith)
off-Step c plain off (Step.sell_out may) = elim off [ ]
off-Step c plain off (Step.restock may stocked) = elim off [ ]

seller_step :
    (from to : ProductStatus) (seller_id actor_id quantity : ℕ) (role : UserRole)
    → is_reviewer role ≡ false
    → IsOffMarket from
    → assert_product_status_transition (record {
      current_status = from;
      next_status = to;
      seller_id = seller_id;
      actor_id = actor_id;
      actor_role = role;
      available_quantity = quantity;
    })
      ≡ ok tt
    → IsOffMarket to
seller_step from to seller_id actor_id quantity role plain off accepted =
    let c : ProductStatusTransitionContext = record {
      current_status = from;
      next_status = to;
      seller_id = seller_id;
      actor_id = actor_id;
      actor_role = role;
      available_quantity = quantity;
    } in
    off-Step c plain off ((assert_product_status_transition_iff from to c).0 accepted)

-- Writing a product back under its id holds it back where its new status does.
saved-IsHeldBack :
    (id key : ℕ) (p p' : ProductRow) (s : Platform)
    → find_one (by_id key) s.products ≡ some p
    → p'.id ≡ p.id
    → IsHeldBack id s
    → (IsOffMarket p.status → IsOffMarket p'.status)
    → IsHeldBack id (record s { products = update_where (by_id p.id) (λ r. p') s.products })
saved-IsHeldBack id key p p' s found same h step =
    let here = All-find_one _ (by_id key) s.products p h found in
    All-update_where _ (by_id p.id) (λ r. p') s.products h
      (All-map _ _ (λ r _ _ _ mine. step (here (sym same ∙ mine))) s.products h)

-- A call writes one product back, or changes no product.
record Saves (s : Platform) (t : Platform) (IsFine : ProductRow → ProductRow → Type 0)
    : Type 0 where
  key : ℕ
  before : ProductRow
  after : ProductRow
  found : find_one (by_id key) s.products ≡ some before
  same : after.id ≡ before.id
  fine : IsFine before after
  products : t.products ≡ update_where (by_id before.id) (λ r. after) s.products

deleted :
    (id seller_id : ℕ) (s : Platform)
    → ((delete_product id seller_id s).1.products ≡ s.products)
      ⊎ Saves s (delete_product id seller_id s).1 (λ p p'. p'.status ≡ draft)
unfolding delete_product find_product_or_fail assert_product_owner
deleted id seller_id s = elim (Option-cases (find_one (by_id id) s.products)) [
  | inl gone ↦ inl (rw gone refl)
  | inr (p, found) ↦ elim (Bool-cases (p.seller_id == seller_id)) [
    | inr other ↦ inl (rw (found, other) refl)
    | inl own ↦ inr (record {
      key = id;
      before = p;
      after = record p { status = draft };
      found = found;
      same = refl;
      fine = refl;
      products = rw (found, own) refl;
    })
  ]
]

abbrev context : ProductRow → ℕ → UserRole → ProductStatus → ProductStatusTransitionContext
context p actor_id actor_role next_status = record {
  current_status = p.status;
  next_status = next_status;
  seller_id = p.seller_id;
  actor_id = actor_id;
  actor_role = actor_role;
  available_quantity = p.available_quantity;
}

changed :
    (id actor_id : ℕ) (role : UserRole) (next : ProductStatus) (s : Platform)
    → ((change_product_status id actor_id role next s).1.products ≡ s.products)
      ⊎ Saves s (change_product_status id actor_id role next s).1 (λ p p'.
        (p'.status ≡ next)
        × (assert_product_status_transition (context p actor_id role next) ≡ ok tt))
unfolding change_product_status find_product_or_fail
changed id actor_id role next s = elim (Option-cases (find_one (by_id id) s.products)) [
  | inl gone ↦ inl (rw gone refl)
  | inr (p, found) ↦
      elim (Result-cases (assert_product_status_transition (context p actor_id role next))) [
        | inl (e, refused) ↦ inl (rw (found, refused) refl)
        | inr (_, allowed) ↦ elim (Bool-cases (same_status p.status next)) [
          | inl idle ↦ inl (rw (found, allowed, idle) refl)
          | inr moves ↦ inr (record {
            key = id;
            before = p;
            after = record p { status = next; rejection_reason = none };
            found = found;
            same = refl;
            fine = (refl, allowed);
            products = rw (found, allowed, moves) refl;
          })
        ]
      ]
]

rewritten : (id : ℕ) (s t : Platform) → t.products ≡ s.products → IsHeldBack id s → IsHeldBack id t
rewritten id s t same h =
    subst (All (λ (p : ProductRow). p.id ≡ id → IsOffMarket p.status)) (sym same) h

saved :
    (id : ℕ) (s t : Platform) (IsFine : ProductRow → ProductRow → Type 0) (w : Saves s t IsFine)
    → IsHeldBack id s
    → (IsOffMarket w.before.status → IsFine w.before w.after → IsOffMarket w.after.status)
    → IsHeldBack id t
saved id s t fine w h step =
    subst (All (λ (p : ProductRow). p.id ≡ id → IsOffMarket p.status)) (sym w.products)
      (saved-IsHeldBack id w.key w.before w.after s w.found w.same h (λ off. step off w.fine))

run_call-IsHeldBack :
    (id : ℕ) (c : SellerCall) (s : Platform) → IsHeldBack id s → IsHeldBack id (run_call c s)
run_call-IsHeldBack id (delete key seller_id) s h = elim (deleted key seller_id s) [
  | inl kept ↦ rewritten id s (run_call (delete key seller_id) s) kept h
  | inr w ↦
      saved id s (run_call (delete key seller_id) s) _ w h (λ off e. subst IsOffMarket (sym e) tt)
]
run_call-IsHeldBack id (change key actor_id role plain next) s h =
    elim (changed key actor_id role next s) [
      | inl kept ↦ rewritten id s (run_call (change key actor_id role plain next) s) kept h
      | inr w ↦
          saved id s (run_call (change key actor_id role plain next) s) _ w h (λ off (e, allowed).
            subst IsOffMarket (sym e) (
              seller_step w.before.status next w.before.seller_id actor_id
                w.before.available_quantity role plain off allowed))
    ]

-- A product that is not on sale and not sold out (a draft, one that waits for approval, one that
-- was rejected or suspended, or an archived one) does not get on sale by any sequence of deletions
-- and changes of status that actors ask for who are neither admins nor state agencies, its seller
-- included.
pub run_calls-IsHeldBack :
    (id : ℕ) (cs : List SellerCall) (s : Platform)
    → IsHeldBack id s
    → IsHeldBack id (run_calls cs s)
run_calls-IsHeldBack id [] s h = h
run_calls-IsHeldBack id (c ∷ cs) s h =
    run_calls-IsHeldBack id cs (run_call c s) (run_call-IsHeldBack id c s h)
