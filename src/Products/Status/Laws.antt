-- ===== src/Products/Status/Laws.antt =====
-- The status machine of products as a relation.
use agrilink_backend.Base.{
  ◌<◌, Bool, true, ◌||◌, ◌≡◌, ◌↔◌, ◌⊎◌, inl, inr, ok, arith, ◌==◌, Bool-cases, ==_refl, ==_eq,
}
use agrilink_backend.Products.Status.{
  ProductStatus, draft, pending_approval, active, out_of_stock, rejected, archived, suspended,
  ProductStatusTransitionContext, status_code, is_reviewer, allowed_targets,
  assert_product_status_transition,
}

abbrev pub Owns : ProductStatusTransitionContext → Type 0
Owns c = c.seller_id ≡ c.actor_id

abbrev pub Reviews : ProductStatusTransitionContext → Type 0
Reviews c = is_reviewer c.actor_role ≡ true

-- Who may move a product where: its seller submits a draft or a rejected product; a reviewer
-- approves a submitted one that is in stock; both mark it as sold out, and as back in stock where
-- there is some.
pub data Step (c : ProductStatusTransitionContext) : ProductStatus → ProductStatus → Type 0 where
  stay : {s : ProductStatus} → Owns c ⊎ Reviews c → Step c s s
  submit_draft : Owns c → Step c draft pending_approval
  submit_again : Owns c → Step c rejected pending_approval
  approve : Reviews c → 0 < c.available_quantity → Step c pending_approval active
  sell_out : Owns c ⊎ Reviews c → Step c active out_of_stock
  restock : Owns c ⊎ Reviews c → 0 < c.available_quantity → Step c out_of_stock active

-- The context of a move between two statuses.
abbrev pub at :
    ProductStatus → ProductStatus → ProductStatusTransitionContext → ProductStatusTransitionContext
at from to c = record c { current_status = from; next_status = to }

abbrev is_allowed : ProductStatusTransitionContext → Bool
is_allowed c = c.seller_id == c.actor_id || is_reviewer c.actor_role

who : (c : ProductStatusTransitionContext) → is_allowed c ≡ true → Owns c ⊎ Reviews c
who c h = elim (Bool-cases (c.seller_id == c.actor_id)) [
  | inl e ↦ inl (==_eq c.seller_id c.actor_id e)
  | inr e ↦ inr (ground arith)
]

known : (c : ProductStatusTransitionContext) → Owns c ⊎ Reviews c → is_allowed c ≡ true
known c (inl owns) = ground arith
known c (inr reviews) = ground arith

accepted-Step :
    (from to : ProductStatus) (c : ProductStatusTransitionContext)
    → assert_product_status_transition (at from to c) ≡ ok tt
    → Step c from to
unfolding assert_product_status_transition allowed_targets
accepted-Step draft draft c h = stay (who c (ground arith))
accepted-Step draft pending_approval c h = submit_draft (ground arith)
accepted-Step draft active c h = absurd (ground arith)
accepted-Step draft out_of_stock c h = absurd (ground arith)
accepted-Step draft rejected c h = absurd (ground arith)
accepted-Step draft archived c h = absurd (ground arith)
accepted-Step draft suspended c h = absurd (ground arith)
accepted-Step pending_approval draft c h = absurd (ground arith)
accepted-Step pending_approval pending_approval c h = stay (who c (ground arith))
accepted-Step pending_approval active c h = approve (ground arith) (ground arith)
accepted-Step pending_approval out_of_stock c h = absurd (ground arith)
accepted-Step pending_approval rejected c h = absurd (ground arith)
accepted-Step pending_approval archived c h = absurd (ground arith)
accepted-Step pending_approval suspended c h = absurd (ground arith)
accepted-Step active draft c h = absurd (ground arith)
accepted-Step active pending_approval c h = absurd (ground arith)
accepted-Step active active c h = stay (who c (ground arith))
accepted-Step active out_of_stock c h = sell_out (who c (ground arith))
accepted-Step active rejected c h = absurd (ground arith)
accepted-Step active archived c h = absurd (ground arith)
accepted-Step active suspended c h = absurd (ground arith)
accepted-Step out_of_stock draft c h = absurd (ground arith)
accepted-Step out_of_stock pending_approval c h = absurd (ground arith)
accepted-Step out_of_stock active c h = restock (who c (ground arith)) (ground arith)
accepted-Step out_of_stock out_of_stock c h = stay (who c (ground arith))
accepted-Step out_of_stock rejected c h = absurd (ground arith)
accepted-Step out_of_stock archived c h = absurd (ground arith)
accepted-Step out_of_stock suspended c h = absurd (ground arith)
accepted-Step rejected draft c h = absurd (ground arith)
accepted-Step rejected pending_approval c h = submit_again (ground arith)
accepted-Step rejected active c h = absurd (ground arith)
accepted-Step rejected out_of_stock c h = absurd (ground arith)
accepted-Step rejected rejected c h = stay (who c (ground arith))
accepted-Step rejected archived c h = absurd (ground arith)
accepted-Step rejected suspended c h = absurd (ground arith)
accepted-Step archived draft c h = absurd (ground arith)
accepted-Step archived pending_approval c h = absurd (ground arith)
accepted-Step archived active c h = absurd (ground arith)
accepted-Step archived out_of_stock c h = absurd (ground arith)
accepted-Step archived rejected c h = absurd (ground arith)
accepted-Step archived archived c h = stay (who c (ground arith))
accepted-Step archived suspended c h = absurd (ground arith)
accepted-Step suspended draft c h = absurd (ground arith)
accepted-Step suspended pending_approval c h = absurd (ground arith)
accepted-Step suspended active c h = absurd (ground arith)
accepted-Step suspended out_of_stock c h = absurd (ground arith)
accepted-Step suspended rejected c h = absurd (ground arith)
accepted-Step suspended archived c h = absurd (ground arith)
accepted-Step suspended suspended c h = stay (who c (ground arith))

Step-accepted :
    {from to : ProductStatus} (c : ProductStatusTransitionContext)
    → Step c from to
    → assert_product_status_transition (at from to c) ≡ ok tt
unfolding assert_product_status_transition allowed_targets
Step-accepted c (stay {s} may) =
    let allowed = known c may in let same = ==_refl (status_code s) in ground arith
Step-accepted c (submit_draft owns) = ground arith
Step-accepted c (submit_again owns) = ground arith
Step-accepted c (approve reviews stocked) = ground arith
Step-accepted c (sell_out may) = let allowed = known c may in ground arith
Step-accepted c (restock may stocked) = let allowed = known c may in ground arith

-- The policy accepts a move between two statuses exactly where the machine of products has that
-- step for the actor: the seller submits, a reviewer approves what is in stock, and both mark a
-- product as sold out or as back in stock; everyone else is refused, also where nothing changes.
pub assert_product_status_transition_iff :
    (from to : ProductStatus) (c : ProductStatusTransitionContext)
    → (assert_product_status_transition (at from to c) ≡ ok tt) ↔ Step c from to
assert_product_status_transition_iff from to c = (accepted-Step from to c, Step-accepted c)
