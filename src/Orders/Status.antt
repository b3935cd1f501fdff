-- ===== src/Orders/Status.antt =====
-- modules/orders/domain/order-status.ts: who may move an order from which status to which.
pub mod Laws
use agrilink_backend.Base.{
  ℕ, Bool, true, false, ◌&&◌, ◌||◌, not, List, [], ◌∷◌, Result, ok, err, order_transition,
  order_authorization, ◌==◌, if◌then◌else◌,
}

pub data OrderStatus : Type 0 where
  pending confirmed preparing handed_to_logistics shipping delivered cancelled : OrderStatus

pub data OrderActor : Type 0 where
  buyer seller logistics admin : OrderActor

abbrev pub status_code : OrderStatus → ℕ
status_code pending = 0
status_code confirmed = 1
status_code preparing = 2
status_code handed_to_logistics = 3
status_code shipping = 4
status_code delivered = 5
status_code cancelled = 6

-- `from === to`
abbrev pub same_status : OrderStatus → OrderStatus → Bool
same_status a b = status_code a == status_code b

abbrev pub actor_code : OrderActor → ℕ
actor_code buyer = 0
actor_code seller = 1
actor_code logistics = 2
actor_code admin = 3

abbrev pub same_actor : OrderActor → OrderActor → Bool
same_actor a b = actor_code a == actor_code b

unfoldable pub transitions : OrderStatus → List OrderStatus
transitions pending = confirmed ∷ cancelled ∷ []
transitions confirmed = preparing ∷ cancelled ∷ []
transitions preparing = handed_to_logistics ∷ cancelled ∷ []
transitions handed_to_logistics = shipping ∷ []
transitions shipping = delivered ∷ []
transitions delivered = []
transitions cancelled = []

-- `list.includes(to)`
abbrev pub includes : List OrderStatus → OrderStatus → Bool
includes [] to = false
includes (s ∷ rest) to = same_status s to || includes rest to

-- `allowed` of `assertOrderTransition`
unfoldable pub actor_allowed : OrderStatus → OrderStatus → OrderActor → Bool
actor_allowed from to actor =
    (same_actor actor buyer && same_status from pending && same_status to cancelled)
    || (same_actor actor seller
        && ((same_status from pending && same_status to confirmed)
            || (same_status from confirmed && same_status to preparing)
            || (same_status from preparing && same_status to handed_to_logistics)
            || ((same_status from pending
                  || same_status from confirmed
                  || same_status from preparing)
                && same_status to cancelled)))
    || (same_actor actor logistics
        && ((same_status from handed_to_logistics && same_status to shipping)
            || (same_status from shipping && same_status to delivered)))

unfoldable pub assert_order_transition : OrderStatus → OrderStatus → OrderActor → Result (Unit {0})
unfolding transitions actor_allowed
assert_order_transition from to actor =
    if not (includes (transitions from) to)
    then err order_transition
    else if same_actor actor admin
    then ok tt
    else if not (actor_allowed from to actor)
    then err order_authorization
    else ok tt
