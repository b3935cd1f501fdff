-- ===== src/Orders/Repository/History.antt =====
-- The history of the orders: the entries of each order form a run of the status machine that begins
-- with its creation and ends in the status that the order has.
use agrilink_backend.Base.{
  ℕ, Bool, true, false, ◌&&◌, ◌≡◌, inl, inr, refl, sym, subst, ◌∙◌, Option, none, some, List, [],
  ◌∷◌, ◌++◌, ok, arith, ◌==◌, ==_refl, All, All-append, if◌then◌else◌, Bool-cases,
}
use agrilink_backend.Base.Table.{find_one, update_where, count_where}
use agrilink_backend.Base.Keyed.{
  IsKeyed, IsKeyed-append, IsKeyed-update_where, All-find_one, All-map_two, not_found-All,
  All-update_one,
}
use agrilink_backend.Commerce.Operations.Replay.{idempotent_preserves}
use agrilink_backend.Orders.Status.{
  OrderStatus, pending, transitions, includes, status_code, same_status,
}
use agrilink_backend.Orders.Order.{Order, transition}
use agrilink_backend.Orders.Order.Laws.{transition_sound, rehydrate-status}
use agrilink_backend.Orders.Repository.{
  CreateOrderRepositoryInput, TransitionInput, new_row, is_current, create_atomically,
  transition_atomically, find_by_id, to_domain,
}
use agrilink_backend.Orders.Repository.Replay.{find_by_id-Reads}
use agrilink_backend.Orders.Repository.Updates.{
  transition_body-Moved, create_body-Created, transition_entry, creation_entry,
}
use agrilink_backend.Store.{Store, OrderRow, HistoryRow, Draw}

-- Whether an entry may follow the status `at`: the first entry of an order is its creation.
abbrev pub may_follow : Option OrderStatus → HistoryRow → Bool
may_follow none h = elim h.from_status [
  | none ↦ same_status h.to_status pending
  | some from ↦ false
]
may_follow (some at) h = elim h.from_status [
  | none ↦ false
  | some from ↦ same_status from at && includes (transitions from) h.to_status
]

-- The status in which the entries of one order end that follow `at`, if they form a run.
unfoldable pub replay_history :
    ℕ → Option OrderStatus → List HistoryRow → Option (Option OrderStatus)
replay_history id at [] = some at
replay_history id at (h ∷ hs) =
    let mine = replay_history id (some h.to_status) hs in
    let other = replay_history id at hs in
    if h.order_id == id then (if may_follow at h then mine else none) else other

replay_history-append_other :
    (id : ℕ) (at : Option OrderStatus) (hs : List HistoryRow) (h : HistoryRow)
    → (h.order_id == id) ≡ false
    → replay_history id at (hs ++ h ∷ []) ≡ replay_history id at hs
unfolding replay_history
replay_history-append_other id at [] h e = ground arith
replay_history-append_other id at (x ∷ hs) h e = ground (
  arith,
  replay_history-append_other id at hs h e,
  replay_history-append_other id (some x.to_status) hs h e,
)

replay_history-append :
    (id : ℕ) (at at' : Option OrderStatus) (hs : List HistoryRow) (h : HistoryRow)
    → (h.order_id == id) ≡ true
    → replay_history id at hs ≡ some at'
    → may_follow at' h ≡ true
    → replay_history id at (hs ++ h ∷ []) ≡ some (some h.to_status)
unfolding replay_history
replay_history-append id at at' [] h e r m =
    let same : at ≡ at' = cc in ground (arith, subst (λ a. may_follow a h ≡ true) (sym same) m)
replay_history-append id at at' (x ∷ hs) h e r m = elim (Bool-cases (x.order_id == id)) [
  | inr other ↦ rw other (replay_history-append id at at' hs h e (rw other at r) m)
  | inl mine ↦ elim (Bool-cases (may_follow at x)) [
    | inl follows ↦
        rw (mine, follows)
          (replay_history-append id (some x.to_status) at' hs h e (rw (mine, follows) at r) m)
    | inr breaks ↦ absurd (ground (arith, mine, breaks))
  ]
]

replay_history-absent :
    (id : ℕ) (hs : List HistoryRow)
    → find_one (λ (h : HistoryRow). h.order_id == id) hs ≡ none
    → replay_history id none hs ≡ some none
unfolding replay_history find_one
replay_history-absent id [] e = refl
replay_history-absent id (x ∷ hs) e = ground (arith, replay_history-absent id hs)

-- The entries of the order end in its status.
abbrev pub IsRecorded : List HistoryRow → OrderRow → Type 0
IsRecorded hs r = replay_history r.id none hs ≡ some (some r.status)

pub record IsJournal (s : Store) : Type 0 where
  pub ids : IsKeyed (λ (r : OrderRow). r.id) s.orders
  pub recorded : All (IsRecorded s.order_history) s.orders

-- The entry of a transition follows the status that the order was loaded with.
entry_follows :
    (input : TransitionInput) (entity : OrderRow) (order next : Order)
    → to_domain entity ≡ ok order
    → transition input.to_status input.actor order ≡ ok next
    → (may_follow (some entity.status) (transition_entry input entity order.status next.status)
        ≡ true)
      × (order.status ≡ entity.status)
unfolding to_domain
entry_follows input entity order next loaded allowed =
    let (listed, _, moved) = transition_sound input.to_status input.actor order next allowed in
    let same = rehydrate-status _ order loaded in
    (ground (arith, ==_refl (status_code entity.status)), same)

transition-IsRecorded :
    (input : TransitionInput) (s : Store) (entity : OrderRow) (order next : Order)
    (f : OrderRow → OrderRow)
    → find_one (λ (r : OrderRow). r.id == input.order_id) s.orders ≡ some entity
    → to_domain entity ≡ ok order
    → transition input.to_status input.actor order ≡ ok next
    → ((r : OrderRow) → (f r).id ≡ r.id)
    → ((r : OrderRow) → (f r).status ≡ next.status)
    → count_where (is_current entity.id input.expected_version order.status) s.orders ≡ 1
    → IsJournal s
    → All
        (IsRecorded
          (s.order_history ++ transition_entry input entity order.status next.status ∷ []))
        (update_where (is_current entity.id input.expected_version order.status) f s.orders)
transition-IsRecorded input s entity order next f found loaded allowed same_id moved one journal =
    let (follows, same) = entry_follows input entity order next loaded allowed in
    let before =
      All-find_one (IsRecorded s.order_history) _ s.orders entity journal.recorded found in
    All-update_one (λ r. r.id) (IsRecorded s.order_history) _ input.order_id s.orders entity _ f
      journal.ids found (λ r current. ground arith) one
      (λ r other recorded. replay_history-append_other r.id none s.order_history _ other ∙ recorded)
      journal.recorded
      (rw (same_id entity, moved entity)
        (replay_history-append entity.id none (some entity.status) s.order_history
          (transition_entry input entity order.status next.status) (==_refl entity.id) before
          follows))

transition-IsJournal :
    (draw : Draw) (input : TransitionInput) (s : Store)
    → IsJournal s
    → IsJournal (transition_atomically draw input s).1
unfolding transition_atomically
transition-IsJournal draw input s journal =
    idempotent_preserves some find_by_id find_by_id-Reads IsJournal _ _ _ s
      (λ b t ran.
        let done = transition_body-Moved draw input _ _ t b ran in
        record {
          ids =
              rw done.orders (
                IsKeyed-update_where (λ (r : OrderRow). r.id) _ _ s.orders (λ r. refl) journal.ids);
          recorded =
              rw (done.orders, done.history)
                (transition-IsRecorded input s done.entity done.order done.next _ done.found
                  done.loaded done.allowed (λ r. refl) (λ r. refl) done.affected journal);
        })
      journal

-- A new entry says nothing of the orders that have other ids.
older-IsRecorded :
    (id : ℕ) (s : Store) (entry : HistoryRow)
    → find_one (λ (r : OrderRow). r.id == id) s.orders ≡ none
    → entry.order_id ≡ id
    → All (IsRecorded s.order_history) s.orders
    → All (IsRecorded (s.order_history ++ entry ∷ [])) s.orders
older-IsRecorded id s entry fresh same recorded =
    All-map_two (IsRecorded s.order_history) (λ r. (r.id == id) ≡ false) _
      (λ r old other.
        replay_history-append_other r.id none s.order_history entry (ground (arith, same)) ∙ old)
      s.orders recorded (not_found-All (λ r. r.id) id s.orders fresh)

create-IsJournal :
    (draw : Draw) (input : CreateOrderRepositoryInput) (s : Store)
    → find_one (λ (r : OrderRow). r.id == draw.id) s.orders ≡ none
    → find_one (λ (h : HistoryRow). h.order_id == draw.id) s.order_history ≡ none
    → IsJournal s
    → IsJournal (create_atomically draw input s).1
unfolding create_atomically
create-IsJournal draw input s fresh unrecorded journal =
    idempotent_preserves (λ m. m) find_by_id find_by_id-Reads IsJournal _ _ _ s
      (λ b t ran.
        let done = create_body-Created draw input _ _ t b ran in
        let entry = creation_entry draw input in
        let keyed =
          IsKeyed-append (λ (r : OrderRow). r.id) s.orders (new_row draw input) journal.ids fresh in
        let history =
          replay_history-append draw.id none none s.order_history entry (==_refl draw.id)
            (replay_history-absent draw.id s.order_history unrecorded) refl in
        record {
          ids = rw done.orders keyed;
          recorded =
              rw (done.orders, done.history)
                (All-append (IsRecorded (s.order_history ++ entry ∷ [])) s.orders _
                  (older-IsRecorded draw.id s entry fresh refl journal.recorded) (history, tt));
        })
      journal

-- One call of the repository that writes orders.
pub data OrderCall : Type 0 where
  create : Draw → CreateOrderRepositoryInput → OrderCall
  move : Draw → TransitionInput → OrderCall

abbrev pub run_call : OrderCall → Store → Store
run_call (create draw input) s = (create_atomically draw input s).1
run_call (move draw input) s = (transition_atomically draw input s).1

abbrev pub run_calls : List OrderCall → Store → Store
run_calls [] s = s
run_calls (c ∷ cs) s = run_calls cs (run_call c s)

-- The id that the database draws for a new order stands in no order and in no history entry.
abbrev pub IsGranted : OrderCall → Store → Type 0
IsGranted (create draw input) s =
    (find_one (λ (r : OrderRow). r.id == draw.id) s.orders ≡ none)
    × (find_one (λ (h : HistoryRow). h.order_id == draw.id) s.order_history ≡ none)
IsGranted (move draw input) s = Unit

abbrev pub AllGranted : List OrderCall → Store → Type 0
AllGranted [] s = Unit
AllGranted (c ∷ cs) s = IsGranted c s × AllGranted cs (run_call c s)

run_call-IsJournal :
    (c : OrderCall) (s : Store) → IsGranted c s → IsJournal s → IsJournal (run_call c s)
run_call-IsJournal (create draw input) s (fresh, unrecorded) h =
    create-IsJournal draw input s fresh unrecorded h
run_call-IsJournal (move draw input) s g h = transition-IsJournal draw input s h

-- A store with the following properties keeps them, whatever creations and transitions the order
-- repository gets, in any order and whether they succeed or throw: the orders have distinct ids, and the history entries of each order form a run
-- of the status machine that begins with the creation in `pending` and ends in the status that the
-- order has. A creation has to get a new id from the database.
pub run_calls-IsJournal :
    (cs : List OrderCall) (s : Store) → AllGranted cs s → IsJournal s → IsJournal (run_calls cs s)
run_calls-IsJournal [] s g h = h
run_calls-IsJournal (c ∷ cs) s (g, gs) h =
    run_calls-IsJournal cs (run_call c s) gs (run_call-IsJournal c s g h)
