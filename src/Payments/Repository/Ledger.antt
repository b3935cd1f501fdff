-- ===== src/Payments/Repository/Ledger.antt =====
-- The payments table: one payment to an order, and refunds that never exceed the amount paid.
use agrilink_backend.Base.{
  ℕ, ◌<◌, ◌≡◌, inl, inr, refl, sym, subst, ◌∙◌, none, some, List, [], ◌∷◌, ok, arith, ◌==◌, All,
  All-append, codes,
}
use agrilink_backend.Base.Table.{find_one, update_where}
use agrilink_backend.Base.Keyed.{
  IsKeyed, IsKeyed-append, IsKeyed-update_where, All-find_one, All-update_found,
}
use agrilink_backend.Commerce.MoneyVnd
use agrilink_backend.Commerce.MoneyVnd.{MoneyVnd}
use agrilink_backend.Commerce.MoneyVnd.RoundTrip.{money_parse-to_string}
use agrilink_backend.Payments.Payment.{
  PaymentStatus, unpaid, paid, partially_refunded, refunded, PaymentActor, admin, Payment,
  mark_paid, refund,
}
use agrilink_backend.Payments.Payment.Laws.{refund_sound, mark_paid_sound}
use agrilink_backend.Payments.Repository.{
  CreatePaymentInput, RefundInput, MarkPaidInput, to_domain, new_row, find_by_id, create_atomically,
  mark_paid_atomically, refund_atomically, set_paid, set_refunded, is_current,
}
use agrilink_backend.Commerce.Operations.Replay.{idempotent_preserves}
use agrilink_backend.Payments.Repository.Replay.{find_by_id-Reads}
use agrilink_backend.Payments.Repository.Updates.{
  refund_body-Refunded, mark_paid_body-MarkedPaid, create_body-Created,
}
use agrilink_backend.Store.{Store, PaymentRow, Draw}

-- What the status of a payment says of the amount and of what has been refunded.
abbrev pub StatusFits : PaymentStatus → ℕ → ℕ → Type 0
StatusFits unpaid amount back = back ≡ 0
StatusFits paid amount back = back ≡ 0
StatusFits partially_refunded amount back = (0 < back) × (back < amount)
StatusFits refunded amount back = (0 < back) × (back ≡ amount)

pub record IsBalanced (r : PaymentRow) : Type 0 where
  pub amount : MoneyVnd
  pub back : MoneyVnd
  pub amount_parses : MoneyVnd.parse r.amount ≡ ok amount
  pub back_parses : MoneyVnd.parse r.refunded_amount ≡ ok back
  pub fits : StatusFits r.status amount.value back.value

pub record IsLedger (rows : List PaymentRow) : Type 0 where
  pub ids : IsKeyed (λ r. r.id) rows
  pub orders : IsKeyed (λ r. r.order_id) rows
  pub balanced : All IsBalanced rows

refund-StatusFits :
    (p next : Payment) (a : MoneyVnd)
    → refund a admin p ≡ ok next
    → StatusFits next.status p.amount.value next.refunded_amount.value
refund-StatusFits p next a h =
    let (allowed, _, raised, outcome) = refund_sound a admin p next h in
    elim outcome [
      | inl (all_back, whole) ↦ rw all_back (omega (arith, allowed.2), whole)
      | inr (some_back, part) ↦ rw some_back (omega (arith, allowed.2), part)
    ]

-- What a row that loads, and whose texts are read, has been loaded as.
loaded_amounts :
    (r : PaymentRow) (p : Payment) (b : IsBalanced r)
    → to_domain r ≡ ok p
    → (p.amount ≡ b.amount) × (p.refunded_amount ≡ b.back) × (p.status ≡ r.status)
unfolding to_domain
loaded_amounts r p b loaded = (ground arith, ground arith, ground arith)

set_refunded-IsBalanced :
    (r : PaymentRow) (p next : Payment) (a : MoneyVnd) (now : ℕ)
    → IsBalanced r
    → to_domain r ≡ ok p
    → refund a admin p ≡ ok next
    → IsBalanced (set_refunded now next.status (MoneyVnd.to_string next.refunded_amount) r)
set_refunded-IsBalanced r p next a now b loaded allowed =
    let (same_amount, _, _) = loaded_amounts r p b loaded in
    record {
      amount = b.amount;
      back = next.refunded_amount;
      amount_parses = b.amount_parses;
      back_parses = money_parse-to_string next.refunded_amount;
      fits =
          subst (λ m. StatusFits next.status m.value next.refunded_amount.value) same_amount
            (refund-StatusFits p next a allowed);
    }

set_paid-IsBalanced :
    (r : PaymentRow) (p next : Payment) (actor : PaymentActor) (now : ℕ)
    → IsBalanced r
    → to_domain r ≡ ok p
    → mark_paid actor p ≡ ok next
    → IsBalanced (set_paid now next.status r)
set_paid-IsBalanced r p next actor now b loaded allowed =
    let (was_unpaid, now_paid) = mark_paid_sound actor p next allowed in
    let (_, _, same_status) = loaded_amounts r p b loaded in
    record {
      amount = b.amount;
      back = b.back;
      amount_parses = b.amount_parses;
      back_parses = b.back_parses;
      fits = rw now_paid (
          subst (λ s. StatusFits s b.amount.value b.back.value) (sym same_status ∙ was_unpaid)
            b.fits);
    }

-- An update of the one row with the id of a found row keeps the ledger, if that row stays
-- balanced and keeps its id and its order.
update-IsLedger :
    (rows : List PaymentRow) (id : ℕ) (entity : PaymentRow) (version : ℕ)
    (f : PaymentRow → PaymentRow)
    → IsLedger rows
    → find_one (λ (r : PaymentRow). r.id == id) rows ≡ some entity
    → ((r : PaymentRow) → ((f r).id ≡ r.id) × ((f r).order_id ≡ r.order_id))
    → (IsBalanced entity → IsBalanced (f entity))
    → IsLedger (update_where (is_current entity.id version entity.status) f rows)
update-IsLedger rows id entity version f ledger found keeps step = record {
  ids = IsKeyed-update_where (λ r. r.id) _ f rows (λ r. (keeps r).0) ledger.ids;
  orders = IsKeyed-update_where (λ r. r.order_id) _ f rows (λ r. (keeps r).1) ledger.orders;
  balanced =
      All-update_found (λ r. r.id) IsBalanced id rows entity _ f ledger.ids found
        (λ r current. ground arith) ledger.balanced
        (step (All-find_one IsBalanced _ rows entity ledger.balanced found));
}

-- The ledger after each operation, whatever its outcome.
pub refund-IsLedger :
    (draw : Draw) (input : RefundInput) (s : Store)
    → IsLedger s.payments
    → IsLedger (refund_atomically draw input s).1.payments
unfolding refund_atomically
refund-IsLedger draw input s ledger =
    idempotent_preserves some find_by_id find_by_id-Reads (λ t. IsLedger t.payments) _ _ _ s
      (λ b t ran.
        let done = refund_body-Refunded draw input _ _ t b ran in
        rw done.payments (
          update-IsLedger s.payments input.payment_id done.entity input.expected_version _ ledger
            done.found (λ r. (refl, refl))
            (λ b.
              set_refunded-IsBalanced done.entity done.payment done.next done.amount draw.now b
                done.loaded done.allowed)))
      ledger

pub mark_paid-IsLedger :
    (draw : Draw) (input : MarkPaidInput) (s : Store)
    → IsLedger s.payments
    → IsLedger (mark_paid_atomically draw input s).1.payments
unfolding mark_paid_atomically
mark_paid-IsLedger draw input s ledger =
    idempotent_preserves some find_by_id find_by_id-Reads (λ t. IsLedger t.payments) _ _ _ s
      (λ b t ran.
        let done = mark_paid_body-MarkedPaid draw input _ _ t b ran in
        rw done.payments (
          update-IsLedger s.payments input.payment_id done.entity input.expected_version _ ledger
            done.found (λ r. (refl, refl))
            (λ b.
              set_paid-IsBalanced done.entity done.payment done.next input.actor draw.now b
                done.loaded done.allowed)))
      ledger

zero_parses : MoneyVnd.parse (codes "0") ≡ ok (record { value = 0 })
unfolding MoneyVnd.parse
zero_parses = refl

pub create-IsLedger :
    (draw : Draw) (input : CreatePaymentInput) (s : Store) (amount : MoneyVnd)
    → MoneyVnd.parse input.amount ≡ ok amount
    → find_one (λ (r : PaymentRow). r.id == draw.id) s.payments ≡ none
    → IsLedger s.payments
    → IsLedger (create_atomically draw input s).1.payments
unfolding create_atomically
create-IsLedger draw input s amount parsed fresh ledger =
    idempotent_preserves (λ m. m) find_by_id find_by_id-Reads (λ t. IsLedger t.payments) _ _ _ s
      (λ b t ran.
        let done = create_body-Created draw input _ _ t b ran in
        rw done.payments (record {
          ids = IsKeyed-append (λ r. r.id) s.payments (new_row draw input) ledger.ids fresh;
          orders =
              IsKeyed-append (λ r. r.order_id) s.payments (new_row draw input) ledger.orders
                done.first;
          balanced = All-append IsBalanced s.payments _ ledger.balanced (
            record {
              amount = amount;
              back = record { value = 0 };
              amount_parses = parsed;
              back_parses = zero_parses;
              fits = refl;
            },
            tt,
          );
        }))
      ledger

-- One call of the repository that writes payments.
pub data PaymentCall : Type 0 where
  create : Draw → CreatePaymentInput → PaymentCall
  mark : Draw → MarkPaidInput → PaymentCall
  give_back : Draw → RefundInput → PaymentCall

abbrev pub run_call : PaymentCall → Store → Store
run_call (create draw input) s = (create_atomically draw input s).1
run_call (mark draw input) s = (mark_paid_atomically draw input s).1
run_call (give_back draw input) s = (refund_atomically draw input s).1

abbrev pub run_calls : List PaymentCall → Store → Store
run_calls [] s = s
run_calls (c ∷ cs) s = run_calls cs (run_call c s)

-- What the database and the use case grant a call: a new id, and an amount that is read.
abbrev pub IsGranted : PaymentCall → Store → Type 0
IsGranted (create draw input) s =
    (find_one (λ (r : PaymentRow). r.id == draw.id) s.payments ≡ none)
    × ((amount : MoneyVnd) × (MoneyVnd.parse input.amount ≡ ok amount))
IsGranted (mark draw input) s = Unit
IsGranted (give_back draw input) s = Unit

abbrev pub AllGranted : List PaymentCall → Store → Type 0
AllGranted [] s = Unit
AllGranted (c ∷ cs) s = IsGranted c s × AllGranted cs (run_call c s)

run_call-IsLedger :
    (c : PaymentCall) (s : Store)
    → IsGranted c s
    → IsLedger s.payments
    → IsLedger (run_call c s).payments
run_call-IsLedger (create draw input) s (fresh, (amount, parsed)) h =
    create-IsLedger draw input s amount parsed fresh h
run_call-IsLedger (mark draw input) s g h = mark_paid-IsLedger draw input s h
run_call-IsLedger (give_back draw input) s g h = refund-IsLedger draw input s h

-- A payments table with the following properties keeps them, whatever calls the repository gets, in
-- any order and whether they succeed or throw: ids and orders are distinct, and of each payment the
-- refunded amount is zero while it is unpaid or paid, strictly between zero and the amount while it
-- is partially refunded, and the amount when it is refunded. A call that creates a payment has to
-- get a new id from the database and an amount that parses.
pub run_calls-IsLedger :
    (cs : List PaymentCall) (s : Store)
    → AllGranted cs s
    → IsLedger s.payments
    → IsLedger (run_calls cs s).payments
run_calls-IsLedger [] s g h = h
run_calls-IsLedger (c ∷ cs) s (g, gs) h =
    run_calls-IsLedger cs (run_call c s) gs (run_call-IsLedger c s g h)
