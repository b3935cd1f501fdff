-- ===== src/Reviews/Refinement.antt =====
-- The table of reviews implements the board.
use agrilink_backend.Base.{
  ℕ, Bool, true, false, ◌≡◌, refl, sym, subst, ap, ◌∙◌, ◌⊎◌, inl, inr, none, some, List, [], ◌∷◌,
  ◌++◌, map, Result, arith, ◌==◌, Bool-cases, Option-cases, ==_eq, ==_refl,
}
use agrilink_backend.Base.Keyed.{All-find_one, All-not_found}
use agrilink_backend.Base.Table.{find_one, update_where}
use agrilink_backend.Base.TableLaws.{find_one_sound, find_one-update_where, find_one-append}
use agrilink_backend.Base.Words.{trim}
use agrilink_backend.Reviews.Board.{
  Entry, Board, Act, IsRefusable, Step, Reach, Stays, put, Reach-Stays,
}
use agrilink_backend.Reviews.Book.{IsReviewBook, run_call-IsReviewBook}
use agrilink_backend.Reviews.Calls
use agrilink_backend.Reviews.Calls.{ReviewCall}
use agrilink_backend.Reviews.Creation.{CanReview, about, created_row, create_review-cases}
use agrilink_backend.Reviews.Policy.{is_some}
use agrilink_backend.Reviews.ReadModel.{map_some}
use agrilink_backend.Reviews.Repository.{
  is_null, awaits_reply, set_reply, touch, has_visibility, set_hidden,
}
use agrilink_backend.Reviews.Updates.{
  named, hide_review-cases, unhide_review-cases, reply_to_review-cases, hide_review-runs,
  unhide_review-runs, reply_to_review-runs,
}
use agrilink_backend.Reviews.UseCases.{ReviewDetails}
use agrilink_backend.Platform.{Platform, ReviewRow}
use mathlib.Core.Path.{fun_ext}

abbrev pub entry : ReviewRow → Entry
entry r = record {
  reviewer = r.reviewer_id;
  seller = r.reviewee_id;
  product = r.product_id;
  rating = r.rating;
  reply = r.seller_reply;
  hidden = r.is_hidden;
}

-- The board that a table shows: it forgets the order of the rows and the other columns.
abbrev pub board : List ReviewRow → Board
board rows id = map_some entry (find_one (named id) rows)

board-append :
    (rows : List ReviewRow) (row : ReviewRow)
    → find_one (named row.id) rows ≡ none
    → board (rows ++ row ∷ []) ≡ put row.id (entry row) (board rows)
board-append rows row fresh = fun_ext λ k.
    let seen = find_one-append (named k) rows row in
    elim (Bool-cases (k == row.id)) [
      | inl here ↦
          let same : k ≡ row.id = ==_eq k row.id here in
          let gone : find_one (named k) rows ≡ none = rw same fresh in
          let own : (row.id == k) ≡ true = ground arith in rw (here, seen, gone, own) refl
      | inr away ↦
          let turned : (row.id == k) ≡ false = ground arith in
          elim (Option-cases (find_one (named k) rows)) [
            | inl gone ↦ rw (away, seen, gone, turned) refl
            | inr (r, there) ↦ rw (away, seen, there) refl
          ]
    ]

board-update_where :
    (q : ReviewRow → Bool) (f : ReviewRow → ReviewRow) (rows : List ReviewRow) (id : ℕ)
    (row : ReviewRow)
    → find_one (named id) rows ≡ some row
    → q row ≡ true
    → ((x : ReviewRow) → q x ≡ true → (x.id == id) ≡ true)
    → ((x : ReviewRow) → (f x).id ≡ x.id)
    → board (update_where q f rows) ≡ put id (entry (f row)) (board rows)
board-update_where q f rows id row found chosen names keeps = fun_ext λ k.
    let seen = find_one-update_where (named k) q f rows (λ r. rw (keeps r)) in
    elim (Bool-cases (k == id)) [
      | inl here ↦ let same : k ≡ id = ==_eq k id here in rw (here, seen, same, found, chosen) refl
      | inr away ↦ elim (Option-cases (find_one (named k) rows)) [
        | inl gone ↦ rw (away, seen, gone) refl
        | inr (r, there) ↦
            let mine = find_one_sound (named k) rows r there in
            let left : q r ≡ false = elim (Bool-cases (q r)) [
              | inl touched ↦ absurd (ground (arith, names r touched))
              | inr left ↦ left
            ] in
            rw (away, seen, there, left) refl
      ]
    ]

-- An entry of the board comes from a row.
board_row :
    (rows : List ReviewRow) (k : ℕ) (e : Entry)
    → board rows k ≡ some e
    → (r : ReviewRow) × (find_one (named k) rows ≡ some r) × (e ≡ entry r)
board_row rows k e shown = elim (Option-cases (find_one (named k) rows)) [
  | inl gone ↦ absurd (ground (arith, ap (map_some entry) gone))
  | inr (r, there) ↦ (r, there, ground (arith, ap (map_some entry) there))
]

created_Step :
    (reads : Bool) (id now reviewer_id : ℕ) (input : ReviewDetails) (s : Platform)
    (can : CanReview id reviewer_id input s)
    → Step
        (Act.submits id reviewer_id input.product_id input.rating)
        (board s.reviews)
        (board (s.reviews ++ created_row reads id now reviewer_id input can.product s ∷ []))
created_Step reads id now reviewer_id input s can =
    subst (Step (Act.submits id reviewer_id input.product_id input.rating) (board s.reviews))
      (sym (
        board-append s.reviews (created_row reads id now reviewer_id input can.product s)
          can.fresh))
      (Step.submit id reviewer_id can.product.seller_id input.product_id input.rating
        (rw can.fresh refl) can.other_seller can.in_range
        (λ k e shown of_product by_reviewer.
          let (r, there, same) = board_row s.reviews k e shown in
          let other : about reviewer_id input.product_id r ≡ false =
            All-find_one (λ x. about reviewer_id input.product_id x ≡ false) (named k) s.reviews r
              (All-not_found (about reviewer_id input.product_id) s.reviews can.first) there in
          let product : r.product_id ≡ some input.product_id =
            ap (λ (x : Entry). x.product) (sym same) ∙ of_product in
          let reviewer : r.reviewer_id ≡ reviewer_id =
            ap (λ (x : Entry). x.reviewer) (sym same) ∙ by_reviewer in
          let told : about reviewer_id input.product_id r ≡ true =
            rw (reviewer, product, ==_refl reviewer_id, ==_refl input.product_id) refl in
          absurd (ground arith)))

-- What a call asks of the board; what other modules write asks nothing.
abbrev pub act : ReviewCall → Act
act (Calls.create now id reviewer_id input) =
    Act.submits id reviewer_id input.product_id input.rating
act (Calls.reply now id seller_id text) = Act.answers id seller_id (trim text)
act (Calls.hide now id admin_id reason) = Act.hides id
act (Calls.unhide now id) = Act.shows id
act (Calls.elsewhere t) = Act.rests

-- What a call did to the board: nothing, where it may be refused, or the step of its act.
abbrev Moves : Act → List ReviewRow → List ReviewRow → Type 0
Moves a rows rows' =
    (board rows' ≡ board rows) × IsRefusable a (board rows) ⊎ Step a (board rows) (board rows')

Moved :
    {A : Type 0} (a : Act) (rows : List ReviewRow) (result outcome : Result A × Platform)
    → result ≡ outcome
    → Moves a rows outcome.1.reviews
    → Moves a rows result.1.reviews
Moved a rows result outcome same h = subst (λ t. Moves a rows t.1.reviews) (sym same) h

updated_Step :
    (a : Act) (now id : ℕ) (q : ReviewRow → Bool) (f : ReviewRow → ReviewRow)
    (rows : List ReviewRow) (row : ReviewRow)
    → find_one (named id) rows ≡ some row
    → q row ≡ true
    → ((x : ReviewRow) → q x ≡ true → (x.id == id) ≡ true)
    → ((x : ReviewRow) → (f x).id ≡ x.id)
    → Step a (board rows) (put id (entry (f row)) (board rows))
    → Moves a rows (update_where q (λ r. touch now (f r)) rows)
updated_Step a now id q f rows row found chosen names keeps step = inr (
    subst (Step a (board rows))
      (sym (board-update_where q (λ r. touch now (f r)) rows id row found chosen names keeps)) step)

unreplied :
    (id seller_id : ℕ) (r : ReviewRow) → awaits_reply id seller_id r ≡ true → r.seller_reply ≡ none
unreplied id seller_id r chosen = elim (Option-cases r.seller_reply) [
  | inl there ↦ there
  | inr (text, given) ↦ absurd (ground (arith, ap is_null given))
]

seller_of :
    (id seller_id : ℕ) (r : ReviewRow)
    → awaits_reply id seller_id r ≡ true
    → r.reviewee_id ≡ some seller_id
seller_of id seller_id r chosen = elim (Option-cases r.reviewee_id) [
  | inl gone ↦ absurd (ground (arith, ap (λ o. is_some o seller_id) gone))
  | inr (k, there) ↦ there ∙ ap some (==_eq k seller_id (ground (arith, there)))
]

visibility_of :
    (id : ℕ) (expected : Bool) (r : ReviewRow)
    → has_visibility id expected r ≡ true
    → r.is_hidden ≡ expected
visibility_of id true r chosen = ground arith
visibility_of id false r chosen = ground arith

run_call_Moves :
    (reads : Bool) (c : ReviewCall) (s : Platform)
    → IsReviewBook s.reviews
    → Moves (act c) s.reviews (Calls.run_call reads c s).reviews
run_call_Moves reads (Calls.create now id reviewer_id input) s book =
    elim (create_review-cases reads id now reviewer_id input s) [
      | inl (e, refused) ↦ Moved _ s.reviews _ _ refused (inl (refl, tt))
      | inr (can, created) ↦
          Moved _ s.reviews _ _ created (inr (created_Step reads id now reviewer_id input s can))
    ]
run_call_Moves reads (Calls.reply now id seller_id text) s book =
    elim (reply_to_review-cases now id seller_id text s book.ids) [
      | inl (e, refused) ↦ Moved _ s.reviews _ _ refused (
          inl (
            refl,
            λ shown there of_seller open_.
                let (r, found, same) = board_row s.reviews id shown there in
                let done =
                  reply_to_review-runs now id seller_id text s r book.ids found
                    (ap (λ (x : Entry). x.seller) (sym same) ∙ of_seller)
                    (ap (λ (x : Entry). x.reply) (sym same) ∙ open_) in
                absurd (ground (arith, ap (λ t. t.0) (sym refused ∙ done.done))),
          ))
      | inr done ↦ Moved _ s.reviews _ _ done.done (
          updated_Step _ now id (awaits_reply id seller_id) (set_reply (trim text) now) s.reviews
            done.row done.found done.chosen (λ x chosen. ground arith) (λ x. refl)
            (Step.answer id seller_id (entry done.row) (trim text) (rw done.found refl)
              (seller_of id seller_id done.row done.chosen)
              (unreplied id seller_id done.row done.chosen)))
    ]
run_call_Moves reads (Calls.hide now id admin_id reason) s book =
    elim (hide_review-cases now id admin_id reason s book.ids) [
      | inl (e, refused) ↦ Moved _ s.reviews _ _ refused (
          inl (
            refl,
            λ shown there visible.
                let (r, found, same) = board_row s.reviews id shown there in
                let done =
                  hide_review-runs now id admin_id reason s r book.ids found
                    (ap (λ (x : Entry). x.hidden) (sym same) ∙ visible) in
                absurd (ground (arith, ap (λ t. t.0) (sym refused ∙ done.done))),
          ))
      | inr done ↦ Moved _ s.reviews _ _ done.done (
          updated_Step _ now id (has_visibility id false)
            (set_hidden true (some (trim reason)) (some admin_id) (some now)) s.reviews done.row
            done.found done.chosen (λ x chosen. ground arith) (λ x. refl)
            (Step.hide id (entry done.row) (rw done.found refl)
              (visibility_of id false done.row done.chosen)))
    ]
run_call_Moves reads (Calls.unhide now id) s book = elim (unhide_review-cases now id s book.ids) [
  | inl (e, refused) ↦ Moved _ s.reviews _ _ refused (
      inl (
        refl,
        λ shown there hidden.
            let (r, found, same) = board_row s.reviews id shown there in
            let done =
              unhide_review-runs now id s r book.ids found
                (ap (λ (x : Entry). x.hidden) (sym same) ∙ hidden) in
            absurd (ground (arith, ap (λ t. t.0) (sym refused ∙ done.done))),
      ))
  | inr done ↦ Moved _ s.reviews _ _ done.done (
      updated_Step _ now id (has_visibility id true) (set_hidden false none none none) s.reviews
        done.row done.found done.chosen (λ x chosen. ground arith) (λ x. refl)
        (Step.show id (entry done.row) (rw done.found refl)
          (visibility_of id true done.row done.chosen)))
]
run_call_Moves reads (Calls.elsewhere t) s book = inl (refl, tt)

-- The table of reviews implements the board: whatever calls are made, each makes the step of the
-- board that it asks for, or the board stays. So a creation adds the first review of a product by
-- somebody else than its seller, under the id and with the rating asked for; only the seller of a
-- review answers it, once, with the trimmed text; a review that is hidden was visible, and the
-- other way round. An answer, a hiding and a showing are refused only where they are no step of the
-- board.
pub run_calls-Reach :
    (reads : Bool) (cs : List ReviewCall) (s : Platform)
    → IsReviewBook s.reviews
    → Reach (map act cs) (board s.reviews) (board (Calls.run_calls reads cs s).reviews)
run_calls-Reach reads [] s book = Reach.stop
run_calls-Reach reads (c ∷ cs) s book =
    let rest =
      run_calls-Reach reads cs (Calls.run_call reads c s) (run_call-IsReviewBook reads c s book) in
    elim (run_call_Moves reads c s book) [
      | inl (same, idle) ↦
          let reached : Reach (map act cs) (board s.reviews)
              (board (Calls.run_calls reads (c ∷ cs) s).reviews) =
            subst (λ b. Reach (map act cs) b (board (Calls.run_calls reads (c ∷ cs) s).reviews))
              same rest in
          Reach.refuse idle reached
      | inr step ↦ Reach.next step rest
    ]

-- A review that is there stays there under any sequence of calls, with its reviewer, seller,
-- product and rating; a reply that it has is never changed.
pub run_calls-Stays :
    (reads : Bool) (cs : List ReviewCall) (s : Platform) (id : ℕ) (e : Entry)
    → IsReviewBook s.reviews
    → board s.reviews id ≡ some e
    → Stays e (board (Calls.run_calls reads cs s).reviews id)
run_calls-Stays reads cs s id e book there =
    Reach-Stays id e (run_calls-Reach reads cs s book) there
