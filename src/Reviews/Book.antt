-- ===== src/Reviews/Book.antt =====
-- The invariant of the table of reviews.
use agrilink_backend.Base.{
  ℕ, Bool, true, false, ◌≡◌, ◌≢◌, refl, sym, subst, ◌∙◌, inl, inr, Option, none, some, List, [],
  ◌∷◌, ◌++◌, Text, Result, Option-cases, arith, ◌==◌, All, All-append, ==_refl,
}
use agrilink_backend.Base.Distinct.{IsDistinct, IsDistinct-append, IsDistinct-update_where}
use agrilink_backend.Base.Keyed.{
  IsKeyed, IsKeyed-append, IsKeyed-update_where, All-find_one, All-update_found,
}
use agrilink_backend.Base.Table.{find_one, update_where}
use agrilink_backend.Base.TableLaws.{find_one_sound}
use agrilink_backend.Base.Words.{trim}
use agrilink_backend.Reviews.Calls
use agrilink_backend.Reviews.Calls.{ReviewCall}
use agrilink_backend.Reviews.Creation.{CanReview, created_row, create_review-cases}
use agrilink_backend.Reviews.Repository.{
  same_subject, is_rating, awaits_reply, set_reply, touch, has_visibility, set_hidden,
}
use agrilink_backend.Reviews.Updates.{
  named, hide_review-cases, unhide_review-cases, reply_to_review-cases,
}
use agrilink_backend.Reviews.UseCases.{ReviewDetails}
use agrilink_backend.Platform.{Platform, ReviewRow}

-- Both are there or neither.
abbrev pub Together : {A B : Type 0} → Option A → Option B → Type 0
Together none none = Unit
Together (some a) (some b) = Unit
Together none (some b) = ⊥
Together (some a) none = ⊥

-- The reason, the moderator and the time stand in a hidden review and in no other.
abbrev pub HidingFits : Bool → Option Text → Option ℕ → Option ℕ → Type 0
HidingFits true (some reason) (some by) (some at) = Unit
HidingFits false none none none = Unit
HidingFits _ _ _ _ = ⊥

pub record IsSound (r : ReviewRow) : Type 0 where
  pub rated : is_rating r.rating ≡ true
  pub foreign : (seller : ℕ) → r.reviewee_id ≡ some seller → r.reviewer_id ≢ seller
  pub replied : Together r.seller_reply r.seller_reply_at
  pub hiding : HidingFits r.is_hidden r.hidden_reason r.hidden_by r.hidden_at

pub record IsReviewBook (rows : List ReviewRow) : Type 0 where
  pub ids : IsKeyed (λ r. r.id) rows
  pub subjects : IsDistinct same_subject rows
  pub sound : All IsSound rows

same_subject_turned : (x y : ReviewRow) → same_subject x y ≡ same_subject y x
same_subject_turned x y = elim (Option-cases x.product_id) [
  | inl first_none ↦ elim (Option-cases y.product_id) [
    | inl second_none ↦ rw (first_none, second_none) refl
    | inr (q, second) ↦ rw (first_none, second) (ground arith)
  ]
  | inr (p, first) ↦ elim (Option-cases y.product_id) [
    | inl second_none ↦ rw (first, second_none) (ground arith)
    | inr (q, second) ↦ rw (first, second) (ground arith)
  ]
]

updated-IsReviewBook :
    (now id : ℕ) (q : ReviewRow → Bool) (f : ReviewRow → ReviewRow) (s : Platform) (row : ReviewRow)
    → IsReviewBook s.reviews
    → find_one (named id) s.reviews ≡ some row
    → ((x : ReviewRow) → q x ≡ true → x.id ≡ row.id)
    → ((x : ReviewRow) → (f x).id ≡ x.id)
    → ((x y : ReviewRow) → same_subject (f x) y ≡ same_subject x y)
    → (IsSound row → IsSound (touch now (f row)))
    → IsReviewBook (update_where q (λ r. touch now (f r)) s.reviews)
updated-IsReviewBook now id q f s row book found names keeps left step = record {
  ids = IsKeyed-update_where (λ r. r.id) q _ s.reviews keeps book.ids;
  subjects =
      IsDistinct-update_where same_subject q _ s.reviews left
        (λ x y. same_subject_turned x (touch now (f y)) ∙ left y x ∙ same_subject_turned y x)
        book.subjects;
  sound =
      All-update_found (λ r. r.id) IsSound id s.reviews row q _ book.ids found names book.sound
        (step (All-find_one IsSound (named id) s.reviews row book.sound found));
}

hidden-IsSound :
    (now admin_id : ℕ) (reason : Text) (r : ReviewRow)
    → IsSound r
    → IsSound (touch now (set_hidden true (some reason) (some admin_id) (some now) r))
hidden-IsSound now admin_id reason r h = record {
  rated = h.rated;
  foreign = h.foreign;
  replied = h.replied;
  hiding = tt;
}

shown-IsSound :
    (now : ℕ) (r : ReviewRow) → IsSound r → IsSound (touch now (set_hidden false none none none r))
shown-IsSound now r h = record {
  rated = h.rated;
  foreign = h.foreign;
  replied = h.replied;
  hiding = tt;
}

replied-IsSound :
    (now : ℕ) (reply : Text) (r : ReviewRow)
    → IsSound r
    → IsSound (touch now (set_reply reply now r))
replied-IsSound now reply r h = record {
  rated = h.rated;
  foreign = h.foreign;
  replied = tt;
  hiding = h.hiding;
}

-- The id that a condition names is that of the row that was found under it.
own_id :
    (id : ℕ) (rows : List ReviewRow) (row x : ReviewRow)
    → find_one (named id) rows ≡ some row
    → (x.id == id) ≡ true
    → x.id ≡ row.id
own_id id rows row x found named_x =
    let mine = find_one_sound (named id) rows row found in ground arith

created-IsReviewBook :
    (reads : Bool) (id now reviewer_id : ℕ) (input : ReviewDetails) (s : Platform)
    (can : CanReview id reviewer_id input s)
    → IsReviewBook s.reviews
    → IsReviewBook (s.reviews ++ created_row reads id now reviewer_id input can.product s ∷ [])
created-IsReviewBook reads id now reviewer_id input s can book =
    let row = created_row reads id now reviewer_id input can.product s in
    record {
      ids = IsKeyed-append (λ r. r.id) s.reviews row book.ids can.fresh;
      subjects =
          IsDistinct-append same_subject s.reviews row same_subject_turned
            (rw (==_refl reviewer_id, ==_refl input.product_id) refl) book.subjects can.first;
      sound = All-append IsSound s.reviews _ book.sound (
        record {
          rated = can.in_range;
          foreign = λ seller same mine. can.other_seller (mine ∙ ground arith);
          replied = tt;
          hiding = tt;
        },
        tt,
      );
    }

-- A call whose outcome is known leaves the table that it names.
after :
    {A : Type 0} (result outcome : Result A × Platform)
    → result ≡ outcome
    → IsReviewBook outcome.1.reviews
    → IsReviewBook result.1.reviews
after result outcome same book = subst (λ t. IsReviewBook t.1.reviews) (sym same) book

pub run_call-IsReviewBook :
    (reads : Bool) (c : ReviewCall) (s : Platform)
    → IsReviewBook s.reviews
    → IsReviewBook (Calls.run_call reads c s).reviews
run_call-IsReviewBook reads (Calls.create now id reviewer_id input) s book =
    elim (create_review-cases reads id now reviewer_id input s) [
      | inl (e, refused) ↦ after _ _ refused book
      | inr (can, created) ↦
          after _ _ created (created-IsReviewBook reads id now reviewer_id input s can book)
    ]
run_call-IsReviewBook reads (Calls.reply now id seller_id text) s book =
    elim (reply_to_review-cases now id seller_id text s book.ids) [
      | inl (e, refused) ↦ after _ _ refused book
      | inr done ↦ after _ _ done.done (
          updated-IsReviewBook now id (awaits_reply id seller_id) (set_reply (trim text) now) s
            done.row book done.found
            (λ x chosen. own_id id s.reviews done.row x done.found (ground arith)) (λ x. refl)
            (λ x y. refl) (replied-IsSound now (trim text) done.row))
    ]
run_call-IsReviewBook reads (Calls.hide now id admin_id reason) s book =
    elim (hide_review-cases now id admin_id reason s book.ids) [
      | inl (e, refused) ↦ after _ _ refused book
      | inr done ↦ after _ _ done.done (
          updated-IsReviewBook now id (has_visibility id false)
            (set_hidden true (some (trim reason)) (some admin_id) (some now)) s done.row book
            done.found (λ x chosen. own_id id s.reviews done.row x done.found (ground arith))
            (λ x. refl) (λ x y. refl) (hidden-IsSound now admin_id (trim reason) done.row))
    ]
run_call-IsReviewBook reads (Calls.unhide now id) s book =
    elim (unhide_review-cases now id s book.ids) [
      | inl (e, refused) ↦ after _ _ refused book
      | inr done ↦ after _ _ done.done (
          updated-IsReviewBook now id (has_visibility id true) (set_hidden false none none none) s
            done.row book done.found
            (λ x chosen. own_id id s.reviews done.row x done.found (ground arith)) (λ x. refl)
            (λ x y. refl) (shown-IsSound now done.row))
    ]
run_call-IsReviewBook reads (Calls.elsewhere t) s book = book

-- A table of reviews with the following properties keeps them under any sequence of creations,
-- replies and changes of visibility, whether they succeed or throw, and whatever the other modules
-- write in between: ids are distinct; no reviewer has two reviews of one product; ratings are from
-- one to five; nobody reviews a product of their own; a reply has its time; and the reason, the
-- moderator and the time of hiding stand in hidden reviews and in no other.
pub run_calls-IsReviewBook :
    (reads : Bool) (cs : List ReviewCall) (s : Platform)
    → IsReviewBook s.reviews
    → IsReviewBook (Calls.run_calls reads cs s).reviews
run_calls-IsReviewBook reads [] s book = book
run_calls-IsReviewBook reads (c ∷ cs) s book =
    run_calls-IsReviewBook reads cs (Calls.run_call reads c s)
      (run_call-IsReviewBook reads c s book)
