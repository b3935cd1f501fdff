-- ===== src/Reviews/Hiding.antt =====
-- Hiding a review and showing it again.
use agrilink_backend.Base.{
  ℕ, Bool, true, false, ◌≡◌, refl, sym, subst, ap, ◌∙◌, inl, inr, Option, none, some, Text, ok,
  ◌==◌, if◌then◌else◌, Bool-cases,
}
use agrilink_backend.Base.Affected.{update_where-twice}
use agrilink_backend.Base.Keyed.{IsKeyed-update_where, All-map, found_unique, All-find_one}
use agrilink_backend.Base.Table.{find_one, update_where}
use agrilink_backend.Base.TableLaws.{find_one-update_where, find_one_sound}
use agrilink_backend.Base.Words.{trim}
use agrilink_backend.Reviews.Book.{IsReviewBook, IsSound, HidingFits}
use agrilink_backend.Reviews.Models.{ReviewModel}
use agrilink_backend.Reviews.Repository.{has_visibility, set_hidden, touch}
use agrilink_backend.Reviews.UseCases.{hide_review, unhide_review}
use agrilink_backend.Reviews.Updates.{named, hide_review-runs, unhide_review-runs}
use agrilink_backend.Platform.{Platform, ReviewRow}

hiding_none :
    (h : Bool) (a : Option Text) (b c : Option ℕ)
    → h ≡ false
    → HidingFits h a b c
    → (a ≡ none) × (b ≡ none) × (c ≡ none)
hiding_none true a b c e fits = absurd (cc)
hiding_none false none none none e fits = (refl, refl, refl)
hiding_none false (some a) b c e fits = elim fits [ ]
hiding_none false none (some b) c e fits = elim fits [ ]
hiding_none false none none (some c) e fits = elim fits [ ]

set_hidden-same :
    (r : ReviewRow) {h h' : Bool} {a a' : Option Text} {b b' c c' : Option ℕ}
    → h ≡ h'
    → a ≡ a'
    → b ≡ b'
    → c ≡ c'
    → set_hidden h a b c r ≡ set_hidden h' a' b' c' r
set_hidden-same r e f g i = rw (e, f, g, i) refl

unhidden :
    (r : ReviewRow)
    → r.is_hidden ≡ false
    → HidingFits r.is_hidden r.hidden_reason r.hidden_by r.hidden_at
    → set_hidden false none none none r ≡ r
unhidden r visible fits =
    let (reason, by, at) =
      hiding_none r.is_hidden r.hidden_reason r.hidden_by r.hidden_at visible fits in
    set_hidden-same r (sym visible) (sym reason) (sym by) (sym at)

-- A visible review that is hidden and then shown again is back as it was, and so is the rest of the
-- table: only the time of the last change differs. Both calls succeed.
pub unhide_review-hide_review :
    (now later id admin_id : ℕ) (reason : Text) (s : Platform) (row : ReviewRow)
    → IsReviewBook s.reviews
    → find_one (named id) s.reviews ≡ some row
    → row.is_hidden ≡ false
    → (m : ReviewModel) × (m' : ReviewModel) × ((hide_review now id admin_id reason s).0 ≡ ok m)
      × (unhide_review later id (hide_review now id admin_id reason s).1
          ≡ (ok m', record s { reviews = update_where (named id) (touch later) s.reviews }))
unhide_review-hide_review now later id admin_id reason s row book found visible =
    let q = has_visibility id false in
    let f : ReviewRow → ReviewRow =
      λ r. touch now (set_hidden true (some (trim reason)) (some admin_id) (some now) r) in
    let between = record s { reviews = update_where q f s.reviews } in
    let own = find_one_sound (named id) s.reviews row found in
    let chosen : q row ≡ true = rw (own, visible) refl in
    let again : find_one (named id) between.reviews ≡ some (f row) =
      find_one-update_where (named id) q f s.reviews (λ r. refl) ∙ rw (found, chosen) refl in
    let hidden = hide_review-runs now id admin_id reason s row book.ids found visible in
    let shown =
      unhide_review-runs later id between (f row)
        (IsKeyed-update_where (λ r. r.id) q f s.reviews (λ r. refl) book.ids) again refl in
    let same =
      update_where-twice q (has_visibility id true) (named id) f
        (λ r. touch later (set_hidden false none none none r)) (touch later) s.reviews
        (All-map _ _
          (λ x only. elim (Bool-cases (x.id == id)) [
            | inr other ↦ rw (other, other) refl
            | inl mine ↦
                let once : ReviewRow → Type 0 = λ y.
                  (if has_visibility id true (if q y then f y else y)
                    then touch later (set_hidden false none none none (if q y then f y else y))
                    else (if q y then f y else y))
                  ≡ (if named id y then touch later y else y) in
                subst once (sym (only mine)) (
                  rw (chosen, own)
                    (ap (touch later) (
                      unhidden row visible
                        (All-find_one IsSound (named id) s.reviews row book.sound found).hiding)))
          ])
          s.reviews (found_unique (λ r. r.id) id s.reviews row book.ids found)) in
    (
      hidden.model,
      shown.model,
      ap (λ t. t.0) hidden.done,
      ap (λ t. unhide_review later id t.1) hidden.done
          ∙ shown.done
          ∙ ap (λ rows. (ok shown.model, record s { reviews = rows })) same,
    )
