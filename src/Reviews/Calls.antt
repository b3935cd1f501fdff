-- ===== src/Reviews/Calls.antt =====
-- Sequences of calls that write reviews, between which other modules change their own tables.
use agrilink_backend.Base.{ℕ, Bool, List, [], ◌∷◌, Text}
use agrilink_backend.Reviews.UseCases.{
  ReviewDetails, create_review, reply_to_review, hide_review, unhide_review,
}
use agrilink_backend.Platform.{Platform}

-- The first number of a call is the time. `elsewhere` is what the other modules write.
pub data ReviewCall : Type 0 where
  create : ℕ → ℕ → ℕ → ReviewDetails → ReviewCall
  reply : ℕ → ℕ → ℕ → Text → ReviewCall
  hide : ℕ → ℕ → ℕ → Text → ReviewCall
  unhide : ℕ → ℕ → ReviewCall
  elsewhere : Platform → ReviewCall

module _ (reads_purchases : Bool) where
  abbrev pub run_call : ReviewCall → Platform → Platform
  run_call (create now id reviewer_id input) s =
      (create_review reads_purchases id now reviewer_id input s).1
  run_call (reply now id seller_id text) s = (reply_to_review now id seller_id text s).1
  run_call (hide now id admin_id reason) s = (hide_review now id admin_id reason s).1
  run_call (unhide now id) s = (unhide_review now id s).1
  run_call (elsewhere t) s = record t { reviews = s.reviews }

  abbrev pub run_calls : List ReviewCall → Platform → Platform
  run_calls [] s = s
  run_calls (c ∷ cs) s = run_calls cs (run_call c s)
