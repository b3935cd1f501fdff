-- ===== src/Commerce/Operations/Refusal.antt =====
-- A new operation whose body cannot succeed throws and leaves the store as it was.
use agrilink_backend.Base.{ℕ, ◌≡◌, refl, ◌∙◌, Option, none, Error, Result, ok, err}
use agrilink_backend.Base.Action.{Action, rollback}
use agrilink_backend.Base.Table.{find_one}
use agrilink_backend.Commerce.Operations.{OperationKey, in_scope, idempotent}
use agrilink_backend.Commerce.Operations.Replay.{claimed_store, idempotent_new}
use agrilink_backend.Store.{Store}

rollback_refused :
    {B : Type 0} (s : Store) (r : Result B × Store)
    → ((b : B) (t : Store) → ¬ (r ≡ (ok b, t)))
    → (e : Error) × (rollback s r ≡ (err e, s))
rollback_refused s (ok b, t) never = absurd (never b t refl)
rollback_refused s (err e, t) never = (e, refl)

pub idempotent_refused :
    {A B : Type 0} (wrap : A → B) (find_by_id : ℕ → Action Store (Option A)) (id : ℕ)
    (k : OperationKey) (body : ℕ → Action Store B) (s : Store)
    → find_one (in_scope k) s.operations ≡ none
    → ((b : B) (t : Store) → ¬ (body id (claimed_store id k s) ≡ (ok b, t)))
    → (e : Error) × (idempotent wrap find_by_id id k body s ≡ (err e, s))
idempotent_refused wrap find_by_id id k body s new never =
    let (e, refused) = rollback_refused s (body id (claimed_store id k s)) never in
    (e, idempotent_new wrap find_by_id id k body s new ∙ refused)
