-- ===== src/Commerce/Operations/Replay.antt =====
-- What the claim of an operation key returns, and that a second run of an operation replays the
-- first.
use agrilink_backend.Base.{
  ℕ, Bool, true, false, ◌≡◌, refl, ap, inl, inr, Option, none, some, [], ◌∷◌, ◌++◌, Error, Result,
  ok, err, idempotency_conflict, ◌==◌, if◌then◌else◌, Bool-cases, Option-cases, arith, ==_eq,
  ==_refl, ==_ne, ==_ne_of_false, ◌∙◌, sym, subst, ◌≢◌, ◌⊎◌,
}
use agrilink_backend.Base.Action.{Action, pure, ◌>>=◌, and_then, rollback}
use agrilink_backend.Base.Table.{find_one, update_where}
use agrilink_backend.Base.TableLaws.{find_one-append_new, find_one-update_where}
use agrilink_backend.Store.{OperationRow, Store}
use agrilink_backend.Commerce.Operations.{
  OperationKey, in_scope, new_operation, claim, is_started, completed_by, replay, idempotent,
  type_code,
}

in_scope-new_operation : (id : ℕ) (k : OperationKey) → in_scope k (new_operation id k) ≡ true
in_scope-new_operation id k =
    ground
      (arith, ==_refl k.actor_id, ==_refl (type_code k.operation_type), ==_refl k.idempotency_key)

-- A key that is not in the table is claimed: its row is added.
pub claim_new :
    (id : ℕ) (k : OperationKey) (s : Store)
    → find_one (in_scope k) s.operations ≡ none
    → claim id k s ≡ (
      ok (new_operation id k, true),
      record s { operations = s.operations ++ new_operation id k ∷ [] },
    )
unfolding claim
claim_new id k s h = ground (
  arith,
  find_one-append_new (in_scope k) s.operations (new_operation id k) h
      (in_scope-new_operation id k),
  ==_refl k.request_fingerprint,
)

-- A key in the table is not claimed, and has to come with the fingerprint of its row.
pub claim_old :
    (id : ℕ) (k : OperationKey) (s : Store) (r : OperationRow)
    → find_one (in_scope k) s.operations ≡ some r
    → claim id k s ≡ (
      (if r.request_fingerprint == k.request_fingerprint
          then ok (r, false)
          else err idempotency_conflict),
      s,
    )
unfolding claim
claim_old id k s r h = ground arith

ok-ne-err :
    {A : Type 0} {a : A} {s t : Store} {e : Error}
    → ◌≡◌ {A = Result A × Store} (ok a, s) (err e, t)
    → ⊥
ok-ne-err h = cc

-- The store in which the body of an operation with a new key runs.
abbrev pub claimed_store : ℕ → OperationKey → Store → Store
claimed_store id k s = record s { operations = s.operations ++ new_operation id k ∷ [] }

pub rollback-eq-ok :
    {S A : Type 0} (s s' : S) (r : Result A × S) {a : A}
    → rollback s r ≡ (ok a, s')
    → r ≡ (ok a, s')
rollback-eq-ok s s' (ok b, t) h = h
rollback-eq-ok s s' (err e, t) h = cc

pub rollback-eq-err :
    {S A : Type 0} (s : S) (r : Result A × S) (e : Error)
    → (rollback s r).0 ≡ err e
    → (rollback s r).1 ≡ s
rollback-eq-err s (ok b, t) e h = cc
rollback-eq-err s (err d, t) e h = refl

module _ {A B : Type 0} (wrap : A → B) (find_by_id : ℕ → Action Store (Option A)) (id : ℕ)
    (k : OperationKey) (body : ℕ → Action Store B) (s : Store) where
  abbrev resume : Result (OperationRow × Bool) × Store → Result B × Store
  resume r = rollback s (
      and_then r (λ c. if c.1 then body c.0.id else (replay find_by_id c.0 >>= λ a. pure (wrap a))))

  -- With a new key the body runs, and a throw of it takes everything back.
  pub idempotent_new :
      find_one (in_scope k) s.operations ≡ none
      → idempotent wrap find_by_id id k body s ≡ rollback s (body id (claimed_store id k s))
  unfolding idempotent
  idempotent_new h = ap resume (claim_new id k s h)

  -- With the key and the fingerprint of an earlier call the recorded result is read.
  pub idempotent_old :
      (r : OperationRow)
      → find_one (in_scope k) s.operations ≡ some r
      → r.request_fingerprint ≡ k.request_fingerprint
      → idempotent wrap find_by_id id k body s
        ≡ rollback s ((replay find_by_id r >>= λ a. pure (wrap a)) s)
  unfolding idempotent
  idempotent_old r h same =
      ap resume (claim_old id k s r h) ∙ rw (same, ==_refl k.request_fingerprint)

  -- The key of an earlier call with another fingerprint is refused.
  pub idempotent_conflict :
      (r : OperationRow)
      → find_one (in_scope k) s.operations ≡ some r
      → r.request_fingerprint ≢ k.request_fingerprint
      → idempotent wrap find_by_id id k body s ≡ (err idempotency_conflict, s)
  unfolding idempotent
  idempotent_conflict r h other =
      ap resume (claim_old id k s r h)
      ∙ rw (==_ne r.request_fingerprint k.request_fingerprint other)

  -- A call that throws leaves the store as it was.
  pub idempotent_rollback :
      (e : Error)
      → (idempotent wrap find_by_id id k body s).0 ≡ err e
      → (idempotent wrap find_by_id id k body s).1 ≡ s
  unfolding idempotent
  idempotent_rollback e h = rollback-eq-err s _ e h

  -- The two ways in which a call succeeds.
  pub idempotent-eq-ok :
      {b : B} {s' : Store}
      → idempotent wrap find_by_id id k body s ≡ (ok b, s')
      → ((find_one (in_scope k) s.operations ≡ none)
          × (body id (claimed_store id k s) ≡ (ok b, s')))
        ⊎ ((r : OperationRow) × (find_one (in_scope k) s.operations ≡ some r)
            × (r.request_fingerprint ≡ k.request_fingerprint)
            × ((replay find_by_id r >>= λ a. pure (wrap a)) s ≡ (ok b, s')))
  idempotent-eq-ok {b} {s'} h = elim (Option-cases (find_one (in_scope k) s.operations)) [
    | inl new ↦ inl (new, rollback-eq-ok s s' _ (sym (idempotent_new new) ∙ h))
    | inr (r, old) ↦ elim (Bool-cases (r.request_fingerprint == k.request_fingerprint)) [
      | inl same ↦
          let e = ==_eq r.request_fingerprint k.request_fingerprint same in
          inr (r, old, e, rollback-eq-ok s s' _ (sym (idempotent_old r old e) ∙ h))
      | inr other ↦
          absurd (ok-ne-err (sym h ∙ idempotent_conflict r old (==_ne_of_false _ _ other)))
    ]
  ]

module _ {A B : Type 0} (wrap : A → B) (find_by_id : ℕ → Action Store (Option A)) where
  -- What the body of an operation does at its end: it completes its row with the id under which
  -- its result is found.
  abbrev pub Finishes : (ℕ → Action Store B) → Type 0
  Finishes body =
      (i : ℕ) (t t' : Store) (b : B)
      → body i t ≡ (ok b, t')
      → (reference : ℕ) × (a : A) × (t'.operations
          ≡ update_where (is_started i) (completed_by reference reference) t.operations)
        × (find_by_id reference t' ≡ (ok (some a), t'))
        × (b ≡ wrap a)

  abbrev pub Reads : Type 0
  Reads = (reference : ℕ) (t : Store) → (find_by_id reference t).1 ≡ t

  replay_reads :
      Reads
      → (r : OperationRow) (t t' : Store) {b : B}
      → (replay find_by_id r >>= λ a. pure (wrap a)) t ≡ (ok b, t')
      → t ≡ t'
  unfolding replay
  replay_reads reads r t t' h = elim (Option-cases r.result_reference) [
    | inl never ↦ ground arith
    | inr (reference, e) ↦ ground (arith, reads reference t)
  ]

  found_completed :
      (id reference : ℕ) (k : OperationKey) (s : Store)
      → find_one (in_scope k) s.operations ≡ none
      → find_one (in_scope k) (
          update_where
            (is_started id)
            (completed_by reference reference)
            (claimed_store id k s).operations)
        ≡ some (completed_by reference reference (new_operation id k))
  found_completed id reference k s new =
      find_one-update_where (in_scope k) (is_started id) (completed_by reference reference)
        (claimed_store id k s).operations (λ r. refl)
      ∙ rw (
        find_one-append_new (in_scope k) s.operations (new_operation id k) new
            (in_scope-new_operation id k),
        ==_refl id,
      )

  replay_completed :
      (id reference : ℕ) (k : OperationKey) (t : Store) (a : A)
      → find_by_id reference t ≡ (ok (some a), t)
      → (replay find_by_id (completed_by reference reference (new_operation id k)) >>= λ b.
            pure (wrap b))
          t
        ≡ (ok (wrap a), t)
  unfolding replay
  replay_completed id reference k t a found = rw found

  again_new :
      (id id' : ℕ) (k : OperationKey) (body body' : ℕ → Action Store B) (s s' : Store) {b : B}
      → find_one (in_scope k) s.operations ≡ none
      → body id (claimed_store id k s) ≡ (ok b, s')
      → Finishes body
      → idempotent wrap find_by_id id' k body' s' ≡ (ok b, s')
  again_new id id' k body body' s s' {b} new ran finishes =
      let (reference, a, operations, found, result) = finishes id (claimed_store id k s) s' b ran in
      let stored : find_one (in_scope k) s'.operations
          ≡ some (completed_by reference reference (new_operation id k)) =
        rw operations (found_completed id reference k s new) in
      idempotent_old wrap find_by_id id' k body' s' _ stored refl
      ∙ ap (rollback s') (replay_completed id reference k s' a found)
      ∙ rw result

  -- A second call with the key and the fingerprint of a call that succeeded returns its result and
  -- leaves the store alone.
  pub idempotent_again :
      Reads
      → (id id' : ℕ) (k : OperationKey) (body body' : ℕ → Action Store B) (s s' : Store) {b : B}
      → Finishes body
      → idempotent wrap find_by_id id k body s ≡ (ok b, s')
      → idempotent wrap find_by_id id' k body' s' ≡ (ok b, s')
  idempotent_again reads id id' k body body' s s' {b} finishes h =
      elim (idempotent-eq-ok wrap find_by_id id k body s h) [
        | inl (new, ran) ↦ again_new id id' k body body' s s' new ran finishes
        | inr (r, old, same, ran) ↦
            let unchanged = replay_reads reads r s s' ran in
            subst (λ t. idempotent wrap find_by_id id' k body' t ≡ (ok b, s')) unchanged
              (idempotent_old wrap find_by_id id' k body' s r old same ∙ ap (rollback s) ran)
      ]

rollback_preserves :
    {S A : Type 0} (P : S → Type 0) (s : S) (r : Result A × S)
    → ((a : A) (s' : S) → r ≡ (ok a, s') → P s')
    → P s
    → P (rollback s r).1
rollback_preserves P s (ok a, s') keep h = keep a s' refl
rollback_preserves P s (err e, s') keep h = h

module _ {A B : Type 0} (wrap : A → B) (find_by_id : ℕ → Action Store (Option A)) where
  -- What the body of an operation keeps when it succeeds, the operation keeps.
  pub idempotent_preserves :
      Reads wrap find_by_id
      → (P : Store → Type 0) (id : ℕ) (k : OperationKey) (body : ℕ → Action Store B) (s : Store)
      → ((b : B) (t : Store) → body id (claimed_store id k s) ≡ (ok b, t) → P t)
      → P s
      → P (idempotent wrap find_by_id id k body s).1
  idempotent_preserves reads P id k body s keep h =
      elim (Option-cases (find_one (in_scope k) s.operations)) [
        | inl new ↦
            rw (idempotent_new wrap find_by_id id k body s new) (rollback_preserves P s _ keep h)
        | inr (r, old) ↦ elim (Bool-cases (r.request_fingerprint == k.request_fingerprint)) [
          | inl same ↦
              rw
                (idempotent_old wrap find_by_id id k body s r old
                  (==_eq r.request_fingerprint k.request_fingerprint same))
                (rollback_preserves P s _
                  (λ b t ran. subst P (replay_reads wrap find_by_id reads r s t ran) h) h)
          | inr other ↦
              rw (idempotent_conflict wrap find_by_id id k body s r old (==_ne_of_false _ _ other))
                h
        ]
      ]
