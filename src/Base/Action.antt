-- ===== src/Base/Action.antt =====
-- A call that may throw and that reads and writes a store. What was written before a throw stays
-- written; `transaction` is what undoes it.
use mathlib.Core.Bool.{Bool, true, false}
use mathlib.Core.Option.{Option, none, some}
use agrilink_backend.Base.Errors.{Error, Result, ok, err}

abbrev pub Action : Type 0 → Type 0 → Type 0
Action S A = S → Result A × S

module _ {S A : Type 0} where
  abbrev pub pure : A → Action S A
  pure a s = (ok a, s)

  abbrev pub throw : Error → Action S A
  throw e s = (err e, s)

  abbrev pub gets : (S → A) → Action S A
  gets f s = (ok (f s), s)

  abbrev pub lift : Result A → Action S A
  lift r s = (r, s)

  -- `if (!value) throw …; … value …`
  abbrev pub or_throw : Option A → Error → Action S A
  or_throw none e s = (err e, s)
  or_throw (some a) e s = (ok a, s)

  -- A throw rolls the store back.
  abbrev pub rollback : S → Result A × S → Result A × S
  rollback s (ok a, s') = (ok a, s')
  rollback s (err e, s') = (err e, s)

  -- `TypeOrmTransactionContext.execute`: `dataSource.transaction`, unless one is open already.
  unfoldable pub execute : Bool → Action S A → Action S A
  execute true m s = m s
  execute false m s = rollback s (m s)

-- `try { … } catch (error) { … }`
abbrev pub handled : {S A : Type 0} → Result A × S → (Error → Action S A) → Result A × S
handled (ok a, s) handler = (ok a, s)
handled (err e, s) handler = handler e s

abbrev pub attempt : {S A : Type 0} → Action S A → (Error → Action S A) → Action S A
attempt m handler s = handled (m s) handler

-- What follows a call: a throw of it skips the rest.
abbrev pub and_then : {S A B : Type 0} → Result A × S → (A → Action S B) → Result B × S
and_then (ok a, s) f = f a s
and_then (err e, s) f = (err e, s)

infixl 5 ◌>>=◌ ◌>>◌
abbrev pub ◌>>=◌ : {S A B : Type 0} → Action S A → (A → Action S B) → Action S B
◌>>=◌ m f s = and_then (m s) f

abbrev pub ◌>>◌ : {S A B : Type 0} → Action S A → Action S B → Action S B
m >> k = m >>= λ _. k

abbrev pub throw_if : {S : Type 0} → Bool → Error → Action S (Unit {0})
throw_if true e s = (err e, s)
throw_if false e s = (ok tt, s)

abbrev pub modify : {S : Type 0} → (S → S) → Action S (Unit {0})
modify f s = (ok tt, f s)
