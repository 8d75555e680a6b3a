-- ===== src/Base/Exec.antt =====
-- Service methods: they change the rows of a session and may raise an application error
-- (app/core/exceptions.py, app/domain/exceptions.py). What was flushed before a raise is still in
-- the session, so the state comes back beside the error too; `transaction` is the rollback.
use mathlib.Core.Path.{◌≡◌, refl, fun_ext}
use mathlib.Core.Bool.{Bool, true, false}
use mathlib.Core.Option.{Option, none, some}
use mathlib.Core.List.{List, [], ◌∷◌}

-- The exception classes. Their texts are not modelled.
pub data AppError : Type 0 where
  not_found : AppError
  validation : AppError
  invalid_invoice : AppError
  no_ksef_session : AppError
  ksef_not_connected : AppError
  invalid_status_transition : AppError
  insufficient_stock : AppError
  invalid_warehouse_document : AppError
  stock_error : AppError
  value_error : AppError
  duplicate_request : AppError
  multiple_rows : AppError
  integrity : AppError
  external_service : AppError
  mapping : AppError
  conflict : AppError
  internal : AppError

pub data Result (A : Type 0) : Type 0 where
  ok : A → Result A
  err : AppError → Result A

abbrev pub Exec : Type 0 → Type 0 → Type 0
Exec S A = S → Result A × S

module _ {S A : Type 0} where
  unfoldable pub pure : A → Exec S A
  pure a s = (ok a, s)

  unfoldable pub raise : AppError → Exec S A
  raise e s = (err e, s)

  unfoldable pub gets : (S → A) → Exec S A
  gets f s = (ok (f s), s)

  unfoldable pub lift : Result A → Exec S A
  lift r s = (r, s)

  -- `x = repo.get(…)`, and an error when it is None.
  unfoldable pub or_raise : Option A → AppError → Exec S A
  or_raise none e s = (err e, s)
  or_raise (some a) e s = (ok a, s)

module _ {S : Type 0} where
  -- `if test: raise e`
  unfoldable pub raise_if : Bool → AppError → Exec S (Unit {0})
  raise_if true e s = (err e, s)
  raise_if false e s = (ok tt, s)

  unfoldable pub modify : (S → S) → Exec S (Unit {0})
  modify f s = (ok tt, f s)

module _ {S A B : Type 0} where
  abbrev continue : Result A → (A → Exec S B) → Exec S B
  continue (err x) next st = (err x, st)
  continue (ok a) next st = next a st

  infixl 5 ◌>>=◌ ◌>>◌
  -- Opening this opens the simple steps too.
  unfoldable pub ◌>>=◌ : Exec S A → (A → Exec S B) → Exec S B
  unfolding pure raise gets lift or_raise raise_if modify
  ◌>>=◌ first next st = let (answer, st') = first st in continue answer next st'

  abbrev pub ◌>>◌ : Exec S A → Exec S B → Exec S B
  first >> rest = first >>= λ _. rest

module _ {S A : Type 0} where
  -- `for x in xs: body(x)`
  unfoldable pub each : (A → Exec S (Unit {0})) → List A → Exec S (Unit {0})
  each body [] = pure tt
  each body (x ∷ xs) = body x >> each body xs

  -- app/persistence/db.py get_session: commit, or rollback and raise again.
  unfoldable pub transaction : Exec S A → Exec S A
  transaction m s = let (r, s') = m s in elim r [ ok a ↦ (ok a, s') | err e ↦ (err e, s) ]

module _ {S A B : Type 0} where
  lift-ok : (r : Result A) (f : A → Exec S B) (s : S) {a : A} → r ≡ ok a → continue r f s ≡ f a s
  lift-ok (ok b) f s e = cc
  lift-ok (err x) f s e = cc

  lift-err :
      (r : Result A) (f : A → Exec S B) (s : S) {x : AppError}
      → r ≡ err x
      → continue r f s ≡ (err x, s)
  lift-err (ok b) f s e = cc
  lift-err (err x) f s e = cc

  -- A block whose first step returns goes on, and one whose first step raises is over.
  pub bind-ok :
      (m : Exec S A) (f : A → Exec S B) (s : S) {a : A} → (m s).0 ≡ ok a → (m >>= f) s ≡ f a (m s).1
  unfolding ◌>>=◌
  bind-ok m f s e = lift-ok (m s).0 f (m s).1 e

  pub bind-err :
      (m : Exec S A) (f : A → Exec S B) (s : S) {x : AppError}
      → (m s).0 ≡ err x
      → (m >>= f) s ≡ (err x, (m s).1)
  unfolding ◌>>=◌
  bind-err m f s e = lift-err (m s).0 f (m s).1 e

module _ {S A B C : Type 0} where
  answered_assoc :
      (second : A → Exec S B) (third : B → Exec S C) (answer : Result A) (st : S)
      → (continue answer second >>= third) st ≡ continue answer (λ a. second a >>= third) st
  unfolding ◌>>=◌
  answered_assoc second third (err x) st = refl
  answered_assoc second third (ok a) st = refl

  pub bind_assoc :
      (first : Exec S A) (second : A → Exec S B) (third : B → Exec S C)
      → ((first >>= second) >>= third) ≡ (first >>= λ a. second a >>= third)
  unfolding ◌>>=◌
  bind_assoc first second third =
      fun_ext λ st. answered_assoc second third (first st).0 (first st).1
