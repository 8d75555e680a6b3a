-- ===== src/Base/Keeps.antt =====
-- Invariants of service methods, one rule for each way to build a method.
use mathlib.Core.Path.{◌≡◌, refl}
use mathlib.Core.Bool.{Bool, true, false}
use mathlib.Core.Option.{Option, none, some}
use mathlib.Core.List.{List, [], ◌∷◌}
use ifg.Base.Lists.{All}
use ifg.Base.Tests.{if◌then◌else◌}
use ifg.Base.Exec.{
  Exec, Result, ok, err, AppError, ◌>>=◌, ◌>>◌, pure, raise, gets, lift, or_raise, raise_if, modify,
  each, transaction,
}

-- `m` keeps `P`, whether it returns or raises.
pub record Keeps {S A : Type 0} (P : S → Type 0) (m : Exec S A) : Type 0 where
  pub at : (s : S) → P s → P (m s).1

module _ {S A : Type 0} {P : S → Type 0} where
  -- A step that only reads or raises.
  reads-Keeps : (step : Exec S A) → ((st : S) → (step st).1 ≡ st) → Keeps P step
  reads-Keeps step same = record { at = λ st inv. rw (same st) inv }

  pub Keeps-lift : (answer : Result A) → Keeps P (lift answer)
  unfolding lift
  Keeps-lift answer = reads-Keeps (lift answer) (λ st. refl)

  pub Keeps-raise : (error : AppError) → Keeps P (raise {A = A} error)
  unfolding raise
  Keeps-raise error = reads-Keeps (raise error) (λ st. refl)

  pub Keeps-gets : (query : S → A) → Keeps P (gets query)
  unfolding gets
  Keeps-gets query = reads-Keeps (gets query) (λ st. refl)

  pub Keeps-pure : (value : A) → Keeps P (pure value)
  unfolding pure
  Keeps-pure value = reads-Keeps (pure value) (λ st. refl)

  pub Keeps-if :
      (test : Bool) (whole other : Exec S A)
      → (test ≡ true → Keeps P whole)
      → (test ≡ false → Keeps P other)
      → Keeps P (if test then whole else other)
  Keeps-if false whole other on_true on_false = on_false refl
  Keeps-if true whole other on_true on_false = on_true refl

module _ {S : Type 0} {P : S → Type 0} where
  pub Keeps-modify : (f : S → S) → ((s : S) → P s → P (f s)) → Keeps P (modify f)
  unfolding modify
  Keeps-modify f k = record { at = k }

module _ {S A B : Type 0} {P : S → Type 0} where
  leads-continue :
      (Q : S → Type 0) (next : A → Exec S B)
      → ((s : S) → P s → Q s)
      → ((a : A) (s : S) → P s → Q (next a s).1)
      → (r : Result A) (s : S) → P s
      → Q ((lift r >>= next) s).1
  unfolding ◌>>=◌
  leads-continue Q next weaker kept (ok a) s inv = kept a s inv
  leads-continue Q next weaker kept (err e) s inv = weaker s inv

  -- From one condition to another: the first step keeps `P`, and what follows makes `Q` of it.
  pub bind-leads :
      (Q : S → Type 0) (m : Exec S A) (f : A → Exec S B)
      → Keeps P m
      → ((s : S) → P s → Q s)
      → ((a : A) (s : S) → P s → Q (f a s).1)
      → (s : S) → P s
      → Q ((m >>= f) s).1
  unfolding ◌>>=◌
  bind-leads Q m f km weaker kf s h =
      let (r, s') = m s in leads-continue Q f weaker kf r s' (km.at s h)

  pub Keeps-bind :
      (first : Exec S A) (next : A → Exec S B)
      → Keeps P first
      → ((a : A) → Keeps P (next a))
      → Keeps P (first >>= next)
  Keeps-bind first next kept each_kept = record {
    at = bind-leads P first next kept (λ _ inv. inv) (λ a st inv. (each_kept a).at st inv);
  }

  -- What follows may use that the step did not raise.
  pub Keeps-or_raise :
      (o : Option A) (e : AppError) (f : A → Exec S B)
      → ((a : A) → o ≡ some a → Keeps P (f a))
      → Keeps P (or_raise o e >>= f)
  unfolding ◌>>=◌
  Keeps-or_raise none e f k = record { at = λ s h. h }
  Keeps-or_raise (some a) e f k = record { at = λ s h. (k a refl).at s h }

  pub Keeps-gets_bind :
      (g : S → A) (f : A → Exec S B) → ((s : S) → P s → P (f (g s) s).1) → Keeps P (gets g >>= f)
  unfolding ◌>>=◌
  Keeps-gets_bind g f k = record { at = k }

module _ {S A : Type 0} where
  transaction-continue :
      (P : S → Type 0) (r : Result A) (s s' : S)
      → P s
      → P s'
      → P (elim r as (λ _. Result A × S) [ ok a ↦ (ok a, s') | err e ↦ (err e, s) ]).1
  transaction-continue P (ok a) s s' h k = k
  transaction-continue P (err e) s s' h k = h

module _ {S A : Type 0} {P : S → Type 0} where
  pub Keeps-guard :
      (b : Bool) (e : AppError) (m : Exec S A)
      → (b ≡ false → Keeps P m)
      → Keeps P (raise_if b e >> m)
  unfolding ◌>>=◌
  Keeps-guard true e m k = record { at = λ s h. h }
  Keeps-guard false e m k = record { at = λ s h. (k refl).at s h }

  -- Where the entries are known to meet a condition.
  pub Keeps-each :
      (Q : A → Type 0) (body : A → Exec S (Unit {0}))
      → ((a : A) → Q a → Keeps P (body a))
      → (xs : List A) → All Q xs
      → Keeps P (each body xs)
  unfolding each
  Keeps-each Q body k [] q = Keeps-pure tt
  Keeps-each Q body k (x ∷ xs) q =
      Keeps-bind (body x) (λ _. each body xs) (k x q.0) (λ _. Keeps-each Q body k xs q.1)

  pub Keeps-transaction : (m : Exec S A) → Keeps P m → Keeps P (transaction m)
  unfolding transaction
  Keeps-transaction m km = record {
    at = λ s h. let (r, s') = m s in transaction-continue P r s s' h (km.at s h);
  }

pub ruleset keeps_rules = (
  Keeps-pure, Keeps-raise, Keeps-gets, Keeps-lift, Keeps-if, Keeps-modify, Keeps-or_raise,
  Keeps-guard, Keeps-bind,
)
