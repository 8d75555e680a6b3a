-- ===== src/Base/Ensures.antt =====
-- What a service method has done when it returns.
use mathlib.Core.Path.{◌≡◌, refl}
use mathlib.Core.Bool.{Bool, true, false}
use ifg.Base.Tests.{if◌then◌else◌}
use mathlib.Core.Option.{Option, none, some}
use ifg.Base.Exec.{
  Exec, Result, ok, err, AppError, ◌>>=◌, ◌>>◌, pure, raise, gets, or_raise, raise_if, modify,
  bind-ok, bind-err,
}

-- From `s`, if `m` returns `a`, then `Q` holds of `a` and of the state that it leaves.
pub record Ensures {S A : Type 0} (Q : A → S → Type 0) (m : Exec S A) (s : S) : Type 0 where
  pub holds : (a : A) → (m s).0 ≡ ok a → Q a (m s).1

module _ {S A : Type 0} {Q : A → S → Type 0} where
  pub Ensures-pure : (a : A) (s : S) → Q a s → Ensures Q (pure a) s
  unfolding ◌>>=◌
  Ensures-pure a s h = record { holds = λ b e. let same : a ≡ b = cc in rw (← same) h }

  pub Ensures-raise : (x : AppError) (s : S) → Ensures Q (raise x) s
  unfolding ◌>>=◌
  Ensures-raise x s = record { holds = λ b e. cc }

module _ {S A B : Type 0} {Q : B → S → Type 0} where
  -- The block has returned, so its first step has.
  pub Ensures-bind :
      (m : Exec S A) (f : A → Exec S B) (s : S)
      → ((a : A) → (m s).0 ≡ ok a → Ensures Q (f a) (m s).1)
      → Ensures Q (m >>= f) s
  Ensures-bind m f s k = record { holds = λ b e. go (m s).0 refl b e }
    where
      go : (r : Result A) → (m s).0 ≡ r → (b : B) → ((m >>= f) s).0 ≡ ok b → Q b ((m >>= f) s).1
      go (ok a) h b e = rw (bind-ok m f s h) ((k a h).holds b (rw (bind-ok m f s h) at e))
      go (err x) h b e = let wrong : err x ≡ ok b = rw (bind-err m f s h) at e in cc

  pub Ensures-gets :
      (g : S → A) (f : A → Exec S B) (s : S) → Ensures Q (f (g s)) s → Ensures Q (gets g >>= f) s
  unfolding ◌>>=◌
  Ensures-gets g f s h = record { holds = h.holds }

  pub Ensures-or_raise :
      (o : Option A) (x : AppError) (f : A → Exec S B) (s : S)
      → ((a : A) → o ≡ some a → Ensures Q (f a) s)
      → Ensures Q (or_raise o x >>= f) s
  unfolding ◌>>=◌
  Ensures-or_raise none x f s k = record { holds = λ b e. cc }
  Ensures-or_raise (some a) x f s k = record { holds = (k a refl).holds }

module _ {S A : Type 0} {Q : A → S → Type 0} where
  pub Ensures-guard :
      (b : Bool) (x : AppError) (m : Exec S A) (s : S)
      → (b ≡ false → Ensures Q m s)
      → Ensures Q (raise_if b x >> m) s
  unfolding ◌>>=◌
  Ensures-guard true x m s k = record { holds = λ b e. cc }
  Ensures-guard false x m s k = record { holds = (k refl).holds }

  pub Ensures-map :
      {R : A → S → Type 0} (m : Exec S A) (s : S)
      → Ensures R m s
      → ((a : A) → R a (m s).1 → Q a (m s).1)
      → Ensures Q m s
  Ensures-map m s h k = record { holds = λ a e. k a (h.holds a e) }

  pub Ensures-if :
      (b : Bool) (m n : Exec S A) (s : S)
      → (b ≡ true → Ensures Q m s)
      → (b ≡ false → Ensures Q n s)
      → Ensures Q (if b then m else n) s
  Ensures-if true m n s km kn = km refl
  Ensures-if false m n s km kn = kn refl

module _ {S : Type 0} {Q : S → Type 0} where
  pub Ensures-modify : (f : S → S) (s : S) → Q (f s) → Ensures (λ _ s'. Q s') (modify f) s
  unfolding ◌>>=◌
  Ensures-modify f s h = record { holds = λ _ _. h }
