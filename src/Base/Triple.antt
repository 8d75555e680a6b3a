-- ===== src/Base/Triple.antt =====
-- What a service method makes of a condition: one rule for each way to build a method.
use mathlib.Core.Path.{◌≡◌, refl, subst}
use mathlib.Core.Bool.{Bool, true, false}
use mathlib.Core.Option.{Option, none, some}
use ifg.Base.Tests.{if◌then◌else◌}
use ifg.Base.Exec.{
  Exec, Result, ok, err, AppError, ◌>>=◌, ◌>>◌, pure, raise, gets, lift, or_raise, raise_if, modify,
  transaction,
}

module _ {S A : Type 0} where
  abbrev pub Post : (A → S → Type 0) → (S → Type 0) → Result A → S → Type 0
  Post Q R (ok a) s = Q a s
  Post Q R (err _) s = R s

  -- From a state with `P`: if `m` returns `a`, then `Q a` holds, and if it raises, then `R`.
  pub record Triple (P : S → Type 0) (Q : A → S → Type 0) (R : S → Type 0) (m : Exec S A)
      : Type 0 where
    pub at : (s : S) → P s → Post Q R (m s).0 (m s).1

  after-Post :
      (Q Q' : A → S → Type 0) (R : S → Type 0)
      → ((a : A) (s : S) → Q a s → Q' a s)
      → (r : Result A) (s : S) → Post Q R r s
      → Post Q' R r s
  after-Post Q Q' R k (ok a) s q = k a s q
  after-Post Q Q' R k (err e) s q = q

  -- What holds after a method that has answered
  pub Triple-ok :
      {P R : S → Type 0} (Q : A → S → Type 0) {m : Exec S A}
      → Triple P Q R m
      → (s : S) → P s
      → {a : A} {s' : S} → m s ≡ (ok a, s')
      → Q a s'
  Triple-ok {P} {R} Q {m} t s p {a} {s'} e =
      subst (λ (x : Result A × S). Post Q R x.0 x.1) e (t.at s p)

  module _ {P : S → Type 0} {Q : A → S → Type 0} {R : S → Type 0} where
    pub Triple-pure : (a : A) → ((s : S) → P s → Q a s) → Triple P Q R (pure a)
    unfolding pure
    Triple-pure a k = record { at = k }

    pub Triple-raise : (e : AppError) → ((s : S) → P s → R s) → Triple P Q R (raise e)
    unfolding raise
    Triple-raise e k = record { at = k }

    pub Triple-if :
        (b : Bool) (m n : Exec S A)
        → (b ≡ true → Triple P Q R m)
        → (b ≡ false → Triple P Q R n)
        → Triple P Q R (if b then m else n)
    Triple-if true m n km kn = km refl
    Triple-if false m n km kn = kn refl

    pub Triple-gets_last : (g : S → A) → ((s : S) → P s → Q (g s) s) → Triple P Q R (gets g)
    unfolding gets
    Triple-gets_last g k = record { at = k }

    pub Triple-before :
        {P' : S → Type 0} (m : Exec S A) → Triple P Q R m → ((s : S) → P' s → P s) → Triple P' Q R m
    Triple-before m t k = record { at = λ s p. t.at s (k s p) }

    -- What is known of values, not of the state
    pub Triple-facts :
        {F G : Type 0} (m : Exec S A) → (F → G → Triple P Q R m) → Triple (λ s. P s × F × G) Q R m
    Triple-facts m k = record { at = λ s h. (k h.1 h.2).at s h.0 }

    -- What the state makes known may be used to prove the rest.
    pub Triple-known :
        {F : Type 0} (m : Exec S A) → ((s : S) → P s → F) → (F → Triple P Q R m) → Triple P Q R m
    Triple-known m f k = record { at = λ s p. (k (f s p)).at s p }

    pub Triple-after :
        {Q' : A → S → Type 0} (m : Exec S A)
        → Triple P Q R m
        → ((a : A) (s : S) → Q a s → Q' a s)
        → Triple P Q' R m
    Triple-after {Q' = Q'} m t k = record {
      at = λ s p. after-Post Q Q' R k (m s).0 (m s).1 (t.at s p);
    }

module _ {S A : Type 0} where
  reads-Post :
      (P : S → Type 0) (r : Result A) (s s' : S) → s' ≡ s → P s → Post (λ _. P) (λ _. Unit {0}) r s'
  reads-Post P (ok a) s s' e p = rw e p
  reads-Post P (err e) s s' same p = tt

  -- A method that only reads or raises.
  pub Triple-reads :
      {P : S → Type 0} (m : Exec S A)
      → ((s : S) → (m s).1 ≡ s)
      → Triple P (λ _. P) (λ _. Unit {0}) m
  Triple-reads {P = P} m same = record { at = λ s p. reads-Post P (m s).0 s (m s).1 (same s) p }

module _ {S A B : Type 0} where
  bind-Post :
      (R : S → Type 0) (Q : A → S → Type 0) (Q' : B → S → Type 0) (next : A → Exec S B)
      → ((a : A) → Triple (Q a) Q' R (next a))
      → (r : Result A) (s : S) → Post Q R r s
      → Post Q' R ((lift r >>= next) s).0 ((lift r >>= next) s).1
  unfolding ◌>>=◌
  bind-Post R Q Q' next k (ok a) s q = (k a).at s q
  bind-Post R Q Q' next k (err e) s q = q

module _ {S A B : Type 0} {P : S → Type 0} {R : S → Type 0} where
  pub Triple-bind :
      (Q : A → S → Type 0) {Q' : B → S → Type 0} (m : Exec S A) (next : A → Exec S B)
      → Triple P Q R m
      → ((a : A) → Triple (Q a) Q' R (next a))
      → Triple P Q' R (m >>= next)
  unfolding ◌>>=◌
  Triple-bind Q {Q' = Q'} m next t k = record {
    at = λ s p. bind-Post R Q Q' next k (m s).0 (m s).1 (t.at s p);
  }

  pub Triple-gets :
      {Q' : B → S → Type 0} (g : S → A) (next : A → Exec S B)
      → ((a : A) → Triple (λ s. P s × (g s ≡ a)) Q' R (next a))
      → Triple P Q' R (gets g >>= next)
  unfolding ◌>>=◌
  Triple-gets g next k = record { at = λ s p. (k (g s)).at s (p, refl) }

  -- What the query answers does not matter.
  pub Triple-query :
      {Q' : B → S → Type 0} (g : S → A) (next : A → Exec S B)
      → ((a : A) → Triple P Q' R (next a))
      → Triple P Q' R (gets g >>= next)
  Triple-query g next k = Triple-gets g next (λ a. record { at = λ s p. (k a).at s p.0 })

  pub Triple-lift :
      {Q' : B → S → Type 0} (r : Result A) (next : A → Exec S B)
      → ((s : S) → P s → R s)
      → ((a : A) → r ≡ ok a → Triple P Q' R (next a))
      → Triple P Q' R (lift r >>= next)
  unfolding ◌>>=◌
  Triple-lift (ok a) next leave k = record { at = (k a refl).at }
  Triple-lift (err e) next leave k = record { at = leave }

  pub Triple-or_raise :
      {Q' : B → S → Type 0} (o : Option A) (e : AppError) (next : A → Exec S B)
      → ((s : S) → P s → R s)
      → ((a : A) → o ≡ some a → Triple P Q' R (next a))
      → Triple P Q' R (or_raise o e >>= next)
  unfolding ◌>>=◌
  Triple-or_raise (some a) e next leave k = record { at = (k a refl).at }
  Triple-or_raise none e next leave k = record { at = leave }

module _ {S B : Type 0} {P : S → Type 0} {R : S → Type 0} {Q : B → S → Type 0} where
  pub Triple-guard :
      (b : Bool) (e : AppError) (next : Exec S B)
      → ((s : S) → P s → R s)
      → (b ≡ false → Triple P Q R next)
      → Triple P Q R (raise_if b e >> next)
  unfolding ◌>>=◌
  Triple-guard false e next leave k = record { at = (k refl).at }
  Triple-guard true e next leave k = record { at = leave }

  pub Triple-modify :
      {P' : S → Type 0} (f : S → S) (next : Exec S B)
      → ((s : S) → P s → P' (f s))
      → Triple P' Q R next
      → Triple P Q R (modify f >> next)
  unfolding ◌>>=◌
  Triple-modify f next k t = record { at = λ s p. t.at (f s) (k s p) }

module _ {S : Type 0} {P R : S → Type 0} {Q : S → Type 0} where
  pub Triple-modify_last : (f : S → S) → ((s : S) → P s → Q (f s)) → Triple P (λ _. Q) R (modify f)
  unfolding modify
  Triple-modify_last f k = record { at = k }

module _ {S A : Type 0} where
  transaction-Post :
      (I : S → Type 0) (r : Result A) (s s' : S)
      → I s
      → Post (λ _. I) (λ _. Unit {0}) r s'
      → I (elim r as (λ _. Result A × S) [ ok a ↦ (ok a, s') | err e ↦ (err e, s) ]).1
  transaction-Post I (ok a) s s' h q = q
  transaction-Post I (err e) s s' h q = h

-- A request whose method makes `I` of `I` when it returns keeps `I`.
pub transaction_keeps :
    {S A : Type 0} (I : S → Type 0) (m : Exec S A) (s : S)
    → Triple I (λ _. I) (λ _. Unit {0}) m
    → I s
    → I (transaction m s).1
unfolding transaction
transaction_keeps I m s t h = transaction-Post I (m s).0 s (m s).1 h (t.at s h)
