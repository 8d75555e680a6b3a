-- ===== src/Base/Lists.antt =====
-- Lists measured by native numbers, and predicates on their entries.
use Prim.Native.Nat.{ℕ, suc}
use mathlib.Core.Bool.{Bool, true, false}
use mathlib.Core.List.{List, [], ◌∷◌, ◌++◌}

module _ {ℓ} {A : Type ℓ} where
  abbrev pub length : List A → ℕ
  length [] = 0
  length (x ∷ xs) = suc (length xs)

  -- `[x for x in xs if test(x)]`
  abbrev pub select : (A → Bool) → List A → List A
  select test [] = []
  select test (x ∷ xs) =
      let rest = select test xs in elim (test x) [ true ↦ x ∷ rest | false ↦ rest ]

abbrev pub All {ℓ κ} : {A : Type ℓ} → (A → Type κ) → List A → Type κ
All P [] = Unit
All P (x ∷ xs) = P x × All P xs

module _ {ℓ κ} {A : Type ℓ} (P : A → Type κ) where
  pub All-append : (xs ys : List A) → All P xs → All P ys → All P (xs ++ ys)
  All-append [] ys h k = k
  All-append (x ∷ xs) ys h k = (h.0, All-append xs ys h.1 k)

  -- The entries before one that stands in a list, and that one.
  pub All-middle : (xs : List A) (y : A) (zs : List A) → All P (xs ++ y ∷ zs) → All P xs × P y
  All-middle [] y zs h = (tt, h.0)
  All-middle (x ∷ xs) y zs h = let (p, q) = All-middle xs y zs h.1 in ((h.0, p), q)

  pub All-select : (test : A → Bool) (xs : List A) → All P xs → All P (select test xs)
  All-select test [] h = h
  All-select test (x ∷ xs) h =
      (elim (test x)
        as (λ b. All P (elim b [ true ↦ x ∷ select test xs | false ↦ select test xs ])) [
          | true ↦ (h.0, All-select test xs h.1)
          | false ↦ All-select test xs h.1
        ])

-- The condition that asks for nothing.
pub All-Unit {ℓ} : {A : Type ℓ} (xs : List A) → All (λ _. Unit {0}) xs
All-Unit [] = tt
All-Unit (x ∷ xs) = (tt, All-Unit xs)
