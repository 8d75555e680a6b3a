-- ===== src/Base/Dict.antt =====
-- A table whose rows are found by a number: primary keys are UUIDs, which the program only
-- compares. The rows stand in the order in which they were added.
use ifg.Base.Tests.{Bool-cases, ◌==◌, if◌then◌else◌}
use ifg.Base.Lists.{All, All-append, select, All-select}
use Prim.Native.Nat.{ℕ, ◌+◌, ◌<◌, ◌≤◌}
use mathlib.Core.Path.{◌≡◌, refl, subst}
use mathlib.Core.Logic.{◌≢◌, ◌⊎◌, inl, inr}
use mathlib.Core.Bool.{Bool, true, false}
use mathlib.Core.Option.{Option, none, some}
use mathlib.Core.List.{List, [], ◌∷◌, ◌++◌}
use native.Mathlib.Omega.{arith}

abbrev pub Dict {ℓ} : Type ℓ → Type ℓ
Dict Row = List (ℕ × Row)

module _ {ℓ} {V : Type ℓ} where
  -- The row with the key, if there is one.
  abbrev pub lookup : ℕ → Dict V → Option V
  lookup key ((other, row) ∷ rows) = if key == other then some row else lookup key rows
  lookup key [] = none

  -- An UPDATE of the row with the key, or a new last row
  abbrev pub insert : ℕ → V → Dict V → Dict V
  insert key row ((other, old) ∷ rows) =
      if key == other then (key, row) ∷ rows else (other, old) ∷ insert key row rows
  insert key row [] = (key, row) ∷ []

  -- No row has the key k.
  abbrev pub Lacks : ℕ → Dict V → Type 0
  Lacks k d = All (λ e. e.0 ≢ k) d

  -- A primary key: no two rows have one key.
  abbrev pub Distinct : Dict V → Type 0
  Distinct [] = Unit
  Distinct ((k, v) ∷ d) = Lacks k d × Distinct d

  -- Every key has been given out.
  abbrev pub Below : ℕ → Dict V → Type 0
  Below n d = All (λ e. e.0 < n) d

  -- The rows of `xs` are rows of `d`.
  abbrev pub Within : Dict V → Dict V → Type ℓ
  Within d xs = All (λ e. lookup e.0 d ≡ some e.1) xs

  pub lookup-insert :
      (k j : ℕ) (v : V) (d : Dict V)
      → lookup j (insert k v d) ≡ (if j == k then some v else lookup j d)
  lookup-insert k j v [] = ground arith
  lookup-insert k j v ((i, w) ∷ d) = ground (arith, lookup-insert k j v d)

  pub lookup-insert_self :
      (key : ℕ) (row : V) (rows : Dict V) → lookup key (insert key row rows) ≡ some row
  lookup-insert_self key row rows = ground (arith, lookup-insert key key row rows)

  -- A row of the table after a write is the new row, or an old one under another key.
  pub lookup-insert_cases :
      (k id : ℕ) (new : V) {row : V} (rows : Dict V)
      → lookup k (insert id new rows) ≡ some row
      → ((k ≡ id) × (row ≡ new)) ⊎ ((k ≢ id) × (lookup k rows ≡ some row))
  lookup-insert_cases k id new {row = row} rows e = elim (Bool-cases (k == id)) [
    | inl here ↦ inl (ground arith, ground (arith, lookup-insert id k new rows))
    | inr there ↦ inr (ground arith, ground (arith, lookup-insert id k new rows))
  ]

  pub lookup-Lacks : (k : ℕ) (d : Dict V) → Lacks k d → lookup k d ≡ none
  lookup-Lacks k [] h = refl
  lookup-Lacks k ((j, v) ∷ d) h = ground (arith, lookup-Lacks k d h.1)

  pub lookup-append :
      (k j : ℕ) (v : V) (d : Dict V)
      → lookup k d ≡ none
      → lookup j (d ++ (k, v) ∷ []) ≡ (if j == k then some v else lookup j d)
  lookup-append k j v [] h = ground arith
  lookup-append k j v ((i, w) ∷ d) h = ground (arith, lookup-append k j v d)

  -- What a longer table begins with stays where it is.
  pub lookup-append_old :
      (k : ℕ) (v : V) (d e : Dict V) → lookup k d ≡ some v → lookup k (d ++ e) ≡ some v
  lookup-append_old k v [] e h = cc
  lookup-append_old k v ((j, w) ∷ d) e h = ground (arith, lookup-append_old k v d e)

  pub Below-Lacks : (n : ℕ) (d : Dict V) → Below n d → Lacks n d
  Below-Lacks n [] h = tt
  Below-Lacks n ((j, v) ∷ d) h = (omega arith, Below-Lacks n d h.1)

  pub Below-suc : (n : ℕ) (d : Dict V) → Below n d → Below (n + 1) d
  Below-suc n [] h = tt
  Below-suc n ((j, v) ∷ d) h = (omega arith, Below-suc n d h.1)

  pub Below-le : (n m : ℕ) (d : Dict V) → n ≤ m → Below n d → Below m d
  Below-le n m [] le h = tt
  Below-le n m ((j, v) ∷ d) le h = (omega arith, Below-le n m d le h.1)

  pub lookup-Below : (n k : ℕ) (v : V) (d : Dict V) → Below n d → lookup k d ≡ some v → k < n
  lookup-Below n k v [] b h = cc
  lookup-Below n k v ((j, w) ∷ d) b h = ground (arith, lookup-Below n k v d b.1)

  pub Below-insert : (n k : ℕ) (v : V) (d : Dict V) → Below n d → k < n → Below n (insert k v d)
  Below-insert n k v [] b h = (h, tt)
  Below-insert n k v ((j, w) ∷ d) b h = ground (arith, Below-insert n k v d b.1)

  -- A new last row under the next key
  pub Below-append : (n : ℕ) (v : V) (d : Dict V) → Below n d → Below (n + 1) (d ++ (n, v) ∷ [])
  Below-append n v d h =
      All-append (λ e. e.0 < n + 1) d ((n, v) ∷ []) (Below-suc n d h) (omega arith, tt)

  Lacks-insert : (i k : ℕ) (v : V) (d : Dict V) → Lacks i d → k ≢ i → Lacks i (insert k v d)
  Lacks-insert i k v [] b h = (h, tt)
  Lacks-insert i k v ((j, w) ∷ d) b h = ground (arith, Lacks-insert i k v d b.1)

  pub Distinct-insert : (k : ℕ) (v : V) (d : Dict V) → Distinct d → Distinct (insert k v d)
  Distinct-insert k v [] h = (tt, tt)
  Distinct-insert k v ((j, w) ∷ d) h =
      ground (arith, Distinct-insert k v d h.1, Lacks-insert j k v d h.0)

  Lacks-append : (i k : ℕ) (v : V) (d : Dict V) → Lacks i d → k ≢ i → Lacks i (d ++ (k, v) ∷ [])
  Lacks-append i k v d b h = All-append (λ e. e.0 ≢ i) d ((k, v) ∷ []) b (h, tt)

  pub Distinct-append :
      (k : ℕ) (v : V) (d : Dict V) → Distinct d → Lacks k d → Distinct (d ++ (k, v) ∷ [])
  Distinct-append k v [] h b = (tt, tt)
  Distinct-append k v ((j, w) ∷ d) h b =
      (Lacks-append j k v d h.0 (λ e. b.0 (cc)), Distinct-append k v d h.1 b.1)

  pub Distinct-select : (test : ℕ × V → Bool) (d : Dict V) → Distinct d → Distinct (select test d)
  Distinct-select test [] h = tt
  Distinct-select test (x ∷ d) h =
      elim (test x)
        as (λ b. Distinct (elim b [ true ↦ x ∷ select test d | false ↦ select test d ])) [
          | true ↦ (All-select (λ e. e.0 ≢ x.0) test d h.0, Distinct-select test d h.1)
          | false ↦ Distinct-select test d h.1
        ]

  -- A write to a row that is not among `xs` leaves them where they are.
  pub Within-insert :
      (k : ℕ) (v : V) (d xs : Dict V) → Lacks k xs → Within d xs → Within (insert k v d) xs
  Within-insert k v d [] h w = tt
  Within-insert k v d ((j, x) ∷ xs) h w =
      (ground (arith, lookup-insert k j v d), Within-insert k v d xs h.1 w.1)

  Within-cons : (k : ℕ) (v : V) (d xs : Dict V) → Lacks k xs → Within d xs → Within ((k, v) ∷ d) xs
  Within-cons k v d [] h w = tt
  Within-cons k v d ((j, x) ∷ xs) h w = (ground arith, Within-cons k v d xs h.1 w.1)

  -- In a table with a primary key each row is found under its key.
  pub Within-self : (d : Dict V) → Distinct d → Within d d
  Within-self [] h = tt
  Within-self ((k, v) ∷ d) h = (ground arith, Within-cons k v d d h.0 (Within-self d h.1))

module _ {ℓ κ} {V : Type ℓ} (P : V → Type κ) where
  -- What holds of every row.
  abbrev pub Every : Dict V → Type κ
  Every d = All (λ e. P e.1) d

  pub Every-insert : (k : ℕ) (v : V) (d : Dict V) → Every d → P v → Every (insert k v d)
  Every-insert k v [] h p = (p, tt)
  Every-insert k v ((j, w) ∷ d) h p = elim (Bool-cases (k == j)) [
    | inl here ↦ rw here (p, h.1)
    | inr there ↦ rw there (h.0, Every-insert k v d h.1 p)
  ]

  pub Every-lookup : (k : ℕ) {v : V} (d : Dict V) → Every d → lookup k d ≡ some v → P v
  Every-lookup k [] h e = cc
  Every-lookup k {v = v} ((j, w) ∷ d) h e = elim (Bool-cases (k == j)) [
    | inl here ↦ let same : w ≡ v = ground arith in subst P same h.0
    | inr there ↦ Every-lookup k d h.1 (rw there at e)
  ]
