-- ===== src/Sessions/Count.antt =====
-- How many sessions of a tax number are active, and what writes to the table of
-- app/persistence/models/ksef_session.py make of it.
use ifg.Base.{
  ℕ, ◌+◌, ◌≤◌, ◌==◌, Bool, true, false, List, [], ◌∷◌, ◌++◌, if◌then◌else◌, select, length, ◌≡◌,
  refl, ap, ◌∙◌, Bool-cases, inl, inr, arith,
}
use ifg.Base.Dict.{Dict, insert}
use ifg.Invoices.Items.{Chars}
use ifg.Transmissions.Repository.{same_text}
use ifg.Sessions.Rows.{Session, Registry}
use ifg.Sessions.Service.{is_active_for, expired_row}
use ifg.Sessions.Status.{is_overdue, expire_overdue}

abbrev pub Nothing : Registry → Type 0
Nothing _ = Unit

pub same_text-≡ : (a b : Chars) → same_text a b ≡ true → a ≡ b
same_text-≡ [] [] e = refl
same_text-≡ [] (d ∷ ds) e = cc
same_text-≡ (c ∷ cs) [] e = cc
same_text-≡ (c ∷ cs) (d ∷ ds) e = ground (arith, same_text-≡ cs ds)

-- How many rows are active for the number
abbrev pub held : Chars → Dict Session → ℕ
held nip [] = 0
held nip (e ∷ rows) = (if is_active_for nip e then 1 else 0) + held nip rows

length-select {ℓ} :
    {A : Type ℓ} (b : Bool) (x : A) (rest : List A)
    → length (elim b as (λ _. List A) [ true ↦ x ∷ rest | false ↦ rest ])
      ≡ (if b then 1 else 0) + length rest
length-select true x rest = omega arith
length-select false x rest = omega arith

pub select-held :
    (nip : Chars) (rows : Dict Session) → length (select (is_active_for nip) rows) ≡ held nip rows
select-held nip [] = refl
select-held nip (e ∷ rows) =
    length-select (is_active_for nip e) e (select (is_active_for nip) rows)
    ∙ ap (λ n. (if is_active_for nip e then 1 else 0) + n) (select-held nip rows)

-- A row that is written and not active
pub held-insert :
    (nip : Chars) (id : ℕ) (row : Session) (rows : Dict Session)
    → is_active_for nip (id, row) ≡ false
    → held nip (insert id row rows) ≤ held nip rows
held-insert nip id row [] off = rw off (omega arith)
held-insert nip id row ((other, old) ∷ rows) off = elim (Bool-cases (id == other)) [
  | inl here ↦ rw here (rw off (omega arith))
  | inr there ↦ let rest = held-insert nip id row rows off in rw there (omega arith)
]

expired_inactive :
    (nip : Chars) (id : ℕ) (row : Session) → is_active_for nip (id, expired_row row) ≡ false
expired_inactive nip id row = ground arith

pub held-expire :
    (nip : Chars) (now : ℕ) (rows : Dict Session)
    → held nip (expire_overdue now rows) ≤ held nip rows
held-expire nip now [] = omega arith
held-expire nip now ((id, row) ∷ rows) = by_test (held-expire nip now rows) (is_overdue now row)
  where
    by_test :
        held nip (expire_overdue now rows) ≤ held nip rows
        → (b : Bool)
        → (if is_active_for nip (id, if b then expired_row row else row) then 1 else 0)
            + held nip (expire_overdue now rows)
          ≤ (if is_active_for nip (id, row) then 1 else 0) + held nip rows
    by_test rest true = rw (expired_inactive nip id row) (omega arith)
    by_test rest false = omega arith

pub held-add :
    (nip : Chars) (e : ℕ × Session) (rows : Dict Session)
    → held nip (rows ++ e ∷ []) ≡ held nip rows + (if is_active_for nip e then 1 else 0)
held-add nip e [] = omega arith
held-add nip e (x ∷ rows) = let rest = held-add nip e rows in omega arith
