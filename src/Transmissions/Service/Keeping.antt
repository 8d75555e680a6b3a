-- ===== src/Transmissions/Service/Keeping.antt =====
-- Preparing an invoice to be sent writes invoices and the audit log alone, and what only reads or
-- raises writes nothing.
use ifg.Base.{ℕ, Bool, true, false, none, is_some, if◌then◌else◌, ◌≡◌, refl}
use ifg.Base.Exec.{
  Result, ok, err, AppError, ◌>>=◌, ◌>>◌, pure, gets, lift, raise_if, multiple_rows,
  invalid_invoice,
}
use ifg.Base.Triple.{
  Triple, Triple-pure, Triple-if, Triple-reads, Triple-bind, Triple-query, Triple-lift,
  Triple-or_raise, Triple-guard, Triple-modify, Triple-modify_last,
}
use ifg.Invoices.Validation.{Invoice, is_missing}
use ifg.Transmissions.Rows.{Outbox, Outside, AuditEvent}
use ifg.Transmissions.Repository.{
  has_many, one_or_none, active_for, get_active_for_invoice, put_invoice, record_event,
  update_invoice,
}
use ifg.Transmissions.Guards.{
  build_idempotency_key, try_reuse_by_idempotency_key, try_reuse_idempotent_transmission,
  ensure_no_active_transmission,
}
use ifg.Transmissions.Service.{
  refresh_sale_seller_snapshot, assign_number_local, ensure_number_local, prepare_sale,
  prepare_sale_invoice_for_submit, validate_invoice_before_enqueue, recheck_sale,
}

-- A request that raises is rolled back.
abbrev pub Anything : Outbox → Type 0
Anything _ = Unit

guarded_reads :
    {A : Type 0} (b : Bool) (a : A) (s : Outbox) → ((raise_if b multiple_rows >> pure a) s).1 ≡ s
unfolding ◌>>=◌
guarded_reads true a s = refl
guarded_reads false a s = refl

raise_if-reads : (b : Bool) (e : AppError) (s : Outbox) → (raise_if b e s).1 ≡ s
unfolding raise_if
raise_if-reads true e s = refl
raise_if-reads false e s = refl

pub get_active_for_invoice-reads : (id : ℕ) (s : Outbox) → (get_active_for_invoice id s).1 ≡ s
unfolding get_active_for_invoice ◌>>=◌
get_active_for_invoice-reads id s =
    guarded_reads (has_many (active_for id s)) (one_or_none (active_for id s)) s

lifted_reads :
    {A B : Type 0} (r : Result A) (g : A → Outbox → B) (s : Outbox)
    → ((lift r >>= λ a. gets (g a)) s).1 ≡ s
unfolding ◌>>=◌
lifted_reads (ok a) g s = refl
lifted_reads (err e) g s = refl

try_reuse_idempotent_transmission-reads :
    (out : Outside) (inv : Invoice) (s : Outbox)
    → (try_reuse_idempotent_transmission out inv s).1 ≡ s
unfolding try_reuse_idempotent_transmission
try_reuse_idempotent_transmission-reads out inv s =
    lifted_reads (build_idempotency_key out inv) try_reuse_by_idempotency_key s

pub reused_while_sending-reads :
    (out : Outside) (inv : Invoice) (sending_now : Bool) (s : Outbox)
    → ((if sending_now then try_reuse_idempotent_transmission out inv else pure none) s).1 ≡ s
unfolding pure
reused_while_sending-reads out inv true s = try_reuse_idempotent_transmission-reads out inv s
reused_while_sending-reads out inv false s = refl

pub Triple-no_active :
    {P : Outbox → Type 0} (id : ℕ) → Triple P (λ _. P) Anything (ensure_no_active_transmission id)
unfolding ensure_no_active_transmission
Triple-no_active {P} id =
    Triple-bind (λ _. P) _ _ (Triple-reads _ (get_active_for_invoice-reads id))
      λ active. Triple-reads _ (raise_if-reads (is_some active) invalid_invoice)

pub Triple-lift_last :
    {A : Type 0} {P : Outbox → Type 0} (r : Result A) → Triple P (λ _. P) Anything (lift r)
unfolding lift
Triple-lift_last r = Triple-reads (lift r) (λ s. refl)

module _ (P : Outbox → Type 0)
    (keep : (id : ℕ) (inv : Invoice) (s : Outbox) → P s → P (put_invoice id inv s))
    (keep_event : (event : AuditEvent) (s : Outbox) → P s → P (record_event event s)) where
  pub update_invoice-Keeps :
      (id : ℕ) (inv : Invoice) → Triple P (λ _. P) Anything (update_invoice id inv)
  unfolding update_invoice
  update_invoice-Keeps id inv =
      Triple-query _ _
        λ found. Triple-or_raise _ _ _ (λ _ _. tt) λ old there. Triple-modify_last _ (keep id inv)

  refresh-Keeps :
      (out : Outside) (id : ℕ) (inv : Invoice)
      → Triple P (λ _. P) Anything (refresh_sale_seller_snapshot out id inv)
  unfolding refresh_sale_seller_snapshot
  refresh-Keeps out id inv =
      Triple-lift _ _ (λ _ _. tt)
        λ _ _. Triple-bind (λ _. P) _ _ (update_invoice-Keeps id _) λ _. Triple-pure _ (λ _ p. p)

  assign-Keeps :
      (id : ℕ) (inv : Invoice) (date : ℕ)
      → Triple P (λ _. P) Anything (assign_number_local id inv date)
  unfolding assign_number_local
  assign-Keeps id inv date = Triple-query _ _ λ seq. Triple-query _ _ λ taken.
      Triple-guard _ _ _ (λ _ _. tt)
        λ free.
          Triple-bind (λ _. P) _ _ (update_invoice-Keeps id _)
            λ _. Triple-modify _ _ (keep_event _) (Triple-pure _ (λ _ p. p))

  number-Keeps : (id : ℕ) (inv : Invoice) → Triple P (λ _. P) Anything (ensure_number_local id inv)
  unfolding ensure_number_local
  number-Keeps id inv =
      Triple-guard _ _ _ (λ _ _. tt)
        λ ready.
          Triple-lift _ _ (λ _ _. tt)
            λ _ _. Triple-or_raise _ _ _ (λ _ _. tt) λ date _. assign-Keeps id inv date

  prepare_sale-Keeps :
      (out : Outside) (id : ℕ) (inv : Invoice)
      → Triple P (λ _. P) Anything (prepare_sale out id inv)
  unfolding prepare_sale
  prepare_sale-Keeps out id inv =
      Triple-bind (λ _. P) _ _ (refresh-Keeps out id inv)
        λ refreshed.
          Triple-if (is_missing refreshed.number_local) (ensure_number_local id refreshed)
            (pure refreshed) (λ _. number-Keeps id refreshed)
            (λ _. Triple-pure refreshed (λ _ p. p))

  pub prepare-Keeps :
      (out : Outside) (id : ℕ) (inv : Invoice)
      → Triple P (λ _. P) Anything (prepare_sale_invoice_for_submit out id inv)
  unfolding prepare_sale_invoice_for_submit
  prepare-Keeps out id inv =
      Triple-if _ _ _ (λ _. prepare_sale-Keeps out id inv) (λ _. Triple-pure inv (λ _ p. p))

  pub recheck_sale-Keeps :
      (out : Outside) (id : ℕ) (inv : Invoice)
      → Triple P (λ _. P) Anything (recheck_sale out id inv)
  unfolding recheck_sale
  recheck_sale-Keeps out id inv =
      Triple-bind (λ _. P) _ _ (prepare-Keeps out id inv)
        λ prepared. Triple-lift_last (validate_invoice_before_enqueue out prepared)
