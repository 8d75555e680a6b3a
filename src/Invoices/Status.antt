-- ===== src/Invoices/Status.antt =====
-- The life of an invoice: `transition_to` of app/domain/models/invoice.py.
use ifg.Base.{
  ℕ, ◌+◌, Bool, true, false, not, ◌&&◌, if◌then◌else◌, ◌≡◌, refl, sym, ap, ◌∙◌, Bool-cases, inl,
  inr, arith,
}
use ifg.Base.Exec.{Result, ok, err, invalid_status_transition}
use ifg.Invoices.Validation.{
  Invoice, InvoiceStatus, ready_for_submission, sending, accepted, rejected, is_sale, validate_sale,
  validate_sale_formal_requirements,
}

-- `_ALLOWED_TRANSITIONS` and `can_transition_to`
unfoldable pub can_transition : InvoiceStatus → InvoiceStatus → Bool
can_transition ready_for_submission sending = true
can_transition sending accepted = true
can_transition sending rejected = true
can_transition _ _ = false

-- `target in {ACCEPTED, REJECTED}`
abbrev is_final : InvoiceStatus → Bool
is_final accepted = true
is_final rejected = true
is_final _ = false

abbrev pub with_status : InvoiceStatus → Invoice → Invoice
with_status target inv = record inv { status = target }

-- The error of the formal requirements becomes one of the transition.
abbrev moved_if : Result (Unit {0}) → InvoiceStatus → Invoice → Result Invoice
moved_if (ok _) target inv = ok (with_status target inv)
moved_if (err _) target inv = err invalid_status_transition

unfoldable pub transition_to : InvoiceStatus → Invoice → Result Invoice
transition_to target inv =
    if not (can_transition inv.status target)
    then err invalid_status_transition
    else if is_final target && is_sale inv.direction
    then moved_if (validate_sale_formal_requirements true inv) target inv
    else ok (with_status target inv)

-- What a transition that succeeds has checked and done.
pub record Moved (target : InvoiceStatus) (inv inv' : Invoice) : Type 0 where
  pub allowed : can_transition inv.status target ≡ true
  pub result : inv' ≡ with_status target inv
  pub checked :
      is_final target && is_sale inv.direction ≡ true
      → validate_sale_formal_requirements true inv ≡ ok tt

moved_if_cases :
    (r : Result (Unit {0})) (target : InvoiceStatus) (inv inv' : Invoice)
    → moved_if r target inv ≡ ok inv'
    → (inv' ≡ with_status target inv) × (r ≡ ok tt)
moved_if_cases (ok tt) target inv inv' e = (cc, refl)
moved_if_cases (err x) target inv inv' e = cc

transition_to-Moved :
    (target : InvoiceStatus) (inv inv' : Invoice)
    → transition_to target inv ≡ ok inv'
    → Moved target inv inv'
unfolding transition_to
transition_to-Moved target inv inv' e = elim (Bool-cases (can_transition inv.status target)) [
  | inr closed ↦ let wrong : err invalid_status_transition ≡ ok inv' = rw closed at e in cc
  | inl open_to ↦ elim (Bool-cases (is_final target && is_sale inv.direction)) [
    | inl final ↦
        let (same, valid) =
          moved_if_cases (validate_sale_formal_requirements true inv) target inv inv'
            (rw (open_to, final) at e) in
        record { allowed = open_to; result = same; checked = λ _. valid }
    | inr other ↦
        let done : ok (with_status target inv) ≡ ok inv' = rw (open_to, other) at e in
        record { allowed = open_to; result = cc; checked = λ final. cc }
  ]
]

-- The invoices that `start` becomes, with the number of transitions.
pub data Reaches (start : Invoice) : ℕ → Invoice → Type 0 where
  here : Reaches start 0 start
  next :
      (n : ℕ) (target : InvoiceStatus) (inv inv' : Invoice)
      → Reaches start n inv
      → transition_to target inv ≡ ok inv'
      → Reaches start (n + 1) inv'

-- How far along a status is.
abbrev rank : InvoiceStatus → ℕ
rank ready_for_submission = 0
rank sending = 1
rank accepted = 2
rank rejected = 2

allowed-rank : (a b : InvoiceStatus) → can_transition a b ≡ true → rank b ≡ rank a + 1
unfolding can_transition
allowed-rank a b h = ground arith

-- The requirements do not read the status.
requirements_same :
    (target : InvoiceStatus) (inv : Invoice)
    → validate_sale_formal_requirements true (with_status target inv)
      ≡ validate_sale_formal_requirements true inv
unfolding validate_sale_formal_requirements validate_sale
requirements_same target inv = refl

-- An invoice that started ready for submission: nothing but its status has changed, it has made as many
-- transitions as its status is along, and if it is a sale with a final status then it meets the
-- formal requirements of one, its local number included.
pub record IsOnTrack (start : Invoice) (n : ℕ) (inv : Invoice) : Type 0 where
  pub same : inv ≡ with_status inv.status start
  pub steps : n ≡ rank inv.status
  pub complete :
      is_final inv.status && is_sale inv.direction ≡ true
      → validate_sale_formal_requirements true inv ≡ ok tt

Moved-IsOnTrack :
    (start : Invoice) (n : ℕ) (target : InvoiceStatus) (inv inv' : Invoice)
    → IsOnTrack start n inv
    → Moved target inv inv'
    → IsOnTrack start (n + 1) inv'
Moved-IsOnTrack start n target inv inv' h m = rw m.result record {
  same = ap (with_status target) h.same;
  steps = ap (λ k. k + 1) h.steps ∙ sym (allowed-rank inv.status target m.allowed);
  complete = λ final. requirements_same target inv ∙ m.checked final;
}

not_final : (s : InvoiceStatus) (b : Bool) → s ≡ ready_for_submission → is_final s && b ≡ true → ⊥
not_final ready_for_submission b ready final = cc
not_final sending b ready final = cc
not_final accepted b ready final = cc
not_final rejected b ready final = cc

-- Whatever transitions an invoice makes from ready for submission on, it stays on track: nothing but
-- its status changes, the number of transitions is that of its status (one to sending, two to
-- accepted or rejected), and a sale with a final status meets the formal requirements of a sale.
pub Reaches-IsOnTrack :
    (start : Invoice) (n : ℕ) (inv : Invoice)
    → start.status ≡ ready_for_submission
    → Reaches start n inv
    → IsOnTrack start n inv
Reaches-IsOnTrack start n inv ready here = record {
  same = refl;
  steps = rw ready refl;
  complete = λ final. absurd (not_final start.status (is_sale start.direction) ready final);
}
Reaches-IsOnTrack start n inv ready (next k target before after path e) =
    Moved-IsOnTrack start k target before after (Reaches-IsOnTrack start k before ready path)
      (transition_to-Moved target before after e)

final-can_transition : (a b : InvoiceStatus) → is_final a ≡ true → can_transition a b ≡ false
unfolding can_transition
final-can_transition accepted b h = refl
final-can_transition rejected b h = refl
final-can_transition ready_for_submission b h = cc
final-can_transition sending b h = cc

-- A final status is the last: every further transition is refused.
transition_to_final :
    (target : InvoiceStatus) (inv : Invoice)
    → is_final inv.status ≡ true
    → transition_to target inv ≡ err invalid_status_transition
unfolding transition_to
transition_to_final target inv h = rw (final-can_transition inv.status target h) refl
