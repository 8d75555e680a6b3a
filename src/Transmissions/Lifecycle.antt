-- ===== src/Transmissions/Lifecycle.antt =====
-- How the status of an invoice moves while it is sent, whatever requests and jobs come.
pub mod Preparing
pub mod Requests
pub mod Jobs
pub mod Polling
use ifg.Base.{
  ℕ, Bool, true, false, ◌==◌, Option, none, some, List, [], ◌∷◌, ◌++◌, if◌then◌else◌, ◌≡◌, refl,
  sym, ◌∙◌, Bool-cases, inl, inr, arith,
}
use ifg.Base.Dict.{Dict, lookup, insert, lookup-insert, lookup-insert_self, lookup-append_old}
use ifg.Base.Exec.{Exec, ◌>>=◌, ok, err, not_found}
use ifg.Base.Triple.{Triple, Post}
use ifg.Payments.Rows.{Direction}
use ifg.Invoices.Validation.{
  Invoice, InvoiceStatus, ready_for_submission, sending, accepted, rejected,
}
use ifg.Transmissions.Rows.{Outbox}
use ifg.Transmissions.Repository.{put_invoice, update_invoice, add_invoice}

-- The moves of an invoice that is sent: out, back with an answer, and out again after a refusal.
abbrev pub may_move : InvoiceStatus → InvoiceStatus → Bool
may_move ready_for_submission sending = true
may_move sending accepted = true
may_move sending rejected = true
may_move rejected sending = true
may_move _ _ = false

-- Any number of moves
pub data Leads (start : InvoiceStatus) : InvoiceStatus → Type 0 where
  stay : Leads start start
  move : (a b : InvoiceStatus) → Leads start a → may_move a b ≡ true → Leads start b

Leads-trans : (a b c : InvoiceStatus) → Leads a b → Leads b c → Leads a c
Leads-trans a b c p stay = p
Leads-trans a b c p (move d _ q h) = move d c (Leads-trans a b d p q) h

-- Every invoice of `s` is still there, its status moved on, and on the same side of the trade.
pub record Follows (s s' : Outbox) : Type 0 where
  pub at :
      (k : ℕ) (inv : Invoice)
      → lookup k s.invoices ≡ some inv
      → (inv' : Invoice) × (lookup k s'.invoices ≡ some inv')
        × Leads inv.status inv'.status
        × (inv'.direction ≡ inv.direction)

pub Follows-refl : (s : Outbox) → Follows s s
Follows-refl s = record { at = λ k inv e. (inv, e, stay, refl) }

-- Only the table of invoices counts.
pub Follows-same : (s s' s'' : Outbox) → s''.invoices ≡ s'.invoices → Follows s s' → Follows s s''
Follows-same s s' s'' same f = record {
  at = λ k inv found.
      let (inv', now, path, side) = f.at k inv found in (inv', rw same now, path, side);
}

-- A write of a row whose status has moved on from that of the row which stood there.
written :
    (id k : ℕ) (new old inv : Invoice) (rows : Dict Invoice)
    → lookup id rows ≡ some old
    → Leads old.status new.status
    → new.direction ≡ old.direction
    → lookup k rows ≡ some inv
    → (inv' : Invoice) × (lookup k (insert id new rows) ≡ some inv')
      × Leads inv.status inv'.status
      × (inv'.direction ≡ inv.direction)
written id k new old inv rows e path side found = elim (Bool-cases (k == id)) [
  | inl here ↦
      let same : old ≡ inv = ground arith in
      rw (← same) (new, ground (arith, lookup-insert id k new rows), path, side)
  | inr there ↦ (inv, ground (arith, lookup-insert id k new rows), stay, refl)
]

put_invoice-Follows :
    (s s' : Outbox) (id : ℕ) (new old : Invoice)
    → Follows s s'
    → lookup id s'.invoices ≡ some old
    → Leads old.status new.status
    → new.direction ≡ old.direction
    → Follows s (put_invoice id new s')
unfolding put_invoice
put_invoice-Follows s s' id new old f e path side = record {
  at = λ k inv found.
      let (mid, now, before, same) = f.at k inv found in
      let (last, after, rest, same') = written id k new old mid s'.invoices e path side now in
      (last, after, Leads-trans inv.status mid.status last.status before rest, same' ∙ same);
}

pub add_invoice-Follows :
    (s s' : Outbox) (new : Invoice) → Follows s s' → Follows s (add_invoice new s')
unfolding add_invoice
add_invoice-Follows s s' new f = record {
  at = λ k inv found.
      let (mid, now, path, side) = f.at k inv found in
      (mid, lookup-append_old k mid s'.invoices _ now, path, side);
}

-- From `s` things have moved on, and the invoice `id` has a given status and side.
pub record At (s : Outbox) (id : ℕ) (st : InvoiceStatus) (dir : Direction) (s' : Outbox)
    : Type 0 where
  pub follows : Follows s s'
  pub row : Invoice
  pub found : lookup id s'.invoices ≡ some row
  pub status : row.status ≡ st
  pub side : row.direction ≡ dir

pub At-same :
    (s : Outbox) (id : ℕ) (st : InvoiceStatus) (dir : Direction) (s' s'' : Outbox)
    → s''.invoices ≡ s'.invoices
    → At s id st dir s'
    → At s id st dir s''
At-same s id st dir s' s'' same h = record {
  follows = Follows-same s s' s'' same h.follows;
  row = h.row;
  found = rw same h.found;
  status = h.status;
  side = h.side;
}

pub update_invoice-found :
    (id : ℕ) (new old : Invoice) (s : Outbox)
    → lookup id s.invoices ≡ some old
    → update_invoice id new s ≡ (ok tt, put_invoice id new s)
unfolding update_invoice ◌>>=◌
update_invoice-found id new old s e = rw e refl

-- `update` of a row that is there
pub Triple-update :
    {P R : Outbox → Type 0} {Q : Outbox → Type 0} (id : ℕ) (new : Invoice)
    → ((s : Outbox)
        → P s
        → (old : Invoice) × (lookup id s.invoices ≡ some old) × Q (put_invoice id new s))
    → Triple P (λ _. Q) R (update_invoice id new)
Triple-update {R = R} {Q = Q} id new k = record {
  at = λ s p.
      let (old, found, q) = k s p in
      let e : update_invoice id new s ≡ (ok tt, put_invoice id new s) =
        update_invoice-found id new old s found in
      rw e q;
}

module _ (s : Outbox) (id : ℕ) (st : InvoiceStatus) (dir : Direction) (new : Invoice)
    (side : new.direction ≡ dir) where
  moved_on :
      (s' : Outbox) → At s id st dir s' → Leads st new.status → Follows s (put_invoice id new s')
  moved_on s' h path =
      put_invoice-Follows s s' id new h.row h.follows h.found (rw h.status path) (side ∙ sym h.side)

  -- The row is written with a status that it may move to, and with the one that it has.
  pub update_invoice-Follows :
      {R : Outbox → Type 0}
      → Leads st new.status
      → Triple (At s id st dir) (λ _. Follows s) R (update_invoice id new)
  update_invoice-Follows path = Triple-update id new (λ s' h. (h.row, h.found, moved_on s' h path))

  pub update_invoice-At :
      {R : Outbox → Type 0}
      → new.status ≡ st
      → Triple (At s id st dir) (λ _. At s id st dir) R (update_invoice id new)
  unfolding put_invoice
  update_invoice-At same = Triple-update id new λ s' h. (
    h.row,
    h.found,
    record {
      follows = moved_on s' h (rw same stay);
      row = new;
      found = lookup-insert_self id new s'.invoices;
      status = same;
      side = side;
    },
  )
