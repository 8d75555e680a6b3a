-- ===== src/Transmissions/Import/Totals.antt =====
-- The counts that `sync_received_invoices` of app/services/ksef_session_service.py returns.
use ifg.Base.{
  ℕ, ◌+◌, Option, none, some, List, [], ◌∷◌, ◌++◌, length, ◌≡◌, refl, inl, inr, Bool-cases, arith,
}
use ifg.Invoices.Validation.{Invoice}
use ifg.Transmissions.Rows.{Outbox, Received}
use ifg.Transmissions.Repository.{exists_by_ksef_number, add_invoice}
use ifg.Transmissions.Import.{Counts, save_parsed, import_one, import_all, no_counts}

abbrev pub total : Counts → ℕ
total c = c.saved + c.skipped_existing + c.skipped_parse

-- The loop has done `n` more rounds.
record Counted (n : ℕ) (c c' : Counts) (s s' : Outbox) : Type 0 where
  all : total c' ≡ total c + n
  rows : length s'.invoices + c.saved ≡ length s.invoices + c'.saved

length-add {ℓ} : {A : Type ℓ} (xs : List A) (x : A) → length (xs ++ x ∷ []) ≡ length xs + 1
length-add [] x = refl
length-add (y ∷ xs) x = grind (arith, length-add xs x)

save_parsed-Counted :
    (r : Received) (parsed : Option Invoice) (c : Counts) (s : Outbox)
    → Counted 1 c (save_parsed r parsed c s).0 s (save_parsed r parsed c s).1
unfolding add_invoice
save_parsed-Counted r none c s = record { all = omega arith; rows = refl }
save_parsed-Counted r (some inv) c s = record {
  all = omega arith;
  rows = rw (length-add s.invoices) (omega arith);
}

import_one-Counted :
    (r : Received) (c : Counts) (s : Outbox)
    → Counted 1 c (import_one r c s).0 s (import_one r c s).1
unfolding import_one
import_one-Counted r c s =
    elim (Bool-cases (exists_by_ksef_number r.ksef_reference_number s.invoices)) [
      | inl there ↦ rw there (record { all = omega arith; rows = refl })
      | inr new ↦ rw new (save_parsed-Counted r r.parsed c s)
    ]

import_all-Counted :
    (rs : List Received) (c : Counts) (s : Outbox)
    → Counted (length rs) c (import_all rs c s).0 s (import_all rs c s).1
unfolding import_all
import_all-Counted [] c s = record { all = omega arith; rows = refl }
import_all-Counted (r ∷ rs) c s =
    let first = import_one-Counted r c s in
    let rest = import_all-Counted rs (import_one r c s).0 (import_one r c s).1 in
    record { all = omega (arith, first.all, rest.all); rows = omega (arith, first.rows, rest.rows) }

-- Every invoice that KSeF gives is counted once, as saved, as known or as unreadable, and the table of
-- invoices grows by the number that is returned as saved.
pub import_all-totals :
    (rs : List Received) (s : Outbox)
    → (total (import_all rs no_counts s).0 ≡ length rs)
      × (length (import_all rs no_counts s).1.invoices
          ≡ length s.invoices + (import_all rs no_counts s).0.saved)
import_all-totals rs s =
    let counted = import_all-Counted rs no_counts s in
    (omega (arith, counted.all), omega (arith, counted.rows))
