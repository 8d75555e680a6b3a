-- ===== src/Transmissions/Import/Again.antt =====
-- Running `sync_received_invoices` of app/services/ksef_session_service.py again.
use ifg.Base.{
  Bool, true, Option, none, some, List, [], ◌∷◌, ◌++◌, All, ◌≡◌, refl, ◌∙◌, ◌⊎◌, inl, inr,
  Bool-cases, arith,
}
use ifg.Invoices.Items.{Chars}
use ifg.Invoices.Validation.{Invoice}
use ifg.Transmissions.Rows.{Outbox, Received}
use ifg.Transmissions.Repository.{exists_row, exists_by_ksef_number, same_text, add_invoice}
use ifg.Transmissions.Import.{Counts, imported, save_parsed, import_one, import_all, no_counts}

exists_row-append {ℓ} :
    {A : Type ℓ} (test : A → Bool) (xs ys : List A)
    → exists_row test xs ≡ true
    → exists_row test (xs ++ ys) ≡ true
exists_row-append test [] ys e = cc
exists_row-append test (x ∷ xs) ys e = ground (arith, exists_row-append test xs ys)

exists_row-last {ℓ} :
    {A : Type ℓ} (test : A → Bool) (xs : List A) (y : A)
    → test y ≡ true
    → exists_row test (xs ++ y ∷ []) ≡ true
exists_row-last test [] y e = ground arith
exists_row-last test (x ∷ xs) y e = ground (arith, exists_row-last test xs y e)

same_text_refl : (text : Chars) → same_text text text ≡ true
same_text_refl [] = refl
same_text_refl (c ∷ cs) = ground (arith, same_text_refl cs)

-- The loop has nothing to save for this invoice of KSeF.
abbrev Settled : Outbox → Received → Type 0
Settled s r = (exists_by_ksef_number r.ksef_reference_number s.invoices ≡ true) ⊎ (r.parsed ≡ none)

Settled-add :
    (s : Outbox) (inv : Invoice) (r : Received) → Settled s r → Settled (add_invoice inv s) r
unfolding add_invoice
Settled-add s inv r (inl there) = inl (exists_row-append _ s.invoices _ there)
Settled-add s inv r (inr unread) = inr unread

Settled-save :
    (r : Received) (parsed : Option Invoice) (c : Counts) (s : Outbox) (q : Received)
    → Settled s q
    → Settled (save_parsed r parsed c s).1 q
Settled-save r none c s q h = h
Settled-save r (some inv) c s q h = Settled-add s (imported r inv) q h

Settled-keep :
    (r : Received) (c : Counts) (s : Outbox) (q : Received)
    → Settled s q
    → Settled (import_one r c s).1 q
unfolding import_one
Settled-keep r c s q h =
    elim (Bool-cases (exists_by_ksef_number r.ksef_reference_number s.invoices)) [
      | inl there ↦ rw there h
      | inr new ↦ rw new (Settled-save r r.parsed c s q h)
    ]

saved-Settled :
    (r : Received) (parsed : Option Invoice) (c : Counts) (s : Outbox)
    → r.parsed ≡ parsed
    → Settled (save_parsed r parsed c s).1 r
unfolding add_invoice
saved-Settled r none c s e = inr e
saved-Settled r (some inv) c s e =
    inl (exists_row-last _ s.invoices _ (same_text_refl r.ksef_reference_number))

import_one-Settled : (r : Received) (c : Counts) (s : Outbox) → Settled (import_one r c s).1 r
unfolding import_one
import_one-Settled r c s =
    elim (Bool-cases (exists_by_ksef_number r.ksef_reference_number s.invoices)) [
      | inl there ↦ rw there (inl there)
      | inr new ↦ rw new (saved-Settled r r.parsed c s refl)
    ]

import_all-keep :
    (rs : List Received) (c : Counts) (s : Outbox) (q : Received)
    → Settled s q
    → Settled (import_all rs c s).1 q
unfolding import_all
import_all-keep [] c s q h = h
import_all-keep (r ∷ rs) c s q h =
    import_all-keep rs (import_one r c s).0 (import_one r c s).1 q (Settled-keep r c s q h)

import_all-Settled :
    (rs : List Received) (c : Counts) (s : Outbox) → All (Settled (import_all rs c s).1) rs
unfolding import_all
import_all-Settled [] c s = tt
import_all-Settled (r ∷ rs) c s = (
  import_all-keep rs (import_one r c s).0 (import_one r c s).1 r (import_one-Settled r c s),
  import_all-Settled rs (import_one r c s).0 (import_one r c s).1,
)

Settled-once :
    (r : Received) (c : Counts) (s : Outbox)
    → Settled s r
    → ((import_one r c s).1 ≡ s) × ((import_one r c s).0.saved ≡ c.saved)
unfolding import_one
Settled-once r c s (inl there) = rw there (refl, refl)
Settled-once r c s (inr unread) =
    elim (Bool-cases (exists_by_ksef_number r.ksef_reference_number s.invoices)) [
      | inl there ↦ rw there (refl, refl)
      | inr new ↦ rw (new, unread) (refl, refl)
    ]

settled_again :
    (rs : List Received) (c : Counts) (s : Outbox)
    → All (Settled s) rs
    → ((import_all rs c s).1 ≡ s) × ((import_all rs c s).0.saved ≡ c.saved)
unfolding import_all
settled_again [] c s h = (refl, refl)
settled_again (r ∷ rs) c s h =
    let (same, none_saved) = Settled-once r c s h.0 in
    let rest = settled_again rs (import_one r c s).0 (import_one r c s).1 (rw same h.1) in
    (rest.0 ∙ same, rest.1 ∙ none_saved)

-- Importing what was imported changes nothing: when the same invoices come again,
-- whatever the tables held before, none is saved and the tables stay as they are.
pub import_all-again :
    (rs : List Received) (s : Outbox)
    → ((import_all rs no_counts (import_all rs no_counts s).1).1 ≡ (import_all rs no_counts s).1)
      × ((import_all rs no_counts (import_all rs no_counts s).1).0.saved ≡ 0)
import_all-again rs s = settled_again rs no_counts _ (import_all-Settled rs no_counts s)
