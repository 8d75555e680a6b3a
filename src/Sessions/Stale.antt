-- ===== src/Sessions/Stale.antt =====
-- A session whose time is over but whose row is still active: what the calls of
-- app/services/ksef_session_service.py make of it.
use ifg.Base.{ℕ, true, false, Option, none, some, is_some, ◌≡◌, refl}
use ifg.Base.Exec.{ok, ◌>>◌, pure, raise, modify, not_found}
use ifg.Base.Triple.{
  Triple, Triple-raise, Triple-if, Triple-bind, Triple-or_raise, Triple-guard, Triple-modify,
  transaction_keeps,
}
use ifg.Invoices.Items.{Chars}
use ifg.Sessions.Rows.{Session, Registry, Gate}
use ifg.Sessions.Service.{
  get_active_db_session, is_stale, expired_row, put_session, open_session, fresh_or_raise,
  get_active_session, close_session,
}
use ifg.Sessions.Status.{opening, closing, serve_session}

abbrev Still : Registry → Registry → Type 0
Still s s' = s' ≡ s

abbrev Nothing : Registry → Type 0
Nothing _ = Unit

same_entry :
    (found : Option (ℕ × Session)) (a : ℕ × Session) {b : ℕ × Session}
    → found ≡ some a
    → found ≡ some b
    → a ≡ b
same_entry found a e h = cc

module _ (gate : Gate) (nip : Chars) (id : ℕ) (row : Session) (s : Registry)
    (there : get_active_db_session nip s ≡ (ok (some (id, row)), s)) where
  -- The query finds this row.
  the_row : Triple (Still s) (λ found _. found ≡ some (id, row)) Nothing (get_active_db_session nip)
  the_row = record { at = λ s' same. rw (same, there) refl }

  open_session-refused : Triple (Still s) (λ _. Still s) Nothing (open_session gate nip)
  unfolding open_session
  open_session-refused =
      Triple-guard _ _ _ (λ _ _. tt)
        λ configured. Triple-bind _ _ _ the_row λ found. record {
          at = λ s' h.
              (Triple-guard {P = Still s'} {R = Nothing} {Q = λ _. Still s} (is_some found) _ _
                  (λ _ _. tt) (λ free. absurd (taken found h free))).at
                s' refl;
        }
    where
      taken : (found : Option (ℕ × Session)) → found ≡ some (id, row) → is_some found ≡ false → ⊥
      taken none e free = cc
      taken (some x) e free = cc

  raises :
      is_stale gate.now row ≡ true
      → (entry : ℕ × Session) → entry ≡ (id, row)
      → Triple (λ _. Unit {0}) (λ _ _. ⊥) Nothing (fresh_or_raise gate.now entry)
  raises stale entry same = rw same (
      Triple-if (is_stale gate.now row)
        (modify (put_session id (expired_row row)) >> raise not_found) (pure (id, row))
        (λ _. Triple-modify {P' = Nothing} _ _ (λ _ _. tt) (Triple-raise not_found (λ _ _. tt)))
        (λ fresh. absurd cc))

  get_active_session-refused :
      is_stale gate.now row ≡ true
      → Triple (Still s) (λ _ _. ⊥) Nothing (get_active_session gate nip)
  unfolding get_active_session
  get_active_session-refused stale = Triple-bind _ _ _ the_row λ found.
      Triple-or_raise _ _ _ (λ _ _. tt)
        λ entry e. record {
          at = λ s' h. (raises stale entry (same_entry found entry e h)).at s' tt;
        }

  close_session-refused :
      is_stale gate.now row ≡ true
      → Triple (Still s) (λ _. Still s) Nothing (close_session gate nip)
  unfolding close_session
  close_session-refused stale =
      Triple-bind _ _ _ (get_active_session-refused stale)
        λ entry. record { at = λ s' wrong. absurd wrong }

  -- The session of a tax number is over: neither the request to close it nor the one to open another
  -- changes the tables, so its row stays active.
  pub serve_session-is_stale :
      is_stale gate.now row ≡ true
      → (serve_session (closing gate nip) s ≡ s) × (serve_session (opening gate nip) s ≡ s)
  unfolding serve_session
  serve_session-is_stale stale = (
    transaction_keeps (Still s) _ s (close_session-refused stale) refl,
    transaction_keeps (Still s) _ s open_session-refused refl,
  )
