-- ===== src/Sessions/Connected.antt =====
-- What the answer CONNECTED of `get_connection_status` promises: app/services/ksef_session_service.py.
use ifg.Base.{ℕ, true, false, Option, none, some, [], ◌∷◌, ◌≡◌, ◌⊎◌, inl, inr, refl, ap, Bool-cases}
use ifg.Base.Exec.{Result, ok, err, ◌>>=◌, ◌>>◌, pure, modify, internal}
use ifg.Base.Triple.{Triple, Triple-ok, Post, Triple-pure, Triple-if, Triple-bind, Triple-modify}
use ifg.Invoices.Items.{Chars}
use ifg.Sessions.Rows.{Session, Registry, Gate, Reason, no_session, session_expired, unknown}
use ifg.Sessions.Service.{
  get_active_db_session, get_active_session, is_stale, expire_found, is_incomplete, context_of,
  get_session_context,
}
use ifg.Sessions.Status.{
  ConnectionStatus, connected, disconnected, error, without_session, with_session, attempt,
  probe_connectivity_error, status_of_row, status_after_probe, get_connection_status,
}
use ifg.Sessions.Single.{lookup_reads}

-- What `get_session_context` gives of a row: its context, or AppError when a part of it is missing or
-- empty.
abbrev Gives : Gate → Chars → Session → Registry → Type 0
Gives gate number row s =
    (is_incomplete row ≡ false) × (get_session_context gate number s ≡ (ok (context_of row), s))
    ⊎ (is_incomplete row ≡ true) × (get_session_context gate number s ≡ (err internal, s))

-- The session that a job would work in at the same moment
pub record Served (gate : Gate) (nip : Option Chars) (c : ConnectionStatus) (s : Registry)
    : Type 0 where
  pub number : Chars
  pub given : nip ≡ some number
  pub entry : ℕ × Session
  pub found : get_active_session gate number s ≡ (ok entry, s)
  pub got : Gives gate number entry.1 s
  pub until : c.session_expires_at ≡ entry.1.expires_at

abbrev Promise : Gate → Option Chars → ConnectionStatus → Registry → Type 0
Promise gate nip c s = c.ui_status ≡ connected → Served gate nip c s

abbrev Nothing : Registry → Type 0
Nothing _ = Unit

module _ (gate : Gate) where
  gets_row :
      (n : Chars) (id : ℕ) (row : Session) (s : Registry)
      → get_active_db_session n s ≡ (ok (some (id, row)), s)
      → is_stale gate.now row ≡ false
      → get_active_session gate n s ≡ (ok (id, row), s)
  unfolding get_active_session ◌>>=◌
  gets_row n id row s found fresh = rw (found, fresh) refl

  row_context :
      (n : Chars) (entry : ℕ × Session) (s : Registry)
      → get_active_session gate n s ≡ (ok entry, s)
      → Gives gate n entry.1 s
  unfolding get_session_context ◌>>=◌
  row_context n entry s found = elim (Bool-cases (is_incomplete entry.1)) [
    | inl lacking ↦ inr (lacking, rw (found, lacking) refl)
    | inr whole ↦ inl (whole, rw (found, whole) refl)
  ]

  attempted :
      (n : Chars)
      → Triple Nothing
          (λ r s. get_active_db_session n s ≡ (r, s))
          Nothing
          (attempt (get_active_db_session n))
  attempted n = record {
    at = λ s _.
        rw (lookup_reads n s) (ap (λ s'. ((get_active_db_session n s).0, s')) (lookup_reads n s));
  }

  row-Promise :
      (n : Chars) (r : Result (Option (ℕ × Session)))
      → Triple
          (λ s. get_active_db_session n s ≡ (r, s))
          (Promise gate (some n))
          Nothing
          (status_of_row gate r)
  row-Promise n (err e) = Triple-pure (without_session error unknown) (λ s h up. cc)
  row-Promise n (ok none) = Triple-pure (without_session disconnected no_session) (λ s h up. cc)
  row-Promise n (ok (some (id, row))) =
      Triple-if (is_stale gate.now row)
        (modify (expire_found gate (some (id, row)))
          >> pure (without_session disconnected session_expired))
        (pure (with_session row.expires_at))
        (λ stale.
          Triple-modify {P' = Nothing} _ _ (λ _ _. tt)
            (Triple-pure (without_session disconnected session_expired) (λ s h up. cc)))
        (λ fresh. Triple-pure (with_session row.expires_at) (λ s h up. record {
          number = n;
          given = refl;
          entry = (id, row);
          found = gets_row n id row s h fresh;
          got = row_context n (id, row) s (gets_row n id row s h fresh);
          until = refl;
        }))

  after_probe-Promise :
      (nip : Option Chars) (trouble : Option Reason)
      → Triple Nothing (Promise gate nip) Nothing (status_after_probe gate nip trouble)
  after_probe-Promise nip (some reason) = Triple-pure (without_session error reason) (λ s h up. cc)
  after_probe-Promise none none =
      Triple-pure (without_session disconnected no_session) (λ s h up. cc)
  after_probe-Promise (some []) none =
      Triple-pure (without_session disconnected no_session) (λ s h up. cc)
  after_probe-Promise (some (c ∷ cs)) none =
      Triple-bind _ _ _ (attempted (c ∷ cs)) λ r. row-Promise (c ∷ cs) r

  anything : (r : Result (Option Reason)) (s : Registry) → Post (λ _. Nothing) Nothing r s
  anything (ok a) s = tt
  anything (err e) s = tt

  status-Promise :
      (nip : Option Chars)
      → Triple Nothing (Promise gate nip) Nothing (get_connection_status gate nip)
  unfolding get_connection_status
  status-Promise nip =
      Triple-bind (λ _. Nothing) _ _
        (record {
          at = λ s _.
              anything (probe_connectivity_error gate.connectivity s).0
                (probe_connectivity_error gate.connectivity s).1;
        })
        λ trouble. after_probe-Promise nip trouble

  -- When the connection status of a tax number is CONNECTED, the session is there for a job that asks
  -- at the same moment, without any change: get_session_context returns that row's context, or raises
  -- AppError where the row lacks the token, the key or the vector. The status names the time at which
  -- the session ends.
  pub get_connection_status-Served :
      (nip : Option Chars) (s s' : Registry) (c : ConnectionStatus)
      → get_connection_status gate nip s ≡ (ok c, s')
      → c.ui_status ≡ connected
      → Served gate nip c s'
  get_connection_status-Served nip s s' c answer up =
      Triple-ok (Promise gate nip) (status-Promise nip) s tt answer up
