-- ===== src/Sessions/Status.antt =====
-- The probe of the connection, `get_connection_status` and `expire_stale_sessions` of
-- app/services/ksef_session_service.py, and the calls in any order.
use ifg.Base.{
  ℕ, ◌+◌, ltb, ◌==◌, Bool, true, false, ◌&&◌, ◌||◌, Option, none, some, is_some, List, [], ◌∷◌,
  if◌then◌else◌, select, length,
}
use ifg.Base.Dict.{Dict}
use ifg.Base.Exec.{Exec, Result, ok, err, ◌>>=◌, ◌>>◌, pure, gets, modify, transaction}
use ifg.Invoices.Items.{Chars}
use ifg.Sessions.Rows.{
  Session, Reason, ProbeState, Registry, Reply, Gate, no_session, session_expired, auth_error,
  network_error, ksef_unavailable, unknown, reachable, broken, client_failure,
}
use ifg.Sessions.Service.{
  is_active, get_active_db_session, is_stale, open_session, expired_row, close_session,
  expire_found, mark_session_expired,
}

abbrev is_refusal : Option ℕ → Bool
is_refusal none = false
is_refusal (some code) = code == 401 || code == 403

-- `_map_status_reason_from_client_error`
abbrev pub map_status_reason : Option ℕ → Bool → Reason
map_status_reason code transient =
    if is_refusal code
    then auth_error
    else if transient
    then if is_some code then ksef_unavailable else network_error
    else unknown

abbrev pub failures : Option ProbeState → ℕ
failures none = 0
failures (some state) = state.failure_count

-- _PROBE_ERROR_THRESHOLD
abbrev probe_error_threshold : ℕ
probe_error_threshold = 3

abbrev pub count_failure : Reason → Exec Registry (Option Reason)
count_failure reason = do
  count ← gets (λ s. failures s.probe + 1)
  modify (λ s. record s { probe = some (record { failure_count = count; last_reason = reason }) })
  pure (if ltb count probe_error_threshold then none else some reason)

-- `_probe_connectivity_error`
unfoldable pub probe_connectivity_error : Reply → Exec Registry (Option Reason)
probe_connectivity_error reachable = do
  modify (λ s. record s { probe = some (record { failure_count = 0; last_reason = unknown }) })
  pure none
probe_connectivity_error broken = count_failure unknown
probe_connectivity_error (client_failure code transient) =
    count_failure (map_status_reason code transient)

pub data UiStatus : Type 0 where
  connected disconnected error : UiStatus

pub record ConnectionStatus : Type 0 where
  pub ui_status : UiStatus
  pub reason : Reason
  pub has_session : Bool
  pub session_expires_at : Option ℕ

-- `_build_connection_status` without a session
abbrev pub without_session : UiStatus → Reason → ConnectionStatus
without_session ui_status reason = record {
  ui_status = ui_status;
  reason = reason;
  has_session = false;
  session_expires_at = none;
}

abbrev pub with_session : Option ℕ → ConnectionStatus
with_session at = record {
  ui_status = connected;
  reason = unknown;
  has_session = true;
  session_expires_at = at;
}

-- `except Exception`: what the method has raised is an answer.
abbrev pub attempt : {A : Type 0} → Exec Registry A → Exec Registry (Result A)
attempt m s = let (r, s') = m s in (ok r, s')

abbrev pub status_of_row : Gate → Result (Option (ℕ × Session)) → Exec Registry ConnectionStatus
status_of_row gate (err _) = pure (without_session error unknown)
status_of_row gate (ok none) = pure (without_session disconnected no_session)
status_of_row gate (ok (some (id, row))) =
    if is_stale gate.now row
    then modify (expire_found gate (some (id, row)))
      >> pure (without_session disconnected session_expired)
    else pure (with_session row.expires_at)

abbrev pub status_after_probe : Gate → Option Chars → Option Reason → Exec Registry ConnectionStatus
status_after_probe gate nip (some reason) = pure (without_session error reason)
status_after_probe gate none none = pure (without_session disconnected no_session)
status_after_probe gate (some []) none = pure (without_session disconnected no_session)
status_after_probe gate (some (c ∷ cs)) none = do
  found ← attempt (get_active_db_session (c ∷ cs))
  status_of_row gate found

-- `get_connection_status`
unfoldable pub get_connection_status : Gate → Option Chars → Exec Registry ConnectionStatus
unfolding probe_connectivity_error get_active_db_session
get_connection_status gate nip = do
  trouble ← probe_connectivity_error gate.connectivity
  status_after_probe gate nip trouble

abbrev pub is_overdue : ℕ → Session → Bool
is_overdue now row = is_active row.status && is_stale now row

-- The loop of `expire_stale_sessions`
abbrev pub expire_overdue : ℕ → Dict Session → Dict Session
expire_overdue now [] = []
expire_overdue now ((id, row) ∷ rows) =
    (id, if is_overdue now row then expired_row row else row) ∷ expire_overdue now rows

-- `expire_stale_sessions`
unfoldable pub expire_stale_sessions : Gate → Exec Registry ℕ
expire_stale_sessions gate = do
  overdue ← gets (λ s. length (select (λ e. is_overdue gate.now e.1) s.rows))
  modify (λ s. record s { rows = expire_overdue gate.now s.rows })
  pure overdue

-- The calls of the service, each in a session that is rolled back when it raises
pub data SessionCall : Type 0 where
  opening closing expiring : Gate → Chars → SessionCall
  asking : Gate → Option Chars → SessionCall
  sweeping : Gate → SessionCall

unfoldable pub serve_session : SessionCall → Registry → Registry
serve_session (opening gate nip) s = (transaction (open_session gate nip) s).1
serve_session (closing gate nip) s = (transaction (close_session gate nip) s).1
serve_session (expiring gate nip) s = (transaction (mark_session_expired gate nip) s).1
serve_session (asking gate nip) s = (transaction (get_connection_status gate nip) s).1
serve_session (sweeping gate) s = (transaction (expire_stale_sessions gate) s).1

-- The table after a list of calls
unfoldable pub serve_sessions : List SessionCall → Registry → Registry
unfolding serve_session
serve_sessions [] s = s
serve_sessions (call ∷ calls) s = serve_sessions calls (serve_session call s)
