-- ===== src/Sessions/Service.antt =====
-- Opening, closing and expiring a session: `KSeFSessionService` of app/services/ksef_session_service.py.
-- The cache of tokens is written and never read for a result, so it is left out; base64 is left out of
-- the stored keys.
use ifg.Base.{
  ℕ, ◌+◌, leb, Bool, true, false, ◌&&◌, ◌||◌, Option, none, some, is_some, [], ◌∷◌, ◌++◌,
  if◌then◌else◌, select,
}
use ifg.Base.Dict.{insert}
use ifg.Base.Exec.{
  Exec, ◌>>=◌, ◌>>◌, pure, raise, gets, lift, modify, or_raise, raise_if, not_found, multiple_rows,
  conflict, external_service, internal,
}
use ifg.Invoices.Items.{Chars}
use ifg.Invoices.Validation.{is_falsy}
use ifg.Transmissions.Repository.{one_or_none, has_many, same_text}
use ifg.Sessions.Rows.{
  SessionStatus, Session, SessionEvent, Registry, Tokens, OnlineSession, Gate, KsefContext, active,
  terminated, expired, session_opened, session_closed,
}

abbrev pub is_active : SessionStatus → Bool
is_active active = true
is_active _ = false

abbrev pub is_active_for : Chars → ℕ × Session → Bool
is_active_for nip (id, row) = same_text row.nip nip && is_active row.status

-- `_get_active_db_session`
unfoldable pub get_active_db_session : Chars → Exec Registry (Option (ℕ × Session))
get_active_db_session nip = do
  rows ← gets (λ s. select (is_active_for nip) s.rows)
  raise_if (has_many rows) multiple_rows
  pure (one_or_none rows)

unfoldable pub put_session : ℕ → Session → Registry → Registry
put_session id row s = record s { rows = insert id row s.rows }

abbrev pub add_session : Session → Registry → Registry
add_session row s = record s { next_id = s.next_id + 1; rows = s.rows ++ (s.next_id, row) ∷ [] }

abbrev record_session_event : SessionEvent → Registry → Registry
record_session_event event s = record s { audit = event ∷ s.audit }

-- `expires_at is not None and expires_at <= now`
abbrev pub is_stale : ℕ → Session → Bool
is_stale now row = elim row.expires_at [ none ↦ false | some at ↦ leb at now ]

abbrev pub new_session : Chars → Tokens → OnlineSession → ℕ → Session
new_session nip tokens online now = record {
  nip = nip;
  session_reference = some online.session_reference;
  access_token = some tokens.access_token;
  symmetric_key = some online.symmetric_key;
  initialization_vector = some online.initialization_vector;
  status = active;
  expires_at = tokens.access_valid_until;
  created_at = now;
  updated_at = now;
}

-- `open_session`
unfoldable pub open_session : Gate → Chars → Exec Registry ℕ
unfolding get_active_db_session
open_session gate nip = do
  raise_if (is_falsy gate.auth_token) internal
  found ← get_active_db_session nip
  raise_if (is_some found) conflict
  tokens ← or_raise (gate.get_tokens nip) external_service
  online ← or_raise (gate.open_online tokens.access_token) external_service
  id ← gets (λ s. s.next_id)
  modify (add_session (new_session nip tokens online gate.now))
  modify (record_session_event (session_opened id))
  pure id

abbrev pub expired_row : Session → Session
expired_row row = record row { status = expired }

abbrev pub fresh_or_raise : ℕ → ℕ × Session → Exec Registry (ℕ × Session)
fresh_or_raise now (id, row) =
    if is_stale now row
    then modify (put_session id (expired_row row)) >> raise not_found
    else pure (id, row)

-- `get_active_session`
unfoldable pub get_active_session : Gate → Chars → Exec Registry (ℕ × Session)
unfolding get_active_db_session
get_active_session gate nip = do
  found ← get_active_db_session nip
  entry ← or_raise found not_found
  fresh_or_raise gate.now entry

abbrev or_empty : Option Chars → Chars
or_empty none = []
or_empty (some text) = text

-- `not access_token or not symmetric_key_b64 or not iv_b64`
abbrev pub is_incomplete : Session → Bool
is_incomplete row =
    is_falsy row.access_token || is_falsy row.symmetric_key || is_falsy row.initialization_vector

abbrev pub context_of : Session → KsefContext
context_of row = record {
  access_token = or_empty row.access_token;
  session_reference = or_empty row.session_reference;
  symmetric_key = or_empty row.symmetric_key;
  initialization_vector = or_empty row.initialization_vector;
}

-- `get_session_context`
unfoldable pub get_session_context : Gate → Chars → Exec Registry KsefContext
unfolding get_active_session
get_session_context gate nip = do
  entry ← get_active_session gate nip
  raise_if (is_incomplete entry.1) internal
  pure (context_of entry.1)

abbrev pub terminated_row : ℕ → Session → Session
terminated_row now row = record row { status = terminated; updated_at = now }

-- `close_session`
unfoldable pub close_session : Gate → Chars → Exec Registry ℕ
unfolding get_active_session
close_session gate nip = do
  entry ← get_active_session gate nip
  lift (gate.close_online (or_empty entry.1.access_token) (or_empty entry.1.session_reference))
  modify (put_session entry.0 (terminated_row gate.now entry.1))
  modify (record_session_event (session_closed entry.0))
  pure entry.0

abbrev pub marked_expired : ℕ → Session → Session
marked_expired now row = record row { status = expired; updated_at = now }

abbrev pub expire_found : Gate → Option (ℕ × Session) → Registry → Registry
expire_found gate none s = s
expire_found gate (some (id, row)) s = put_session id (marked_expired gate.now row) s

-- `mark_session_expired`
unfoldable pub mark_session_expired : Gate → Chars → Exec Registry (Unit {0})
unfolding get_active_db_session
mark_session_expired gate nip = do
  found ← get_active_db_session nip
  modify (expire_found gate found)
