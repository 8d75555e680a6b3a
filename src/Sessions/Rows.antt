-- ===== src/Sessions/Rows.antt =====
-- The table of app/persistence/models/ksef_session.py, the probe's cache, and what one call of
-- app/services/ksef_session_service.py finds outside. Times are in seconds.
use ifg.Base.{ℕ, Bool, Option, List}
use ifg.Base.Dict.{Dict}
use ifg.Base.Exec.{Result}
use ifg.Invoices.Items.{Chars}
use ifg.Transmissions.Rows.{Bytes}

-- SESSION_ACTIVE, SESSION_TERMINATED, SESSION_EXPIRED, SESSION_FAILED
pub data SessionStatus : Type 0 where
  active terminated expired failed : SessionStatus

pub record Session : Type 0 where
  pub nip : Chars
  pub session_reference : Option Chars
  pub access_token : Option Chars
  pub symmetric_key : Option Bytes
  pub initialization_vector : Option Bytes
  pub status : SessionStatus
  pub expires_at : Option ℕ
  pub created_at : ℕ
  pub updated_at : ℕ

-- KSeFSessionContext
pub record KsefContext : Type 0 where
  pub access_token : Chars
  pub session_reference : Chars
  pub symmetric_key : Bytes
  pub initialization_vector : Bytes

pub data Reason : Type 0 where
  no_session session_expired auth_error network_error ksef_unavailable unknown : Reason

-- An entry of `_probe_cache`
pub record ProbeState : Type 0 where
  pub failure_count : ℕ
  pub last_reason : Reason

pub data SessionEvent : Type 0 where
  session_opened session_closed : ℕ → SessionEvent

-- The table, the entry of the probe's cache for the client's address, and the audit log
pub record Registry : Type 0 where
  pub next_id : ℕ
  pub rows : Dict Session
  pub probe : Option ProbeState
  pub audit : List SessionEvent

-- What `check_connectivity` does: it returns, or raises KSeFClientError with a status and the flag
-- `transient`, or something else.
pub data Reply : Type 0 where
  reachable broken : Reply
  client_failure : Option ℕ → Bool → Reply

pub record Tokens : Type 0 where
  pub access_token : Chars
  pub access_valid_until : Option ℕ

pub record OnlineSession : Type 0 where
  pub session_reference : Chars
  pub symmetric_key : Bytes
  pub initialization_vector : Bytes

-- What one call finds outside: the clock, the configured token, and KSeF's answers, none where the
-- client raises its own error.
pub record Gate : Type 0 where
  pub now : ℕ
  pub auth_token : Option Chars
  pub get_tokens : Chars → Option Tokens
  pub open_online : Chars → Option OnlineSession
  pub close_online : Chars → Chars → Result (Unit {0})
  pub connectivity : Reply
