-- ===== src/Sessions/Opened.antt =====
-- From the answers of KSeF to the context of a job: `open_session`, then `get_session_context`, of
-- app/services/ksef_session_service.py.
use ifg.Base.{ℕ, ◌<◌, Option, none, some, [], ◌∷◌, select, ◌≡◌}
use ifg.Base.Dict.{Dict}
use ifg.Base.Triple.{Triple}
use ifg.Invoices.Items.{Chars}
use ifg.Sessions.Rows.{Registry, Gate, Tokens, OnlineSession}
use ifg.Sessions.Service.{is_active_for, new_session}

abbrev Nothing : Registry → Type 0
Nothing _ = Unit

-- No row is active for the tax number.
abbrev Free : Chars → Registry → Type 0
Free nip s = select (is_active_for nip) s.rows ≡ []

-- The row that the answers of KSeF make is the one that the query finds.
record Opened (gate : Gate) (nip : Chars) (id : ℕ) (s : Registry) : Type 0 where
  tokens : Tokens
  online : OnlineSession
  given : gate.get_tokens nip ≡ some tokens
  connected : gate.open_online tokens.access_token ≡ some online
  active : select (is_active_for nip) s.rows ≡ (id, new_session nip tokens online gate.now) ∷ []

-- The time is before the end, if there is one.
abbrev Lasts : ℕ → Option ℕ → Type 0
Lasts now none = Unit
Lasts now (some end) = now < end
