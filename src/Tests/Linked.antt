-- ===== src/Tests/Linked.antt =====
-- One tax number, its sessions with KSeF, and a line that fails.
use ifg.Base.{ℕ, true, none, some, List, [], ◌∷◌, ◌≡◌, refl, arith}
use ifg.Base.Exec.{ok, ◌>>=◌}
use ifg.Invoices.Items.{Chars}
use ifg.Sessions.Rows.{
  Registry, Gate, Tokens, OnlineSession, Reply, reachable, broken, client_failure, network_error,
  unknown, session_opened,
}
use ifg.Sessions.Service.{new_session, get_active_db_session}
use ifg.Sessions.Status.{
  opening, closing, asking, sweeping, SessionCall, serve_session, serve_sessions,
  probe_connectivity_error, with_session, get_connection_status,
}
use ifg.Sessions.Connected.{Served, get_connection_status-Served}
use ifg.Sessions.Single.{IsSingle, serve_sessions-IsSingle}
use ifg.Sessions.Stale.{serve_session-is_stale}
use ifg.Sessions.Probe.{probed, probe_connectivity_error-failing}

abbrev nip : Chars
nip = b'5' ∷ b'2' ∷ []

abbrev tokens : Tokens
tokens = record { access_token = b'T' ∷ []; access_valid_until = some 50 }

abbrev online : OnlineSession
online = record {
  session_reference = b'S' ∷ [];
  symmetric_key = 1 ∷ [];
  initialization_vector = 2 ∷ [];
}

abbrev gate : ℕ → Gate
gate now = record {
  now = now;
  auth_token = some (b'A' ∷ []);
  get_tokens = λ of. some tokens;
  open_online = λ token. some online;
  close_online = λ token reference. ok tt;
  connectivity = reachable;
}

abbrev nobody : Registry
nobody = record { next_id = 0; rows = []; probe = none; audit = [] }

abbrev calls : List SessionCall
calls =
    opening (gate 10) nip
    ∷ opening (gate 20) nip
    ∷ asking (gate 60) (some nip)
    ∷ opening (gate 61) nip
    ∷ sweeping (gate 90)
    ∷ []

serve_sessions-IsSingle_example : IsSingle (serve_sessions calls nobody).rows
serve_sessions-IsSingle_example =
    serve_sessions-IsSingle calls nobody (record { single = λ of. omega arith })

abbrev over : Registry
over = record nobody { next_id = 1; rows = (0, new_session nip tokens online 10) ∷ [] }

found : get_active_db_session nip over ≡ (ok (some (0, new_session nip tokens online 10)), over)
unfolding get_active_db_session ◌>>=◌
found = refl

serve_session-is_stale_example :
    (serve_session (closing (gate 60) nip) over ≡ over)
    × (serve_session (opening (gate 60) nip) over ≡ over)
serve_session-is_stale_example =
    serve_session-is_stale (gate 60) nip 0 (new_session nip tokens online 10) over found refl

abbrev cut : Reply
cut = client_failure none true

probe_connectivity_error-failing_example :
    (probe_connectivity_error cut (probed (broken ∷ cut ∷ reachable ∷ cut ∷ []) nobody)).0
    ≡ ok (some network_error)
probe_connectivity_error-failing_example =
    probe_connectivity_error-failing cut (broken ∷ cut ∷ reachable ∷ cut ∷ []) nobody refl

abbrev in_time : Registry
in_time = record over { probe = some (record { failure_count = 0; last_reason = unknown }) }

answered_connected :
    get_connection_status (gate 20) (some nip) over ≡ (ok (with_session (some 50)), in_time)
unfolding get_connection_status probe_connectivity_error get_active_db_session ◌>>=◌
answered_connected = refl

get_connection_status-Served_example : Served (gate 20) (some nip) (with_session (some 50)) in_time
get_connection_status-Served_example =
    get_connection_status-Served (gate 20) (some nip) over in_time (with_session (some 50))
      answered_connected refl

abbrev audited : Registry
audited = record over { audit = session_opened 0 ∷ [] }
