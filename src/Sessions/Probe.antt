-- ===== src/Sessions/Probe.antt =====
-- The probe of the connection counts failures: `_probe_connectivity_error` of
-- app/services/ksef_session_service.py.
use ifg.Base.{ℕ, ◌+◌, leb, none, some, List, [], ◌∷◌, if◌then◌else◌, ◌≡◌, refl, ap, arith}
use ifg.Base.Exec.{ok, ◌>>=◌}
use ifg.Sessions.Rows.{Registry, Reason, unknown, Reply, reachable, broken, client_failure}
use ifg.Sessions.Status.{map_status_reason, failures, count_failure, probe_connectivity_error}

-- How many of the last replies in a row were failures, the last one first
abbrev failing : List Reply → ℕ
failing [] = 0
failing (reachable ∷ replies) = 0
failing (broken ∷ replies) = failing replies + 1
failing (client_failure code transient ∷ replies) = failing replies + 1

-- What the reply is called when it is reported
abbrev reason_of : Reply → Reason
reason_of (client_failure code transient) = map_status_reason code transient
reason_of _ = unknown

-- The process after the replies, the last one first
unfoldable pub probed : List Reply → Registry → Registry
unfolding probe_connectivity_error
probed [] s = s
probed (reply ∷ replies) s = (probe_connectivity_error reply (probed replies s)).1

failures-probed :
    (replies : List Reply) (s : Registry)
    → s.probe ≡ none
    → failures (probed replies s).probe ≡ failing replies
unfolding probed probe_connectivity_error ◌>>=◌
failures-probed [] s start = ap failures start
failures-probed (reachable ∷ replies) s start = refl
failures-probed (broken ∷ replies) s start = ap (λ n. n + 1) (failures-probed replies s start)
failures-probed (client_failure code transient ∷ replies) s start =
    ap (λ n. n + 1) (failures-probed replies s start)

counted :
    (reason : Reason) (n : ℕ) (s : Registry)
    → failures s.probe ≡ n
    → (count_failure reason s).0 ≡ ok (if leb 3 (n + 1) then some reason else none)
unfolding ◌>>=◌
counted reason n s e = rw e (ap ok (ground arith))

-- Since the process started, the probe reports an error exactly when at least the last three replies in
-- a row were failures, the present one included, and it names the reason of the present one.
pub probe_connectivity_error-failing :
    (reply : Reply) (replies : List Reply) (s : Registry)
    → s.probe ≡ none
    → (probe_connectivity_error reply (probed replies s)).0
      ≡ ok (if leb 3 (failing (reply ∷ replies)) then some (reason_of reply) else none)
unfolding probe_connectivity_error ◌>>=◌
probe_connectivity_error-failing reachable replies s start = refl
probe_connectivity_error-failing broken replies s start =
    counted unknown (failing replies) (probed replies s) (failures-probed replies s start)
probe_connectivity_error-failing (client_failure code transient) replies s start =
    counted (map_status_reason code transient) (failing replies) (probed replies s)
      (failures-probed replies s start)
