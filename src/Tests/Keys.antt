-- ===== src/Tests/Keys.antt =====
-- A key held by a request, and the calls that follow.
use ifg.Base.{none, some, List, [], ◌∷◌, String, ◌≡◌, refl, All, arith}
use ifg.Base.Dict.{Dict}
use ifg.Base.Exec.{ok, err, duplicate_request}
use ifg.Idempotency.{Json, KeyRow, pending, acquire, complete}
use ifg.Idempotency.Replay.{
  Call, acquire_key, fail_key, run_calls, LeavesKey, acquire-run_calls, acquire-complete,
}

abbrev constant_hash : Json → String
constant_hash body = "00"

abbrev held : KeyRow
held = record {
  status = pending;
  request_hash = none;
  entity_type = none;
  entity_id = none;
  response_snapshot = none;
  expires_at = 86400;
}

-- A second request under the key 3, and one under another key that fails.
abbrev calls : List Call
calls = acquire_key 3 none 7 ∷ acquire_key 4 none 8 ∷ fail_key 4 ∷ []

calls_leave_3 : All (LeavesKey 3) calls
calls_leave_3 = (tt, (tt, ((λ e. omega arith), tt)))

acquire-run_calls_example :
    acquire constant_hash 3 none 9 (run_calls constant_hash calls ((3, held) ∷ []))
    ≡ (err duplicate_request, run_calls constant_hash calls ((3, held) ∷ []))
acquire-run_calls_example =
    acquire-run_calls constant_hash 3 none 9 held (err duplicate_request) calls ((3, held) ∷ [])
      refl refl calls_leave_3

abbrev answered : Dict KeyRow
answered =
    (complete 3 "invoice" "17" (some (("id", "17") ∷ [])) (acquire constant_hash 3 none 5 []).1).1

acquire-complete_example :
    acquire constant_hash 3 none 9 (run_calls constant_hash calls answered)
    ≡ (ok (some (("id", "17") ∷ [])), run_calls constant_hash calls answered)
acquire-complete_example =
    acquire-complete constant_hash 3 none none 5 9 "invoice" "17" ("id", "17") [] calls []
      calls_leave_3
