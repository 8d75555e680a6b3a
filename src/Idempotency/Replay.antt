-- ===== src/Idempotency/Replay.antt =====
-- A key is held while its request runs, and its response is given again afterwards.
use ifg.Base.{
  ℕ, Option, none, some, List, [], ◌∷◌, String, ◌==◌, ◌≡◌, ◌≢◌, inl, inr, refl, ap, ◌∙◌, All,
  Bool-cases, arith,
}
use ifg.Base.Dict.{Dict, lookup, insert, lookup-insert, lookup-insert_self}
use ifg.Base.Exec.{Result, ok, err, ◌>>=◌, duplicate_request}
use ifg.Idempotency.{
  Json, KeyStatus, KeyRow, pending, completed, failed, update_status, usable, acquire_existing,
  acquire, acquire_found, replayed, updated_if_there, complete, fail,
}

-- The calls of the service.
pub data Call : Type 0 where
  acquire_key : ℕ → Option Json → ℕ → Call
  complete_key : ℕ → String → String → Option Json → Call
  fail_key : ℕ → Call

module _ (hash_body : Json → String) where
  run_call : Call → Dict KeyRow → Dict KeyRow
  run_call (acquire_key key body now) rows = (acquire hash_body key body now rows).1
  run_call (complete_key key entity_type entity_id snapshot) rows =
      (complete key entity_type entity_id snapshot rows).1
  run_call (fail_key key) rows = (fail key rows).1

  pub run_calls : List Call → Dict KeyRow → Dict KeyRow
  run_calls [] rows = rows
  run_calls (c ∷ cs) rows = run_calls cs (run_call c rows)

-- A call that does not end the request under the key.
abbrev pub LeavesKey : ℕ → Call → Type 0
LeavesKey key (acquire_key k body now) = Unit
LeavesKey key (complete_key k entity_type entity_id snapshot) = k ≢ key
LeavesKey key (fail_key k) = k ≢ key

-- What `acquire` answers for a row that it does not change.
abbrev answer_for : KeyStatus → Option Json → Option (Result (Option Json))
answer_for pending snapshot = some (err duplicate_request)
answer_for completed (some snapshot) = some (ok (some snapshot))
answer_for completed none = none
answer_for failed snapshot = none

abbrev fixed_answer : KeyRow → Option (Result (Option Json))
fixed_answer row = answer_for row.status (usable row.response_snapshot)

existing_fixed :
    (key : ℕ) (row : KeyRow) (s : KeyStatus) (u : Option Json) (answer : Result (Option Json))
    (rows : Dict KeyRow)
    → usable row.response_snapshot ≡ u
    → answer_for s u ≡ some answer
    → acquire_existing key row s rows ≡ (answer, rows)
unfolding acquire_existing ◌>>=◌
existing_fixed key row pending u answer rows e f =
    let same : err duplicate_request ≡ answer = cc in ap (λ x. (x, rows)) same
existing_fixed key row completed (some snapshot) answer rows e f =
    let same : ok (some snapshot) ≡ answer = cc in rw e (ap (λ x. (x, rows)) same)
existing_fixed key row completed none answer rows e f = cc
existing_fixed key row failed u answer rows e f = cc

other_key :
    (key k : ℕ) (row : KeyRow) (rows : Dict KeyRow)
    → k ≢ key
    → lookup key (insert k row rows) ≡ lookup key rows
other_key key k row rows h = ground (arith, lookup-insert k key row rows)

module _ (hash_body : Json → String) (key : ℕ) where
  acquire_fixed :
      (body : Option Json) (now : ℕ) (row : KeyRow) (answer : Result (Option Json))
      (rows : Dict KeyRow)
      → lookup key rows ≡ some row
      → fixed_answer row ≡ some answer
      → acquire hash_body key body now rows ≡ (answer, rows)
  unfolding acquire ◌>>=◌
  acquire_fixed body now row answer rows found f =
      rw found (existing_fixed key row row.status (usable row.response_snapshot) answer rows refl f)

  -- A call on another key leaves this one alone.
  replayed_other :
      (k : ℕ) (row : KeyRow) (u : Option Json) (rows : Dict KeyRow)
      → k ≢ key
      → lookup key (replayed k row u rows).1 ≡ lookup key rows
  unfolding ◌>>=◌
  replayed_other k row (some snapshot) rows h = refl
  replayed_other k row none rows h = other_key key k _ rows h

  existing_other :
      (k : ℕ) (row : KeyRow) (s : KeyStatus) (rows : Dict KeyRow)
      → k ≢ key
      → lookup key (acquire_existing k row s rows).1 ≡ lookup key rows
  unfolding acquire_existing ◌>>=◌
  existing_other k row pending rows h = refl
  existing_other k row completed rows h = replayed_other k row (usable row.response_snapshot) rows h
  existing_other k row failed rows h = other_key key k _ rows h

  found_other :
      (k : ℕ) (body : Option Json) (now : ℕ) (found : Option KeyRow) (rows : Dict KeyRow)
      → k ≢ key
      → lookup key (acquire_found hash_body k body now found rows).1 ≡ lookup key rows
  unfolding ◌>>=◌
  found_other k body now none rows h = other_key key k _ rows h
  found_other k body now (some row) rows h = existing_other k row row.status rows h

  updated_other :
      (k : ℕ) (found : Option KeyRow) (change : KeyRow → KeyRow) (rows : Dict KeyRow)
      → k ≢ key
      → lookup key (updated_if_there k found change rows).1 ≡ lookup key rows
  unfolding ◌>>=◌
  updated_other k none change rows h = refl
  updated_other k (some row) change rows h = other_key key k _ rows h

  module _ (row : KeyRow) (answer : Result (Option Json))
      (fixed : fixed_answer row ≡ some answer) where
    call_leaves :
        (c : Call) (rows : Dict KeyRow)
        → LeavesKey key c
        → lookup key rows ≡ some row
        → lookup key (run_call hash_body c rows) ≡ some row
    unfolding run_call acquire complete fail ◌>>=◌
    call_leaves (acquire_key k body now) rows h found = elim (Bool-cases (k == key)) [
      | inl same ↦
          let here : k ≡ key = ground arith in
          rw here (rw (ap (λ r. r.1) (acquire_fixed body now row answer rows found fixed)) found)
      | inr other ↦ found_other k body now (lookup k rows) rows (ground arith) ∙ found
    ]
    call_leaves (complete_key k entity_type entity_id snapshot) rows h found =
        updated_other k (lookup k rows) _ rows h ∙ found
    call_leaves (fail_key k) rows h found = updated_other k (lookup k rows) _ rows h ∙ found

    calls_leave :
        (cs : List Call) (rows : Dict KeyRow)
        → All (LeavesKey key) cs
        → lookup key rows ≡ some row
        → lookup key (run_calls hash_body cs rows) ≡ some row
    unfolding run_calls
    calls_leave [] rows h found = found
    calls_leave (c ∷ cs) rows h found =
        calls_leave cs (run_call hash_body c rows) h.1 (call_leaves c rows h.0 found)

-- While a request runs, and once it has been completed with a response, every further `acquire` of
-- its key has the same answer, a duplicate or that response, and changes nothing: whatever calls come
-- between that do not end the request under that key, further ones for the same key included.
pub acquire-run_calls :
    (hash_body : Json → String) (key : ℕ) (body : Option Json) (now : ℕ) (row : KeyRow)
    (answer : Result (Option Json)) (calls : List Call) (rows : Dict KeyRow)
    → lookup key rows ≡ some row
    → fixed_answer row ≡ some answer
    → All (LeavesKey key) calls
    → acquire hash_body key body now (run_calls hash_body calls rows)
      ≡ (answer, run_calls hash_body calls rows)
acquire-run_calls hash_body key body now row answer calls rows found fixed quiet =
    acquire_fixed hash_body key body now row answer (run_calls hash_body calls rows)
      (calls_leave hash_body key row answer fixed calls rows quiet found) fixed

-- After `acquire`, whatever it answers, the key has a row.
HasRow : ℕ → Dict KeyRow → Type 0
HasRow key rows = (row : KeyRow) × (lookup key rows ≡ some row)

module _ (hash_body : Json → String) (key : ℕ) where
  replayed_row :
      (row : KeyRow) (u : Option Json) (rows : Dict KeyRow)
      → lookup key rows ≡ some row
      → HasRow key (replayed key row u rows).1
  unfolding HasRow ◌>>=◌
  replayed_row row (some snapshot) rows found = (row, found)
  replayed_row row none rows found = (_, lookup-insert_self key _ rows)

  existing_row :
      (row : KeyRow) (s : KeyStatus) (rows : Dict KeyRow)
      → lookup key rows ≡ some row
      → HasRow key (acquire_existing key row s rows).1
  unfolding HasRow acquire_existing ◌>>=◌
  existing_row row pending rows found = (row, found)
  existing_row row completed rows found = replayed_row row (usable row.response_snapshot) rows found
  existing_row row failed rows found = (_, lookup-insert_self key _ rows)

  acquired_row :
      (body : Option Json) (now : ℕ) (found : Option KeyRow) (rows : Dict KeyRow)
      → lookup key rows ≡ found
      → HasRow key (acquire_found hash_body key body now found rows).1
  unfolding HasRow ◌>>=◌
  acquired_row body now none rows gone = (_, lookup-insert_self key _ rows)
  acquired_row body now (some row) rows found = existing_row row row.status rows found

complete_row :
    (key : ℕ) (entity_type entity_id : String) (snapshot : Json) (row : KeyRow) (rows : Dict KeyRow)
    → lookup key rows ≡ some row
    → lookup key (complete key entity_type entity_id (some snapshot) rows).1
      ≡ some (update_status row completed (some entity_type) (some entity_id) (some snapshot))
unfolding complete ◌>>=◌
complete_row key entity_type entity_id snapshot row rows found =
    rw found (lookup-insert_self key _ rows)

-- A request that is acquired and then completed with a nonempty response: the next `acquire` of its
-- key, after any calls that do not complete or fail that key, gives that response and changes nothing.
pub acquire-complete :
    (hash_body : Json → String) (key : ℕ) (body body' : Option Json) (now now' : ℕ)
    (entity_type entity_id : String) (field : String × String) (fields : Json) (calls : List Call)
    (rows : Dict KeyRow)
    → All (LeavesKey key) calls
    → let held = (acquire hash_body key body now rows).1 in
      let done = (complete key entity_type entity_id (some (field ∷ fields)) held).1 in
      acquire hash_body key body' now' (run_calls hash_body calls done)
      ≡ (ok (some (field ∷ fields)), run_calls hash_body calls done)
unfolding HasRow acquire ◌>>=◌ update_status
acquire-complete hash_body key body body' now now' entity_type entity_id field fields calls rows
      quiet =
    let (row, found) = acquired_row hash_body key body now (lookup key rows) rows refl in
    acquire-run_calls hash_body key body' now' _ (ok (some (field ∷ fields))) calls _
      (complete_row key entity_type entity_id (field ∷ fields) row _ found) refl quiet
