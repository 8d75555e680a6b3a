-- ===== src/Idempotency.antt =====
-- Idempotency keys: app/services/idempotency_service.py and
-- app/persistence/repositories/idempotency_repository.py. A scope with a key, which the program only
-- compares, is a number; a response is a JSON object, of which only emptiness matters here.
pub mod Replay
use ifg.Base.{ℕ, ◌+◌, ◌*◌, Bool, true, false, Option, none, some, List, [], ◌∷◌, String}
use ifg.Base.Dict.{Dict, lookup, insert}
use ifg.Base.Exec.{Exec, ok, err, ◌>>=◌, ◌>>◌, pure, raise, gets, modify, duplicate_request}

abbrev pub Json : Type 0
Json = List (String × String)

pub data KeyStatus : Type 0 where
  pending completed failed : KeyStatus

pub record KeyRow : Type 0 where
  pub status : KeyStatus
  pub request_hash : Option String
  pub entity_type : Option String
  pub entity_id : Option String
  pub response_snapshot : Option Json
  pub expires_at : ℕ

-- DEFAULT_TTL_HOURS, in seconds
abbrev default_ttl : ℕ
default_ttl = 24 * 3600

-- `update_status`: what is None leaves the column as it is.
abbrev pub given {ℓ} : {A : Type ℓ} → Option A → Option A → Option A
given none old = old
given (some new) old = some new

pub update_status : KeyRow → KeyStatus → Option String → Option String → Option Json → KeyRow
update_status row status entity_type entity_id snapshot = record row {
  status = status;
  entity_type = given entity_type row.entity_type;
  entity_id = given entity_id row.entity_id;
  response_snapshot = given snapshot row.response_snapshot;
}

abbrev write_row : ℕ → KeyRow → Dict KeyRow → Dict KeyRow
write_row key row rows = insert key row rows

-- `snapshot = …; if snapshot: return snapshot`
abbrev pub usable : Option Json → Option Json
usable none = none
usable (some []) = none
usable (some (field ∷ fields)) = some (field ∷ fields)

abbrev pending_again : ℕ → KeyRow → Exec (Dict KeyRow) (Option Json)
pending_again key row =
    modify (write_row key (update_status row pending none none none)) >> pure none

abbrev pub replayed : ℕ → KeyRow → Option Json → Exec (Dict KeyRow) (Option Json)
replayed key row (some snapshot) = pure (some snapshot)
replayed key row none = pending_again key row

-- The part of `acquire` for a key that exists.
pub acquire_existing : ℕ → KeyRow → KeyStatus → Exec (Dict KeyRow) (Option Json)
acquire_existing key row pending = raise duplicate_request
acquire_existing key row completed = replayed key row (usable row.response_snapshot)
acquire_existing key row failed = pending_again key row

-- `_hash_body` is SHA-256 of the sorted JSON text.
module _ (hash_body : Json → String) where
  abbrev hashed : Option Json → Option String
  hashed none = none
  hashed (some body) = some (hash_body body)

  abbrev new_row : Option Json → ℕ → KeyRow
  new_row body now = record {
    status = pending;
    request_hash = hashed body;
    entity_type = none;
    entity_id = none;
    response_snapshot = none;
    expires_at = now + default_ttl;
  }

  abbrev pub acquire_found : ℕ → Option Json → ℕ → Option KeyRow → Exec (Dict KeyRow) (Option Json)
  acquire_found key body now none = modify (write_row key (new_row body now)) >> pure none
  acquire_found key body now (some row) = acquire_existing key row row.status

  pub acquire : ℕ → Option Json → ℕ → Exec (Dict KeyRow) (Option Json)
  acquire key body now = do existing ← gets (lookup key); acquire_found key body now existing

abbrev pub updated_if_there : ℕ → Option KeyRow → (KeyRow → KeyRow) → Exec (Dict KeyRow) (Unit {0})
updated_if_there key none change = pure tt
updated_if_there key (some row) change = modify (write_row key (change row))

pub complete : ℕ → String → String → Option Json → Exec (Dict KeyRow) (Unit {0})
complete key entity_type entity_id snapshot = do
  existing ← gets (lookup key)
  updated_if_there key existing
      (λ row. update_status row completed (some entity_type) (some entity_id) snapshot)

pub fail : ℕ → Exec (Dict KeyRow) (Unit {0})
fail key = do
  existing ← gets (lookup key)
  updated_if_there key existing (λ row. update_status row failed none none none)
