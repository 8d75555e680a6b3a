-- ===== src/Sessions/Single.antt =====
-- How many sessions of a tax number are active while the calls of app/services/ksef_session_service.py come.
use ifg.Base.{
  ℕ, ◌≤◌, false, Option, none, some, is_some, List, [], ◌∷◌, select, length, ◌≡◌, refl, sym, ap,
  ◌∙◌, Bool-cases, inl, inr, arith,
}
use ifg.Base.Dict.{Dict}
use ifg.Base.Exec.{
  Result, ok, err, ◌>>=◌, ◌>>◌, pure, raise, modify, raise_if, multiple_rows, not_found,
}
use ifg.Base.Triple.{
  Triple, Triple-pure, Triple-raise, Triple-if, Triple-after, Triple-bind, Triple-gets,
  Triple-query, Triple-lift, Triple-or_raise, Triple-guard, Triple-modify, Triple-modify_last,
  transaction_keeps,
}
use ifg.Invoices.Items.{Chars}
use ifg.Transmissions.Repository.{one_or_none, has_many, same_text}
use ifg.Sessions.Rows.{
  Session, Registry, Gate, Tokens, OnlineSession, Reply, reachable, broken, client_failure, Reason,
  session_expired,
}
use ifg.Sessions.Service.{
  is_active, is_active_for, get_active_db_session, put_session, add_session, is_stale, new_session,
  open_session, expired_row, terminated_row, marked_expired, fresh_or_raise, get_active_session,
  close_session, expire_found, mark_session_expired,
}
use ifg.Sessions.Status.{
  count_failure, probe_connectivity_error, without_session, with_session, disconnected,
  status_of_row, status_after_probe, get_connection_status, expire_stale_sessions, SessionCall,
  opening, closing, expiring, asking, sweeping, serve_session, serve_sessions,
}
use ifg.Sessions.Count.{Nothing, same_text-≡, held, select-held, held-insert, held-expire, held-add}

-- At most one row is active for each tax number.
pub record IsSingle (rows : Dict Session) : Type 0 where
  pub single : (nip : Chars) → held nip rows ≤ 1

abbrev Single : Registry → Type 0
Single s = IsSingle s.rows

off_row :
    (nip : Chars) (id : ℕ) (row : Session)
    → is_active row.status ≡ false
    → is_active_for nip (id, row) ≡ false
off_row nip id row off = ground arith

put_session-Single :
    (id : ℕ) (row : Session)
    → is_active row.status ≡ false
    → (s : Registry) → Single s
    → Single (put_session id row s)
unfolding put_session
put_session-Single id row off s h = record {
  single = λ nip.
      let less = held-insert nip id row s.rows (off_row nip id row off) in
      let few = h.single nip in omega arith;
}

-- The rows that the query has found
abbrev Found : Chars → Option (ℕ × Session) → Registry → Type 0
Found nip found s = Single s × (is_some found ≡ false → held nip s.rows ≡ 0)

get_active_db_session-Found :
    (nip : Chars) → Triple Single (Found nip) Nothing (get_active_db_session nip)
unfolding get_active_db_session
get_active_db_session-Found nip = Triple-gets _ _ λ rows.
    Triple-guard _ _ _ (λ _ _. tt)
      λ few. Triple-pure (one_or_none rows) (λ s h. (h.0, none_held nip rows s h.1))
  where
    none_held :
        (nip : Chars) (rows : List (ℕ × Session)) (s : Registry)
        → select (is_active_for nip) s.rows ≡ rows
        → is_some (one_or_none rows) ≡ false
        → held nip s.rows ≡ 0
    none_held nip [] s e none_there = sym (select-held nip s.rows) ∙ ap length e
    none_held nip (x ∷ xs) s e none_there = cc

get_active_db_session-Keeps :
    (nip : Chars) → Triple Single (λ _. Single) Nothing (get_active_db_session nip)
get_active_db_session-Keeps nip =
    Triple-after _ (get_active_db_session-Found nip) (λ found s h. h.0)

add_session-Single :
    (nip : Chars) (tokens : Tokens) (online : OnlineSession) (now : ℕ) (s : Registry)
    → Single s × (held nip s.rows ≡ 0)
    → Single (add_session (new_session nip tokens online now) s)
add_session-Single nip tokens online now s h = record {
  single = λ other. elim (Bool-cases (same_text nip other)) [
    | inl same ↦
        rw
          (
            held-add other (s.next_id, new_session nip tokens online now) s.rows,
            ← same_text-≡ nip other same,
            h.1,
          )
          (ground arith)
    | inr differs ↦
        rw (held-add other (s.next_id, new_session nip tokens online now) s.rows, differs)
          (let few = h.0.single other in omega arith)
  ];
}

open_session-Keeps :
    (gate : Gate) (nip : Chars) → Triple Single (λ _. Single) Nothing (open_session gate nip)
unfolding open_session
open_session-Keeps gate nip =
    Triple-guard _ _ _ (λ _ _. tt)
      λ configured. Triple-bind (Found nip) _ _ (get_active_db_session-Found nip) λ found.
        Triple-guard _ _ _ (λ _ _. tt)
          λ free.
            Triple-or_raise _ _ _ (λ _ _. tt)
              λ tokens _.
                Triple-or_raise _ _ _ (λ _ _. tt)
                  λ online _. Triple-query _ _ λ id.
                    Triple-modify _ _
                      (λ s h. add_session-Single nip tokens online gate.now s (h.0, h.1 free))
                      (Triple-modify {P' = Single} _ _ (λ s h. h) (Triple-pure id (λ _ h. h)))

fresh_or_raise-Keeps :
    (now : ℕ) (entry : ℕ × Session) → Triple Single (λ _. Single) Nothing (fresh_or_raise now entry)
fresh_or_raise-Keeps now (id, row) =
    Triple-if (is_stale now row) (modify (put_session id (expired_row row)) >> raise not_found)
      (pure (id, row))
      (λ stale.
        Triple-modify {P' = Single} _ _ (put_session-Single id (expired_row row) refl)
          (Triple-raise not_found (λ _ _. tt)))
      (λ fresh. Triple-pure (id, row) (λ _ h. h))

get_active_session-Keeps :
    (gate : Gate) (nip : Chars) → Triple Single (λ _. Single) Nothing (get_active_session gate nip)
unfolding get_active_session
get_active_session-Keeps gate nip =
    Triple-bind (λ _. Single) _ _ (get_active_db_session-Keeps nip)
      λ found. Triple-or_raise _ _ _ (λ _ _. tt) λ entry _. fresh_or_raise-Keeps gate.now entry

close_session-Keeps :
    (gate : Gate) (nip : Chars) → Triple Single (λ _. Single) Nothing (close_session gate nip)
unfolding close_session
close_session-Keeps gate nip =
    Triple-bind (λ _. Single) _ _ (get_active_session-Keeps gate nip)
      λ entry.
        Triple-lift _ _ (λ _ _. tt)
          λ _ _.
            Triple-modify _ _ (put_session-Single entry.0 (terminated_row gate.now entry.1) refl)
              (Triple-modify {P' = Single} _ _ (λ s h. h) (Triple-pure entry.0 (λ _ h. h)))

expire_found-Single :
    (gate : Gate) (found : Option (ℕ × Session)) (s : Registry)
    → Single s
    → Single (expire_found gate found s)
expire_found-Single gate none s h = h
expire_found-Single gate (some (id, row)) s h =
    put_session-Single id (marked_expired gate.now row) refl s h

mark_session_expired-Keeps :
    (gate : Gate) (nip : Chars)
    → Triple Single (λ _. Single) Nothing (mark_session_expired gate nip)
unfolding mark_session_expired
mark_session_expired-Keeps gate nip =
    Triple-bind (λ _. Single) _ _ (get_active_db_session-Keeps nip)
      λ found. Triple-modify_last _ (expire_found-Single gate found)

count_failure-Keeps : (reason : Reason) → Triple Single (λ _. Single) Nothing (count_failure reason)
count_failure-Keeps reason =
    Triple-query _ _ λ count. Triple-modify {P' = Single} _ _ (λ s h. h) (Triple-pure _ (λ _ h. h))

probe-Keeps : (reply : Reply) → Triple Single (λ _. Single) Nothing (probe_connectivity_error reply)
unfolding probe_connectivity_error
probe-Keeps reachable = Triple-modify {P' = Single} _ _ (λ s h. h) (Triple-pure none (λ _ h. h))
probe-Keeps broken = count_failure-Keeps _
probe-Keeps (client_failure code transient) = count_failure-Keeps _

pub lookup_reads : (nip : Chars) (s : Registry) → (get_active_db_session nip s).1 ≡ s
unfolding get_active_db_session ◌>>=◌
lookup_reads nip s = by_rows (select (is_active_for nip) s.rows)
  where
    by_rows :
        (rows : List (ℕ × Session))
        → ((raise_if (has_many rows) multiple_rows >> pure (one_or_none rows)) s).1 ≡ s
    by_rows [] = refl
    by_rows (x ∷ []) = refl
    by_rows (x ∷ y ∷ rows) = refl

status_of_row-Keeps :
    (gate : Gate) (r : Result (Option (ℕ × Session)))
    → Triple Single (λ _. Single) Nothing (status_of_row gate r)
status_of_row-Keeps gate (err e) = Triple-pure _ (λ _ h. h)
status_of_row-Keeps gate (ok none) = Triple-pure _ (λ _ h. h)
status_of_row-Keeps gate (ok (some (id, row))) =
    Triple-if (is_stale gate.now row)
      (modify (expire_found gate (some (id, row)))
        >> pure (without_session disconnected session_expired))
      (pure (with_session row.expires_at))
      (λ _.
        Triple-modify _ _ (expire_found-Single gate (some (id, row))) (Triple-pure _ (λ _ h. h)))
      (λ _. Triple-pure _ (λ _ h. h))

status_after_probe-Keeps :
    (gate : Gate) (nip : Option Chars) (trouble : Option Reason)
    → Triple Single (λ _. Single) Nothing (status_after_probe gate nip trouble)
status_after_probe-Keeps gate nip (some reason) = Triple-pure _ (λ _ h. h)
status_after_probe-Keeps gate none none = Triple-pure _ (λ _ h. h)
status_after_probe-Keeps gate (some []) none = Triple-pure _ (λ _ h. h)
status_after_probe-Keeps gate (some (c ∷ cs)) none =
    Triple-bind (λ _. Single) _ _ (record { at = λ s h. rw (lookup_reads (c ∷ cs) s) h })
      λ found. status_of_row-Keeps gate found

get_connection_status-Keeps :
    (gate : Gate) (nip : Option Chars)
    → Triple Single (λ _. Single) Nothing (get_connection_status gate nip)
unfolding get_connection_status
get_connection_status-Keeps gate nip =
    Triple-bind (λ _. Single) _ _ (probe-Keeps gate.connectivity)
      λ trouble. status_after_probe-Keeps gate nip trouble

expire_stale_sessions-Keeps :
    (gate : Gate) → Triple Single (λ _. Single) Nothing (expire_stale_sessions gate)
unfolding expire_stale_sessions
expire_stale_sessions-Keeps gate = Triple-query _ _ λ count.
    Triple-modify {P' = Single} _ _
      (λ s h. record {
        single = λ nip.
            let less = held-expire nip gate.now s.rows in let few = h.single nip in omega arith;
      })
      (Triple-pure count (λ _ h. h))

serve_session-Single :
    (call : SessionCall) (s : Registry) → Single s → Single (serve_session call s)
unfolding serve_session
serve_session-Single (opening gate nip) s h =
    transaction_keeps Single _ s (open_session-Keeps gate nip) h
serve_session-Single (closing gate nip) s h =
    transaction_keeps Single _ s (close_session-Keeps gate nip) h
serve_session-Single (expiring gate nip) s h =
    transaction_keeps Single _ s (mark_session_expired-Keeps gate nip) h
serve_session-Single (asking gate nip) s h =
    transaction_keeps Single _ s (get_connection_status-Keeps gate nip) h
serve_session-Single (sweeping gate) s h =
    transaction_keeps Single _ s (expire_stale_sessions-Keeps gate) h

-- Whatever calls come, one after the other, and whatever KSeF answers: if no tax number had two active
-- sessions before, none has afterwards.
pub serve_sessions-IsSingle :
    (calls : List SessionCall) (s : Registry)
    → IsSingle s.rows
    → IsSingle (serve_sessions calls s).rows
unfolding serve_sessions
serve_sessions-IsSingle [] s h = h
serve_sessions-IsSingle (call ∷ calls) s h =
    serve_sessions-IsSingle calls (serve_session call s) (serve_session-Single call s h)
