-- ===== src/Transmissions/Events.antt =====
-- What happens to the tables: the requests of app/api/routers/transmissions.py, each in a session
-- that is rolled back when the service raises, and the batches of the worker's loop.
use ifg.Base.{ℕ, List, [], ◌∷◌}
use ifg.Base.Exec.{transaction}
use ifg.Transmissions.Rows.{Outbox, Outside}
use ifg.Transmissions.Service.{submit, retry_transmission}
use ifg.Transmissions.Worker.{process_batch}

pub data Event : Type 0 where
  submit_request : Outside → ℕ → Event
  retry_request : Outside → ℕ → Event
  batch : (ℕ → Outside) → Event

unfoldable pub handle : Event → Outbox → Outbox
handle (submit_request out id) s = (transaction (submit out id) s).1
handle (retry_request out id) s = (transaction (retry_transmission out id) s).1
handle (batch out) s = process_batch out s

-- The tables after a list of events, whatever they answer
unfoldable pub run : List Event → Outbox → Outbox
unfolding handle
run [] s = s
run (e ∷ es) s = run es (handle e s)

-- What every event keeps holds after any events.
pub run_keeps :
    (I : Outbox → Type 0)
    → ((e : Event) (s : Outbox) → I s → I (handle e s))
    → (es : List Event) (s : Outbox) → I s
    → I (run es s)
unfolding run
run_keeps I kept [] s h = h
run_keeps I kept (e ∷ es) s h = run_keeps I kept es (handle e s) (kept e s h)
