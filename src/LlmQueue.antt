-- ===== src/LlmQueue.antt =====
-- The queue for the GPU, backend/app/core/queue_manager.py: the size of its `asyncio.Queue` and its
-- `asyncio.Lock`. A call is cut at the await of the lock, the only point where it is suspended.
pub mod Turns
use cyber_range.Common.{ℕ, zero, suc, ◌≡◌, Option, none, some, ltb, if◌then◌else◌}
use cyber_range.Http.{
  Action, Exn, raise, ok, err, http, queue_full, turn_timed_out, queue_empty, runtime_error,
  cancelled, ◌>>◌,
}

-- Who holds the lock: a chat turn, or the SOC worker, which takes the lock without a ticket.
pub data Holder : Type 0 where
  chat soc : Holder

pub record LlmQueue : Type 0 where
  pub tickets : ℕ
  pub gpu_lock : Option Holder

abbrev pub max_queue_size : ℕ
max_queue_size = 50

-- `queue.put_nowait(ticket)` under its `try`: a full queue is answered with 503.
unfoldable pub take_ticket : Action LlmQueue Unit
take_ticket q =
    if ltb q.tickets max_queue_size
    then (ok tt, record q { tickets = suc q.tickets })
    else (err (http 503 queue_full), q)

-- `queue.get_nowait()`, which raises QueueEmpty
unfoldable pub get_nowait : Action LlmQueue Unit
get_nowait q = elim q.tickets [
  | zero ↦ (err queue_empty, q)
  | suc n ↦ (ok tt, record q { tickets = n })
]

-- `gpu_lock.release()`, which raises RuntimeError on a lock that nobody holds
unfoldable pub release : Action LlmQueue Unit
release q = elim q.gpu_lock [
  | none ↦ (err runtime_error, q)
  | some _ ↦ (ok tt, record q { gpu_lock = none })
]

-- How the wait for the lock ends.
pub data Waited : Type 0 where
  granted timed_out was_cancelled : Waited

-- The rest of `wait_for_turn`. The lock is granted only while nobody holds it.
unfoldable pub end_wait : Waited → Action LlmQueue Unit
unfolding get_nowait
end_wait granted q = (ok tt, record q { gpu_lock = some chat })
end_wait timed_out q = (get_nowait >> raise (http 504 turn_timed_out)) q
end_wait was_cancelled q = (get_nowait >> raise cancelled) q

-- `release_turn`, the `finally` of `stream_with_lock` however the stream ends
unfoldable pub release_turn : Action LlmQueue Unit
unfolding release get_nowait
release_turn = release >> get_nowait

-- The queue with the number of calls that are suspended in `wait_for_turn`, and what can happen.
pub data Step : LlmQueue → ℕ → LlmQueue → ℕ → Type 0 where
  refused :
      (q : LlmQueue) (w : ℕ) (e : Exn) → (take_ticket q).0 ≡ err e → Step q w (take_ticket q).1 w
  arrived : (q : LlmQueue) (w : ℕ) → (take_ticket q).0 ≡ ok tt → Step q w (take_ticket q).1 (suc w)
  served : (q : LlmQueue) (w : ℕ) → q.gpu_lock ≡ none → Step q (suc w) (end_wait granted q).1 w
  expired : (q : LlmQueue) (w : ℕ) → Step q (suc w) (end_wait timed_out q).1 w
  dropped : (q : LlmQueue) (w : ℕ) → Step q (suc w) (end_wait was_cancelled q).1 w
  finished : (q : LlmQueue) (w : ℕ) → q.gpu_lock ≡ some chat → Step q w (release_turn q).1 w
  soc_started :
      (q : LlmQueue) (w : ℕ) → q.gpu_lock ≡ none → Step q w (record q { gpu_lock = some soc }) w
  soc_finished : (q : LlmQueue) (w : ℕ) → q.gpu_lock ≡ some soc → Step q w (release q).1 w

pub data Steps (q : LlmQueue) (w : ℕ) : LlmQueue → ℕ → Type 0 where
  here : Steps q w q w
  next : {q' q'' : LlmQueue} {w' w'' : ℕ} → Steps q w q' w' → Step q' w' q'' w'' → Steps q w q'' w''

-- `__init__`: an empty queue and a free lock
abbrev pub initial : LlmQueue
initial = record { tickets = 0; gpu_lock = none }
