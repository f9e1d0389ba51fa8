-- ===== src/LlmQueue/Turns.antt =====
-- Tickets are those of the waiting calls and of the turn that is served.
use cyber_range.Common.{
  ℕ, zero, suc, ◌+◌, ◌≤◌, ◌≡◌, ◌↔◌, ◌⊎◌, inl, inr, Option, none, some, arith, refl,
}
use cyber_range.Http.{ok, err, http, queue_full, turn_timed_out, cancelled}
use cyber_range.LlmQueue.{
  LlmQueue, Holder, chat, soc, max_queue_size, take_ticket, get_nowait, release, timed_out,
  was_cancelled, end_wait, release_turn, Step, refused, arrived, served, expired, dropped, finished,
  soc_started, soc_finished, Steps, here, next, initial,
}

abbrev pub chat_turns : Option Holder → ℕ
chat_turns none = 0
chat_turns (some chat) = 1
chat_turns (some soc) = 0

-- Each ticket is that of a waiting call or of the chat turn, and there are at most 50.
abbrev pub IsBalanced : LlmQueue → ℕ → Type 0
IsBalanced q w = (q.tickets ≡ w + chat_turns q.gpu_lock) × (q.tickets ≤ max_queue_size)

Step-IsBalanced : {q q' : LlmQueue} {w w' : ℕ} → Step q w q' w' → IsBalanced q w → IsBalanced q' w'
unfolding take_ticket get_nowait release end_wait release_turn
Step-IsBalanced (refused q w e h) b = ground arith
Step-IsBalanced (arrived q w h) b = ground arith
Step-IsBalanced (served q w h) b = ground arith
Step-IsBalanced (expired q w) b = ground arith
Step-IsBalanced (dropped q w) b = ground arith
Step-IsBalanced (finished q w h) b = ground arith
Step-IsBalanced (soc_started q w h) b = ground arith
Step-IsBalanced (soc_finished q w h) b = ground arith

-- Whatever calls come, wait, give up, are served and end, each ticket is that of a waiting call or
-- of the chat turn that is served, and there are never more than 50.
pub Steps-IsBalanced : {q : LlmQueue} {w : ℕ} → Steps initial 0 q w → IsBalanced q w
Steps-IsBalanced here = ground arith
Steps-IsBalanced (next r s) = Step-IsBalanced s (Steps-IsBalanced r)

-- What a call sees in a state that can be reached: no internal QueueEmpty or RuntimeError.
pub record IsServing (q : LlmQueue) (w : ℕ) : Type 0 where
  -- a new call is refused exactly when 50 calls wait or are served
  pub full : ((take_ticket q).0 ≡ err (http 503 queue_full)) ↔ (w + chat_turns q.gpu_lock ≡ 50)
  -- a waiting call that gives up gets 504, or its cancellation
  pub gives_up :
      1 ≤ w
      → ((end_wait timed_out q).0 ≡ err (http 504 turn_timed_out))
        × ((end_wait was_cancelled q).0 ≡ err cancelled)
  -- the end of a turn frees the lock
  pub ends :
      q.gpu_lock ≡ some chat → ((release_turn q).0 ≡ ok tt) × ((release_turn q).1.gpu_lock ≡ none)

-- In every state that can be reached, a new call is refused exactly when 50 calls wait or are
-- served, a wait that times out answers 504, and the end of a turn frees the lock without error.
pub Steps-IsServing : {q : LlmQueue} {w : ℕ} → Steps initial 0 q w → IsServing q w
unfolding take_ticket get_nowait release end_wait release_turn
Steps-IsServing {q} {w} r =
    let b = Steps-IsBalanced r in
    record { full = ground arith; gives_up = ground arith; ends = ground arith }

-- What is left when nobody waits and nobody is served.
pub record IsDrained (q : LlmQueue) (w : ℕ) : Type 0 where
  pub rest : LlmQueue
  pub path : Steps q w rest 0
  pub empty : rest.tickets ≡ 0
  pub free : rest.gpu_lock ≡ none

append :
    {q q' : LlmQueue} {w w' : ℕ} {q'' : LlmQueue} {w'' : ℕ}
    → Steps q w q' w'
    → Steps q' w' q'' w''
    → Steps q w q'' w''
append r here = r
append r (next s t) = next (append r s) t

expire_all : (w : ℕ) (q : LlmQueue) → q.gpu_lock ≡ none → q.tickets ≡ w → IsDrained q w
unfolding end_wait get_nowait
expire_all zero q free t = record { rest = q; path = here; empty = t; free = free }
expire_all (suc w) q free t =
    let d = expire_all w (end_wait timed_out q).1 (ground arith) (ground arith) in
    record {
      rest = d.rest;
      path = append (next here (expired q w)) d.path;
      empty = d.empty;
      free = d.free;
    }

-- From every state that can be reached, some run of endings leads to an empty queue and a free
-- lock: no ticket is lost and no turn blocks the queue for good.
pub Steps-IsDrained : {q : LlmQueue} {w : ℕ} → Steps initial 0 q w → IsDrained q w
unfolding release_turn release get_nowait
Steps-IsDrained {q} {w} r =
    let b = Steps-IsBalanced r in
    elim (lock-cases q.gpu_lock) [
      | inl free ↦ expire_all w q free (ground arith)
      | inr (inl turn) ↦
          let d = expire_all w (release_turn q).1 (ground arith) (ground arith) in
          record {
            rest = d.rest;
            path = append (next here (finished q w turn)) d.path;
            empty = d.empty;
            free = d.free;
          }
      | inr (inr worker) ↦
          let d = expire_all w (release q).1 (ground arith) (ground arith) in
          record {
            rest = d.rest;
            path = append (next here (soc_finished q w worker)) d.path;
            empty = d.empty;
            free = d.free;
          }
    ]
  where
    lock-cases : (l : Option Holder) → (l ≡ none) ⊎ ((l ≡ some chat) ⊎ (l ≡ some soc))
    lock-cases none = inl refl
    lock-cases (some chat) = inr (inl refl)
    lock-cases (some soc) = inr (inr refl)
