-- ===== src/Chat/Threads.antt =====
-- Chat threads, backend/app/chat/repository.py. IDs are UUIDs that were parsed.
pub mod Ownership
use Prim.Native.String.{String}
use Prim.Native.String
use cyber_range.Common.{
  ℕ, zero, suc, ◌+◌, Bool, true, false, Option, none, some, List, [], ◌∷◌, ◌++◌, ◌==◌, ◌&&◌, not,
  find?, update_first, ltb, select, if◌then◌else◌,
}
use cyber_range.Http.{
  Action, pure, raise, gets, modify, http, value_error, thread_not_found, ◌>>=◌, ◌>>◌,
}
use cyber_range.Db.{Message, ChatThread, Server}

-- `text[:n]`, by code points
abbrev pub prefix : ℕ → String → String
prefix zero s = ""
prefix (suc n) String.[] = ""
prefix (suc n) (String.◌∷◌ c s) = String.◌∷◌ c (prefix n s)

abbrev pub title_of : String → String
title_of prompt =
    if ltb 30 (String.count prompt) then String.◌++◌ (prefix 30 prompt) "..." else prompt

abbrev pub thread_has_id : ℕ → ChatThread → Bool
thread_has_id id t = t.id == id

unfoldable pub get_thread : ℕ → Server → Option ChatThread
get_thread id s = find? (thread_has_id id) s.threads

-- The thread belongs to the user and to the session.
abbrev pub is_own : ℕ → ℕ → ChatThread → Bool
is_own user_id session_id t = t.user_id == user_id && t.session_id == session_id

abbrev pub new_thread : ℕ → ℕ → ℕ → String → List Message → ChatThread
new_thread id user_id session_id title messages = record {
  id = id;
  user_id = user_id;
  session_id = session_id;
  title = title;
  messages = messages;
}

abbrev add_row : ChatThread → Action Server ChatThread
add_row t = modify (λ s. record s { threads = s.threads ++ t ∷ [] }) >> pure t

-- the thread that the query has found, or none
abbrev pub open_thread : ℕ → ℕ → ℕ → String → Option ChatThread → Action Server ChatThread
open_thread id user_id session_id prompt none =
    add_row (new_thread id user_id session_id (title_of prompt) [])
open_thread id user_id session_id prompt (some t) =
    if is_own user_id session_id t then pure t else raise (http 404 thread_not_found)

unfoldable pub get_or_create_thread : Option ℕ → ℕ → ℕ → String → Action Server ChatThread
unfolding get_thread
get_or_create_thread none user_id session_id prompt = raise value_error
get_or_create_thread (some id) user_id session_id prompt =
    gets (get_thread id) >>= open_thread id user_id session_id prompt

abbrev pub exchange : ℕ → String → String → List Message
exchange now prompt ai_response =
    record { role = "user"; content = prompt; timestamp = some now }
    ∷ record { role = "ai"; content = ai_response; timestamp = some now }
    ∷ []

-- `append_messages`: nothing happens where the thread is gone.
unfoldable pub append_messages : ℕ → String → String → Server → Server
append_messages id prompt ai_response s = record s {
  threads =
      update_first (thread_has_id id)
        (λ t. record t { messages = t.messages ++ exchange s.now prompt ai_response }) s.threads;
}

-- `add_thread` as `add_seeded_thread` calls it, with `uuid4()`
unfoldable pub add_seeded_thread : ℕ → ℕ → String → List Message → Action Server ChatThread
add_seeded_thread user_id session_id title messages = gets (λ s. s.next_id) >>= λ id.
    modify (λ s. record s { next_id = s.next_id + 1 })
    >> add_row (new_thread id user_id session_id title messages)
