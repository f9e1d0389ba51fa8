-- ===== src/Chat/Threads/Ownership.antt =====
-- Threads are opened by their owners only.
use cyber_range.Common.{
  ℕ, ◌≡◌, String, true, false, some, [], ◌∷◌, ◌++◌, arith, find?, find?-append, find?-passes,
  find?-update_first, Option-cases, Bool-cases, inl, inr,
}
use cyber_range.Http.{ok, err, http, thread_not_found}
use cyber_range.Db.{ChatThread, Server}
use cyber_range.Chat.Threads.{
  thread_has_id, get_thread, is_own, new_thread, title_of, get_or_create_thread, exchange,
  append_messages,
}

-- The thread `th` has the ID, and belongs to the user and the session.
pub record IsOpened (id user_id session_id : ℕ) (s : Server) (th : ChatThread) : Type 0 where
  pub found : get_thread id s ≡ some th
  pub own : is_own user_id session_id th ≡ true

module _ (id user_id session_id : ℕ) (prompt : String) (s t : Server) where
  -- A thread that is returned is in the table and belongs to the caller.
  pub get_or_create_thread-IsOpened :
      (th : ChatThread)
      → get_or_create_thread (some id) user_id session_id prompt s ≡ (ok th, t)
      → IsOpened id user_id session_id t th
  unfolding get_or_create_thread get_thread
  get_or_create_thread-IsOpened th e = elim (Option-cases (find? (thread_has_id id) s.threads)) [
    | inl missing ↦
        let fresh = new_thread id user_id session_id (title_of prompt) [] in
        record {
          found =
              ground
                (arith, e, missing, find?-append (thread_has_id id) s.threads (fresh ∷ []) missing);
          own = ground (arith, e, missing);
        }
    | inr (th', found) ↦ elim (Bool-cases (is_own user_id session_id th')) [
      | inr foreign ↦ absurd (ground (arith, e, found, foreign))
      | inl own ↦ record {
        found = ground (arith, e, found, own);
        own = ground (arith, e, found, own);
      }
    ]
  ]

-- Another user's thread, or one of another session, is answered like one that does not exist.
pub foreign_refused :
    (id user_id session_id : ℕ) (prompt : String) (th : ChatThread) (s : Server)
    → get_thread id s ≡ some th
    → is_own user_id session_id th ≡ false
    → get_or_create_thread (some id) user_id session_id prompt s
      ≡ (err (http 404 thread_not_found), s)
unfolding get_or_create_thread
foreign_refused id user_id session_id prompt th s found foreign = ground (arith, found, foreign)

-- An exchange is added at the end of the thread.
pub get_thread-append_messages :
    (id : ℕ) (prompt reply : String) (th : ChatThread) (s : Server)
    → get_thread id s ≡ some th
    → get_thread id (append_messages id prompt reply s)
      ≡ some (record th { messages = th.messages ++ exchange s.now prompt reply })
unfolding get_thread append_messages
get_thread-append_messages id prompt reply th s found =
    find?-update_first (thread_has_id id)
      (λ x. record x { messages = x.messages ++ exchange s.now prompt reply }) s.threads th found
      (find?-passes (thread_has_id id) s.threads th found)

pub get_thread_moved :
    (id : ℕ) (s t : Server) → t.threads ≡ s.threads → get_thread id t ≡ get_thread id s
unfolding get_thread
get_thread_moved id s t same = ground (arith, same)
