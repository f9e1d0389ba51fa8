-- ===== src/Labs/Exercises.antt =====
-- `seed_exercise_flags` and `index_private_document` of backend/app/labs/exercises.py, with
-- `get_or_create_hidden_user` of auth/service.py. A draw of `new_flag` is a function of the exercise.
pub mod Seeding
pub mod Complete
use Prim.Native.String.{◌++◌ as str_append}
use cyber_range.Common.{
  ℕ, zero, ◌+◌, String, Bool, true, false, Option, none, some, List, [], ◌∷◌, ◌++◌, ◌==◌, any, not,
  map, str_eq, if◌then◌else◌,
}
use cyber_range.Http.{
  Result, ok, err, Action, pure, raise, gets, modify, or_raise, script_error, lab_without_session,
  no_private_flag, not_indexed, value_error, ◌>>=◌, ◌>>◌,
}
use cyber_range.Db.{User, GameSession, CtfFlag, Message, Server}
use cyber_range.Labs.{ensure_uuid, get_session_for_lab}
use cyber_range.Labs.Secrets.{exercises_for_lab, add_secret, get_exercise_secret}
use cyber_range.Auth.{get_by_username}
use cyber_range.Ctf.{register_flag}
use cyber_range.Chat.Threads.{add_seeded_thread}

-- `REWARDS`, in its order
abbrev pub rewards : List (String × ℕ)
rewards = ("EX-03", 30) ∷ ("EX-04", 20) ∷ ("EX-05", 20) ∷ []

abbrev pub reward_of : String → ℕ
reward_of exercise = if str_eq exercise "EX-03" then 30 else 20

-- `RUNTIME_SECRETS`
abbrev pub is_runtime_secret : String → Bool
is_runtime_secret exercise = if str_eq exercise "EX-03" then true else str_eq exercise "EX-05"

abbrev pub is_seeded : List String → String → Bool
is_seeded seeded exercise = any (str_eq exercise) seeded

-- The exercises of `REWARDS` that are not seeded yet
unfoldable pub missing_from : List (String × ℕ) → List String → List String
missing_from [] seeded = []
missing_from ((exercise, reward) ∷ r) seeded =
    let rest = missing_from r seeded in if is_seeded seeded exercise then rest else exercise ∷ rest

-- The row of `get_or_create_hidden_user`
abbrev hidden_user : ℕ → String → String → ℕ → String → User
hidden_user id name role lab hash = record {
  id = id;
  username = name;
  password_hash = hash;
  role = role;
  lab_instance_id = lab;
}

abbrev pub is_hidden : String → ℕ → User → Bool
is_hidden role lab u = if str_eq u.role role then u.lab_instance_id == lab else false

abbrev pub keep_or_hide : String → String → ℕ → String → Option User → Action Server User
keep_or_hide name role lab hash (some u) =
    if is_hidden role lab u then pure u else raise value_error
keep_or_hide name role lab hash none = gets (λ s. s.next_id) >>= λ id.
    modify (λ s. record s {
      users = s.users ++ hidden_user id name role lab hash ∷ [];
      next_id = s.next_id + 1;
    })
    >> pure (hidden_user id name role lab hash)

-- `password_hash` is the hash of a random password that is not kept.
unfoldable pub get_or_create_hidden_user : String → String → ℕ → String → Action Server User
get_or_create_hidden_user name role lab password_hash =
    gets (get_by_username name) >>= keep_or_hide name role lab password_hash

abbrev note_to_self : String → List Message
note_to_self value =
    record {
      role = "user";
      content = str_append "Note to self: the exam room access code is " value;
      timestamp = none;
    }
    ∷ record { role = "ai"; content = "I have noted the access code."; timestamp = none }
    ∷ []

-- `uuid_hex` is `lab.hex`.
module _ (hash_ctf_flag : String → String) (uuid_hex : ℕ → String) (password_hash : String) where
  -- EX-04: the staff member's conversation
  unfoldable pub seed_conversation : ℕ → GameSession → String → Action Server Unit
  seed_conversation lab session value =
      get_or_create_hidden_user (str_append "staff_" (uuid_hex lab)) "staff" lab password_hash
      >>= λ staff.
          add_seeded_thread staff.id session.id "Exam room access" (note_to_self value) >> pure tt

  abbrev pub stored_value : String → String → Option String
  stored_value exercise value = if is_runtime_secret exercise then some value else none

  -- One round of the loop: the flag and its secret, and for EX-04 the conversation
  unfoldable pub seed_flag : ℕ → GameSession → String → String → Action Server Unit
  unfolding seed_conversation
  seed_flag lab session exercise value s =
      let (flag, s') = register_flag hash_ctf_flag uuid_hex lab value (reward_of exercise) s in
      (modify (add_secret lab exercise flag.id (stored_value exercise value))
          >> (if str_eq exercise "EX-04" then seed_conversation lab session value else pure tt))
        s'

  unfoldable pub seed_flags : (String → String) → ℕ → GameSession → List String → Action Server Unit
  unfolding seed_flag
  seed_flags new_flag lab session [] = pure tt
  seed_flags new_flag lab session (exercise ∷ r) =
      seed_flag lab session exercise (new_flag exercise) >> seed_flags new_flag lab session r

  abbrev pub drawn : (String → String) → List String → List (String × String)
  drawn new_flag exercises = map (λ e. (e, new_flag e)) exercises

  unfoldable pub seed_exercise_flags :
      (String → String) → Option ℕ → Action Server (List (String × String))
  unfolding ensure_uuid get_session_for_lab missing_from seed_flags
  seed_exercise_flags new_flag lab_instance_id = do
    lab ← ensure_uuid lab_instance_id
    found ← get_session_for_lab lab
    session ← or_raise found (script_error lab_without_session)
    seeded ← gets (exercises_for_lab lab)
    seed_flags new_flag lab session (missing_from rewards seeded)
    pure (drawn new_flag (missing_from rewards seeded))
