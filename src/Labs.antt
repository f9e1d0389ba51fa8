-- ===== src/Labs.antt =====
-- Game sessions of a lab: backend/app/labs/repository.py and the queries of labs/service.py.
pub mod Base64
pub mod Codes
pub mod Authorization
pub mod Secrets
pub mod Exercises
use cyber_range.Common.{ℕ, Option, none, some, ◌==◌, find?, if◌then◌else◌}
use cyber_range.Http.{
  invalid_ids, session_not_found, http, value_error, ok, err, Action, pure, raise, gets, or_raise,
  ◌>>=◌,
}
use cyber_range.Db.{GameSession, Server}
use cyber_range.Db.Tables.{has_id}

-- `GameSessionRepository.get_by_id`, which `get_session` calls
unfoldable pub get_session : ℕ → Action Server (Option GameSession)
get_session id = gets (λ s. find? (has_id id) s.sessions)

-- `GameSessionRepository.get_by_lab_instance_id`
unfoldable pub get_session_for_lab : ℕ → Action Server (Option GameSession)
get_session_for_lab lab = gets (λ s. find? (λ g. g.lab_instance_id == lab) s.sessions)

-- `ensure_uuid`: an argument is the UUID that it spells, or `none` where `uuid.UUID` raises.
unfoldable pub ensure_uuid : Option ℕ → Action Server ℕ
ensure_uuid id = or_raise id value_error

-- The `try` of `get_authorized_session`: a malformed ID becomes a 422.
abbrev invalid_as_422 : {A : Type 0} → Action Server A → Action Server A
invalid_as_422 m s =
    let (r, s') = m s in
    elim r [
      | ok a ↦ (ok a, s')
      | err e ↦ (err (elim e [ value_error ↦ http 422 invalid_ids | other ↦ other ]), s')
    ]

abbrev owned_by : ℕ → Option GameSession → Action Server GameSession
owned_by lab none = raise (http 404 session_not_found)
owned_by lab (some g) =
    if g.lab_instance_id == lab then pure g else raise (http 404 session_not_found)

-- The `try` block itself: both IDs are parsed, and the session is looked up in between.
abbrev load_both : Option ℕ → Option ℕ → Action Server (Option GameSession × ℕ)
load_both session_id lab_instance_id = ensure_uuid session_id >>= λ id.
    get_session id >>= λ session. ensure_uuid lab_instance_id >>= λ lab. pure (session, lab)

unfoldable pub get_authorized_session : Option ℕ → Option ℕ → Action Server GameSession
unfolding get_session ensure_uuid
get_authorized_session session_id lab_instance_id =
    invalid_as_422 (load_both session_id lab_instance_id) >>= λ found. owned_by found.1 found.0
