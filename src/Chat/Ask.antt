-- ===== src/Chat/Ask.antt =====
-- The endpoints of backend/app/chat/router.py, for a caller whom `get_current_user_vulnerable` let
-- in. The injectable search is a parameter here.
pub mod Guards
use cyber_range.Common.{ℕ, String, Bool, Option, none, some, List, [], ◌∷◌, if◌then◌else◌}
use cyber_range.Http.{Result, ok, err, Action, pure, raise, lift, http, query_failed, ◌>>=◌, ◌>>◌}
use cyber_range.Json.{Json, null, str, Payload}
use cyber_range.Db.{GameSession, ChatThread, Server}
use cyber_range.Labs.{get_authorized_session, ensure_uuid}
use cyber_range.Redis.{Redis, Node}
use cyber_range.Defense.Limits.{on_server, enforce_rate_limit}
use cyber_range.Siem.{log_security_event}
use cyber_range.Auth.{Principal}
use cyber_range.Chat.Threads.{get_or_create_thread}
use cyber_range.Chat.Answer.{Turn}

-- `user.get("role")`, with None as null
abbrev pub claimed_role : Option Json → Json
claimed_role none = null
claimed_role (some role) = role

abbrev pub prompt_payload : Principal → String → Payload
prompt_payload user prompt =
    ("username", str user.sub)
    ∷ ("claimed_role", claimed_role user.role)
    ∷ ("prompt", str prompt)
    ∷ []

-- Up to the answer's stream, which `Chat.Answer` models
unfoldable pub chat_ask : (r : Redis) → Principal → Turn → String → Action (Node r) Unit
unfolding ensure_uuid
chat_ask r user q client_ip =
    on_server r (get_authorized_session q.session_id (some user.lab_instance_id)) >>= λ session.
    enforce_rate_limit r q.session_id q.session_text client_ip
    >> (on_server r (ensure_uuid q.session_id) >>= λ session_id.
        on_server r (get_or_create_thread (some q.thread_id) user.id session_id q.prompt)
        >>= λ thread.
            on_server r (
              log_security_event user.lab_instance_id "LLM_PROMPT" (prompt_payload user q.prompt)
                client_ip)
            >> pure tt)

-- How the search ends: with rows, HistoryQueryError or IsolationError.
pub data Searched (Row : Type 0) : Type 0 where
  rows : List Row → Searched Row
  history_query_error : String → Searched Row
  isolation_error : String → Searched Row

abbrev pub query_payload : String → Payload
query_payload q = ("query_param", str q) ∷ ("target", str "chat_history") ∷ []

abbrev pub error_payload : String → String → Payload
error_payload message q = ("error", str message) ∷ ("failed_query", str q) ∷ []

module _ {Row : Type 0} (search_history : ℕ → Option ℕ → String → Server → Searched Row) where
  -- the failure is logged, in the database session that the search does not use
  abbrev pub search_failed : ℕ → ℕ → String → String → String → Action Server (List Row)
  search_failed status lab message q client_ip =
      log_security_event lab "SQL_ERROR" (error_payload message q) client_ip
      >> raise (http status (query_failed message))

  abbrev pub search_ended : ℕ → String → String → Searched Row → Action Server (List Row)
  search_ended lab q client_ip (rows found) = pure found
  search_ended lab q client_ip (history_query_error message) =
      search_failed 400 lab message q client_ip
  search_ended lab q client_ip (isolation_error message) = search_failed 503 lab message q client_ip

  unfoldable pub search_chat_history :
      Principal → Option ℕ → String → String → Action Server (List Row)
  search_chat_history user session_id q client_ip =
      get_authorized_session session_id (some user.lab_instance_id) >>= λ session.
      log_security_event user.lab_instance_id "DB_QUERY" (query_payload q) client_ip >> λ s.
      search_ended user.lab_instance_id q client_ip
        (search_history user.lab_instance_id session_id q s) s
