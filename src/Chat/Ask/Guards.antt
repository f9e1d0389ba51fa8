-- ===== src/Chat/Ask/Guards.antt =====
-- What a prompt or a search needs before it is taken, and what is logged.
use cyber_range.Common.{
  ℕ, ◌≡◌, ◌+◌, String, Bool, true, false, Option, some, arith, length, if◌then◌else◌,
}
use cyber_range.Http.{ok, err, http, thread_not_found, query_failed}
use cyber_range.Db.{GameSession, ChatThread, Server}
use cyber_range.Labs.{get_session, get_authorized_session, ensure_uuid}
use cyber_range.Labs.Authorization.{IsOwnSession}
use cyber_range.Redis.{Redis, Node}
use cyber_range.Defense.Limits.{enforce_rate_limit}
use cyber_range.Siem.{log_security_event}
use cyber_range.Siem.Events.{log_security_event-Appends, log_security_event-ok}
use cyber_range.Auth.{Principal}
use cyber_range.Chat.Threads.{get_thread, is_own}
use cyber_range.Chat.Threads.Ownership.{foreign_refused, IsOpened}
use cyber_range.Chat.Answer.{Turn}
use cyber_range.Chat.Ask.{
  chat_ask, Searched, history_query_error, isolation_error, query_payload, error_payload,
  search_chat_history,
}

module _ (r : Redis) (user : Principal) (q : Turn) (ip : String) (n : Node r) where
  -- What `chat_ask` has passed when it starts the stream.
  pub record IsAllowed : Type 0 where
    pub session : GameSession
    pub own : IsOwnSession q.session_id (some user.lab_instance_id) n.server session
    pub in_limit : (enforce_rate_limit r q.session_id q.session_text ip n).0 ≡ ok tt
    pub thread : ChatThread
    pub opened : IsOpened q.thread_id user.id own.id (chat_ask r user q ip n).1.server thread

  -- A prompt in a thread that is not the caller's, or not of this session, is answered with 404
  -- like one in a session of another lab, and it is not logged.
  pub chat_ask_foreign :
      (g : GameSession) (own : IsOwnSession q.session_id (some user.lab_instance_id) n.server g)
      (th : ChatThread)
      → (enforce_rate_limit r q.session_id q.session_text ip n).0 ≡ ok tt
      → get_thread q.thread_id (enforce_rate_limit r q.session_id q.session_text ip n).1.server
        ≡ some th
      → is_own user.id own.id th ≡ false
      → chat_ask r user q ip n ≡ (
        err (http 404 thread_not_found),
        (enforce_rate_limit r q.session_id q.session_text ip n).1,
      )
  unfolding chat_ask ensure_uuid get_authorized_session get_session
  chat_ask_foreign g own th passed found foreign = ground (
    arith,
    passed,
    own.spelled,
    own.present,
    own.own,
    foreign_refused q.thread_id user.id own.id q.prompt th
        (enforce_rate_limit r q.session_id q.session_text ip n).1.server found foreign,
  )

module _ {Row : Type 0} (search_history : ℕ → Option ℕ → String → Server → Searched Row)
    (user : Principal) (session_id : Option ℕ) (q ip : String) (s : Server) where
  -- The state after the query was logged
  abbrev logged : Server
  logged = (log_security_event user.lab_instance_id "DB_QUERY" (query_payload q) ip s).1

  -- A search that fails is logged as SQL_ERROR after its DB_QUERY, and answered with 400, or with
  -- 503 if the lab's isolation is not as it must be.
  pub search_chat_history_failed :
      (g : GameSession) (message : String) (isolated : Bool)
      → s.audit_up ≡ true
      → IsOwnSession session_id (some user.lab_instance_id) s g
      → search_history user.lab_instance_id session_id q logged
        ≡ (if isolated then history_query_error message else isolation_error message)
      → ((search_chat_history search_history user session_id q ip s).0
          ≡ err (http (if isolated then 400 else 503) (query_failed message)))
        × (length (search_chat_history search_history user session_id q ip s).1.audit_logs
            ≡ length s.audit_logs + 2)
  unfolding search_chat_history get_authorized_session get_session ensure_uuid
  search_chat_history_failed g message true up own e = ground (
    arith,
    own.spelled,
    own.present,
    own.own,
    e,
    up,
    log_security_event-ok user.lab_instance_id "DB_QUERY" (query_payload q) ip s,
    log_security_event-Appends user.lab_instance_id "DB_QUERY" (query_payload q) ip s,
    log_security_event-ok user.lab_instance_id "SQL_ERROR" (error_payload message q) ip logged,
    log_security_event-Appends user.lab_instance_id "SQL_ERROR" (error_payload message q) ip logged,
  )
  search_chat_history_failed g message false up own e = ground (
    arith,
    own.spelled,
    own.present,
    own.own,
    e,
    up,
    log_security_event-ok user.lab_instance_id "DB_QUERY" (query_payload q) ip s,
    log_security_event-Appends user.lab_instance_id "DB_QUERY" (query_payload q) ip s,
    log_security_event-ok user.lab_instance_id "SQL_ERROR" (error_payload message q) ip logged,
    log_security_event-Appends user.lab_instance_id "SQL_ERROR" (error_payload message q) ip logged,
  )
