-- ===== src/Siem/Events.antt =====
-- What a caller of the SIEM's logging functions can rely on: events are only appended, and
-- nothing else changes.
use cyber_range.Common.{
  ℕ, ◌+◌, String, ◌≡◌, arith, [], ◌∷◌, ◌++◌, length, length-append, if◌then◌else◌, some, none,
}
use cyber_range.Http.{ok}
use cyber_range.Json.{Payload}
use cyber_range.Db.{Server, SecurityAuditLog}
use cyber_range.Siem.{new_event, write_event, log_security_event}

-- `s'` is `s` with the event `e` appended if the audit log can be written, and `s` otherwise.
pub record Appends (e : SecurityAuditLog) (s s' : Server) : Type 0 where
  pub logs : s'.audit_logs ≡ (if s.audit_up then s.audit_logs ++ e ∷ [] else s.audit_logs)
  pub more : length s'.audit_logs ≡ length s.audit_logs + (if s.audit_up then 1 else 0)
  pub same_time : s'.now ≡ s.now
  pub same_audit : s'.audit_up ≡ s.audit_up
  pub same_users : s'.users ≡ s.users
  pub same_sessions : s'.sessions ≡ s.sessions
  pub same_threads : s'.threads ≡ s.threads
  pub same_flags : s'.flags ≡ s.flags
  pub same_submissions : s'.submissions ≡ s.submissions
  pub same_secrets : s'.secrets ≡ s.secrets

module _ (lab : ℕ) (event_type : String) (payload : Payload) (source_ip : String) (s : Server) where
  pub write_event-Appends :
      Appends
        (new_event s lab event_type payload source_ip)
        s
        (write_event lab event_type payload source_ip s).1
  unfolding write_event
  write_event-Appends =
      ground (arith, length-append s.audit_logs (new_event s lab event_type payload source_ip ∷ []))

  -- Logging an event never raises, appends at most that one event and changes no other table.
  pub log_security_event-Appends :
      Appends
        (new_event s lab event_type payload source_ip)
        s
        (log_security_event lab event_type payload source_ip s).1
  unfolding log_security_event
  log_security_event-Appends = write_event-Appends

  pub log_security_event-ok :
      (log_security_event lab event_type payload source_ip s).0
      ≡ ok (if s.audit_up then some (new_event s lab event_type payload source_ip) else none)
  unfolding log_security_event
  log_security_event-ok = ground arith
