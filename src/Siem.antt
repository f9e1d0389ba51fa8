-- ===== src/Siem.antt =====
-- SIEM events, backend/app/siem/service.py and siem/repository.py: writing them in a session of
-- their own, the count behind LOGIN_FAILED, and the dashboard's statistics.
pub mod Forensics
pub mod Investigation
pub mod Events
pub mod Forgery
pub mod Worker
use cyber_range.Common.{
  ℕ, ◌+◌, ◌-◌, String, Bool, true, false, Option, none, some, List, [], ◌∷◌, ◌++◌, ◌&&◌, ◌==◌, not,
  leb, str_eq, length, count, select, any, if◌then◌else◌,
}
use cyber_range.Common.Int.{ℤ, pos}
use cyber_range.Http.{Action, ok, ◌>>=◌, gets}
use cyber_range.Json.{Json, null, num, str, Payload, get, set_default}
use cyber_range.Db.{GameSession, SecurityAuditLog, Server}
use cyber_range.Defense.{ActiveDefenses, active_defenses}

-- The row that `_write_event` adds.
unfoldable pub new_event : Server → ℕ → String → Payload → String → SecurityAuditLog
new_event s lab event_type payload source_ip = record {
  id = s.next_id;
  lab_instance_id = lab;
  event_type = event_type;
  payload = set_default "source_ip" (str source_ip) payload;
  timestamp = s.now;
  is_compromised = false;
  investigated_at = none;
  investigated_by = none;
}

-- `_write_event`: a failed write is rolled back, logged and answered with None.
unfoldable pub write_event : ℕ → String → Payload → String → Action Server (Option SecurityAuditLog)
write_event lab event_type payload source_ip s =
    let e = new_event s lab event_type payload source_ip in
    if s.audit_up
    then (ok (some e), record s { audit_logs = s.audit_logs ++ e ∷ []; next_id = s.next_id + 1 })
    else (ok none, s)

-- `log_security_event` opens a session and writes through `_write_event`.
unfoldable pub log_security_event :
    ℕ → String → Payload → String → Action Server (Option SecurityAuditLog)
unfolding write_event
log_security_event lab event_type payload source_ip = write_event lab event_type payload source_ip

-- `LOGIN_ENUMERATION_WINDOW`, in seconds
abbrev pub login_enumeration_window : ℕ
login_enumeration_window = 300

-- `payload[key].astext`. The events that are read here hold texts under these keys.
abbrev pub as_text : Option Json → Option String
as_text (some (str t)) = some t
as_text (some _) = none
as_text none = none

abbrev is_text : String → Option String → Bool
is_text t none = false
is_text t (some u) = str_eq u t

-- The `where` of `recent_failed_login_usernames`
unfoldable pub is_recent_failure : ℕ → String → ℕ → SecurityAuditLog → Bool
is_recent_failure lab source_ip since l =
    l.lab_instance_id == lab
    && str_eq l.event_type "LOGIN_FAILED"
    && is_text source_ip (as_text (get "source_ip" l.payload))
    && leb since l.timestamp

-- One name added to a set that is kept as a list without repetitions
unfoldable pub add_name : Option String → List String → List String
add_name none names = names
add_name (some n) names = if any (str_eq n) names then names else n ∷ names

unfoldable pub usernames : List SecurityAuditLog → List String
unfolding add_name
usernames [] = []
usernames (l ∷ ls) = add_name (as_text (get "username" l.payload)) (usernames ls)

-- `recent_failed_login_usernames`: the distinct usernames
unfoldable pub recent_failed_login_usernames : ℕ → String → ℕ → List SecurityAuditLog → List String
recent_failed_login_usernames lab source_ip since logs =
    usernames (select (is_recent_failure lab source_ip since) logs)

-- `len(set(seen) | {username})`, or None where the count could not be made. The lock and the
-- query run in the transaction that writes the event, so no other failure comes in between.
unfoldable pub failed_usernames_count : ℕ → String → String → Server → Option ℕ
failed_usernames_count lab username source_ip s =
    if s.audit_count_up
    then some (
        length (
          add_name (some username) (
            recent_failed_login_usernames lab source_ip (s.now - login_enumeration_window)
              s.audit_logs)))
    else none

abbrev pub json_count : Option ℕ → Json
json_count none = null
json_count (some n) = num (pos n)

unfoldable pub log_failed_login :
    ℕ → String → String → String → Action Server (Option SecurityAuditLog)
log_failed_login lab username source_ip portal s =
    write_event lab "LOGIN_FAILED"
      (("username", str username)
        ∷ ("portal", str portal)
        ∷ (
          "failed_usernames_from_source",
          json_count (failed_usernames_count lab username source_ip s),
        )
        ∷ [])
      source_ip s

-- `get_stats`: three counts over the lab's events
abbrev pub in_lab : ℕ → SecurityAuditLog → Bool
in_lab lab l = l.lab_instance_id == lab

abbrev pub is_pending : SecurityAuditLog → Bool
is_pending l = elim l.investigated_at [ none ↦ true | some _ ↦ false ]

pub record Stats : Type 0 where
  pub total_logs : ℕ
  pub compromised_logs : ℕ
  pub pending_investigations : ℕ

unfoldable pub get_stats : ℕ → Server → Stats
get_stats lab s = record {
  total_logs = count (in_lab lab) s.audit_logs;
  compromised_logs = count (λ l. in_lab lab l && l.is_compromised) s.audit_logs;
  pending_investigations = count (λ l. in_lab lab l && is_pending l) s.audit_logs;
}

pub record DashboardStats : Type 0 where
  pub budget : ℤ
  pub active : ActiveDefenses
  pub stats : Stats

unfoldable pub get_dashboard_stats : GameSession → Action Server DashboardStats
unfolding get_stats active_defenses
get_dashboard_stats g = gets λ s. record {
  budget = g.defense_budget;
  active = active_defenses g;
  stats = get_stats g.lab_instance_id s;
}
