-- ===== src/Tests/Rows.antt =====
-- One lab with a session, two users, a flag and a pending event.
use cyber_range.Common.{true, false, none, [], ◌∷◌}
use cyber_range.Common.Int.{pos}
use cyber_range.Json.{str}
use cyber_range.Db.{User, GameSession, SecurityAuditLog, CtfFlag, Server}
use cyber_range.Defense.{default_prompt}
use cyber_range.Siem.Forensics.{Heuristics}

abbrev pub student : User
student = record {
  id = 11;
  username = "ann";
  password_hash = "h";
  role = "red_team";
  lab_instance_id = 7;
}

abbrev pub session : GameSession
session = record {
  id = 1;
  team_id = 11;
  lab_instance_id = 7;
  is_solo = true;
  defense_budget = pos 5;
  system_prompt = default_prompt;
  use_reranker = false;
  rate_limit_enabled = true;
  rate_limit_rpm = 60;
  jwt_filter_enabled = false;
  login_hardening_enabled = true;
}

abbrev pub event : SecurityAuditLog
event = record {
  id = 3;
  lab_instance_id = 7;
  event_type = "AUTH_BYPASS_ATTEMPT";
  payload = ("claimed_role", str "admin") ∷ [];
  timestamp = 100;
  is_compromised = false;
  investigated_at = none;
  investigated_by = none;
}

abbrev pub flag : CtfFlag
flag = record { id = 4; flag_value = "flag{x}"; reward = 30; lab_id = 7 }

abbrev pub server : Server
server = record {
  users = student ∷ [];
  sessions = session ∷ [];
  threads = [];
  audit_logs = event ∷ [];
  flags = flag ∷ [];
  submissions = [];
  secrets = [];
  now = 125;
  next_id = 20;
  audit_up = true;
  audit_count_up = true;
}

abbrev pub heuristics : Heuristics
heuristics = record {
  payload_text = λ _. "";
  sqli_regex = λ _. false;
  pi_regex = λ _. false;
  jwt_regex = λ _. false;
}
