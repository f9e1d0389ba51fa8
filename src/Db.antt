-- ===== src/Db.antt =====
-- The tables of backend/app/db/models.py as lists of rows, and the server's state. UUIDs are
-- numbers, since the code only compares them; `Integer` columns that can be negative are ℤ.
pub mod Tables
use cyber_range.Common.{ℕ, String, Bool, Option, List}
use cyber_range.Common.Int.{ℤ}
use cyber_range.Json.{Payload}

pub record User : Type 0 where
  pub id : ℕ
  pub username : String
  pub password_hash : String
  pub role : String
  pub lab_instance_id : ℕ

pub record GameSession : Type 0 where
  pub id : ℕ
  pub team_id : ℕ
  pub lab_instance_id : ℕ
  pub is_solo : Bool
  pub defense_budget : ℤ
  pub system_prompt : String
  pub use_reranker : Bool
  pub rate_limit_enabled : Bool
  pub rate_limit_rpm : ℕ
  pub jwt_filter_enabled : Bool
  pub login_hardening_enabled : Bool

-- A chat message: who wrote it, what, and when if the message says so.
pub record Message : Type 0 where
  pub role : String
  pub content : String
  pub timestamp : Option ℕ

pub record ChatThread : Type 0 where
  pub id : ℕ
  pub user_id : ℕ
  pub session_id : ℕ
  pub title : String
  pub messages : List Message

pub record SecurityAuditLog : Type 0 where
  pub id : ℕ
  pub lab_instance_id : ℕ
  pub event_type : String
  pub payload : Payload
  pub timestamp : ℕ
  pub is_compromised : Bool
  pub investigated_at : Option ℕ
  pub investigated_by : Option ℕ

pub record CtfFlag : Type 0 where
  pub id : ℕ
  pub flag_value : String
  pub reward : ℕ
  pub lab_id : ℕ

pub record CtfSubmission : Type 0 where
  pub id : ℕ
  pub team_id : ℕ
  pub flag_id : ℕ
  pub lab_instance_id : ℕ

pub record LabSecret : Type 0 where
  pub lab_instance_id : ℕ
  pub exercise : String
  pub flag_id : ℕ
  pub value : Option String

-- The server as a handler sees it: the committed tables, the clock in seconds, the next unused
-- row id (a fresh `uuid4` or an autoincrement), and whether writes to and counts of the audit log,
-- which use a connection of their own, go through.
pub record Server : Type 0 where
  pub users : List User
  pub sessions : List GameSession
  pub threads : List ChatThread
  pub audit_logs : List SecurityAuditLog
  pub flags : List CtfFlag
  pub submissions : List CtfSubmission
  pub secrets : List LabSecret
  pub now : ℕ
  pub next_id : ℕ
  pub audit_up : Bool
  pub audit_count_up : Bool
