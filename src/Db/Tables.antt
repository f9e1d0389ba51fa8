-- ===== src/Db/Tables.antt =====
-- Queries by primary key, and writes through the row that such a query gave.
use cyber_range.Common.{ℕ, Bool, ◌==◌, update_first}
use cyber_range.Db.{GameSession, SecurityAuditLog, Server}

abbrev pub has_id : ℕ → GameSession → Bool
has_id id g = g.id == id

abbrev pub log_has_id : ℕ → SecurityAuditLog → Bool
log_has_id id l = l.id == id

-- The tables after the row of a session was changed and committed.
abbrev pub write_session : ℕ → (GameSession → GameSession) → Server → Server
write_session id f s = record s { sessions = update_first (has_id id) f s.sessions }

abbrev pub write_log : ℕ → (SecurityAuditLog → SecurityAuditLog) → Server → Server
write_log id f s = record s { audit_logs = update_first (log_has_id id) f s.audit_logs }
