-- ===== src/BlueTeam.antt =====
-- The Blue Team's endpoints: backend/app/defense/router.py and backend/app/siem/router.py, with
-- the audit log's listing of siem/service.py and siem/repository.py. The IDs of a
-- request body are UUIDs already; the session ID of a query is a text, `none` if it spells none.
pub mod Access
use cyber_range.Common.{
  ℕ, String, Bool, Option, some, List, [], ◌∷◌, ◌==◌, leb, select, take, if◌then◌else◌,
}
use cyber_range.Http.{Action, gets, ◌>>=◌, ◌>>◌}
use cyber_range.Db.{User, GameSession, SecurityAuditLog, Server}
use cyber_range.Labs.{get_authorized_session}
use cyber_range.Defense.{BuyDefenseResponse, process_defense_purchase}
use cyber_range.Siem.{DashboardStats, get_dashboard_stats, in_lab}
use cyber_range.Siem.Forensics.{Heuristics, InvestigateResponse, process_investigation}
use cyber_range.Auth.{Tokens, get_blue_team_user}

-- `order_by(desc(timestamp))`; events of one instant keep the table's order.
unfoldable pub insert_latest : SecurityAuditLog → List SecurityAuditLog → List SecurityAuditLog
insert_latest l [] = l ∷ []
insert_latest l (m ∷ ms) =
    let rest = insert_latest l ms in if leb m.timestamp l.timestamp then l ∷ m ∷ ms else m ∷ rest

unfoldable pub latest_first : List SecurityAuditLog → List SecurityAuditLog
unfolding insert_latest
latest_first [] = []
latest_first (l ∷ ls) = insert_latest l (latest_first ls)

unfoldable pub get_logs : ℕ → ℕ → Server → List SecurityAuditLog
unfolding latest_first
get_logs lab limit s = take limit (latest_first (select (in_lab lab) s.audit_logs))

-- The two dependencies of each endpoint: the Blue Team user of the header, and the session, which
-- must be one of the user's lab.
abbrev pub authorized :
    {A : Type 0}
    → Tokens
    → Option String
    → Option ℕ
    → (User → GameSession → Action Server A)
    → Action Server A
authorized t header session_id k = get_blue_team_user t header >>= λ current_user.
    get_authorized_session session_id (some current_user.lab_instance_id) >>= λ game_session.
    k current_user game_session

module _ (t : Tokens) (header : Option String) (session_id : ℕ) where
  unfoldable pub buy_defense : String → Action Server BuyDefenseResponse
  buy_defense defense_type =
      authorized t header (some session_id)
        (λ u g. process_defense_purchase session_id defense_type)

  unfoldable pub investigate_log : Heuristics → ℕ → Bool → Action Server InvestigateResponse
  investigate_log h log_id is_malicious =
      authorized t header (some session_id)
        (λ u g. process_investigation h log_id is_malicious session_id u.id)

module _ (t : Tokens) (header : Option String) (session_id : Option ℕ) where
  unfoldable pub dashboard : Action Server DashboardStats
  dashboard = authorized t header session_id (λ u g. get_dashboard_stats g)

  -- `limit` is between 1 and 500, which the query parameter enforces.
  unfoldable pub get_audit_logs : ℕ → Action Server (List SecurityAuditLog)
  unfolding get_logs
  get_audit_logs limit =
      authorized t header session_id (λ u g. gets (get_logs g.lab_instance_id limit))
