-- ===== src/Siem/Worker/Rules.antt =====
-- Which events the rules close, and with which verdict.
use cyber_range.Common.{ℕ, ◌≡◌, Bool, true, some, ◌⊎◌, find?}
use cyber_range.Http.{ok}
use cyber_range.Db.{SecurityAuditLog, Server}
use cyber_range.Db.Tables.{log_has_id}
use cyber_range.Siem.{is_pending}
use cyber_range.Siem.Forensics.{Heuristics, predict_is_malicious}
use cyber_range.Siem.Worker.{is_rule_judged, in_solo_lab, give_verdict, rule_reasoning}

module _ (h : Heuristics) where
  -- The rules closed the pending event `l` of a solo lab as `l'`, with the heuristic's verdict.
  pub record IsRuleClosed (s : Server) (l l' : SecurityAuditLog) : Type 0 where
    pub pending : is_pending l ≡ true
    pub solo : in_solo_lab s.sessions l ≡ true
    pub by_rule : is_rule_judged l.event_type ≡ true
    pub malicious : Bool
    pub judged : predict_is_malicious h l.payload l.event_type ≡ ok malicious
    pub closed : l' ≡ give_verdict s.now malicious (rule_reasoning malicious) l

  -- Each event that a query finds by its id is as it was, or closed by the rules.
  pub record IsJudged (s s' : Server) : Type 0 where
    pub sessions : s'.sessions ≡ s.sessions
    pub now : s'.now ≡ s.now
    pub rows :
        (id : ℕ) (l : SecurityAuditLog)
        → find? (log_has_id id) s.audit_logs ≡ some l
        → (l' : SecurityAuditLog) × (find? (log_has_id id) s'.audit_logs ≡ some l')
          × ((l' ≡ l) ⊎ IsRuleClosed s l l')

  abbrev Evolved : Server → SecurityAuditLog → SecurityAuditLog → Type 0
  Evolved s l l' = (l' ≡ l) ⊎ IsRuleClosed s l l'
