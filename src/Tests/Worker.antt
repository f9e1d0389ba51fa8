-- ===== src/Tests/Worker.antt =====
-- The worker in the sample lab, while a player investigates the event that it analyses.
use cyber_range.Common.{true, false, some, [], ◌∷◌, refl, All}
use cyber_range.Db.{SecurityAuditLog, Server}
use cyber_range.Siem.Forensics.{process_investigation}
use cyber_range.Siem.Worker.{
  Surroundings, verdict, Loop, Batch, run_round, close_rule_judged_logs, fetch_pending_logs,
}
use cyber_range.Siem.Worker.Query.{IsKeyed}
use cyber_range.Siem.Worker.Verdicts.{
  KeepsClosed, arrivals, run_round-KeepsClosed, investigation-KeepsClosed,
}
use cyber_range.Tests.Rows.{event, server, heuristics}

abbrev closed_event : SecurityAuditLog
closed_event = record event { id = 5; investigated_at = some 110 }

abbrev failed_login : SecurityAuditLog
failed_login = record event { id = 6; event_type = "LOGIN_RATE_LIMITED"; payload = [] }

abbrev watched : Server
watched = record server { audit_logs = event ∷ closed_event ∷ failed_login ∷ [] }

abbrev surroundings : Surroundings
surroundings = record {
  invoke = λ l s. (
    verdict (record { is_malicious = true; reasoning = "claimed another role" }),
    (process_investigation heuristics 3 true 1 11 s).1,
  );
  locked = λ _. false;
}

abbrev at_start : Loop
at_start = record { backoff = 5; llm_down = false }

watched-IsKeyed : IsKeyed watched
watched-IsKeyed = (refl, (refl, (refl, tt)))

run_round-KeepsClosed_example :
    let s' = (close_rule_judged_logs heuristics (λ _. false) watched).1 in
    KeepsClosed watched (run_round heuristics surroundings at_start watched).server
    × All
        (λ t. KeepsClosed t (run_round heuristics surroundings at_start watched).server)
        (arrivals surroundings
          (λ l s. investigation-KeepsClosed heuristics 3 true 1 11 s)
          (fetch_pending_logs s')
          false
          s')
run_round-KeepsClosed_example =
    run_round-KeepsClosed surroundings (λ l s. investigation-KeepsClosed heuristics 3 true 1 11 s)
      heuristics at_start watched watched-IsKeyed

abbrev down : Batch
down = record { outage = true; llm_down = true; server = watched }
