-- ===== src/Siem/Worker.antt =====
-- The SOC worker, backend/app/siem/soc_worker.py: rule-based verdicts, the verdicts of the model,
-- and one round of the polling loop. The model, and what other requests do while it runs, are a
-- parameter; so are the rows that other transactions hold locked.
pub mod Query
pub mod Rules
pub mod Verdicts
pub mod Rounds
pub mod Outage
use cyber_range.Common.{
  ℕ, zero, ◌*◌, String, Bool, true, false, Option, none, some, List, [], ◌∷◌, ◌++◌, map, ◌&&◌, not,
  leb, min, str_eq, length, take, find?, select, any, update_first, if◌then◌else◌, ◌==◌,
}
use cyber_range.Http.{Result, ok, err, Action, pure, ◌>>=◌, ◌>>◌}
use cyber_range.Json.{str, put}
use cyber_range.Db.{GameSession, SecurityAuditLog, Server}
use cyber_range.Db.Tables.{log_has_id}
use cyber_range.Siem.{is_pending}
use cyber_range.Siem.Forensics.{Heuristics, predict_is_malicious, rule_judged_events}

abbrev pub soc_batch_size : ℕ
soc_batch_size = 5

abbrev pub soc_poll_seconds : ℕ
soc_poll_seconds = 5

abbrev pub soc_max_backoff_seconds : ℕ
soc_max_backoff_seconds = 60

abbrev pub soc_rule_batch_size : ℕ
soc_rule_batch_size = 500

abbrev pub is_rule_judged : String → Bool
is_rule_judged event_type = any (str_eq event_type) rule_judged_events

-- the join with `GameSession` and its `is_solo`: one copy of the event for each such session
abbrev pub solo_session_of : SecurityAuditLog → GameSession → Bool
solo_session_of l g = l.lab_instance_id == g.lab_instance_id && g.is_solo

abbrev pub in_solo_lab : List GameSession → SecurityAuditLog → Bool
in_solo_lab sessions l = any (solo_session_of l) sessions

unfoldable pub join_solo : List GameSession → List SecurityAuditLog → List SecurityAuditLog
join_solo sessions [] = []
join_solo sessions (l ∷ ls) =
    map (λ _. l) (select (solo_session_of l) sessions) ++ join_solo sessions ls

-- `order_by(timestamp)`; events of one instant keep the table's order.
unfoldable pub insert_by_time : SecurityAuditLog → List SecurityAuditLog → List SecurityAuditLog
insert_by_time l [] = l ∷ []
insert_by_time l (m ∷ ms) =
    let rest = insert_by_time l ms in if leb l.timestamp m.timestamp then l ∷ m ∷ ms else m ∷ rest

unfoldable pub by_time : List SecurityAuditLog → List SecurityAuditLog
unfolding insert_by_time
by_time [] = []
by_time (l ∷ ls) = insert_by_time l (by_time ls)

-- The pending solo-lab events that pass a test, oldest first, at most `limit` of them.
unfoldable pub pending_events : (SecurityAuditLog → Bool) → ℕ → Server → List SecurityAuditLog
unfolding join_solo by_time
pending_events p limit s =
    take limit (by_time (join_solo s.sessions (select (λ l. is_pending l && p l) s.audit_logs)))

-- `fetch_pending_logs`
unfoldable pub fetch_pending_logs : Server → List SecurityAuditLog
unfolding pending_events
fetch_pending_logs = pending_events (λ l. not (is_rule_judged l.event_type)) soc_batch_size

-- The three assignments to an event that gets a verdict.
unfoldable pub give_verdict : ℕ → Bool → String → SecurityAuditLog → SecurityAuditLog
give_verdict now malicious reasoning l = record l {
  investigated_at = some now;
  is_compromised = malicious;
  payload = put "soc_reasoning" (str reasoning) l.payload;
}

abbrev pub rule_reasoning : Bool → String
rule_reasoning malicious =
    if malicious
    then "Rule-based verdict: malicious (no model call)."
    else "Rule-based verdict: benign (no model call)."

abbrev pub write_row :
    (SecurityAuditLog → Bool) → (SecurityAuditLog → SecurityAuditLog) → Server → Server
write_row p f s = record s { audit_logs = update_first p f s.audit_logs }

-- A `begin … commit`: what was written is dropped if the block raises.
abbrev pub transaction : {A : Type 0} → Action Server A → Action Server A
transaction m s = let (r, s') = m s in elim r [ ok a ↦ (ok a, s') | err e ↦ (err e, s) ]

-- the rows of `close_rule_judged_logs`: `with_for_update(skip_locked=True)` leaves out locked ones
unfoldable pub rule_batch : (ℕ → Bool) → Server → List SecurityAuditLog
unfolding pending_events
rule_batch locked =
    pending_events (λ l. is_rule_judged l.event_type && not (locked l.id)) soc_rule_batch_size

module _ (h : Heuristics) where
  -- The loop's body on an event of the query: what the row holds by then is judged, and the row is
  -- written whatever it holds, so that a further copy of a row in the join is judged again.
  unfoldable pub close_event : SecurityAuditLog → Action Server Unit
  unfolding give_verdict
  close_event l s = elim (find? (log_has_id l.id) s.audit_logs) [
    | none ↦ (ok tt, s)
    | some row ↦ elim (predict_is_malicious h row.payload row.event_type) [
      | err e ↦ (err e, s)
      | ok malicious ↦ (
        ok tt,
        write_row (log_has_id l.id) (give_verdict s.now malicious (rule_reasoning malicious)) s,
      )
    ]
  ]

  unfoldable pub close_events : List SecurityAuditLog → Action Server Unit
  close_events [] = pure tt
  close_events (l ∷ ls) = close_event l >> close_events ls

  -- `close_rule_judged_logs`
  unfoldable pub close_rule_judged_logs : (ℕ → Bool) → Action Server ℕ
  close_rule_judged_logs locked s =
      transaction (close_events (rule_batch locked s) >> pure (length (rule_batch locked s))) s

pub record AnalysisOutput : Type 0 where
  pub is_malicious : Bool
  pub reasoning : String

-- The row to which `save_verdict` may write.
abbrev pub is_open_event : (ℕ → Bool) → ℕ → SecurityAuditLog → Bool
is_open_event locked id l = log_has_id id l && is_pending l && not (locked l.id)

-- `save_verdict`
unfoldable pub save_verdict : (ℕ → Bool) → ℕ → AnalysisOutput → Action Server Bool
unfolding give_verdict
save_verdict locked log_id verdict s = elim (find? (is_open_event locked log_id) s.audit_logs) [
  | none ↦ (ok false, s)
  | some _ ↦ (
    ok true,
    write_row (is_open_event locked log_id)
        (give_verdict s.now verdict.is_malicious verdict.reasoning) s,
  )
]

-- How the model's run on an event ends: a verdict, a model server that cannot be reached
-- (`is_connection_error`), or any other exception.
pub data Analysis : Type 0 where
  verdict : AnalysisOutput → Analysis
  unreachable failed : Analysis

-- The surroundings of the worker in one round.
pub record Surroundings : Type 0 where
  -- `soc_graph.ainvoke` under the GPU lock, and the server after other requests in the meantime
  pub invoke : SecurityAuditLog → Server → Analysis × Server
  pub locked : ℕ → Bool

-- What the loop keeps from one round to the next.
pub record Loop : Type 0 where
  pub backoff : ℕ
  pub llm_down : Bool

pub record Batch : Type 0 where
  pub outage : Bool
  pub llm_down : Bool
  pub server : Server

-- The `for` over the fetched events, with its `break` on an outage and its `continue`
unfoldable pub analyse_batch : Surroundings → List SecurityAuditLog → Bool → Server → Batch
unfolding save_verdict
analyse_batch w [] llm_down s = record { outage = false; llm_down = llm_down; server = s }
analyse_batch w (l ∷ ls) llm_down s =
    let (a, s') = w.invoke l s in
    elim a [
      | unreachable ↦ record { outage = true; llm_down = llm_down; server = s' }
      | failed ↦ analyse_batch w ls llm_down s'
      | verdict v ↦ analyse_batch w ls false (save_verdict w.locked l.id v s').1
    ]

pub record Round : Type 0 where
  pub delay : ℕ
  pub loop : Loop
  pub server : Server

-- The end of a round: how long to sleep, and the next backoff.
unfoldable pub end_round : Loop → Batch → Round
end_round p b =
    if b.outage
    then record {
      delay = p.backoff;
      loop = record { backoff = min (p.backoff * 2) soc_max_backoff_seconds; llm_down = true };
      server = b.server;
    }
    else record {
      delay = soc_poll_seconds;
      loop = record { backoff = soc_poll_seconds; llm_down = b.llm_down };
      server = b.server;
    }

-- One round of `run_soc_analyst_loop`. An exception of the rule-based step is only logged.
unfoldable pub run_round : Heuristics → Surroundings → Loop → Server → Round
unfolding close_rule_judged_logs fetch_pending_logs analyse_batch end_round
run_round h w p s =
    let s' = (close_rule_judged_logs h w.locked s).1 in
    end_round p (analyse_batch w (fetch_pending_logs s') p.llm_down s')
