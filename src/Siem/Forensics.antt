-- ===== src/Siem/Forensics.antt =====
-- Verdicts on events and the points that an investigation earns, backend/app/siem/forensics.py.
use cyber_range.Common.{
  ℕ, String, Bool, true, false, Option, none, some, List, [], ◌∷◌, ◌||◌, not, ◌==◌, str_eq, find?,
  if◌then◌else◌,
}
use cyber_range.Common.Int.{ℤ, pos, ◌+ℤ◌, leb_ℤ}
use cyber_range.Http.{
  Result, ok, err, Action, pure, lift, gets, modify, or_raise, raise_if, http, type_error,
  log_not_found, already_investigated, log_not_in_session, ◌>>=◌, ◌>>◌,
}
use cyber_range.Json.{Json, null, bool, num, str, compound, Payload, get, is_str}
use cyber_range.Db.{GameSession, SecurityAuditLog, Server}
use cyber_range.Db.Tables.{log_has_id, write_session, write_log}
use cyber_range.Labs.{get_session}

-- The three compiled patterns and the text `str(payload).lower()` that they search.
pub record Heuristics : Type 0 where
  pub payload_text : Payload → String
  pub sqli_regex : String → Bool
  pub pi_regex : String → Bool
  pub jwt_regex : String → Bool

abbrev pub login_enumeration_threshold : ℕ
login_enumeration_threshold = 5

abbrev pub rule_judged_events : List String
rule_judged_events = "LOGIN_FAILED" ∷ "LOGIN_RATE_LIMITED" ∷ []

-- `count is not None and count >= LOGIN_ENUMERATION_THRESHOLD`: Python compares a bool as 0 or 1,
-- and raises TypeError on a text, a list or a dict. (A float never stands under this key.)
unfoldable pub reaches_threshold : Option Json → Result Bool
reaches_threshold none = ok false
reaches_threshold (some null) = ok false
reaches_threshold (some (bool _)) = ok false
reaches_threshold (some (num n)) = ok (leb_ℤ (pos login_enumeration_threshold) n)
reaches_threshold (some (str _)) = err type_error
reaches_threshold (some (compound _)) = err type_error

pub data Verdict : Type 0 where
  attack_identified false_alarm_identified incorrect : Verdict

pub record InvestigateResponse : Type 0 where
  pub verdict : Verdict
  pub credits_awarded : ℕ
  pub new_balance : ℤ

-- Step 3: the verdict, by the claim and the heuristic
unfoldable pub judge : Bool → Bool → Verdict
judge true true = attack_identified
judge false false = false_alarm_identified
judge true false = incorrect
judge false true = incorrect

abbrev pub credits : Verdict → ℕ
credits attack_identified = 3
credits false_alarm_identified = 1
credits incorrect = 0

-- Step 4 on the event: it is marked compromised if it is an attack, whatever was claimed.
unfoldable pub close_log : Bool → ℕ → ℕ → SecurityAuditLog → SecurityAuditLog
close_log malicious now user_id l = record l {
  is_compromised = if malicious then true else l.is_compromised;
  investigated_at = some now;
  investigated_by = some user_id;
}

unfoldable pub award : ℕ → GameSession → GameSession
award n g = record g { defense_budget = g.defense_budget +ℤ pos n }

abbrev is_some : Option ℕ → Bool
is_some none = false
is_some (some _) = true

-- `not game_session or game_session.lab_instance_id != log_entry.lab_instance_id`
abbrev session_of_lab : ℕ → Option GameSession → Option GameSession
session_of_lab lab none = none
session_of_lab lab (some g) = if g.lab_instance_id == lab then some g else none

module _ (h : Heuristics) where
  unfoldable pub predict_is_malicious : Payload → String → Result Bool
  unfolding reaches_threshold
  predict_is_malicious payload event_type =
      if str_eq event_type "FILE_UPLOAD"
      then ok (is_str "true" (get "indexing" payload))
      else if str_eq event_type "LOGIN_FAILED"
      then reaches_threshold (get "failed_usernames_from_source" payload)
      else if str_eq event_type "LOGIN_RATE_LIMITED"
      then ok true
      else if str_eq event_type "AUTH_BYPASS_ATTEMPT"
      then ok (not (is_str "red_team" (get "claimed_role" payload)))
      else let text = h.payload_text payload in
        ok (h.sqli_regex text || h.pi_regex text || h.jwt_regex text)

  -- Both rows are locked from the queries to the commit, so the writes are to the rows read.
  unfoldable pub process_investigation : ℕ → Bool → ℕ → ℕ → Action Server InvestigateResponse
  unfolding get_session
  process_investigation log_id is_malicious_claim session_id user_id = do
    found ← gets (λ s. find? (log_has_id log_id) s.audit_logs)
    log_entry ← or_raise found (http 404 log_not_found)
    raise_if (is_some log_entry.investigated_at) (http 400 already_investigated)
    session ← get_session session_id
    game_session ←
        or_raise (session_of_lab log_entry.lab_instance_id session) (http 404 log_not_in_session)
    actually_malicious ← lift (predict_is_malicious log_entry.payload log_entry.event_type)
    now ← gets (λ s. s.now)
    let verdict = judge is_malicious_claim actually_malicious
    modify (write_log log_id (close_log actually_malicious now user_id))
    modify (write_session session_id (award (credits verdict)))
    pure (record {
      verdict = verdict;
      credits_awarded = credits verdict;
      new_balance = game_session.defense_budget +ℤ pos (credits verdict);
    })
