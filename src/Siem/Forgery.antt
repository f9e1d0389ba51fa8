-- ===== src/Siem/Forgery.antt =====
-- `log_jwt_manipulation_attempt` of backend/app/siem/service.py: one event for each user, claimed
-- role and outcome in a window, kept by a key in Redis.
use cyber_range.Common.{
  ℕ, ◌*◌, ◌≡◌, ◌≢◌, String, Bool, true, false, Option, none, some, [], ◌∷◌, ◌++◌, arith,
  Option-cases, inl, inr, if◌then◌else◌,
}
use cyber_range.Common.Text.{show_ℤ}
use cyber_range.Http.{Result, ok, err, Action}
use cyber_range.Json.{Json, null, bool, num, str, compound, Payload}
use cyber_range.Db.{Server, SecurityAuditLog}
use cyber_range.Redis.{Redis, Node, Key, jwt_forgery}
use cyber_range.Siem.{log_security_event, new_event}
use cyber_range.Siem.Events.{log_security_event-Appends, log_security_event-ok}

abbrev pub jwt_forgery_log_window_seconds : ℕ
jwt_forgery_log_window_seconds = 15 * 60

-- `f"{provided_role}"`, for the role claim of a token or None
unfoldable pub claim_text : Option Json → String
unfolding show_ℤ
claim_text none = "None"
claim_text (some null) = "None"
claim_text (some (bool true)) = "True"
claim_text (some (bool false)) = "False"
claim_text (some (num n)) = show_ℤ n
claim_text (some (str t)) = t
claim_text (some (compound t)) = t

abbrev json_claim : Option Json → Json
json_claim none = null
json_claim (some j) = j

abbrev pub forgery_payload : Option Json → Bool → Payload
forgery_payload provided_role blocked =
    ("description", str "Suspicious JWT payload detected.")
    ∷ ("claimed_role", json_claim provided_role)
    ∷ ("blocked", bool blocked)
    ∷ ("risk_level", str "HIGH")
    ∷ []

module _ (r : Redis) where
  abbrev pub forgery_key : ℕ → Option Json → ℕ → Bool → Key
  forgery_key lab provided_role user_id blocked =
      jwt_forgery lab user_id (claim_text provided_role) blocked

  -- The write failed: the reservation is given back if Redis still answers.
  abbrev release : Key → Option SecurityAuditLog → r.Store → r.Store
  release k (some _) st = st
  release k none st = elim (r.delete k st) [ none ↦ st | some st' ↦ st' ]

  abbrev write_forgery : ℕ → Option Json → String → Bool → Action Server (Option SecurityAuditLog)
  write_forgery lab provided_role source_ip blocked =
      log_security_event lab "AUTH_BYPASS_ATTEMPT" (forgery_payload provided_role blocked) source_ip

  -- The write itself never raises, so its answer is the event or None.
  abbrev answer : Result (Option SecurityAuditLog) → Option SecurityAuditLog
  answer (ok e) = e
  answer (err _) = none

  unfoldable pub log_jwt_manipulation_attempt :
      ℕ → Option Json → String → ℕ → Bool → Node r → Option SecurityAuditLog × Node r
  log_jwt_manipulation_attempt lab provided_role source_ip user_id blocked n =
      let k = forgery_key lab provided_role user_id blocked in
      let (res, s) = write_forgery lab provided_role source_ip blocked n.server in
      elim (r.set_nx k jwt_forgery_log_window_seconds n.store) [
        | none ↦ (answer res, record n { server = s })
        | some (reserved, st) ↦
            if reserved
            then (answer res, record { server = s; store = release k (answer res) st })
            else (none, record n { store = st })
      ]

  module _ (lab : ℕ) (role : Option Json) (ip : String) (user : ℕ) (blocked : Bool)
      (n : Node r) where
    abbrev event : SecurityAuditLog
    event = new_event n.server lab "AUTH_BYPASS_ATTEMPT" (forgery_payload role blocked) ip

    -- A repeat within the window of the first logged attempt is dropped and changes nothing.
    pub forgery_repeat_dropped :
        r.value (forgery_key lab role user blocked) n.store ≢ 0
        → r.set_nx (forgery_key lab role user blocked) jwt_forgery_log_window_seconds n.store ≢ none
        → log_jwt_manipulation_attempt lab role ip user blocked n ≡ (none, n)
    unfolding log_jwt_manipulation_attempt
    forgery_repeat_dropped taken up =
        let k = forgery_key lab role user blocked in
        elim (Option-cases (r.set_nx k jwt_forgery_log_window_seconds n.store)) [
          | inl down ↦ absurd (up down)
          | inr ((set, st), e) ↦
              ground (arith, r.set_nx_taken k jwt_forgery_log_window_seconds n.store set st e taken)
        ]

    -- Where no reservation is in force, or Redis is down, the attempt is logged if the audit log
    -- can be written.
    pub forgery_logged :
        r.value (forgery_key lab role user blocked) n.store ≡ 0
        → n.server.audit_up ≡ true
        → let (answered, n') = log_jwt_manipulation_attempt lab role ip user blocked n in
          (answered ≡ some event) × (n'.server.audit_logs ≡ n.server.audit_logs ++ event ∷ [])
    unfolding log_jwt_manipulation_attempt
    forgery_logged free up =
        let k = forgery_key lab role user blocked in
        let appends =
          log_security_event-Appends lab "AUTH_BYPASS_ATTEMPT" (forgery_payload role blocked) ip
            n.server in
        let answers =
          log_security_event-ok lab "AUTH_BYPASS_ATTEMPT" (forgery_payload role blocked) ip
            n.server in
        elim (Option-cases (r.set_nx k jwt_forgery_log_window_seconds n.store)) [
          | inl down ↦ ground (arith, appends.logs, answers)
          | inr ((set, st), e) ↦ ground (
            arith,
            appends.logs,
            answers,
            r.set_nx_free k jwt_forgery_log_window_seconds n.store set st e free,
          )
        ]

    -- An attempt whose event could not be written leaves no reservation behind, if Redis can
    -- delete the key, so that the next attempt is not hidden.
    pub forgery_failed_write_released :
        r.value (forgery_key lab role user blocked) n.store ≡ 0
        → n.server.audit_up ≡ false
        → ((st : r.Store) → r.delete (forgery_key lab role user blocked) st ≢ none)
        → let (answered, n') = log_jwt_manipulation_attempt lab role ip user blocked n in
          (answered ≡ none) × (r.value (forgery_key lab role user blocked) n'.store ≡ 0)
    unfolding log_jwt_manipulation_attempt
    forgery_failed_write_released free broken deletes =
        let k = forgery_key lab role user blocked in
        let answers =
          log_security_event-ok lab "AUTH_BYPASS_ATTEMPT" (forgery_payload role blocked) ip
            n.server in
        elim (Option-cases (r.set_nx k jwt_forgery_log_window_seconds n.store)) [
          | inl down ↦ ground (arith, answers)
          | inr ((set, st), e) ↦ elim (Option-cases (r.delete k st)) [
            | inl stuck ↦ absurd (deletes st stuck)
            | inr (st', e') ↦ ground (
              arith,
              answers,
              r.set_nx_free k jwt_forgery_log_window_seconds n.store set st e free,
              r.delete_frees k st st' e',
            )
          ]
        ]
