-- ===== src/Defense/Limits.antt =====
-- The two request limits of backend/app/defense/service.py: `enforce_rate_limit` on chat, and
-- `enforce_login_attempt_limit` on logins.
pub mod Attempts
pub mod Rate
use cyber_range.Common.{
  ℕ, ◌+◌, ◌/◌, String, Bool, Option, none, some, List, [], ◌∷◌, ◌==◌, not, ltb, leb, if◌then◌else◌,
}
use cyber_range.Common.Int.{pos}
use cyber_range.Http.{
  Result, ok, err, Action, pure, raise, http, unavailable, too_many_requests, too_many_logins,
  ◌>>=◌, ◌>>◌,
}
use cyber_range.Json.{Payload, num, str}
use cyber_range.Db.{GameSession, Server}
use cyber_range.Labs.{get_session, ensure_uuid}
use cyber_range.Redis.{Redis, Node, Key, rate_limit, login_attempts}
use cyber_range.Siem.{log_security_event}

abbrev pub login_attempts_per_minute : ℕ
login_attempts_per_minute = 10

abbrev pub dos_payload : ℕ → ℕ → Payload
dos_payload current limit =
    ("current_requests", num (pos current))
    ∷ ("limit", num (pos limit))
    ∷ ("description", str "Rate limit exceeded. Potential DoS or Sponge Bomb attack.")
    ∷ []

abbrev pub login_limit_payload : Payload
login_limit_payload =
    ("limit", num (pos login_attempts_per_minute))
    ∷ ("window_seconds", num (pos 60))
    ∷ ("description", str "Too many login attempts from one source.")
    ∷ []

module _ (r : Redis) where
  -- an action on the server alone
  abbrev pub on_server : {A : Type 0} → Action Server A → Action (Node r) A
  on_server m n = let (a, s) = m n.server in (a, record n { server = s })

  -- a command without a handler around it: the client's exception leaves the function
  abbrev pub command : {A : Type 0} → (r.Store → Option (A × r.Store)) → Action (Node r) A
  command c n = elim (c n.store) [
    | none ↦ (err unavailable, n)
    | some (a, st) ↦ (ok a, record n { store = st })
  ]

  abbrev expire_key : Key → ℕ → Action (Node r) Unit
  expire_key k t n = elim (r.expire k t n.store) [
    | none ↦ (err unavailable, n)
    | some st ↦ (ok tt, record n { store = st })
  ]

  -- The first request of a window starts its clock, in a command of its own.
  abbrev start_window : Key → ℕ → Action (Node r) Unit
  start_window k current = if current == 1 then expire_key k 60 else pure tt

  abbrev block_flood : GameSession → String → ℕ → Action (Node r) Unit
  block_flood g client_ip current =
      on_server (
        log_security_event g.lab_instance_id "DOS_ATTEMPT_BLOCKED"
          (dos_payload current g.rate_limit_rpm) client_ip)
      >> raise (http 429 too_many_requests)

  abbrev count_request : GameSession → String → String → Action (Node r) Unit
  count_request g spelling client_ip =
      command (r.incr (rate_limit spelling client_ip)) >>= λ current.
      start_window (rate_limit spelling client_ip) current
      >> (if ltb g.rate_limit_rpm current then block_flood g client_ip current else pure tt)

  -- `session_id` is the UUID of the argument, if it is one, and `spelling` the argument itself,
  -- which goes into the key as it stands.
  unfoldable pub enforce_rate_limit : Option ℕ → String → String → Action (Node r) Unit
  unfolding get_session ensure_uuid
  enforce_rate_limit session_id spelling client_ip =
      on_server (ensure_uuid session_id >>= λ id. get_session id) >>= λ found. elim found [
        | none ↦ pure tt
        | some g ↦ if not g.rate_limit_enabled then pure tt else count_request g spelling client_ip
      ]

  abbrev block_login : ℕ → String → ℕ → Action (Node r) Unit
  block_login lab source_ip attempts =
      (if attempts == login_attempts_per_minute + 1
        then on_server (log_security_event lab "LOGIN_RATE_LIMITED" login_limit_payload source_ip)
          >> pure tt
        else pure tt)
      >> raise (http 429 too_many_logins)

  -- One key per minute; if Redis cannot be reached, the attempt is allowed.
  unfoldable pub enforce_login_attempt_limit : ℕ → String → Action (Node r) Unit
  enforce_login_attempt_limit lab source_ip n =
      elim (r.incr_expire (login_attempts lab source_ip (n.server.now / 60)) 60 n.store) [
        | none ↦ (ok tt, n)
        | some (attempts, st) ↦
            (if leb attempts login_attempts_per_minute
                then pure tt
                else block_login lab source_ip attempts)
              (record n { store = st })
      ]
