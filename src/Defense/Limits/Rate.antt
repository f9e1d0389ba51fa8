-- ===== src/Defense/Limits/Rate.antt =====
-- The request counter of the chat endpoint.
use cyber_range.Common.{
  ℕ, ◌+◌, ◌<◌, String, true, false, ◌≡◌, ◌≢◌, none, some, arith, ltb, length, Option-cases, inl,
  inr, find?, if◌then◌else◌,
}
use cyber_range.Http.{ok, err, http, too_many_requests}
use cyber_range.Db.{GameSession}
use cyber_range.Db.Tables.{has_id}
use cyber_range.Labs.{get_session, ensure_uuid}
use cyber_range.Redis.{Redis, Node, Key, rate_limit}
use cyber_range.Siem.Events.{log_security_event-Appends, log_security_event-ok}
use cyber_range.Defense.Limits.{enforce_rate_limit, dos_payload}

module _ (r : Redis) (sid : ℕ) (spelling ip : String) (n : Node r) where
  abbrev counter : Key
  counter = rate_limit spelling ip

  -- No session, or a session that has not bought the limit: nothing is counted.
  pub enforce_rate_limit_off :
      ((g : GameSession)
        → find? (has_id sid) n.server.sessions ≡ some g
        → g.rate_limit_enabled ≡ false)
      → enforce_rate_limit r (some sid) spelling ip n ≡ (ok tt, n)
  unfolding enforce_rate_limit get_session ensure_uuid
  enforce_rate_limit_off off = elim (Option-cases (find? (has_id sid) n.server.sessions)) [
    | inl missing ↦ ground arith
    | inr (g, present) ↦ ground (arith, off g present)
  ]

  module _ (g : GameSession) (present : find? (has_id sid) n.server.sessions ≡ some g)
      (on : g.rate_limit_enabled ≡ true)
      (reached : r.incr (rate_limit spelling ip) n.store ≢ none) where
    -- With the limit on, if INCR answers and the audit log can be written, the request with number
    -- `rpm + 1` of a running window is the first to be refused: a request passes exactly while the
    -- count that includes it is at most the session's limit. Each refusal is answered with 429 and
    -- appends one event to the audit log.
    pub enforce_rate_limit_running :
        n.server.audit_up ≡ true
        → r.value (rate_limit spelling ip) n.store ≢ 0
        → let (res, n') = enforce_rate_limit r (some sid) spelling ip n in
          let before = r.value (rate_limit spelling ip) n.store in
          (r.value (rate_limit spelling ip) n'.store ≡ before + 1)
          × (res
              ≡ (if ltb before g.rate_limit_rpm then ok tt else err (http 429 too_many_requests)))
          × (length n'.server.audit_logs
              ≡ length n.server.audit_logs + (if ltb before g.rate_limit_rpm then 0 else 1))
    unfolding enforce_rate_limit get_session ensure_uuid
    enforce_rate_limit_running up running =
        elim (Option-cases (r.incr (rate_limit spelling ip) n.store)) [
          | inl down ↦ absurd (reached down)
          | inr ((a, st), e) ↦ ground (
            arith,
            present,
            on,
            r.incr_counts (rate_limit spelling ip) n.store a st e,
            log_security_event-Appends g.lab_instance_id "DOS_ATTEMPT_BLOCKED"
                (dos_payload a g.rate_limit_rpm) ip n.server,
            log_security_event-ok g.lab_instance_id "DOS_ATTEMPT_BLOCKED"
                (dos_payload a g.rate_limit_rpm) ip n.server,
          )
        ]

    -- The first request of a window counts 1 and gives the counter 60 seconds to live, if EXPIRE
    -- succeeds.
    pub enforce_rate_limit_first :
        ((st : r.Store) → r.expire (rate_limit spelling ip) 60 st ≢ none)
        → 0 < g.rate_limit_rpm
        → r.value (rate_limit spelling ip) n.store ≡ 0
        → let (res, n') = enforce_rate_limit r (some sid) spelling ip n in
          (res ≡ ok tt)
          × (r.value (rate_limit spelling ip) n'.store ≡ 1)
          × (r.ttl (rate_limit spelling ip) n'.store ≡ some 60)
    unfolding enforce_rate_limit get_session ensure_uuid
    enforce_rate_limit_first lives room fresh =
        elim (Option-cases (r.incr (rate_limit spelling ip) n.store)) [
          | inl down ↦ absurd (reached down)
          | inr ((a, st), e) ↦ elim (Option-cases (r.expire (rate_limit spelling ip) 60 st)) [
            | inl down ↦ absurd (lives st down)
            | inr (st', e') ↦ ground (
              arith,
              present,
              on,
              r.incr_counts (rate_limit spelling ip) n.store a st e,
              r.expire_keeps (rate_limit spelling ip) 60 st st' e',
            )
          ]
        ]

    -- With the limit on, a request that finds the counter above zero, and whose INCR answers, adds
    -- 1 to it and leaves its time to live as it is: a counter that has none gets none.
    pub enforce_rate_limit_unexpiring :
        r.value (rate_limit spelling ip) n.store ≢ 0
        → let n' = (enforce_rate_limit r (some sid) spelling ip n).1 in
          (r.value (rate_limit spelling ip) n'.store ≡ r.value (rate_limit spelling ip) n.store + 1)
          × (r.ttl (rate_limit spelling ip) n'.store ≡ r.ttl (rate_limit spelling ip) n.store)
    unfolding enforce_rate_limit get_session ensure_uuid
    enforce_rate_limit_unexpiring running =
        elim (Option-cases (r.incr (rate_limit spelling ip) n.store)) [
          | inl down ↦ absurd (reached down)
          | inr ((a, st), e) ↦ ground (
            arith,
            present,
            on,
            r.incr_counts (rate_limit spelling ip) n.store a st e,
            r.incr_keeps_ttl (rate_limit spelling ip) n.store a st e,
            log_security_event-ok g.lab_instance_id "DOS_ATTEMPT_BLOCKED"
                (dos_payload a g.rate_limit_rpm) ip n.server,
          )
        ]
