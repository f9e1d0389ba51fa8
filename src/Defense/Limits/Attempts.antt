-- ===== src/Defense/Limits/Attempts.antt =====
-- Login attempts from one source within one minute.
use cyber_range.Common.{
  ℕ, zero, suc, ◌+◌, ◌-◌, ◌/◌, min, String, true, ◌≡◌, ◌≢◌, refl, ap, ◌∙◌, none, some, arith, ◌==◌,
  ltb, length, Option-cases, inl, inr, if◌then◌else◌,
}
use cyber_range.Http.{Result, ok, err, http, too_many_logins}
use cyber_range.Redis.{Redis, Node, Key, login_attempts}
use cyber_range.Siem.Events.{log_security_event-Appends, log_security_event-ok}
use cyber_range.Defense.Limits.{enforce_login_attempt_limit, login_limit_payload}

module _ (r : Redis) (lab : ℕ) (ip : String) where
  -- the counter of this source in the minute that `n` is in
  abbrev pub window : Node r → Key
  window n = login_attempts lab ip (n.server.now / 60)

  abbrev pub attempts_so_far : Node r → ℕ
  attempts_so_far n = r.value (window n) n.store

  abbrev pub events : Node r → ℕ
  events n = length n.server.audit_logs

  -- What one attempt does, by the number `v` of attempts made before it.
  pub record Attempt (v : ℕ) (n : Node r) (res : Result Unit) (n' : Node r) : Type 0 where
    pub counted : r.value (window n) n'.store ≡ v + 1
    pub expires : r.ttl (window n) n'.store ≡ some 60
    pub answered : res ≡ (if ltb v 10 then ok tt else err (http 429 too_many_logins))
    pub logged : events n' ≡ events n + (if v == 10 then 1 else 0)
    pub same_time : n'.server.now ≡ n.server.now
    pub still_up : n'.server.audit_up ≡ true

  pub enforce_login_attempt_limit-Attempt :
      (n : Node r)
      → n.server.audit_up ≡ true
      → r.incr_expire (window n) 60 n.store ≢ none
      → let (res, n') = enforce_login_attempt_limit r lab ip n in
        Attempt (attempts_so_far n) n res n'
  unfolding enforce_login_attempt_limit
  enforce_login_attempt_limit-Attempt n up reached =
      elim (Option-cases (r.incr_expire (window n) 60 n.store)) [
        | inl down ↦ absurd (reached down)
        | inr ((a, st), e) ↦ ground (
          arith,
          r.incr_expire_counts (window n) 60 n.store a st e,
          log_security_event-Appends lab "LOGIN_RATE_LIMITED" login_limit_payload ip n.server,
          log_security_event-ok lab "LOGIN_RATE_LIMITED" login_limit_payload ip n.server,
        )
      ]

  -- If Redis cannot be reached the attempt is let through and nothing is counted.
  pub enforce_login_attempt_limit_down :
      (n : Node r)
      → r.incr_expire (window n) 60 n.store ≡ none
      → enforce_login_attempt_limit r lab ip n ≡ (ok tt, n)
  unfolding enforce_login_attempt_limit
  enforce_login_attempt_limit_down n down = ground arith

  -- `m` attempts in a row: how many were let through.
  pub attempts : ℕ → Node r → ℕ × Node r
  attempts zero n = (0, n)
  attempts (suc m) n =
      let (res, n') = enforce_login_attempt_limit r lab ip n in
      let (passed, n'') = attempts m n' in (elim res [ ok _ ↦ passed + 1 | err _ ↦ passed ], n'')

  abbrev below : ℕ → ℕ → ℕ → ℕ
  below limit v m = min (v + m) limit - min v limit

  attempts_from :
      (m v : ℕ) (k : Key) (n : Node r)
      → window n ≡ k
      → attempts_so_far n ≡ v
      → n.server.audit_up ≡ true
      → ((st : r.Store) → r.incr_expire k 60 st ≢ none)
      → ((attempts m n).0 ≡ below 10 v m)
        × (events (attempts m n).1 ≡ events n + (below 11 v m - below 10 v m))
  unfolding attempts
  attempts_from zero v k n w e up reached = omega arith
  attempts_from (suc m) v k n w e up reached =
      let n' = (enforce_login_attempt_limit r lab ip n).1 in
      let one = enforce_login_attempt_limit-Attempt n up (rw w (reached n.store)) in
      let w' : window n' ≡ window n = ap (λ t. login_attempts lab ip (t / 60)) one.same_time in
      let e' : attempts_so_far n' ≡ v + 1 =
        ap (λ q. r.value q n'.store) w' ∙ one.counted ∙ ap (λ (t : ℕ). t + 1) e in
      let ih = attempts_from m (v + 1) k n' (w' ∙ w) e' one.still_up reached in
      ground (arith, one.answered, one.logged, ih)

  -- Of `m` login attempts in a row from one source to one lab, the first ten of the minute pass
  -- and the rest are refused, and one event records it if there were more than ten. This holds
  -- while Redis answers, the audit log can be written, the clock stays in the minute and nobody
  -- else writes the counter.
  pub attempts_limited :
      (m : ℕ) (n : Node r)
      → attempts_so_far n ≡ 0
      → n.server.audit_up ≡ true
      → ((st : r.Store) → r.incr_expire (window n) 60 st ≢ none)
      → ((attempts m n).0 ≡ min m 10)
        × (events (attempts m n).1 ≡ events n + (if ltb 10 m then 1 else 0))
  attempts_limited m n fresh up reached =
      ground (arith, attempts_from m 0 (window n) n refl fresh up reached)
