-- ===== src/Siem/Investigation.antt =====
-- What an investigation does on every branch.
use cyber_range.Common.{
  ℕ, true, Bool, ◌≡◌, ◌≢◌, inl, inr, refl, ap, some, none, arith, find?, find?-passes,
  find?-update_first, find?-update_first_ne, Option-cases, if◌then◌else◌,
}
use cyber_range.Common.Int.{pos, ◌+ℤ◌}
use cyber_range.Http.{ok, err, Exn, Returns, Result-cases}
use cyber_range.Db.{GameSession, SecurityAuditLog, Server}
use cyber_range.Db.Tables.{has_id, log_has_id, write_session, write_log}
use cyber_range.Siem.Forensics.{
  Heuristics, predict_is_malicious, judge, credits, close_log, award, InvestigateResponse,
  process_investigation,
}

module _ (h : Heuristics) (lid : ℕ) (sid : ℕ) (s : Server) where
  -- What an investigation needs: a pending event `l`, a session `g` of the event's lab, and a
  -- verdict `b` of the heuristic.
  pub record CanClose (l : SecurityAuditLog) (g : GameSession) (b : Bool) : Type 0 where
    pub listed : find? (log_has_id lid) s.audit_logs ≡ some l
    pub pending : l.investigated_at ≡ none
    pub present : find? (has_id sid) s.sessions ≡ some g
    pub same_lab : g.lab_instance_id ≡ l.lab_instance_id
    pub judged : predict_is_malicious h l.payload l.event_type ≡ ok b

-- The rows that an investigation stores keep their keys.
close_log-id : (b : Bool) (now user : ℕ) (l : SecurityAuditLog) → (close_log b now user l).id ≡ l.id
unfolding close_log
close_log-id b now user l = refl

award-id : (n : ℕ) (g : GameSession) → (award n g).id ≡ g.id
unfolding award
award-id n g = refl

module _ (h : Heuristics) (lid : ℕ) (claim : Bool) (sid user : ℕ) (s : Server)
    (l : SecurityAuditLog) (g : GameSession) (b : Bool) where
  -- The investigation succeeds: it stores `log` for the event, closed by the user now and marked
  -- compromised exactly if it was so before or is judged an attack, and `row` for the session,
  -- with the points that it reports; no other event and no other session changes.
  pub record IsClosed : Type 0 where
    pub response : InvestigateResponse
    pub log : SecurityAuditLog
    pub row : GameSession
    pub succeeds : (process_investigation h lid claim sid user s).0 ≡ ok response
    pub logged :
        find? (log_has_id lid) (process_investigation h lid claim sid user s).1.audit_logs
        ≡ some log
    pub at : log.investigated_at ≡ some s.now
    pub by : log.investigated_by ≡ some user
    pub marked : log.is_compromised ≡ (if b then true else l.is_compromised)
    pub kept : (log.payload ≡ l.payload) × (log.lab_instance_id ≡ l.lab_instance_id)
    pub points :
        response.credits_awarded ≡ (if claim then (if b then 3 else 0) else (if b then 0 else 1))
    pub stored :
        find? (has_id sid) (process_investigation h lid claim sid user s).1.sessions ≡ some row
    pub paid : row.defense_budget ≡ g.defense_budget +ℤ pos response.credits_awarded
    pub reported : response.new_balance ≡ row.defense_budget
    pub logs_kept :
        (j : ℕ)
        → j ≢ lid
        → find? (log_has_id j) (process_investigation h lid claim sid user s).1.audit_logs
          ≡ find? (log_has_id j) s.audit_logs
    pub sessions_kept :
        (j : ℕ)
        → j ≢ sid
        → find? (has_id j) (process_investigation h lid claim sid user s).1.sessions
          ≡ find? (has_id j) s.sessions

module _ (h : Heuristics) (lid : ℕ) (claim : Bool) (sid user : ℕ) (s : Server)
    (l : SecurityAuditLog) (g : GameSession) (b : Bool) (c : CanClose h lid sid s l g b) where
  investigation_runs : process_investigation h lid claim sid user s ≡ (
    ok (record {
      verdict = judge claim b;
      credits_awarded = credits (judge claim b);
      new_balance = g.defense_budget +ℤ pos (credits (judge claim b));
    }),
    write_session sid (award (credits (judge claim b))) (write_log lid (close_log b s.now user) s),
  )
  unfolding process_investigation
  investigation_runs = ground (arith, c.listed, c.pending, c.present, c.same_lab, c.judged)

  judge-points :
      credits (judge claim b) ≡ (if claim then (if b then 3 else 0) else (if b then 0 else 1))
  unfolding judge
  judge-points = ground arith

  -- the session's row afterwards, and the points that are reported
  pub investigation_award :
      (find? (has_id sid) (process_investigation h lid claim sid user s).1.sessions
        ≡ some (award (credits (judge claim b)) g))
      × ((process_investigation h lid claim sid user s).0
          ≡ ok (record {
            verdict = judge claim b;
            credits_awarded = credits (judge claim b);
            new_balance = g.defense_budget +ℤ pos (credits (judge claim b));
          }))
  investigation_award = (
    rw investigation_runs (
        find?-update_first (has_id sid) (award (credits (judge claim b))) s.sessions g c.present (
          rw (award-id (credits (judge claim b)) g)
            (find?-passes (has_id sid) s.sessions g c.present))),
    ap (λ r. r.0) investigation_runs,
  )

  -- An investigation of a pending event closes that event and no other, pays 3 points for an
  -- attack that was claimed, 1 for a false alarm that was claimed and nothing otherwise, to the
  -- given session of the event's lab and no other, and reports the balance that was stored.
  pub investigation_effect : IsClosed h lid claim sid user s l g b
  investigation_effect = record {
    response = record {
      verdict = judge claim b;
      credits_awarded = credits (judge claim b);
      new_balance = g.defense_budget +ℤ pos (credits (judge claim b));
    };
    log = close_log b s.now user l;
    row = award (credits (judge claim b)) g;
    succeeds = ap (λ r. r.0) investigation_runs;
    logged = rw investigation_runs (
        find?-update_first (log_has_id lid) (close_log b s.now user) s.audit_logs l c.listed
          log_stays);
    at = unfold close_log in refl;
    by = unfold close_log in refl;
    marked = unfold close_log in refl;
    kept = unfold close_log in (refl, refl);
    points = judge-points;
    stored = rw investigation_runs (
        find?-update_first (has_id sid) (award (credits (judge claim b))) s.sessions g c.present
          stays);
    paid = unfold award in refl;
    reported = unfold award in refl;
    logs_kept = λ j ne. rw investigation_runs (
        find?-update_first_ne (log_has_id lid) (log_has_id j) (close_log b s.now user) s.audit_logs
          (λ a e. ground (arith, close_log-id b s.now user a)));
    sessions_kept = λ j ne. rw investigation_runs (
        find?-update_first_ne (has_id sid) (has_id j) (award (credits (judge claim b))) s.sessions
          (λ a e. ground (arith, award-id (credits (judge claim b)) a)));
  }
    where
      log_stays : log_has_id lid (close_log b s.now user l) ≡ true
      log_stays =
          rw (close_log-id b s.now user l) (find?-passes (log_has_id lid) s.audit_logs l c.listed)

      stays : has_id sid (award (credits (judge claim b)) g) ≡ true
      stays =
          rw (award-id (credits (judge claim b)) g)
            (find?-passes (has_id sid) s.sessions g c.present)

module _ (h : Heuristics) (lid : ℕ) (claim : Bool) (sid user : ℕ) (s : Server) where
  -- An investigation succeeds only on a pending event of the session's own lab.
  pub investigation_needs :
      Returns (process_investigation h lid claim sid user s)
      → (l : SecurityAuditLog) × (g : GameSession) × (b : Bool) × CanClose h lid sid s l g b
  unfolding process_investigation
  investigation_needs (resp, e) = elim (Option-cases (find? (log_has_id lid) s.audit_logs)) [
    | inl missing ↦ absurd (ground arith)
    | inr (l, listed) ↦ elim (Option-cases (find? (has_id sid) s.sessions)) [
      | inl missing ↦ absurd (ground arith)
      | inr (g, present) ↦ elim (Result-cases (predict_is_malicious h l.payload l.event_type)) [
        | inl (b, judged) ↦ (l, g, b, ground arith)
        | inr (x, raised) ↦ absurd (ground arith)
      ]
    ]
  ]

  -- An investigation that raises, for whatever reason, changes nothing.
  pub investigation_refused :
      (e : Exn)
      → (process_investigation h lid claim sid user s).0 ≡ err e
      → (process_investigation h lid claim sid user s).1 ≡ s
  unfolding process_investigation
  investigation_refused e r = ground arith
