-- ===== src/Siem/Worker/Verdicts.antt =====
-- The first verdict on an event stays.
use cyber_range.Common.{
  ℕ, ◌≡◌, Bool, true, false, some, List, [], ◌∷◌, inl, inr, arith, refl, ap, sym, subst, find?,
  find?-passes, find?-update_first_either, find?-update_first_ne, All, Option-cases, Bool-cases,
  ◌==◌, ◌∙◌, ◌⊎◌, String,
}
use cyber_range.Http.{Result-cases}
use cyber_range.Db.{SecurityAuditLog, Server}
use cyber_range.Db.Tables.{log_has_id}
use cyber_range.Siem.{is_pending}
use cyber_range.Siem.Forensics.{Heuristics, predict_is_malicious, process_investigation}
use cyber_range.Siem.Investigation.{
  investigation_effect, investigation_needs, investigation_refused,
}
use cyber_range.Siem.Worker.Query.{IsDue, IsKeyed, rule_batch-IsDue}
use cyber_range.Siem.Worker.{
  write_row, give_verdict, close_event, close_events, close_rule_judged_logs, rule_batch, Batch,
  rule_reasoning, AnalysisOutput, is_open_event, save_verdict, Analysis, verdict, unreachable,
  failed, Surroundings, Loop, analyse_batch, end_round, run_round, fetch_pending_logs,
}

-- Each investigated event of `s` is the same in `s'`.
pub record KeepsClosed (s s' : Server) : Type 0 where
  pub same :
      (id : ℕ) (l : SecurityAuditLog)
      → find? (log_has_id id) s.audit_logs ≡ some l
      → is_pending l ≡ false
      → find? (log_has_id id) s'.audit_logs ≡ some l

pub give_verdict-id :
    (now : ℕ) (b : Bool) (t : String) (l : SecurityAuditLog) → (give_verdict now b t l).id ≡ l.id
unfolding give_verdict
give_verdict-id now b t l = refl

write_row-KeepsClosed :
    (p : SecurityAuditLog → Bool) (f : SecurityAuditLog → SecurityAuditLog) (s : Server)
    → ((l : SecurityAuditLog) → p l ≡ true → is_pending l ≡ true)
    → ((l : SecurityAuditLog) → (f l).id ≡ l.id)
    → KeepsClosed s (write_row p f s)
write_row-KeepsClosed p f s opened keeps = record {
  same = λ id l e closed. ground (
    arith,
    opened l,
    find?-passes p s.audit_logs l,
    find?-update_first_either (log_has_id id) p f s.audit_logs l (λ x. rw (keeps x) refl) e,
  );
}

-- From what a call leaves to the call itself.
left-KeepsClosed : {s b : Server} (a : Server) → b ≡ a → KeepsClosed s a → KeepsClosed s b
left-KeepsClosed {s} a e k = subst (KeepsClosed s) (sym e) k

pub kept : {s : Server} → KeepsClosed s s
kept = record { same = λ j l e c. e }

pub both : {s t u : Server} → KeepsClosed s t → KeepsClosed t u → KeepsClosed s u
both f g = record { same = λ j l e c. g.same j l (f.same j l e c) c }

save_verdict-KeepsClosed :
    (locked : ℕ → Bool) (id : ℕ) (v : AnalysisOutput) (s : Server)
    → KeepsClosed s (save_verdict locked id v s).1
unfolding save_verdict
save_verdict-KeepsClosed locked id v s =
    elim (Option-cases (find? (is_open_event locked id) s.audit_logs)) [
      | inl gone ↦ left-KeepsClosed s (ground (arith, gone)) kept
      | inr (row, found) ↦
          let f = give_verdict s.now v.is_malicious v.reasoning in
          left-KeepsClosed (write_row (is_open_event locked id) f s) (ground (arith, found)) (
            write_row-KeepsClosed (is_open_event locked id) f s (λ m h. ground arith)
              (give_verdict-id s.now v.is_malicious v.reasoning))
    ]

module _ (h : Heuristics) where
  -- A write to a row that was pending in `s`
  due-KeepsClosed :
      (l : SecurityAuditLog) (f : SecurityAuditLog → SecurityAuditLog) (s t : Server)
      → IsDue s l
      → ((m : SecurityAuditLog) → (f m).id ≡ m.id)
      → KeepsClosed s t
      → KeepsClosed s (write_row (log_has_id l.id) f t)
  due-KeepsClosed l f s t due keeps k = record {
    same = λ j m e closed. elim (Bool-cases (l.id == j)) [
      | inl here ↦
          let at : l.id ≡ j = ground arith in
          absurd (
            ground (
              arith,
              closed,
              due.pending,
              subst (λ i. find? (log_has_id i) s.audit_logs ≡ some l) at due.stored,
              e,
            ))
      | inr other ↦
          find?-update_first_ne (log_has_id l.id) (log_has_id j) f t.audit_logs
            (λ x is. (ground (arith, is, other), rw (keeps x) (ground (arith, is, other))))
          ∙ k.same j m e closed
    ];
  }

  close_event-KeepsClosed :
      (l : SecurityAuditLog) (s t : Server)
      → IsDue s l
      → KeepsClosed s t
      → KeepsClosed s (close_event h l t).1
  unfolding close_event
  close_event-KeepsClosed l s t due k = elim (Option-cases (find? (log_has_id l.id) t.audit_logs)) [
    | inl gone ↦ left-KeepsClosed t (ground (arith, gone)) k
    | inr (row, found) ↦ elim (Result-cases (predict_is_malicious h row.payload row.event_type)) [
      | inr (x, raised) ↦ left-KeepsClosed t (ground (arith, found, raised)) k
      | inl (b, judged) ↦
          let f = give_verdict t.now b (rule_reasoning b) in
          left-KeepsClosed (write_row (log_has_id l.id) f t) (ground (arith, found, judged))
            (due-KeepsClosed l f s t due (give_verdict-id t.now b (rule_reasoning b)) k)
    ]
  ]

  close_events-KeepsClosed :
      (ls : List SecurityAuditLog) (s t : Server)
      → All (IsDue s) ls
      → KeepsClosed s t
      → KeepsClosed s (close_events h ls t).1
  unfolding close_events
  close_events-KeepsClosed [] s t due k = k
  close_events-KeepsClosed (l ∷ ls) s t due k =
      let first = close_event-KeepsClosed l s t due.0 k in
      elim (Result-cases (close_event h l t).0) [
        | inr (x, raised) ↦ left-KeepsClosed (close_event h l t).1 (ground (arith, raised)) first
        | inl (u, done) ↦
            left-KeepsClosed (close_events h ls (close_event h l t).1).1 (ground (arith, done))
              (close_events-KeepsClosed ls s (close_event h l t).1 due.1 first)
      ]

  close_rule_judged_logs-KeepsClosed :
      (locked : ℕ → Bool) (s : Server)
      → IsKeyed s
      → KeepsClosed s (close_rule_judged_logs h locked s).1
  unfolding close_rule_judged_logs
  close_rule_judged_logs-KeepsClosed locked s keyed =
      elim (Result-cases (close_events h (rule_batch locked s) s).0) [
        | inr (x, raised) ↦ left-KeepsClosed s (ground (arith, raised)) kept
        | inl (u, done) ↦
            left-KeepsClosed (close_events h (rule_batch locked s) s).1 (ground (arith, done)) (
              close_events-KeepsClosed (rule_batch locked s) s s (rule_batch-IsDue locked s keyed)
                kept)
      ]

end_round-server : (p : Loop) (b : Batch) → (end_round p b).server ≡ b.server
unfolding end_round
end_round-server p b = ground arith

Analysis-cases :
    (a : Analysis) → (a ≡ unreachable) ⊎ ((a ≡ failed) ⊎ ((v : AnalysisOutput) × (a ≡ verdict v)))
Analysis-cases unreachable = inl refl
Analysis-cases failed = inr (inl refl)
Analysis-cases (verdict v) = inr (inr (v, refl))

module _ (w : Surroundings)
    (others : (l : SecurityAuditLog) (s : Server) → KeepsClosed s (w.invoke l s).1) where
  analyse_batch-KeepsClosed :
      (ls : List SecurityAuditLog) (d : Bool) (s : Server)
      → KeepsClosed s (analyse_batch w ls d s).server
  unfolding analyse_batch
  analyse_batch-KeepsClosed [] d s = kept
  analyse_batch-KeepsClosed (l ∷ ls) d s = elim (Analysis-cases (w.invoke l s).0) [
    | inl out ↦ left-KeepsClosed (w.invoke l s).1 (ground (arith, out)) (others l s)
    | inr (inl bad) ↦
        left-KeepsClosed (analyse_batch w ls d (w.invoke l s).1).server (ground (arith, bad))
          (both (others l s) (analyse_batch-KeepsClosed ls d (w.invoke l s).1))
    | inr (inr (v, good)) ↦
        let s' = (save_verdict w.locked l.id v (w.invoke l s).1).1 in
        left-KeepsClosed (analyse_batch w ls false s').server (ground (arith, good)) (
          both (both (others l s) (save_verdict-KeepsClosed w.locked l.id v (w.invoke l s).1))
            (analyse_batch-KeepsClosed ls false s'))
  ]

  -- The states in which the model's answers arrive, one for each event that it is asked about
  abbrev pub arrivals : List SecurityAuditLog → Bool → Server → List Server
  arrivals [] d s = []
  arrivals (l ∷ ls) d s = (w.invoke l s).1 ∷ elim (w.invoke l s).0 [
    | unreachable ↦ []
    | failed ↦ arrivals ls d (w.invoke l s).1
    | verdict v ↦ arrivals ls false (save_verdict w.locked l.id v (w.invoke l s).1).1
  ]

  arrivals-KeepsClosed :
      (ls : List SecurityAuditLog) (d : Bool) (s : Server)
      → All (λ t. KeepsClosed t (analyse_batch w ls d s).server) (arrivals ls d s)
  unfolding analyse_batch
  arrivals-KeepsClosed [] d s = tt
  arrivals-KeepsClosed (l ∷ ls) d s = elim (Analysis-cases (w.invoke l s).0) [
    | inl out ↦ rw out (left-KeepsClosed (w.invoke l s).1 (ground (arith, out)) kept, tt)
    | inr (inl bad) ↦
        let rest = analyse_batch w ls d (w.invoke l s).1 in
        let runs : analyse_batch w (l ∷ ls) d s ≡ rest = ground (arith, bad) in
        rw bad (
          left-KeepsClosed rest.server (ap (λ b. b.server) runs)
              (analyse_batch-KeepsClosed ls d (w.invoke l s).1),
          subst (λ b. All (λ t. KeepsClosed t b.server) (arrivals ls d (w.invoke l s).1)) (sym runs)
              (arrivals-KeepsClosed ls d (w.invoke l s).1),
        )
    | inr (inr (v, good)) ↦
        let s' = (save_verdict w.locked l.id v (w.invoke l s).1).1 in
        let rest = analyse_batch w ls false s' in
        let runs : analyse_batch w (l ∷ ls) d s ≡ rest = ground (arith, good) in
        rw good (
          left-KeepsClosed rest.server (ap (λ b. b.server) runs) (
              both (save_verdict-KeepsClosed w.locked l.id v (w.invoke l s).1)
                (analyse_batch-KeepsClosed ls false s')),
          subst (λ b. All (λ t. KeepsClosed t b.server) (arrivals ls false s')) (sym runs)
              (arrivals-KeepsClosed ls false s'),
        )
  ]

  -- If the IDs of the audit log are unique, and no request that runs in the meantime changes an
  -- investigated event, a round of the worker changes no event that was investigated before it,
  -- and none that is investigated when an answer of the model arrives: neither the rules nor a late
  -- verdict replaces a verdict.
  pub run_round-KeepsClosed :
      (h : Heuristics) (p : Loop) (s : Server)
      → IsKeyed s
      → let s' = (close_rule_judged_logs h w.locked s).1 in
        KeepsClosed s (run_round h w p s).server
        × All
            (λ t. KeepsClosed t (run_round h w p s).server)
            (arrivals (fetch_pending_logs s') p.llm_down s')
  unfolding run_round
  run_round-KeepsClosed h p s keyed =
      let s' = (close_rule_judged_logs h w.locked s).1 in
      let logs = fetch_pending_logs s' in
      rw (end_round-server p (analyse_batch w logs p.llm_down s')) (
        both (close_rule_judged_logs-KeepsClosed h w.locked s keyed)
            (analyse_batch-KeepsClosed logs p.llm_down s'),
        arrivals-KeepsClosed logs p.llm_down s',
      )

-- An investigation by a player changes no event that was investigated before it, so that it may
-- run in the meantime.
pub investigation-KeepsClosed :
    (h : Heuristics) (lid : ℕ) (claim : Bool) (sid user : ℕ) (s : Server)
    → KeepsClosed s (process_investigation h lid claim sid user s).1
investigation-KeepsClosed h lid claim sid user s =
    elim (Result-cases (process_investigation h lid claim sid user s).0) [
      | inr (x, raised) ↦
          left-KeepsClosed s (investigation_refused h lid claim sid user s x raised) kept
      | inl (resp, done) ↦
          let (l, g, b, c) = investigation_needs h lid claim sid user s (resp, done) in
          let closed = investigation_effect h lid claim sid user s l g b c in
          record {
            same = λ j m e old. elim (Bool-cases (j == lid)) [
              | inl here ↦ absurd (ground (arith, c.listed, c.pending))
              | inr other ↦ closed.logs_kept j (ground arith) ∙ e
            ];
          }
    ]
