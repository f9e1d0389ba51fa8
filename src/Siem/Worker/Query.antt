-- ===== src/Siem/Worker/Query.antt =====
-- What the query of the rule-based step returns.
use cyber_range.Common.{
  ℕ, ◌≡◌, ◌≢◌, Bool, true, false, some, List, [], ◌∷◌, arith, refl, find?, select, any, map, All,
  All-append, All-take, Bool-cases, inl, inr, leb, ◌&&◌, not,
}
use cyber_range.Db.{GameSession, SecurityAuditLog, Server}
use cyber_range.Db.Tables.{log_has_id}
use cyber_range.Siem.{is_pending}
use cyber_range.Siem.Worker.{
  is_rule_judged, solo_session_of, in_solo_lab, join_solo, insert_by_time, by_time, pending_events,
  rule_batch, soc_rule_batch_size,
}

-- A pending event of a solo lab, of a type that the rules judge, which its ID finds.
pub record IsDue (s : Server) (l : SecurityAuditLog) : Type 0 where
  pub stored : find? (log_has_id l.id) s.audit_logs ≡ some l
  pub pending : is_pending l ≡ true
  pub solo : in_solo_lab s.sessions l ≡ true
  pub by_rule : is_rule_judged l.event_type ≡ true

-- The IDs of the audit log are unique: each event is the one that its ID finds.
abbrev pub IsKeyed : Server → Type 0
IsKeyed s = All (λ l. find? (log_has_id l.id) s.audit_logs ≡ some l) s.audit_logs

-- No event stands in a list twice.
abbrev pub IsRepeatFree : List SecurityAuditLog → Type 0
IsRepeatFree [] = Unit
IsRepeatFree (l ∷ ls) = All (λ (m : SecurityAuditLog). l.id ≢ m.id) ls × IsRepeatFree ls

All-weaken :
    (P Q : SecurityAuditLog → Type 0) (ls : List SecurityAuditLog)
    → ((l : SecurityAuditLog) → P l → Q l)
    → All P ls
    → All Q ls
All-weaken P Q [] h a = tt
All-weaken P Q (l ∷ ls) h a = (h l a.0, All-weaken P Q ls h a.1)

module _ (P : SecurityAuditLog → Type 0) where
  All-select :
      (q : SecurityAuditLog → Bool) (ls : List SecurityAuditLog)
      → All P ls
      → All (λ l. P l × (q l ≡ true)) (select q ls)
  All-select q [] a = tt
  All-select q (l ∷ ls) a = elim (Bool-cases (q l)) [
    | inl passes ↦ rw passes ((a.0, passes), All-select q ls a.1)
    | inr fails ↦ rw fails (All-select q ls a.1)
  ]

  All-copies : (l : SecurityAuditLog) (gs : List GameSession) → P l → All P (map (λ _. l) gs)
  All-copies l [] h = tt
  All-copies l (g ∷ gs) h = (h, All-copies l gs h)

  All-insert_by_time :
      (l : SecurityAuditLog) (ls : List SecurityAuditLog)
      → P l
      → All P ls
      → All P (insert_by_time l ls)
  unfolding insert_by_time
  All-insert_by_time l [] h a = (h, tt)
  All-insert_by_time l (m ∷ ms) h a = elim (Bool-cases (leb l.timestamp m.timestamp)) [
    | inl first ↦ rw first (h, (a.0, a.1))
    | inr later ↦ rw later (a.0, All-insert_by_time l ms h a.1)
  ]

  All-by_time : (ls : List SecurityAuditLog) → All P ls → All P (by_time ls)
  unfolding by_time
  All-by_time [] a = tt
  All-by_time (l ∷ ls) a = All-insert_by_time l (by_time ls) a.0 (All-by_time ls a.1)

select-any : (q : GameSession → Bool) (gs : List GameSession) → any q gs ≡ false → select q gs ≡ []
select-any q [] h = refl
select-any q (g ∷ gs) h = ground (arith, select-any q gs)

-- What the join returns is an event of a solo lab.
All-join_solo :
    (P : SecurityAuditLog → Type 0) (gs : List GameSession) (ls : List SecurityAuditLog)
    → All P ls
    → All (λ l. P l × (in_solo_lab gs l ≡ true)) (join_solo gs ls)
unfolding join_solo
All-join_solo P gs [] a = tt
All-join_solo P gs (l ∷ ls) a =
    All-append (λ m. P m × (in_solo_lab gs m ≡ true)) (map (λ _. l) (select (solo_session_of l) gs))
      (join_solo gs ls) copies (All-join_solo P gs ls a.1)
  where
    copies :
        All (λ m. P m × (in_solo_lab gs m ≡ true)) (map (λ _. l) (select (solo_session_of l) gs))
    copies = elim (Bool-cases (in_solo_lab gs l)) [
      | inl solo ↦
          All-copies (λ m. P m × (in_solo_lab gs m ≡ true)) l (select (solo_session_of l) gs)
            (a.0, solo)
      | inr other ↦ rw (select-any (solo_session_of l) gs other) tt
    ]

pub rule_batch-IsDue :
    (locked : ℕ → Bool) (s : Server) → IsKeyed s → All (IsDue s) (rule_batch locked s)
unfolding rule_batch pending_events
rule_batch-IsDue locked s keyed =
    let q = λ (l : SecurityAuditLog).
      is_pending l && (is_rule_judged l.event_type && not (locked l.id)) in
    let found = λ (l : SecurityAuditLog). find? (log_has_id l.id) s.audit_logs ≡ some l in
    let picked = All-select found q s.audit_logs keyed in
    let joined =
      All-join_solo (λ l. found l × (q l ≡ true)) s.sessions (select q s.audit_logs) picked in
    let due =
      All-weaken (λ l. (found l × (q l ≡ true)) × (in_solo_lab s.sessions l ≡ true)) (IsDue s) _
        (λ l h. record {
          stored = h.0.0;
          pending = ground (arith, h.0.1);
          solo = h.1;
          by_rule = ground (arith, h.0.1);
        })
        joined in
    All-take (IsDue s) soc_rule_batch_size _ (All-by_time (IsDue s) _ due)
