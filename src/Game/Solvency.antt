-- ===== src/Game/Solvency.antt =====
-- No budget falls below zero.
use cyber_range.Common.{
  ℕ, ◌≡◌, ◌==◌, ◌∙◌, String, Bool, some, List, [], ◌∷◌, arith, sym, subst, find?, Bool-cases, inl,
  inr,
}
use cyber_range.Common.Int.{ℤ, pos, ◌+ℤ◌, ◌-ℤ◌, ◌≤ℤ◌, int_laws}
use cyber_range.Http.{Result-cases}
use cyber_range.Db.{GameSession, Server}
use cyber_range.Db.Tables.{has_id}
use cyber_range.Defense.{process_defense_purchase, charge_and_activate}
use cyber_range.Defense.Purchase.{
  purchase_needs, purchase_effect, purchase_refused, bought_row-keys, stored_row,
}
use cyber_range.Siem.Forensics.{Heuristics, process_investigation, award, credits, judge}
use cyber_range.Siem.Investigation.{
  investigation_needs, investigation_effect, investigation_refused, investigation_award,
}
use cyber_range.Game.{Move, purchase, investigate, play, play_all}
use cyber_range.Game.Ledger.{award-budget}

abbrev pub IsSolvent : Server → Type 0
IsSolvent s =
    (j : ℕ) (g : GameSession) → find? (has_id j) s.sessions ≡ some g → pos 0 ≤ℤ g.defense_budget

covers : (b : ℤ) (p : ℕ) → pos p ≤ℤ b → pos 0 ≤ℤ (b -ℤ pos p)
covers b p h = grind int_laws

gains : (b : ℤ) (n : ℕ) → pos 0 ≤ℤ b → pos 0 ≤ℤ (b +ℤ pos n)
gains b n h = grind int_laws

module _ (s : Server) (safe : IsSolvent s) where
  purchase-IsSolvent : (sid : ℕ) (t : String) → IsSolvent (process_defense_purchase sid t s).1
  purchase-IsSolvent sid t j g e = elim (Result-cases (process_defense_purchase sid t s).0) [
    | inr (x, refused) ↦
        safe j g (
          subst (λ z. find? (has_id j) z.sessions ≡ some g) (purchase_refused sid t s x refused).0
            e)
    | inl (resp, done) ↦
        let (p, a, c) = purchase_needs sid t s (resp, done) in
        elim (Bool-cases (j == sid)) [
          | inr other ↦
              safe j g
                (sym ((purchase_effect sid t s p a c).sessions_kept j (ground (arith, other))) ∙ e)
          | inl here ↦
              let j_is : j ≡ sid = ground (arith, here) in
              let row : charge_and_activate t p a ≡ g = ground (
                arith,
                stored_row sid t s p a c,
                subst (λ k. find? (has_id k) (process_defense_purchase sid t s).1.sessions ≡ some g)
                    j_is e,
              ) in
              subst (λ r. pos 0 ≤ℤ r.defense_budget) row
                (rw (bought_row-keys t p a).1 (covers a.defense_budget p c.covered))
        ]
  ]

  investigation-IsSolvent :
      (h : Heuristics) (lid : ℕ) (claim : Bool) (sid user : ℕ)
      → IsSolvent (process_investigation h lid claim sid user s).1
  investigation-IsSolvent h lid claim sid user j g e =
      let after = (process_investigation h lid claim sid user s).1 in
      elim (Result-cases (process_investigation h lid claim sid user s).0) [
        | inr (x, refused) ↦ safe j g (
            subst (λ z. find? (has_id j) z.sessions ≡ some g)
              (investigation_refused h lid claim sid user s x refused) e)
        | inl (resp, done) ↦
            let (l, a, b, c) = investigation_needs h lid claim sid user s (resp, done) in
            let n = credits (judge claim b) in
            let stored = (investigation_award h lid claim sid user s l a b c).0 in
            elim (Bool-cases (j == sid)) [
              | inr other ↦ safe j g (
                  sym (
                    (investigation_effect h lid claim sid user s l a b c).sessions_kept j
                      (ground (arith, other)))
                  ∙ e)
              | inl here ↦
                  let j_is : j ≡ sid = ground (arith, here) in
                  let row : award n a ≡ g =
                    ground (
                      arith,
                      stored,
                      subst (λ k. find? (has_id k) after.sessions ≡ some g) j_is e,
                    ) in
                  subst (λ r. pos 0 ≤ℤ r.defense_budget) row
                    (rw (award-budget n a) (gains a.defense_budget n (safe sid a c.present)))
            ]
      ]

-- If no session's budget is negative, none is after any sequence of purchases and investigations,
-- accepted or refused.
pub play_all-IsSolvent :
    (h : Heuristics) (ms : List Move) (s : Server) → IsSolvent s → IsSolvent (play_all h ms s)
unfolding play_all play
play_all-IsSolvent h [] s safe = safe
play_all-IsSolvent h (purchase sid t ∷ ms) s safe =
    play_all-IsSolvent h ms (process_defense_purchase sid t s).1 (purchase-IsSolvent s safe sid t)
play_all-IsSolvent h (investigate lid claim sid user ∷ ms) s safe =
    play_all-IsSolvent h ms (process_investigation h lid claim sid user s).1
      (investigation-IsSolvent s safe h lid claim sid user)
