-- ===== src/Game/Ledger.antt =====
-- No points appear or disappear: they are awarded, and spent on what is owned.
use cyber_range.Common.{
  ℕ, ◌+◌, ◌≡◌, ◌==◌, ◌∙◌, String, Bool, false, some, List, [], ◌∷◌, arith, refl, ap, subst, find?,
  Bool-cases, inl, inr,
}
use cyber_range.Common.Int.{ℤ, pos, ◌+ℤ◌, ◌-ℤ◌, int_laws}
use cyber_range.Http.{Result-cases}
use cyber_range.Db.{GameSession, Server}
use cyber_range.Db.Tables.{has_id}
use cyber_range.Defense.{process_defense_purchase, price_of, already_owned, charge_and_activate}
use cyber_range.Defense.Ownership.{
  owned_value, owned_value-activate, owned_value-budget, already_owned-budget,
}
use cyber_range.Defense.Purchase.{
  purchase_needs, purchase_effect, purchase_refused, bought_row-keys, stored_row,
}
use cyber_range.Siem.Forensics.{Heuristics, process_investigation, award, credits, judge}
use cyber_range.Siem.Investigation.{
  investigation_needs, investigation_effect, investigation_refused, investigation_award,
}
use cyber_range.Game.{Move, purchase, investigate, play, earned, play_all, earned_all}

-- The session has a row whose budget and owned defenses are together worth `w` points.
pub record IsWorth (sid : ℕ) (s : Server) (w : ℤ) : Type 0 where
  pub row : GameSession
  pub found : find? (has_id sid) s.sessions ≡ some row
  pub worth : row.defense_budget +ℤ pos (owned_value row) ≡ w

bought_row-value :
    (t : String) (p : ℕ) (g : GameSession)
    → price_of t ≡ some p
    → already_owned t g ≡ false
    → owned_value (charge_and_activate t p g) ≡ owned_value g + p
unfolding charge_and_activate
bought_row-value t p g priced missing =
    owned_value-activate t p _ priced
      (already_owned-budget t (g.defense_budget -ℤ pos p) g ∙ missing)
    ∙ ap (λ n. n + p) (owned_value-budget (g.defense_budget -ℤ pos p) g)

awarded_row-value : (n : ℕ) (g : GameSession) → owned_value (award n g) ≡ owned_value g
unfolding award
awarded_row-value n g = owned_value-budget (g.defense_budget +ℤ pos n) g

pub award-budget :
    (n : ℕ) (g : GameSession) → (award n g).defense_budget ≡ g.defense_budget +ℤ pos n
unfolding award
award-budget n g = refl

spend : (b : ℤ) (o p : ℕ) → (b -ℤ pos p) +ℤ pos (o + p) ≡ (b +ℤ pos o) +ℤ pos 0
spend b o p = grind int_laws

earn : (b : ℤ) (o n : ℕ) → (b +ℤ pos n) +ℤ pos o ≡ (b +ℤ pos o) +ℤ pos n
earn b o n = grind int_laws

module _ (sid : ℕ) (s s' : Server) (w : ℤ) (now : IsWorth sid s w) where
  -- The row is not touched.
  untouched :
      find? (has_id sid) s'.sessions ≡ find? (has_id sid) s.sessions → IsWorth sid s' (w +ℤ pos 0)
  untouched e = record { row = now.row; found = e ∙ now.found; worth = now.worth ∙ no_points w }
    where
      no_points : (w : ℤ) → w ≡ w +ℤ pos 0
      no_points w = grind int_laws

  -- The row is replaced by one that is worth `n` points more.
  replaced :
      (g row : GameSession) (n : ℕ)
      → find? (has_id sid) s.sessions ≡ some g
      → find? (has_id sid) s'.sessions ≡ some row
      → row.defense_budget +ℤ pos (owned_value row)
        ≡ (g.defense_budget +ℤ pos (owned_value g)) +ℤ pos n
      → IsWorth sid s' (w +ℤ pos n)
  replaced g row n old new e = record {
    row = row;
    found = new;
    worth =
        e
        ∙ ap (λ v. v +ℤ pos n)
            (subst (λ r. r.defense_budget +ℤ pos (owned_value r) ≡ w) same now.worth);
  }
    where
      same : now.row ≡ g
      same = ground (arith, now.found, old)

module _ (sid : ℕ) (s : Server) (w : ℤ) (now : IsWorth sid s w) where
  purchase-IsWorth :
      (j : ℕ) (t : String) → IsWorth sid (process_defense_purchase j t s).1 (w +ℤ pos 0)
  purchase-IsWorth j t = elim (Result-cases (process_defense_purchase j t s).0) [
    | inr (e, refused) ↦
        let same = (purchase_refused j t s e refused).0 in
        untouched sid s (process_defense_purchase j t s).1 w now
          (ap (λ z. find? (has_id sid) z.sessions) same)
    | inl (resp, done) ↦
        let (p, g, c) = purchase_needs j t s (resp, done) in
        elim (Bool-cases (j == sid)) [
          | inr other ↦
              untouched sid s (process_defense_purchase j t s).1 w now
                ((purchase_effect j t s p g c).sessions_kept sid (ground (arith, other)))
          | inl here ↦
              let j_is : j ≡ sid = ground (arith, here) in
              replaced sid s (process_defense_purchase j t s).1 w now g (charge_and_activate t p g)
                0 (subst (λ k. find? (has_id k) s.sessions ≡ some g) j_is c.present)
                (subst
                  (λ k.
                    find? (has_id k) (process_defense_purchase j t s).1.sessions
                    ≡ some (charge_and_activate t p g))
                  j_is (stored_row j t s p g c))
                (bought_worth t p g c.priced c.missing)
        ]
  ]
    where
      bought_worth :
          (t : String) (p : ℕ) (g : GameSession)
          → price_of t ≡ some p
          → already_owned t g ≡ false
          → (charge_and_activate t p g).defense_budget
              +ℤ pos (owned_value (charge_and_activate t p g))
            ≡ (g.defense_budget +ℤ pos (owned_value g)) +ℤ pos 0
      bought_worth t p g priced missing =
          rw (bought_row-value t p g priced missing, (bought_row-keys t p g).1)
            (spend g.defense_budget (owned_value g) p)

  investigation-IsWorth :
      (h : Heuristics) (lid : ℕ) (claim : Bool) (j user : ℕ)
      → IsWorth sid
          (process_investigation h lid claim j user s).1
          (w +ℤ pos (earned h sid (investigate lid claim j user) s))
  unfolding earned
  investigation-IsWorth h lid claim j user =
      let after = (process_investigation h lid claim j user s).1 in
      elim (Result-cases (process_investigation h lid claim j user s).0) [
        | inr (e, refused) ↦
            subst (λ n. IsWorth sid after (w +ℤ pos n)) (ground (arith, refused))
              (untouched sid s after w now (
                ap (λ z. find? (has_id sid) z.sessions)
                  (investigation_refused h lid claim j user s e refused)))
        | inl (resp, done) ↦
            let (l, g, b, c) = investigation_needs h lid claim j user s (resp, done) in
            let n = credits (judge claim b) in
            let (stored, answer) = investigation_award h lid claim j user s l g b c in
            elim (Bool-cases (j == sid)) [
              | inr other ↦
                  subst (λ n. IsWorth sid after (w +ℤ pos n)) (ground (arith, other))
                    (untouched sid s after w now (
                      (investigation_effect h lid claim j user s l g b c).sessions_kept sid
                        (ground (arith, other))))
              | inl here ↦
                  let j_is : j ≡ sid = ground (arith, here) in
                  subst (λ n. IsWorth sid after (w +ℤ pos n)) (ground (arith, here, answer))
                    (replaced sid s after w now g (award n g) n
                      (subst (λ k. find? (has_id k) s.sessions ≡ some g) j_is c.present)
                      (subst (λ k. find? (has_id k) after.sessions ≡ some (award n g)) j_is stored)
                      (awarded_worth n g))
            ]
      ]
    where
      awarded_worth :
          (n : ℕ) (g : GameSession)
          → (award n g).defense_budget +ℤ pos (owned_value (award n g))
            ≡ (g.defense_budget +ℤ pos (owned_value g)) +ℤ pos n
      awarded_worth n g =
          rw (awarded_row-value n g, award-budget n g) (earn g.defense_budget (owned_value g) n)

-- Each request, accepted or refused, changes the worth of a session by the points it reports.
play-IsWorth :
    (h : Heuristics) (sid : ℕ) (m : Move) (s : Server) (w : ℤ)
    → IsWorth sid s w
    → IsWorth sid (play h m s) (w +ℤ pos (earned h sid m s))
unfolding play earned
play-IsWorth h sid (purchase j t) s w now = purchase-IsWorth sid s w now j t
play-IsWorth h sid (investigate lid claim j user) s w now =
    investigation-IsWorth sid s w now h lid claim j user

add_earned : (w : ℤ) (m n : ℕ) → (w +ℤ pos m) +ℤ pos n ≡ w +ℤ pos (m + n)
add_earned w m n = grind int_laws

-- After any sequence of purchases and investigations, accepted or refused, a session's budget and
-- the prices of what it owns are together what they were, plus the points it was awarded.
pub play_all-IsWorth :
    (h : Heuristics) (sid : ℕ) (ms : List Move) (s : Server) (w : ℤ)
    → IsWorth sid s w
    → IsWorth sid (play_all h ms s) (w +ℤ pos (earned_all h sid ms s))
unfolding play_all earned_all
play_all-IsWorth h sid [] s w now = untouched sid s s w now refl
play_all-IsWorth h sid (m ∷ ms) s w now =
    subst (IsWorth sid (play_all h ms (play h m s)))
      (add_earned w (earned h sid m s) (earned_all h sid ms (play h m s)))
      (play_all-IsWorth h sid ms (play h m s) (w +ℤ pos (earned h sid m s))
        (play-IsWorth h sid m s w now))
