-- ===== src/Game.antt =====
-- The economy of a game: any sequence of purchases (backend/app/defense/service.py) and of
-- investigations (backend/app/siem/forensics.py), accepted or refused.
pub mod Closed
pub mod Ledger
pub mod Solvency
use cyber_range.Common.{ℕ, zero, ◌+◌, String, Bool, List, [], ◌∷◌, ◌==◌, if◌then◌else◌}
use cyber_range.Http.{Result, ok, err}
use cyber_range.Db.{Server}
use cyber_range.Defense.{process_defense_purchase}
use cyber_range.Siem.Forensics.{Heuristics, InvestigateResponse, process_investigation}

-- A request: a purchase for a session, or an investigation of an event with a claim, for a
-- session, by a user.
pub data Move : Type 0 where
  purchase : ℕ → String → Move
  investigate : ℕ → Bool → ℕ → ℕ → Move

module _ (h : Heuristics) where
  unfoldable pub play : Move → Server → Server
  play (purchase sid t) s = (process_defense_purchase sid t s).1
  play (investigate lid claim sid user) s = (process_investigation h lid claim sid user s).1

  abbrev pub awarded : Result InvestigateResponse → ℕ
  awarded (ok resp) = resp.credits_awarded
  awarded (err e) = 0

  -- The points that a request reports to a session
  unfoldable pub earned : ℕ → Move → Server → ℕ
  earned sid (purchase j t) s = 0
  earned sid (investigate lid claim j user) s =
      if j == sid then awarded (process_investigation h lid claim j user s).0 else 0

  unfoldable pub play_all : List Move → Server → Server
  play_all [] s = s
  play_all (m ∷ ms) s = play_all ms (play m s)

  unfoldable pub earned_all : ℕ → List Move → Server → ℕ
  earned_all sid [] s = 0
  earned_all sid (m ∷ ms) s = earned sid m s + earned_all sid ms (play m s)
