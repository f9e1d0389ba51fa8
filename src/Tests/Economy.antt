-- ===== src/Tests/Economy.antt =====
-- A history of the sample lab: a purchase, an investigation, and the same purchase again.
use cyber_range.Common.{refl, arith, true, List, [], ◌∷◌}
use cyber_range.Common.Int.{pos, ◌+ℤ◌}
use cyber_range.Defense.Ownership.{owned_value}
use cyber_range.Game.{Move, purchase, investigate, play_all, earned_all}
use cyber_range.Game.Ledger.{IsWorth, play_all-IsWorth}
use cyber_range.Game.Solvency.{IsSolvent, play_all-IsSolvent}
use cyber_range.Tests.Rows.{session, server, heuristics}

abbrev history : List Move
history = purchase 1 "reranker" ∷ investigate 3 true 1 11 ∷ purchase 1 "reranker" ∷ []

ten_points : IsWorth 1 server (pos 10)
unfolding owned_value ◌+ℤ◌
ten_points = record { row = session; found = refl; worth = refl }

play_all-IsWorth_example :
    IsWorth 1
      (play_all heuristics history server)
      (pos 10 +ℤ pos (earned_all heuristics 1 history server))
play_all-IsWorth_example = play_all-IsWorth heuristics 1 history server (pos 10) ten_points

five_points : IsSolvent server
five_points j g e = ground (arith, e)

play_all-IsSolvent_example : IsSolvent (play_all heuristics history server)
play_all-IsSolvent_example = play_all-IsSolvent heuristics history server five_points
