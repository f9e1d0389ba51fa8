-- ===== src/Game/Closed.antt =====
-- An event's investigation is closed for the rest of a game.
use cyber_range.Common.{ℕ, ◌≡◌, Bool, String, List, [], ◌∷◌, arith}
use cyber_range.Http.{err, http, already_investigated, Returns}
use cyber_range.Db.{Server}
use cyber_range.Defense.{process_defense_purchase}
use cyber_range.Siem.Forensics.{Heuristics, process_investigation}
use cyber_range.Siem.Investigation.{investigation_effect, investigation_needs}
use cyber_range.Siem.Worker.Verdicts.{KeepsClosed, kept, both, investigation-KeepsClosed}
use cyber_range.Game.{Move, purchase, investigate, play, play_all}

purchase-logs :
    (sid : ℕ) (t : String) (s : Server)
    → (process_defense_purchase sid t s).1.audit_logs ≡ s.audit_logs
unfolding process_defense_purchase
purchase-logs sid t s = ground arith

play-KeepsClosed : (h : Heuristics) (m : Move) (s : Server) → KeepsClosed s (play h m s)
unfolding play
play-KeepsClosed h (purchase sid t) s = record { same = λ j l e c. rw (purchase-logs sid t s) e }
play-KeepsClosed h (investigate lid claim sid user) s =
    investigation-KeepsClosed h lid claim sid user s

play_all-KeepsClosed :
    (h : Heuristics) (ms : List Move) (s : Server) → KeepsClosed s (play_all h ms s)
unfolding play_all
play_all-KeepsClosed h [] s = kept
play_all-KeepsClosed h (m ∷ ms) s =
    both (play-KeepsClosed h m s) (play_all-KeepsClosed h ms (play h m s))

-- After a successful investigation of an event and any further purchases and investigations, by
-- anyone, another investigation of that event, with any claim, session and user, is refused with
-- 400 and leaves the state as it is.
pub investigation_once :
    (h : Heuristics) (lid : ℕ) (claim : Bool) (sid user : ℕ) (s : Server) (between : List Move)
    (again : Bool) (sid' user' : ℕ)
    → Returns (process_investigation h lid claim sid user s)
    → let s' = play_all h between (process_investigation h lid claim sid user s).1 in
      process_investigation h lid again sid' user' s' ≡ (err (http 400 already_investigated), s')
unfolding process_investigation
investigation_once h lid claim sid user s between again sid' user' r =
    let (l, g, b, c) = investigation_needs h lid claim sid user s r in
    let first = investigation_effect h lid claim sid user s l g b c in
    let stays = play_all-KeepsClosed h between (process_investigation h lid claim sid user s).1 in
    ground (arith, stays.same lid first.log first.logged (ground (arith, first.at)), first.at)
