-- ===== src/Tests/Game.antt =====
-- Purchases and investigations in the sample lab.
use cyber_range.Common.{◌∷◌, [], ◌≡◌, refl, true, false, arith}
use cyber_range.Http.{err, http, Returns, already_active, already_investigated, log_not_found}
use cyber_range.Json.{get}
use cyber_range.Defense.{process_defense_purchase, price_of, already_owned}
use cyber_range.Defense.Purchase.{CanBuy, IsBought, purchase_effect}
use cyber_range.Siem.Forensics.{process_investigation, predict_is_malicious}
use cyber_range.Siem.Investigation.{CanClose, IsClosed, investigation_effect}
use cyber_range.Game.{purchase, investigate, play_all}
use cyber_range.Game.Closed.{investigation_once}
use cyber_range.Tests.Rows.{session, event, server, heuristics}

can_buy : CanBuy 1 "reranker" server 4 session
unfolding price_of already_owned
can_buy = record { priced = refl; present = refl; missing = refl; covered = omega arith }

purchase_effect_example : IsBought 1 "reranker" server 4 session
purchase_effect_example = purchase_effect 1 "reranker" server 4 session can_buy

bought : Returns (process_defense_purchase 1 "reranker" server)
bought = let b = purchase_effect 1 "reranker" server 4 session can_buy in (b.response, b.succeeds)

rate_limit_again :
    (process_defense_purchase 1 "rate_limit" server).0 ≡ err (http 400 already_active)
unfolding process_defense_purchase price_of already_owned
rate_limit_again = refl

can_close : CanClose heuristics 3 1 server event session true
unfolding predict_is_malicious get
can_close = record { listed = refl; pending = refl; present = refl; same_lab = refl; judged = refl }

investigation_effect_example : IsClosed heuristics 3 true 1 12 server event session true
investigation_effect_example =
    investigation_effect heuristics 3 true 1 12 server event session true can_close

closed : Returns (process_investigation heuristics 3 true 1 12 server)
closed =
    let c = investigation_effect heuristics 3 true 1 12 server event session true can_close in
    (c.response, c.succeeds)

investigation_once_example :
    let s' =
      play_all heuristics
        (purchase 1 "reranker" ∷ investigate 3 true 1 11 ∷ [])
        (process_investigation heuristics 3 true 1 12 server).1 in
    process_investigation heuristics 3 false 2 13 s' ≡ (err (http 400 already_investigated), s')
investigation_once_example =
    investigation_once heuristics 3 true 1 12 server
      (purchase 1 "reranker" ∷ investigate 3 true 1 11 ∷ []) false 2 13 closed

no_event : (process_investigation heuristics 9 true 1 12 server).0 ≡ err (http 404 log_not_found)
unfolding process_investigation
no_event = refl
