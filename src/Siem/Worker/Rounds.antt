-- ===== src/Siem/Worker/Rounds.antt =====
-- How long the worker sleeps between rounds.
use cyber_range.Common.{◌*◌, ◌^◌, ◌≤◌, ◌≡◌, true, false, List, [], ◌∷◌, All, length, min, arith}
use cyber_range.Siem.Worker.{soc_poll_seconds, Loop, Batch, end_round}

-- The loop's variables after some rounds, the latest first.
pub loop_after : List Batch → Loop
loop_after [] = record { backoff = soc_poll_seconds; llm_down = false }
loop_after (b ∷ bs) = (end_round (loop_after bs) b).loop

backoff-bounds : (bs : List Batch) → (5 ≤ (loop_after bs).backoff) × ((loop_after bs).backoff ≤ 60)
unfolding loop_after end_round
backoff-bounds [] = ground arith
backoff-bounds (b ∷ bs) = ground (arith, backoff-bounds bs)

-- Whatever happened in earlier rounds, the worker sleeps between 5 and 60 seconds.
pub delay-bounds :
    (bs : List Batch) (b : Batch)
    → (5 ≤ (end_round (loop_after bs) b).delay) × ((end_round (loop_after bs) b).delay ≤ 60)
unfolding end_round
delay-bounds bs b = ground (arith, backoff-bounds bs)

backoff-outages :
    (bs : List Batch)
    → All (λ b. b.outage ≡ true) bs
    → (loop_after bs).backoff ≡ min (5 * 2 ^ length bs) 60
unfolding loop_after end_round
backoff-outages [] h = ground arith
backoff-outages (b ∷ bs) h = ground (arith, backoff-outages bs h.1, h.0)

-- After n rounds in a row without the model server, the next such round ends with a sleep of
-- min (5 * 2 ^ n) 60 seconds.
pub outage_delay :
    (bs : List Batch) (b : Batch)
    → All (λ c. c.outage ≡ true) bs
    → b.outage ≡ true
    → (end_round (loop_after bs) b).delay ≡ min (5 * 2 ^ length bs) 60
unfolding end_round
outage_delay bs b h out = ground (arith, backoff-outages bs h, out)
