-- ===== src/Tests/Limits.antt =====
-- The limits at a Redis in memory.
use cyber_range.Common.{◌≡◌, ◌+◌, refl, false, none, some, arith, length, min, ltb, if◌then◌else◌}
use cyber_range.Http.{ok, err, http, too_many_requests}
use cyber_range.Redis.{Node, rate_limit}
use cyber_range.Defense.Limits.{enforce_rate_limit}
use cyber_range.Defense.Limits.Attempts.{attempts, events, attempts_limited}
use cyber_range.Defense.Limits.Rate.{enforce_rate_limit_running, enforce_rate_limit_unexpiring}
use cyber_range.Tests.Memory.{memory, empty_cells}
use cyber_range.Tests.Rows.{session, server}

abbrev fresh : Node memory
fresh = record { server = server; store = empty_cells }

abbrev busy : Node memory
busy = record { server = server; store = λ _. (60, some 12) }

abbrev broken : Node memory
broken = record { server = record server { audit_up = false }; store = empty_cells }

attempts_limited_example :
    ((attempts memory 7 "10.0.0.1" 12 fresh).0 ≡ min 12 10)
    × (events memory 7 "10.0.0.1" (attempts memory 7 "10.0.0.1" 12 fresh).1
        ≡ events memory 7 "10.0.0.1" fresh + (if ltb 10 12 then 1 else 0))
attempts_limited_example = attempts_limited memory 7 "10.0.0.1" 12 fresh refl refl (λ st. cc)

enforce_rate_limit_running_example :
    let (res, n') = enforce_rate_limit memory (some 1) "1" "10.0.0.1" busy in
    ((n'.store (rate_limit "1" "10.0.0.1")).0 ≡ 60 + 1)
    × (res ≡ (if ltb 60 60 then ok tt else err (http 429 too_many_requests)))
    × (length n'.server.audit_logs ≡ length busy.server.audit_logs + (if ltb 60 60 then 0 else 1))
enforce_rate_limit_running_example =
    enforce_rate_limit_running memory 1 "1" "10.0.0.1" busy session refl refl (cc) refl
      (omega arith)

-- a counter whose EXPIRE never came
abbrev stuck : Node memory
stuck = record { server = server; store = λ _. (70, none) }

enforce_rate_limit_unexpiring_example :
    let n' = (enforce_rate_limit memory (some 1) "1" "10.0.0.1" stuck).1 in
    ((n'.store (rate_limit "1" "10.0.0.1")).0 ≡ 70 + 1)
    × ((n'.store (rate_limit "1" "10.0.0.1")).1 ≡ none)
enforce_rate_limit_unexpiring_example =
    enforce_rate_limit_unexpiring memory 1 "1" "10.0.0.1" stuck session refl refl (cc) (omega arith)
