-- ===== src/Tests/Outage.antt =====
-- A cycle of three exceptions, one of which is a network error.
use cyber_range.Common.{Bool, none, some, arith, ◌==◌, if◌then◌else◌}
use cyber_range.Siem.Worker.Outage.{Exceptions, next_error}
use cyber_range.Siem.Worker.Outage.Decides.{Decides, IsHeap, is_connection_error-Decides}

abbrev cycle : Exceptions
cycle = record {
  is_network = λ e. e == 2;
  cause = λ e. if e == 0 then some 1 else none;
  context = λ e. if e == 1 then some 2 else some 0;
}

cycle-IsHeap : IsHeap cycle 3
unfolding next_error
cycle-IsHeap e c h q = ground (arith, q)

is_connection_error-Decides_example : (b : Bool) × Decides cycle 3 0 b
is_connection_error-Decides_example =
    is_connection_error-Decides cycle 3 0 cycle-IsHeap (omega arith)
