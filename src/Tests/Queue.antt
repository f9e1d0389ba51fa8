-- ===== src/Tests/Queue.antt =====
-- One chat turn is served while another call waits.
use cyber_range.Common.{refl, none, some}
use cyber_range.LlmQueue.{
  LlmQueue, chat, take_ticket, end_wait, Steps, here, next, arrived, served, initial,
}
use cyber_range.LlmQueue.Turns.{
  IsBalanced, IsServing, IsDrained, Steps-IsBalanced, Steps-IsServing, Steps-IsDrained,
}

abbrev entered : LlmQueue
entered = record { tickets = 1; gpu_lock = none }

abbrev serving : LlmQueue
serving = record { tickets = 1; gpu_lock = some chat }

abbrev busy : LlmQueue
busy = record { tickets = 2; gpu_lock = some chat }

busy_path : Steps initial 0 busy 1
unfolding take_ticket end_wait
busy_path =
    next (next (next here (arrived initial 0 refl)) (served entered 0 refl))
      (arrived serving 0 refl)

Steps-IsBalanced_example : IsBalanced busy 1
Steps-IsBalanced_example = Steps-IsBalanced busy_path

Steps-IsServing_example : IsServing busy 1
Steps-IsServing_example = Steps-IsServing busy_path

Steps-IsDrained_example : IsDrained busy 1
Steps-IsDrained_example = Steps-IsDrained busy_path
