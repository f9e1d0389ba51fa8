-- ===== src/Tests/Seeding.antt =====
-- A seeding of the sample lab, whose flags are not seeded yet.
use cyber_range.Common.{ℕ, ◌≡◌, String, some, List, [], ◌∷◌, All, refl}
use cyber_range.Http.{ok}
use cyber_range.Db.{Server}
use cyber_range.Labs.{get_session_for_lab, ensure_uuid}
use cyber_range.Labs.Secrets.{exercises_for_lab, add_secret}
use cyber_range.Auth.{get_by_username}
use cyber_range.Ctf.{register_flag, add_flag}
use cyber_range.Chat.Threads.{add_seeded_thread}
use cyber_range.Labs.Exercises.{
  rewards, missing_from, get_or_create_hidden_user, seed_conversation, seed_flag, seed_flags,
  seed_exercise_flags,
}
use cyber_range.Labs.Exercises.Seeding.{IsRegistered}
use cyber_range.Labs.Exercises.Complete.{
  seed_exercise_flags-IsRegistered, seed_exercise_flags_repeat,
}
use cyber_range.Tests.Rows.{server}

abbrev hash : String → String
hash t = t

abbrev hex : ℕ → String
hex lab = "07"

abbrev draw : String → String
draw exercise = exercise

abbrev created : List (String × String)
created = ("EX-03", "EX-03") ∷ ("EX-04", "EX-04") ∷ ("EX-05", "EX-05") ∷ []

abbrev seeded : Server
seeded = (seed_exercise_flags hash hex "h" draw (some 7) server).1

ran : seed_exercise_flags hash hex "h" draw (some 7) server ≡ (ok created, seeded)
unfolding seed_exercise_flags ensure_uuid get_session_for_lab exercises_for_lab missing_from
    seed_flags seed_flag register_flag add_flag add_secret seed_conversation
    get_or_create_hidden_user get_by_username add_seeded_thread
ran = refl

seed_exercise_flags-IsRegistered_example :
    All (IsRegistered hash hex "h" 7 seeded) created
    × (missing_from rewards (exercises_for_lab 7 seeded) ≡ [])
seed_exercise_flags-IsRegistered_example =
    seed_exercise_flags-IsRegistered hash hex "h" 7 draw created server seeded ran

seed_exercise_flags_repeat_example :
    seed_exercise_flags hash hex "h" hash (some 7) seeded ≡ (ok [], seeded)
seed_exercise_flags_repeat_example =
    seed_exercise_flags_repeat hash hex "h" 7 draw hash created server seeded ran
