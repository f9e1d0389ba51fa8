-- ===== src/Labs/Exercises/Complete.antt =====
-- What a seeding leaves in the lab, and that a second one changes nothing.
use cyber_range.Common.{
  ℕ, ◌≡◌, String, some, List, [], ◌==◌, All, find?, arith, subst, ap, sym, ◌∙◌, Option-cases, inl,
  inr,
}
use cyber_range.Http.{Result, ok, Result-cases}
use cyber_range.Db.{GameSession, Server}
use cyber_range.Labs.{get_session_for_lab, ensure_uuid}
use cyber_range.Labs.Secrets.{exercises_for_lab}
use cyber_range.Labs.Exercises.{rewards, missing_from, seed_flags, drawn, seed_exercise_flags}
use cyber_range.Labs.Exercises.Seeding.{Seeds, seed_flags-Seeds, missing_from-all, IsRegistered}

module _ (hash : String → String) (uuid_hex : ℕ → String) (password_hash : String) (lab : ℕ) where
  abbrev seeding : (String → String) → Server → Result (List (String × String)) × Server
  seeding new_flag = seed_exercise_flags hash uuid_hex password_hash new_flag (some lab)

  -- The session was there, and the loop has added what was missing.
  record HasRun (new_flag : String → String) (created : List (String × String)) (s t : Server)
      : Type 0 where
    session : GameSession
    present : find? (λ g. g.lab_instance_id == lab) s.sessions ≡ some session
    created_is :
        created
        ≡ drawn hash uuid_hex password_hash new_flag
            (missing_from rewards (exercises_for_lab lab s))
    seeds :
        Seeds hash uuid_hex password_hash new_flag lab
          (missing_from rewards (exercises_for_lab lab s))
          s
          t

  seeding-HasRun :
      (new_flag : String → String) (created : List (String × String)) (s t : Server)
      → seeding new_flag s ≡ (ok created, t)
      → HasRun new_flag created s t
  unfolding seed_exercise_flags get_session_for_lab ensure_uuid
  seeding-HasRun new_flag created s t e =
      elim (Option-cases (find? (λ g. g.lab_instance_id == lab) s.sessions)) [
        | inl missing ↦ absurd (ground (arith, e, missing))
        | inr (g, present) ↦
            let es = missing_from rewards (exercises_for_lab lab s) in
            let run = seed_flags hash uuid_hex password_hash new_flag lab g es s in
            elim (Result-cases run.0) [
              | inr (x, failed) ↦ absurd (ground (arith, e, present, failed))
              | inl (u, done) ↦
                  let last : run.1 ≡ t = ground (arith, e, present, done) in
                  record {
                    session = g;
                    present = present;
                    created_is = ground (arith, e, present, done);
                    seeds = subst (Seeds hash uuid_hex password_hash new_flag lab es s) last (
                        seed_flags-Seeds hash uuid_hex password_hash new_flag lab g es s run.1
                          (ap (λ x. (x, run.1)) done));
                  }
            ]
      ]

  -- Each flag that a seeding returns is registered for the lab, as the hash of its text and with
  -- the reward of its exercise, and the lab has all exercises then.
  pub seed_exercise_flags-IsRegistered :
      (new_flag : String → String) (created : List (String × String)) (s t : Server)
      → seeding new_flag s ≡ (ok created, t)
      → All (IsRegistered hash uuid_hex password_hash lab t) created
        × (missing_from rewards (exercises_for_lab lab t) ≡ [])
  seed_exercise_flags-IsRegistered new_flag created s t e =
      let r = seeding-HasRun new_flag created s t e in
      (
        subst (All (IsRegistered hash uuid_hex password_hash lab t)) (sym r.created_is)
            r.seeds.registered,
        ap (missing_from rewards) r.seeds.listed ∙ missing_from-all (exercises_for_lab lab s),
      )

  -- A second seeding creates nothing and changes nothing.
  pub seed_exercise_flags_repeat :
      (new_flag new_flag' : String → String) (created : List (String × String)) (s t : Server)
      → seeding new_flag s ≡ (ok created, t)
      → seeding new_flag' t ≡ (ok [], t)
  unfolding seed_exercise_flags get_session_for_lab ensure_uuid seed_flags
  seed_exercise_flags_repeat new_flag new_flag' created s t e =
      let r = seeding-HasRun new_flag created s t e in
      let full = (seed_exercise_flags-IsRegistered new_flag created s t e).1 in
      let here : find? (λ g. g.lab_instance_id == lab) t.sessions ≡ some r.session =
        ap (find? (λ g. g.lab_instance_id == lab)) r.seeds.sessions ∙ r.present in
      ground (arith, full, here)
