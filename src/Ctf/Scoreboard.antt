-- ===== src/Ctf/Scoreboard.antt =====
-- Submissions refine a scoreboard that knows only which team has captured which flag.
use cyber_range.Common.{
  ℕ, ◌≡◌, ◌∙◌, String, Bool, true, false, Option, none, some, List, [], ◌∷◌, ◌++◌, ◌==◌, ◌&&◌, map,
  inl, inr, find?, any, any-append, arith, refl, ap, Option-cases, Bool-cases, if◌then◌else◌,
}
use mathlib.Core.Path.{fun_ext}
use cyber_range.Json.{str, Payload}
use cyber_range.Siem.Events.{log_security_event-Appends, log_security_event-ok}
use cyber_range.Db.{CtfSubmission}
use cyber_range.Http.{Result, ok, err}
use cyber_range.Db.{CtfFlag, GameSession, Server}
use cyber_range.Ctf.{is_flag, is_capture, submit_flag}
use cyber_range.Ctf.Submission.{capture_effect}
use cyber_range.Ctf.Scores.{Attempt}

-- Which team has which flag
abbrev pub Board : Type 0
Board = ℕ → ℕ → Bool

-- A submission that names no flag of the lab, or the team and the flag that it names
abbrev pub Target : Type 0
Target = Option (ℕ × ℕ)

abbrev mark : ℕ → ℕ → Board → Board
mark team flag b t f = if b t f then true else team == t && flag == f

-- The specification of one submission: whether it is credited, and the board then
abbrev pub credit : Target → Board → Bool × Board
credit none b = (false, b)
credit (some (team, flag)) b = if b team flag then (false, b) else (true, mark team flag b)

unfoldable pub credit_all : List Target → Board → List Bool × Board
credit_all [] b = ([], b)
credit_all (t ∷ ts) b = let rest = credit_all ts (credit t b).1 in ((credit t b).0 ∷ rest.0, rest.1)

unfoldable pub board : Server → Board
board s team flag = any (is_capture team flag) s.submissions

abbrev pub is_credited : {A : Type 0} → Result A → Bool
is_credited (ok a) = true
is_credited (err e) = false

module _ (hash : String → String) (uuid_text : ℕ → String) where
  abbrev flag_of : GameSession → Option CtfFlag → Target
  flag_of g none = none
  flag_of g (some f) = some (g.team_id, f.id)

  abbrev session_of : Attempt hash uuid_text → Server → Option GameSession → Target
  session_of a s none = none
  session_of a s (some g) = flag_of g (find? (is_flag (hash a.text) a.lab) s.flags)

  -- What an attempt names, by the tables of sessions and flags
  unfoldable pub target_of : Server → Attempt hash uuid_text → Target
  target_of s a = session_of a s (find? (λ g. g.lab_instance_id == a.lab) s.sessions)

  unfoldable pub run_submissions : List (Attempt hash uuid_text) → Server → List Bool × Server
  run_submissions [] s = ([], s)
  run_submissions (a ∷ r) s =
      let (res, s') = submit_flag hash uuid_text (some a.user) (some a.lab) a.text s in
      let rest = run_submissions r s' in (is_credited res ∷ rest.0, rest.1)

  -- One submission against the specification
  record Refines (a : Attempt hash uuid_text) (s : Server) : Type 0 where
    reply :
        is_credited (submit_flag hash uuid_text (some a.user) (some a.lab) a.text s).0
        ≡ (credit (target_of s a) (board s)).0
    after :
        board (submit_flag hash uuid_text (some a.user) (some a.lab) a.text s).1
        ≡ (credit (target_of s a) (board s)).1
    flags : (submit_flag hash uuid_text (some a.user) (some a.lab) a.text s).1.flags ≡ s.flags
    sessions :
        (submit_flag hash uuid_text (some a.user) (some a.lab) a.text s).1.sessions ≡ s.sessions

  board-same : (s t : Server) → t.submissions ≡ s.submissions → board t ≡ board s
  unfolding board
  board-same s t e = ap (λ rows team flag. any (is_capture team flag) rows) e

  board-marked :
      (s t : Server) (c : CtfSubmission)
      → t.submissions ≡ s.submissions ++ c ∷ []
      → board t ≡ mark c.team_id c.flag_id (board s)
  unfolding board
  board-marked s t c e = fun_ext (λ team.
      fun_ext
        (λ flag. rw e (ground (arith, any-append (is_capture team flag) s.submissions (c ∷ [])))))

  board-any :
      (s : Server) (team flag : ℕ) → any (is_capture team flag) s.submissions ≡ board s team flag
  unfolding board
  board-any s team flag = refl

  submit-Refines : (a : Attempt hash uuid_text) (s : Server) → Refines a s
  unfolding target_of submit_flag
  submit-Refines a s = elim (Option-cases (find? (λ g. g.lab_instance_id == a.lab) s.sessions)) [
    | inl missing ↦ record {
      reply = ground (arith, missing);
      after = ground (arith, missing);
      flags = ground (arith, missing);
      sessions = ground (arith, missing);
    }
    | inr (g, present) ↦ elim (Option-cases (find? (is_flag (hash a.text) a.lab) s.flags)) [
      | inl wrong ↦
          let payload : Payload = ("attempted_flag", str a.text) ∷ [] in
          let said = log_security_event-ok a.lab "CTF_SUBMIT_FAILED" payload "CTF_ENGINE" s in
          let kept = log_security_event-Appends a.lab "CTF_SUBMIT_FAILED" payload "CTF_ENGINE" s in
          record {
            reply = ground (arith, present, wrong, said);
            after =
                board-same s _ (ground (arith, present, wrong, said, kept.same_submissions))
                ∙ ground (arith, present, wrong);
            flags = ground (arith, present, wrong, said, kept.same_flags);
            sessions = ground (arith, present, wrong, said, kept.same_sessions);
          }
      | inr (f, correct) ↦ elim (Bool-cases (any (is_capture g.team_id f.id) s.submissions)) [
        | inl again ↦ record {
          reply = ground (arith, present, correct, again, board-any s g.team_id f.id);
          after =
              board-same s _ (ground (arith, present, correct, again))
              ∙ ground (arith, present, correct, again, board-any s g.team_id f.id);
          flags = ground (arith, present, correct, again);
          sessions = ground (arith, present, correct, again);
        }
        | inr first ↦
            let (done, stored, same_flags, same_sessions) =
              capture_effect hash uuid_text a.user a.lab a.text s g f
                (record { present = present; correct = correct; first = first }) in
            record {
              reply = ground (arith, present, correct, first, done, board-any s g.team_id f.id);
              after =
                  board-marked s _ _ stored
                  ∙ ground (arith, present, correct, first, board-any s g.team_id f.id);
              flags = same_flags;
              sessions = same_sessions;
            }
      ]
    ]
  ]

  target_of-same :
      (s t : Server) (a : Attempt hash uuid_text)
      → t.flags ≡ s.flags
      → t.sessions ≡ s.sessions
      → target_of t a ≡ target_of s a
  unfolding target_of
  target_of-same s t a f g = rw (f, g) refl

  targets-same :
      (s t : Server) (as' : List (Attempt hash uuid_text))
      → t.flags ≡ s.flags
      → t.sessions ≡ s.sessions
      → map (target_of t) as' ≡ map (target_of s) as'
  targets-same s t [] f g = refl
  targets-same s t (a ∷ r) f g = rw (target_of-same s t a f g, targets-same s t r f g) refl

  -- Any sequence of submissions, by any players of any labs, answers and leaves the captures that
  -- the scoreboard gives, with the flags and sessions of the start.
  pub run_submissions_refine :
      (as' : List (Attempt hash uuid_text)) (s : Server)
      → let (replies, t) = run_submissions as' s in
        let spec = credit_all (map (target_of s) as') (board s) in
        (replies ≡ spec.0) × (board t ≡ spec.1)
  unfolding run_submissions credit_all
  run_submissions_refine [] s = (refl, refl)
  run_submissions_refine (a ∷ r) s =
      let step = submit-Refines a s in
      let t = (submit_flag hash uuid_text (some a.user) (some a.lab) a.text s).1 in
      let rest = run_submissions_refine r t in
      let same = targets-same s t r step.flags step.sessions in
      let moved : credit_all (map (target_of t) r) (board t)
          ≡ credit_all (map (target_of s) r) (credit (target_of s a) (board s)).1 =
        rw (same, step.after) refl in
      (
        ap (λ c. c ∷ (run_submissions r t).0) step.reply
            ∙ ap (λ l. (credit (target_of s a) (board s)).0 ∷ l) (rest.0 ∙ ap (λ x. x.0) moved),
        rest.1 ∙ ap (λ x. x.1) moved,
      )
