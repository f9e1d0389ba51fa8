-- ===== src/Tests/Access.antt =====
-- Forged tokens and flags in the sample lab.
use cyber_range.Common.{
  map, List, ◌≡◌, ◌++◌, refl, String, Bool, true, false, some, arith, [], ◌∷◌, if◌then◌else◌,
}
use cyber_range.Common.Text.{show}
use cyber_range.Http.{ok, err, http, invalid_token, invalid_flag}
use cyber_range.Json.{str, Payload, get, get_eq}
use cyber_range.Redis.{Node}
use cyber_range.Siem.{new_event, log_security_event}
use cyber_range.Siem.Forgery.{forgery_payload}
use cyber_range.Auth.{Tokens, claims, refused, invalid, Principal, get_by_id}
use cyber_range.Auth.Vulnerable.{scoped_user, get_current_user_vulnerable, checked_claims}
use cyber_range.Auth.Vulnerable.Boundary.{IsBounded, accepted-IsBounded}
use cyber_range.Auth.Vulnerable.Roles.{strict_mode_role, forged_role_blocked}
use cyber_range.Ctf.{submit_flag}
use cyber_range.Ctf.Submission.{CanCapture}
use cyber_range.Ctf.Scoreboard.{
  board, credit_all, target_of, run_submissions, run_submissions_refine,
}
use cyber_range.Ctf.Scores.{Attempt, NoRepeats, submit_all, submit_all-NoRepeats}
use cyber_range.Tests.Memory.{memory, empty_cells}
use cyber_range.Tests.Rows.{student, session, flag, server}

abbrev scope_claims : Payload
scope_claims = ("sub", str "ann") ∷ ("id", str "11") ∷ ("lab_instance_id", str "7") ∷ []

abbrev outer_claims : String → Payload
outer_claims role = ("role", str role) ∷ ("lab_scope", str "inner") ∷ scope_claims

-- A token whose outer part claims `role`, and whose signature is good or not.
abbrev tokens : String → Bool → Tokens
tokens role signed = record {
  decode_unverified = λ _. claims (outer_claims role);
  decode_verified = λ _. if signed then claims (outer_claims role) else refused invalid;
  decode_strict = λ _. if signed then claims (outer_claims role) else refused invalid;
  decode_scope = λ _. claims scope_claims;
  uuid_text = show;
  parse_uuid = λ _. some 11;
}

abbrev open_lab : Node memory
open_lab = record { server = server; store = empty_cells }

abbrev strict_lab : Node memory
strict_lab = record {
  server = record server { sessions = record session { jwt_filter_enabled = true } ∷ [] };
  store = empty_cells;
}

abbrev forger : Principal
forger = record { sub = "ann"; id = 11; role = some (str "admin"); lab_instance_id = 7 }

abbrev honest : Principal
honest = record { sub = "ann"; id = 11; role = some (str "red_team"); lab_instance_id = 7 }

forged_run :
    (get_current_user_vulnerable memory (tokens "admin" false) (some "t") "10.0.0.1" open_lab).0
    ≡ ok forger
unfolding get_current_user_vulnerable scoped_user checked_claims get_by_id get get_eq show
forged_run = refl

honest_run :
    (get_current_user_vulnerable memory (tokens "red_team" true) (some "t") "10.0.0.1" strict_lab).0
    ≡ ok honest
unfolding get_current_user_vulnerable scoped_user checked_claims get_by_id get get_eq show
honest_run = refl

accepted-IsBounded_example : IsBounded memory (tokens "admin" false) open_lab forger
accepted-IsBounded_example =
    accepted-IsBounded memory (tokens "admin" false) open_lab (some "t") "10.0.0.1" forger
      forged_run

strict_mode_role_example :
    (q : Payload) × (claims (outer_claims "red_team") ≡ claims q)
    × (honest.role ≡ get "role" q)
    × (honest.role ≡ some (str "red_team"))
strict_mode_role_example =
    strict_mode_role memory (tokens "red_team" true) strict_lab "t" "10.0.0.1" honest
      (record session { jwt_filter_enabled = true }) honest_run refl refl

scoped :
    scoped_user memory (tokens "admin" false) (outer_claims "admin") open_lab
    ≡ (ok student, open_lab)
unfolding scoped_user get_by_id get get_eq show
scoped = refl

scoped_strict :
    scoped_user memory (tokens "admin" false) (outer_claims "admin") strict_lab
    ≡ (ok student, strict_lab)
unfolding scoped_user get_by_id get get_eq show
scoped_strict = refl

forged : get_eq (get "role" (outer_claims "admin")) (some (str "red_team")) ≡ false
unfolding get get_eq
forged = refl

forged_role_blocked_example :
    let (res, n') =
      get_current_user_vulnerable memory (tokens "admin" false) (some "t") "10.0.0.1" strict_lab in
    (res ≡ err (http 401 invalid_token))
    × (n'.server.audit_logs
        ≡ strict_lab.server.audit_logs
          ++ new_event strict_lab.server 7 "AUTH_BYPASS_ATTEMPT"
              (forgery_payload (get "role" (outer_claims "admin")) true)
              "10.0.0.1"
            ∷ [])
forged_role_blocked_example =
    forged_role_blocked memory (tokens "admin" false) strict_lab "t" "10.0.0.1"
      (outer_claims "admin") student (record session { jwt_filter_enabled = true }) refl
      scoped_strict refl forged refl refl (λ q e. absurd (cc)) refl

-- A hash that keeps the text stands for SHA-256 here.
abbrev same_text : String → String
same_text t = t

can_capture : CanCapture same_text show 11 7 "flag{x}" server session flag
can_capture = record { present = refl; correct = refl; first = refl }

wrong_flag :
    (submit_flag same_text show (some 11) (some 7) "flag{y}" server).0 ≡ err (http 400 invalid_flag)
unfolding submit_flag log_security_event
wrong_flag = refl

submit_all-NoRepeats_example : NoRepeats (
    submit_all same_text show
      (record { user = 11; lab = 7; text = "flag{x}" }
        ∷ record { user = 11; lab = 7; text = "flag{x}" }
        ∷ [])
      server)
submit_all-NoRepeats_example =
    submit_all-NoRepeats same_text show
      (record { user = 11; lab = 7; text = "flag{x}" }
        ∷ record { user = 11; lab = 7; text = "flag{x}" }
        ∷ [])
      server (λ team flag. omega arith)

abbrev twice : List (Attempt same_text show)
twice =
    record { user = 11; lab = 7; text = "flag{x}" }
    ∷ record { user = 12; lab = 7; text = "flag{x}" }
    ∷ []

run_submissions_refine_example :
    let (replies, t) = run_submissions same_text show twice server in
    let spec = credit_all (map (target_of same_text show server) twice) (board server) in
    (replies ≡ spec.0) × (board t ≡ spec.1)
run_submissions_refine_example = run_submissions_refine same_text show twice server
