-- ===== src/Ctf.antt =====
-- Flag submission, backend/app/ctf/service.py and ctf/repository.py. The hash is a parameter.
pub mod Submission
pub mod Scores
pub mod Scoreboard
use cyber_range.Common.{
  ℕ, ◌+◌, String, Bool, Option, none, some, List, [], ◌∷◌, ◌++◌, ◌&&◌, ◌==◌, str_eq, find?, any,
  if◌then◌else◌,
}
use cyber_range.Common.Int.{pos}
use cyber_range.Http.{
  Action, pure, raise, gets, modify, or_raise, raise_if, http, invalid_payload, session_not_found,
  invalid_flag, already_captured, ◌>>=◌, ◌>>◌,
}
use cyber_range.Json.{str, num, Payload}
use cyber_range.Db.{CtfFlag, CtfSubmission, GameSession, Server}
use cyber_range.Labs.{get_session_for_lab}
use cyber_range.Siem.{log_security_event}
use cyber_range.Auth.{Principal}

-- The `where` of `get_flag_by_value`: the hash, in its owning lab
abbrev pub is_flag : String → ℕ → CtfFlag → Bool
is_flag hash lab f = str_eq f.flag_value hash && f.lab_id == lab

unfoldable pub get_flag_by_value : String → ℕ → Server → Option CtfFlag
get_flag_by_value hash lab s = find? (is_flag hash lab) s.flags

-- The `where` of `has_team_submitted_flag`
abbrev pub is_capture : ℕ → ℕ → CtfSubmission → Bool
is_capture team flag c = c.team_id == team && c.flag_id == flag

unfoldable pub has_team_submitted_flag : ℕ → ℕ → Server → Bool
has_team_submitted_flag team flag s = any (is_capture team flag) s.submissions

-- `CtfRepository.submit_flag`
unfoldable pub add_submission : ℕ → ℕ → ℕ → Server → Server
add_submission team flag lab s = record s {
  submissions =
      s.submissions
      ++ record { id = s.next_id; team_id = team; flag_id = flag; lab_instance_id = lab } ∷ [];
  next_id = s.next_id + 1;
}

-- `CtfRepository.add_flag`: `RETURNING id` gives the new row's id.
unfoldable pub add_flag : String → ℕ → ℕ → Server → CtfFlag × Server
add_flag hash reward lab s =
    let f : CtfFlag = record { id = s.next_id; flag_value = hash; reward = reward; lab_id = lab } in
    (f, record s { flags = s.flags ++ f ∷ []; next_id = s.next_id + 1 })

pub record SubmitResponse : Type 0 where
  pub captured : CtfFlag
  pub reward : ℕ

abbrev captured_payload : (ℕ → String) → CtfFlag → ℕ → Payload
captured_payload uuid_text flag user_id =
    ("flag_id", num (pos flag.id))
    ∷ ("reward", num (pos flag.reward))
    ∷ ("submitted_by", str (uuid_text user_id))
    ∷ []

-- `hash_ctf_flag` is SHA-256 in hexadecimal, and `uuid_text` is `str` of a UUID.
module _ (hash_ctf_flag : String → String) (uuid_text : ℕ → String) where
  -- `register_flag` stores only the hash.
  unfoldable pub register_flag : ℕ → String → ℕ → Server → CtfFlag × Server
  unfolding add_flag
  register_flag lab flag_value reward = add_flag (hash_ctf_flag flag_value) reward lab

  -- `if not flag:` the failure is logged and answered with 400.
  abbrev known_flag : ℕ → String → Option CtfFlag → Action Server CtfFlag
  known_flag lab flag_value (some flag) = pure flag
  known_flag lab flag_value none =
      log_security_event lab "CTF_SUBMIT_FAILED" (("attempted_flag", str flag_value) ∷ [])
        "CTF_ENGINE"
      >> raise (http 400 invalid_flag)

  unfoldable pub submit_flag : Option ℕ → Option ℕ → String → Action Server SubmitResponse
  unfolding get_session_for_lab get_flag_by_value has_team_submitted_flag
  submit_flag user_id lab_instance_id flag_value = do
    user ← or_raise user_id (http 401 invalid_payload)
    lab ← or_raise lab_instance_id (http 401 invalid_payload)
    found ← get_session_for_lab lab
    game_session ← or_raise found (http 404 session_not_found)
    candidate ← gets (get_flag_by_value (hash_ctf_flag flag_value) lab)
    flag ← known_flag lab flag_value candidate
    already_submitted ← gets (has_team_submitted_flag game_session.team_id flag.id)
    raise_if already_submitted (http 400 already_captured)
    modify (add_submission game_session.team_id flag.id lab)
    log_security_event lab "CTF_FLAG_CAPTURED" (captured_payload uuid_text flag user) "CTF_ENGINE"
    pure (record { captured = flag; reward = flag.reward })
