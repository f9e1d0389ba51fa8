-- ===== src/Auth/Login.antt =====
-- Logging in: `authenticate` and `create_access_token` of backend/app/auth/service.py, and the
-- endpoints of auth/router.py. bcrypt and `jwt.encode` are parameters. A login takes the lab that
-- the code names, none where `lab_from_login_code` refuses the code.
pub mod Credentials
pub mod Tokens
use cyber_range.Common.{
  ℕ, ◌+◌, ◌*◌, String, Bool, true, false, Option, none, some, List, [], ◌∷◌, not, str_eq,
  if◌then◌else◌,
}
use cyber_range.Common.Int.{pos}
use cyber_range.Http.{
  Action, pure, raise, gets, or_raise, raise_if, http, key_error, invalid_credentials,
  incorrect_credentials, not_blue_team, access_restricted, ◌>>=◌, ◌>>◌,
}
use cyber_range.Json.{Json, num, str, Payload, get, put, is_str}
use cyber_range.Db.{User, GameSession, Server}
use cyber_range.Labs.{get_session_for_lab}
use cyber_range.Redis.{Redis, Node}
use cyber_range.Defense.Limits.{on_server, enforce_login_attempt_limit}
use cyber_range.Siem.{log_failed_login, log_security_event}
use cyber_range.Auth.{get_by_username_in_lab}

pub record LoginRequest : Type 0 where
  pub username : String
  pub password : String

-- What the endpoints answer; the Blue Team's schema leaves out the role.
pub record Login : Type 0 where
  pub access_token : String
  pub role : String

abbrev pub token_data : (ℕ → String) → User → Payload
token_data uuid_text u =
    ("sub", str u.username)
    ∷ ("role", str u.role)
    ∷ ("id", str (uuid_text u.id))
    ∷ ("lab_instance_id", str (uuid_text u.lab_instance_id))
    ∷ []

-- the same dict as the Blue Team's endpoint orders it
abbrev pub blue_token_data : (ℕ → String) → User → Payload
blue_token_data uuid_text u =
    ("sub", str u.username)
    ∷ ("id", str (uuid_text u.id))
    ∷ ("role", str u.role)
    ∷ ("lab_instance_id", str (uuid_text u.lab_instance_id))
    ∷ []

-- `expires_delta` in seconds, 15 minutes where none is given
abbrev lifetime : Option ℕ → ℕ
lifetime none = 15 * 60
lifetime (some seconds) = seconds

-- The claims of the scope token: `data[key]` raises KeyError on a key that is missing.
unfoldable pub scope_claims : {S : Type 0} → Payload → ℕ → Action S Payload
scope_claims claims expire = do
  sub ← or_raise (get "sub" claims) key_error
  id ← or_raise (get "id" claims) key_error
  lab ← or_raise (get "lab_instance_id" claims) key_error
  pure (
      ("sub", sub)
      ∷ ("id", id)
      ∷ ("lab_instance_id", lab)
      ∷ ("exp", num (pos expire))
      ∷ ("aud", str "red-lab-scope")
      ∷ [])

-- `encode` is `jwt.encode` with the application's key and algorithm.
module _ (encode : Payload → String) where
  unfoldable pub create_access_token : Payload → Option ℕ → Action Server String
  unfolding scope_claims
  create_access_token claims expires_delta = do
    now ← gets (λ s. s.now)
    let expire = now + lifetime expires_delta
    let to_encode = put "exp" (num (pos expire)) claims
    elim (is_str "red_team" (get "role" claims)) [
      | true ↦ scope_claims claims expire >>= λ scope.
          pure (encode (put "lab_scope" (str (encode scope)) to_encode))
      | false ↦ pure (encode to_encode)
    ]

-- `verify_password password hash` is bcrypt on the SHA-256 of the password.
module _ (r : Redis) (verify_password : String → String → Bool) where
  abbrev pub limit_attempts : Bool → ℕ → String → Action (Node r) Unit
  limit_attempts hardened lab source_ip =
      if hardened then enforce_login_attempt_limit r lab source_ip else pure tt

  -- the failed login: the event, and None
  abbrev failed_login : ℕ → String → String → String → Action (Node r) (Option User)
  failed_login lab username source_ip portal =
      on_server r (log_failed_login lab username source_ip portal) >> pure none

  -- the check of a user that was found or not; a dummy hash only costs time
  unfoldable pub check_user :
      Option User → LoginRequest → ℕ → String → String → Action (Node r) (Option User)
  check_user none q lab source_ip portal = failed_login lab q.username source_ip portal
  check_user (some u) q lab source_ip portal =
      if verify_password q.password u.password_hash
      then pure (some u)
      else failed_login lab q.username source_ip portal

  unfoldable pub authenticate : LoginRequest → ℕ → String → String → Action (Node r) (Option User)
  unfolding get_session_for_lab check_user
  authenticate q lab source_ip portal = on_server r (get_session_for_lab lab) >>= λ found.
      elim found [
        | none ↦ pure none
        | some session ↦
            limit_attempts session.login_hardening_enabled lab source_ip
            >> (gets (λ n. get_by_username_in_lab q.username lab n.server) >>= λ user.
                check_user user q lab source_ip portal)
      ]

  -- `await authenticate(…) if lab else None`
  abbrev pub login_user : LoginRequest → Option ℕ → String → String → Action (Node r) (Option User)
  login_user q none source_ip portal = pure none
  login_user q (some lab) source_ip portal = authenticate q lab source_ip portal

  module _ (encode : Payload → String) (uuid_text : ℕ → String) where
    unfoldable pub red_team_login : LoginRequest → Option ℕ → String → Action (Node r) Login
    unfolding authenticate create_access_token
    red_team_login q lab client_ip = login_user q lab client_ip "red" >>= λ found.
        or_raise found (http 401 invalid_credentials) >>= λ user.
        raise_if (not (str_eq user.role "red_team")) (http 403 access_restricted)
        >> (on_server r (create_access_token encode (token_data uuid_text user) none) >>= λ token.
            on_server r (
              log_security_event user.lab_instance_id "RED_TEAM_LOGIN"
                (("username", str user.username) ∷ ("status", str "success") ∷ []) "127.0.0.1")
            >> pure (record { access_token = token; role = user.role }))

    unfoldable pub login_blue_team : LoginRequest → Option ℕ → String → Action (Node r) Login
    unfolding authenticate create_access_token
    login_blue_team q lab client_ip = login_user q lab client_ip "blue" >>= λ found.
        or_raise found (http 401 incorrect_credentials) >>= λ user.
        raise_if (not (if str_eq user.role "blue_team" then true else str_eq user.role "admin"))
          (http 403 not_blue_team)
        >> (on_server r (create_access_token encode (blue_token_data uuid_text user) (some 3600))
            >>= λ token. pure (record { access_token = token; role = user.role }))
