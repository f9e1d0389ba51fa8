-- ===== src/Auth.antt =====
-- Authentication, backend/app/auth/service.py. PyJWT and `uuid`'s text form are parameters.
pub mod Vulnerable
pub mod Login
use cyber_range.Common.{
  ℕ, ◌≡◌, String, Bool, true, false, Option, none, some, List, ◌==◌, not, find?, str_eq,
  if◌then◌else◌,
}
use cyber_range.Http.{
  Result, ok, err, Exn, Action, pure, raise, gets, or_raise, raise_if, http, value_error,
  token_error, type_error, missing_header, not_authenticated, invalid_token, token_expired,
  user_not_found, access_restricted, ◌>>=◌, ◌>>◌,
}
use cyber_range.Json.{Json, null, str, Payload, get}
use cyber_range.Db.{User, GameSession, Server}

-- Why PyJWT refuses a token: `ExpiredSignatureError`, or another `InvalidTokenError`.
pub data Refused : Type 0 where
  expired invalid : Refused

-- A decoded token, or the refusal.
pub data Decoded : Type 0 where
  claims : Payload → Decoded
  refused : Refused → Decoded

-- PyJWT with the application's key and algorithm, and UUIDs as texts.
pub record Tokens : Type 0 where
  -- `jwt.decode(token, options={"verify_signature": False})`
  pub decode_unverified : String → Decoded
  -- `jwt.decode(token, SECRET_KEY, algorithms=[ALGORITHM])`
  pub decode_verified : String → Decoded
  -- the same with `require` of exp, sub, id and lab_instance_id
  pub decode_strict : String → Decoded
  -- `decode` of the inner token, for the audience "red-lab-scope" and with the same `require`
  pub decode_scope : Json → Decoded
  -- `str(uuid)`, and `uuid.UUID(str(value))`, which may raise ValueError
  pub uuid_text : ℕ → String
  pub parse_uuid : Option Json → Option ℕ

-- The dict that the Red Team endpoints receive.
pub record Principal : Type 0 where
  pub sub : String
  pub id : ℕ
  pub role : Option Json
  pub lab_instance_id : ℕ

-- `UserRepository.get_by_id` and `get_by_username`
unfoldable pub get_by_id : ℕ → Server → Option User
get_by_id id s = find? (λ u. u.id == id) s.users

unfoldable pub get_by_username : String → Server → Option User
get_by_username name s = find? (λ u. str_eq u.username name) s.users

abbrev pub named_in_lab : String → ℕ → User → Bool
named_in_lab name lab u = if str_eq u.username name then u.lab_instance_id == lab else false

unfoldable pub get_by_username_in_lab : String → ℕ → Server → Option User
get_by_username_in_lab name lab s = find? (named_in_lab name lab) s.users

-- The header as `get_bearer_authorization` hands it over: the token behind "Bearer ", or None.
abbrev pub bearer_token : Option String → Exn → {S : Type 0} → Action S String
bearer_token header e = or_raise header e

module _ (t : Tokens) where
  -- `payload.get("sub")`; the query by a value that is no text finds nobody.
  abbrev pub subject_user : Option Json → Server → Option User
  subject_user (some (str name)) s = get_by_username name s
  subject_user (some _) s = none
  subject_user none s = none

  abbrev pub is_missing : Option Json → Bool
  is_missing none = true
  is_missing (some null) = true
  is_missing (some _) = false

  abbrev verified_claims : Decoded → Action Server Payload
  verified_claims (claims p) = pure p
  verified_claims (refused expired) = raise (http 401 token_expired)
  verified_claims (refused invalid) = raise (http 401 invalid_token)

  -- `get_current_user_secure`
  unfoldable pub get_current_user_secure : Option String → Action Server User
  unfolding get_by_username
  get_current_user_secure authorization = do
    token ← or_raise authorization (http 401 not_authenticated)
    payload ← verified_claims (t.decode_verified token)
    raise_if (is_missing (get "sub" payload)) (http 401 invalid_token)
    found ← gets (subject_user (get "sub" payload))
    or_raise found (http 401 user_not_found)

  abbrev pub is_blue_role : String → Bool
  is_blue_role role = if str_eq role "blue_team" then true else str_eq role "admin"

  -- `get_blue_team_user`
  unfoldable pub get_blue_team_user : Option String → Action Server User
  unfolding get_current_user_secure
  get_blue_team_user authorization = do
    user ← get_current_user_secure authorization
    raise_if (not (is_blue_role user.role)) (http 403 access_restricted)
    pure user
