-- ===== src/Auth/Vulnerable.antt =====
-- `get_current_user_vulnerable` of backend/app/auth/service.py, which lets a Red Team player forge
-- the role of a token inside the player's own lab.
pub mod Boundary
pub mod Roles
use cyber_range.Common.{
  ℕ, ◌≡◌, String, Bool, true, false, Option, none, some, List, ◌==◌, ◌||◌, not, find?, str_eq,
  if◌then◌else◌,
}
use cyber_range.Http.{
  Result, ok, err, Exn, Action, pure, raise, gets, or_raise, raise_if, http, value_error,
  token_error, type_error, unavailable, queue_empty, runtime_error, cancelled, key_error,
  script_error, missing_header, invalid_token, ◌>>=◌, ◌>>◌,
}
use cyber_range.Json.{Json, null, str, Payload, get, get_eq}
use cyber_range.Db.{User, GameSession, Server}
use cyber_range.Labs.{get_session_for_lab}
use cyber_range.Redis.{Redis, Node}
use cyber_range.Defense.Limits.{on_server}
use cyber_range.Siem.Forgery.{log_jwt_manipulation_attempt}
use cyber_range.Auth.{Tokens, Decoded, claims, refused, Principal, get_by_id}

-- `jwt.decode` as a call that raises `InvalidTokenError`
abbrev pub decoded : {S : Type 0} → Decoded → Action S Payload
decoded (claims p) = pure p
decoded (refused _) = raise token_error

-- The `except` around the whole body: these exceptions become a 401.
abbrev pub re_login : Exn → Exn
re_login value_error = http 401 invalid_token
re_login type_error = http 401 invalid_token
re_login token_error = http 401 invalid_token
re_login key_error = http 401 invalid_token
re_login unavailable = unavailable
re_login queue_empty = queue_empty
re_login runtime_error = runtime_error
re_login cancelled = cancelled
re_login (script_error fault) = script_error fault
re_login (http code detail) = http code detail

abbrev pub as_401 : {S A : Type 0} → Action S A → Action S A
as_401 m s = let (r, s') = m s in (elim r [ ok a ↦ ok a | err e ↦ err (re_login e) ], s')

module _ (r : Redis) (t : Tokens) where
  -- `payload.get(key) != scope[key]` for one of the keys
  abbrev pub key_differs : String → Payload → Payload → Bool
  key_differs k payload scope = not (get_eq (get k payload) (get k scope))

  -- Why a user of the database is refused: no Red Team player, or not the one that the scope names.
  abbrev pub scope_mismatch : User → Payload → Bool
  scope_mismatch u scope =
      not (str_eq u.role "red_team")
      || not (get_eq (get "sub" scope) (some (str u.username)))
      || not (get_eq (get "lab_instance_id" scope) (some (str (t.uuid_text u.lab_instance_id))))

  -- `log_forgery`
  abbrev pub log_forgery : User → Option Json → String → Bool → Action (Node r) Unit
  log_forgery u claimed_role ip blocked n =
      if get_eq claimed_role (some (str u.role)) then (ok tt, n) else (
        ok tt,
        (log_jwt_manipulation_attempt r u.lab_instance_id claimed_role ip u.id blocked n).1,
      )

  -- The scope token, the user that it names, and the checks of both against the outer token.
  unfoldable pub scoped_user : Payload → Action (Node r) User
  unfolding get_by_id
  scoped_user payload = do
    scope ← decoded (t.decode_scope (elim (get "lab_scope" payload) [ none ↦ str "" | some j ↦ j ]))
    id ← or_raise (t.parse_uuid (get "id" scope)) value_error
    found ← gets (λ n. get_by_id id n.server)
    user ← or_raise found value_error
    raise_if (scope_mismatch user scope) value_error
    raise_if (key_differs "sub" payload scope) value_error
    raise_if (key_differs "id" payload scope) value_error
    raise_if (key_differs "lab_instance_id" payload scope) value_error
    pure user

  -- The `try` of JWT Strict Mode: the outer token must verify, and claim the stored role.
  abbrev strict_claims : User → String → Action (Node r) Payload
  strict_claims user token = do
    payload ← decoded (t.decode_strict token)
    raise_if (not (get_eq (get "role" payload) (some (str user.role)))) value_error
    pure payload

  -- its `except`: the forgery is logged as blocked, and the exception goes on
  abbrev logging_blocked :
      User → Option Json → String → Action (Node r) Payload → Action (Node r) Payload
  logging_blocked user claimed_role ip m n =
      let (res, n') = m n in
      elim res [ ok p ↦ (ok p, n') | err e ↦ (err e, (log_forgery user claimed_role ip true n').1) ]

  unfoldable pub checked_claims : Bool → User → String → Payload → String → Action (Node r) Payload
  checked_claims jwt_filter_enabled user token payload ip =
      if jwt_filter_enabled
      then logging_blocked user (get "role" payload) ip (strict_claims user token)
      else (log_forgery user (get "role" payload) ip false >> pure payload)

  abbrev principal : User → Payload → Principal
  principal user payload = record {
    sub = user.username;
    id = user.id;
    role = get "role" payload;
    lab_instance_id = user.lab_instance_id;
  }

  abbrev authenticated : String → String → Action (Node r) Principal
  authenticated token ip = decoded (t.decode_unverified token) >>= λ payload.
      scoped_user payload >>= λ user.
      on_server r (get_session_for_lab user.lab_instance_id) >>= λ found.
      or_raise found value_error >>= λ session.
      checked_claims session.jwt_filter_enabled user token payload ip >>= λ accepted.
      pure (principal user accepted)

  -- The header is the token behind "Bearer ", or none; `ip` is the client's address.
  unfoldable pub get_current_user_vulnerable : Option String → String → Action (Node r) Principal
  unfolding get_session_for_lab
  get_current_user_vulnerable authorization ip =
      or_raise authorization (http 401 missing_header) >>= λ token. as_401 (authenticated token ip)
