-- ===== src/Scripts/AdminSetup.antt =====
-- scripts/admin_setup.py: the rows of one lab, provisioned in one transaction. The tables exist, so
-- the DDL at the transaction's begin changes nothing here.
pub mod Writes
pub mod Rows
pub mod Provision
pub mod FirstLogin
use cyber_range.Common.{
  ℕ, ◌+◌, String, Bool, true, false, Option, none, some, List, [], ◌∷◌, ◌++◌, ◌==◌, ltb, length,
  not, select, str_eq, if◌then◌else◌,
}
use cyber_range.Common.Int.{ℤ, pos, negsuc}
use cyber_range.Http.{
  Result, ok, err, Action, pure, raise, gets, modify, or_raise, raise_if, Exn, script_error, Fault,
  bad_username, same_usernames, negative_budget, other_role_or_lab, multiple_sessions,
  team_conflict, empty_password, no_password, wrong_driver, key_error, ◌>>=◌, ◌>>◌,
}
use cyber_range.Db.{User, GameSession, Server}
use cyber_range.Defense.{default_prompt}
use cyber_range.Auth.{get_by_username}

pub record Options : Type 0 where
  pub lab_id : ℕ
  pub red_username : String
  pub blue_username : String
  pub team_id : Option ℕ
  pub budget : ℤ
  pub is_solo : Bool

pub record Created : Type 0 where
  pub red_team : Bool
  pub blue_team : Bool
  pub session : Bool

-- What `seed` returns.
pub record Report : Type 0 where
  pub lab_instance_id : ℕ
  pub session_id : ℕ
  pub team_id : ℕ
  pub is_solo : Bool
  pub red_user_id : ℕ
  pub blue_user_id : ℕ
  pub red_username : String
  pub blue_username : String
  pub created : Created

abbrev pub is_negative : ℤ → Bool
is_negative (pos n) = false
is_negative (negsuc n) = true

-- `SqlStore.sessions`
unfoldable pub sessions_of : ℕ → Server → List GameSession
sessions_of lab s = select (λ g. g.lab_instance_id == lab) s.sessions

-- `SqlStore.add_user` and `add_session`, with `uuid4()`; the columns that `seed` does not give take
-- the defaults of db/models.py.
unfoldable pub add_user : String → String → ℕ → String → Action Server User
add_user name role lab hash s =
    let u : User = record {
      id = s.next_id;
      username = name;
      password_hash = hash;
      role = role;
      lab_instance_id = lab;
    } in
    (ok u, record s { users = s.users ++ u ∷ []; next_id = s.next_id + 1 })

abbrev pub fresh_session : ℕ → ℕ → ℕ → Bool → ℤ → GameSession
fresh_session id lab team is_solo budget = record {
  id = id;
  team_id = team;
  lab_instance_id = lab;
  is_solo = is_solo;
  defense_budget = budget;
  system_prompt = default_prompt;
  use_reranker = false;
  rate_limit_enabled = false;
  rate_limit_rpm = 60;
  jwt_filter_enabled = false;
  login_hardening_enabled = false;
}

unfoldable pub add_session : ℕ → ℕ → Bool → ℤ → Action Server GameSession
add_session lab team is_solo budget s =
    let g = fresh_session s.next_id lab team is_solo budget in
    (ok g, record s { sessions = s.sessions ++ g ∷ []; next_id = s.next_id + 1 })

-- The loop over the roles: a user of the name, who must have the role and the lab
abbrev pub suits_role : String → ℕ → User → Bool
suits_role role lab u = if str_eq u.role role then u.lab_instance_id == lab else false

abbrev pub checked_user : String → ℕ → Option User → Action Server (Option User)
checked_user role lab none = pure none
checked_user role lab (some u) =
    if suits_role role lab u then pure (some u) else raise (script_error other_role_or_lab)

unfoldable pub existing_user : String → String → ℕ → Action Server (Option User)
unfolding get_by_username
existing_user name role lab = gets (get_by_username name) >>= checked_user role lab

abbrev pub conflicts : Option ℕ → GameSession → Bool
conflicts none g = false
conflicts (some team) g = not (g.team_id == team)

-- The lab's only session, with the team that was asked for
unfoldable pub only_session : Option ℕ → List GameSession → Action Server (Option GameSession)
only_session team [] = pure none
only_session team (g ∷ []) =
    if conflicts team g then raise (script_error team_conflict) else pure (some g)
only_session team (g ∷ h ∷ r) = raise (script_error multiple_sessions)

abbrev pub is_missing : {A : Type 0} → Option A → Bool
is_missing none = true
is_missing (some a) = false

-- `options.team_id or users[0].id`
abbrev pub team_or : Option ℕ → ℕ → ℕ
team_or none red = red
team_or (some team) red = team

-- What `seed` has found and hashed before it writes
pub record Found : Type 0 where
  pub red : Option User
  pub blue : Option User
  pub session : Option GameSession
  pub red_hash : Option String
  pub blue_hash : Option String

unfoldable pub keep_or_add : Option User → Option String → String → String → ℕ → Action Server User
unfolding add_user
keep_or_add (some u) hash name role lab = pure u
keep_or_add none (some hash) name role lab = add_user name role lab hash
keep_or_add none none name role lab = raise key_error

unfoldable pub keep_or_start : Option GameSession → Options → ℕ → Action Server GameSession
unfolding add_session
keep_or_start (some g) o red = pure g
keep_or_start none o red = add_session o.lab_id (team_or o.team_id red) o.is_solo o.budget

abbrev pub report_of : Options → User → User → GameSession → Created → Report
report_of o red blue session created = record {
  lab_instance_id = o.lab_id;
  session_id = session.id;
  team_id = session.team_id;
  is_solo = session.is_solo;
  red_user_id = red.id;
  blue_user_id = blue.id;
  red_username = red.username;
  blue_username = blue.username;
  created = created;
}

abbrev pub created_of : Found → Created
created_of f = record {
  red_team = is_missing f.red;
  blue_team = is_missing f.blue;
  session = is_missing f.session;
}

unfoldable pub write_rows : Options → Found → Action Server Report
unfolding keep_or_add keep_or_start
write_rows o f = keep_or_add f.red f.red_hash o.red_username "red_team" o.lab_id >>= λ red.
    keep_or_add f.blue f.blue_hash o.blue_username "blue_team" o.lab_id >>= λ blue.
    keep_or_start f.session o red.id >>= λ session.
    pure (report_of o red blue session (created_of f))

-- `read_password`: the environment's ROLE_PASSWORD, or the hidden prompt on a terminal.
unfoldable pub read_password :
    (String → Option String) → Option (String → String) → String → Result String
read_password environ prompt role = elim (environ role) [
  | some password ↦ if str_eq password "" then err (script_error no_password) else ok password
  | none ↦ elim prompt [
    | none ↦ err (script_error no_password)
    | some getpass ↦
        if str_eq (getpass role) "" then err (script_error no_password) else ok (getpass role)
  ]
]

-- `is_trimmed name` is `name == name.strip()`.
module _ (is_trimmed : String → Bool) where
  abbrev is_name : String → Bool
  is_name name = if str_eq name "" then false else is_trimmed name

  abbrev pub bad_names : Options → Bool
  bad_names o = if is_name o.red_username then not (is_name o.blue_username) else true

  -- `Options.validate`; that the IDs are UUIDs is in their type.
  unfoldable pub validate : Options → Action Server Unit
  validate o =
      raise_if (bad_names o) (script_error bad_username)
      >> raise_if (str_eq o.red_username o.blue_username) (script_error same_usernames)
      >> raise_if (is_negative o.budget) (script_error negative_budget)

  module _ (password_lookup : String → Result String) (hash_password : String → String) where
    abbrev hashed : Result String → Action Server (Option String)
    hashed (err e) = raise e
    hashed (ok password) =
        if str_eq password ""
        then raise (script_error empty_password)
        else pure (some (hash_password password))

    -- The entry of `hashes` for a role, none for a user who exists
    unfoldable pub resolve_hash : String → Option User → Action Server (Option String)
    resolve_hash role (some u) = pure none
    resolve_hash role none = hashed (password_lookup role)

    unfoldable pub look_up : Options → Action Server Found
    unfolding validate existing_user sessions_of only_session resolve_hash
    look_up o = do
      validate o
      red ← existing_user o.red_username "red_team" o.lab_id
      blue ← existing_user o.blue_username "blue_team" o.lab_id
      rows ← gets (sessions_of o.lab_id)
      session ← only_session o.team_id rows
      red_hash ← resolve_hash "red_team" red
      blue_hash ← resolve_hash "blue_team" blue
      pure (record {
        red = red;
        blue = blue;
        session = session;
        red_hash = red_hash;
        blue_hash = blue_hash;
      })

    unfoldable pub seed : Options → Action Server Report
    unfolding look_up write_rows
    seed o = look_up o >>= write_rows o

-- `engine.begin()`: the rows are committed if the block ends, and rolled back if it raises.
abbrev pub in_transaction : {A : Type 0} → Action Server A → Action Server A
in_transaction m s = let (r, s') = m s in elim r [ ok a ↦ (ok a, s') | err e ↦ (err e, s) ]

unfoldable pub seed_transaction :
    (String → Bool) → (String → Result String) → (String → String) → Options → Action Server Report
seed_transaction is_trimmed password_lookup hash_password o =
    in_transaction (seed is_trimmed password_lookup hash_password o)

-- `run_setup`: `driver` is the driver name in DATABASE_URL, and `lab_code` is `lab_login_code`.
unfoldable pub run_setup :
    (String → Bool)
    → (String → Result String)
    → (String → String)
    → (ℕ → List ℕ)
    → String
    → Options
    → Action Server (Report × List ℕ)
run_setup is_trimmed password_lookup hash_password lab_code driver o =
    validate is_trimmed o
    >> raise_if (not (str_eq driver "postgresql+asyncpg")) (script_error wrong_driver)
    >> (seed_transaction is_trimmed password_lookup hash_password o >>= λ report.
        pure (report, lab_code o.lab_id))
