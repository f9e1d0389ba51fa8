-- ===== src/Tests/Logins.antt =====
-- Logins of the sample lab's student, in a lab that has not bought Login Hardening.
use cyber_range.Common.{String, ◌≡◌, refl, ap, subst, Bool, false, none, some, [], ◌∷◌, str_eq}
use cyber_range.Common.Int.{pos}
use cyber_range.Http.{ok}
use cyber_range.Json.{num, str, Payload, get}
use cyber_range.Db.{GameSession}
use cyber_range.Labs.{get_session_for_lab}
use cyber_range.Redis.{Node}
use cyber_range.Auth.{Tokens, claims, get_by_id, get_by_username_in_lab}
use cyber_range.Auth.Vulnerable.{get_current_user_vulnerable}
use cyber_range.Auth.Login.{LoginRequest, authenticate, check_user, create_access_token, token_data}
use cyber_range.Auth.Login.Credentials.{IsGenuine, IsWrong, authenticate-IsGenuine}
use cyber_range.Auth.Login.Tokens.{IsReadBack, IsPlayer, issued_claims, login_token_accepted}
use cyber_range.Tests.Rows.{student, session, server}
use cyber_range.Tests.Memory.{memory, empty_cells}

abbrev soft_session : GameSession
soft_session = record session { login_hardening_enabled = false }

abbrev node : Node memory
node = record { server = record server { sessions = soft_session ∷ [] }; store = empty_cells }

abbrev verify : String → String → Bool
verify password hash = str_eq password hash

abbrev good : LoginRequest
good = record { username = "ann"; password = "h" }

abbrev bad : LoginRequest
bad = record { username = "ann"; password = "x" }

let_in : (authenticate memory verify good 7 "10.0.0.1" "red" node).0 ≡ ok (some student)
unfolding authenticate check_user get_session_for_lab get_by_username_in_lab
let_in = refl

authenticate-IsGenuine_example : IsGenuine memory verify good 7 "10.0.0.1" "red" node student
authenticate-IsGenuine_example =
    authenticate-IsGenuine memory verify good 7 "10.0.0.1" "red" node student let_in

wrong_password : IsWrong memory verify bad 7 "10.0.0.1" "red" node
unfolding get_by_username_in_lab
wrong_password = record {
  session = soft_session;
  present = refl;
  open_door = refl;
  wrong = λ u e.
      subst (λ v. verify "x" v.password_hash ≡ false)
        (ap (λ o. elim o [ none ↦ student | some v ↦ v ]) e) refl;
}

-- A `jwt` that knows the two tokens of one login.
encode : Payload → String
unfolding get
encode p = elim (get "aud" p) [ none ↦ "outer" | some _ ↦ "scope" ]

abbrev scope_payload : Payload
scope_payload =
    ("sub", str "ann")
    ∷ ("id", str "id-11")
    ∷ ("lab_instance_id", str "id-11")
    ∷ ("exp", num (pos 1025))
    ∷ ("aud", str "red-lab-scope")
    ∷ []

abbrev outer_payload : Payload
outer_payload =
    ("sub", str "ann")
    ∷ ("role", str "red_team")
    ∷ ("id", str "id-11")
    ∷ ("lab_instance_id", str "id-11")
    ∷ ("exp", num (pos 1025))
    ∷ ("lab_scope", str "scope")
    ∷ []

abbrev tokens : Tokens
tokens = record {
  decode_unverified = λ _. claims outer_payload;
  decode_verified = λ _. claims outer_payload;
  decode_strict = λ _. claims outer_payload;
  decode_scope = λ _. claims scope_payload;
  uuid_text = λ _. "id-11";
  parse_uuid = λ _. some 11;
}

read_back : IsReadBack memory tokens encode node student
unfolding encode get
read_back = record { outer = refl; strict = refl; scope = refl; id = refl }

player : IsPlayer memory tokens encode node student soft_session
unfolding get_by_id
player = record { stored = refl; red = refl; present = refl }

login_token_accepted_example :
    (create_access_token encode (token_data tokens.uuid_text student) none node.server
      ≡ (ok (encode (issued_claims memory tokens encode node student)), node.server))
    × (get_current_user_vulnerable memory tokens
          (some (encode (issued_claims memory tokens encode node student)))
          "10.0.0.1"
          node
        ≡ (
          ok (record { sub = "ann"; id = 11; role = some (str "red_team"); lab_instance_id = 7 }),
          node,
        ))
login_token_accepted_example =
    login_token_accepted memory tokens encode node student soft_session "10.0.0.1" read_back player
