-- ===== src/Scripts/AdminSetup/FirstLogin.antt =====
-- The credentials that a setup has created, and the code that it hands out, log the student in.
use cyber_range.Common.{
  ℕ, ◌≡◌, ◌<◌, ◌^◌, String, Bool, true, some, List, ◌==◌, arith, ap, find?-select, find?-stricter,
  str_eq,
}
use cyber_range.Http.{Result, ok}
use cyber_range.Db.{User, GameSession, Server}
use cyber_range.Labs.{get_session_for_lab}
use cyber_range.Labs.Codes.{lab_login_code, lab_from_login_code}
use cyber_range.Labs.Codes.Laws.{IsDigest, lab_from_login_code-lab_login_code}
use cyber_range.Redis.{Redis, Node}
use cyber_range.Auth.{get_by_username, get_by_username_in_lab, named_in_lab}
use cyber_range.Auth.Login.{authenticate, login_user, check_user}
use cyber_range.Scripts.AdminSetup.{Options, Report, sessions_of, seed_transaction}
use cyber_range.Scripts.AdminSetup.Rows.{IsPlaced, IsOnly}
use cyber_range.Scripts.AdminSetup.Provision.{setup-IsProvisioned}

session_found :
    (o : Options) (g : GameSession) (s : Server)
    → IsOnly o g s
    → get_session_for_lab o.lab_id s ≡ (ok (some g), s)
unfolding get_session_for_lab sessions_of
session_found o g s p =
    ap (λ x. (ok x, s)) (find?-select (λ h. h.lab_instance_id == o.lab_id) s.sessions g p.only)

user_found :
    (name role : String) (lab : ℕ) (u : User) (s : Server)
    → IsPlaced name role lab u s
    → get_by_username_in_lab name lab s ≡ some u
unfolding get_by_username get_by_username_in_lab
user_found name role lab u s p =
    find?-stricter (λ v. str_eq v.username name) (named_in_lab name lab) s.users u
      (λ v e. ground (arith, e)) p.found (ground (arith, p.suits, p.named))

module _ (r : Redis) (verify_password : String → String → Bool) (is_trimmed : String → Bool)
    (password_lookup : String → Result String) (hash_password : String → String)
    (digest : List ℕ → List ℕ) where
  -- The setup has created the student and the session, and bcrypt accepts what it has hashed.
  pub record IsFirstSetup (o : Options) (rep : Report) (s : Server) (n : Node r) (p : String)
      : Type 0 where
    pub setup : seed_transaction is_trimmed password_lookup hash_password o s ≡ (ok rep, n.server)
    pub new_student : rep.created.red_team ≡ true
    pub new_lab : rep.created.session ≡ true
    pub password : password_lookup "red_team" ≡ ok p
    pub bcrypt : verify_password p (hash_password p) ≡ true
    pub signed : IsDigest digest
    pub uuid : o.lab_id < 256 ^ 16

  -- The student's name, the password and the lab's code find the user of the report.
  abbrev pub LogsIn : Options → Report → Node r → String → String → String → Type 0
  LogsIn o rep n p ip portal =
      (u : User) × (u.id ≡ rep.red_user_id)
      × (login_user r verify_password (record { username = o.red_username; password = p })
            (lab_from_login_code digest (lab_login_code digest o.lab_id)) ip portal n
          ≡ (ok (some u), n))

  -- After a setup that has created the red user and the session, a login with the lab's code,
  -- the red user's name and the password that was looked up finds the user whom the report
  -- names, and changes nothing, if bcrypt accepts what it has hashed.
  pub setup_login :
      (o : Options) (rep : Report) (s : Server) (n : Node r) (p ip portal : String)
      → IsFirstSetup o rep s n p
      → LogsIn o rep n p ip portal
  unfolding authenticate check_user
  setup_login o rep s n p ip portal h =
      let lab_read = lab_from_login_code-lab_login_code digest h.signed o.lab_id h.uuid in
      let v =
        setup-IsProvisioned is_trimmed password_lookup password_lookup hash_password hash_password o
          rep s n.server h.setup in
      let soft = v.new_session h.new_lab in
      let (p', given, hashed) = v.new_red h.new_student in
      let here = session_found o v.session n.server v.one_session in
      let found = user_found o.red_username "red_team" o.lab_id v.red n.server v.red_placed in
      (
        v.red,
        ground (arith, v.reported),
        ground (arith, lab_read, soft, given, hashed, here, found, h.password, h.bcrypt),
      )
