-- ===== src/Auth/Login/Credentials.antt =====
-- Whom a login lets in, and what a refused login leaves behind.
use cyber_range.Common.{
  ℕ, ◌≡◌, String, Bool, true, false, Option, none, some, arith, refl, subst, find?, find?-passes,
  str_eq_iff, Option-cases, inl, inr, ◌==◌,
}
use cyber_range.Http.{ok, Result-cases}
use cyber_range.Db.{User, GameSession}
use cyber_range.Labs.{get_session_for_lab}
use cyber_range.Redis.{Redis, Node}
use cyber_range.Siem.{log_failed_login, write_event}
use cyber_range.Auth.{get_by_username_in_lab, named_in_lab}
use cyber_range.Auth.Login.{LoginRequest, authenticate, check_user, limit_attempts}

module _ (r : Redis) (verify_password : String → String → Bool) (q : LoginRequest) (lab : ℕ)
    (ip portal : String) (n : Node r) where
  -- `u` is the lab's user of the requested name, and the password matches the stored hash.
  pub record IsGenuine (u : User) : Type 0 where
    pub name : u.username ≡ q.username
    pub in_lab : u.lab_instance_id ≡ lab
    pub password : verify_password q.password u.password_hash ≡ true

  checked :
      (o : Option User) (u : User) (m : Node r)
      → get_by_username_in_lab q.username lab m.server ≡ o
      → (check_user r verify_password o q lab ip portal m).0 ≡ ok (some u)
      → IsGenuine u
  unfolding check_user get_by_username_in_lab
  checked none u m found e = absurd (ground arith)
  checked (some v) u m found e =
      let passes = find?-passes (named_in_lab q.username lab) m.server.users v found in
      let same : v ≡ u = ground arith in
      subst IsGenuine same (record {
        name = (str_eq_iff v.username q.username).0 (ground (arith, passes));
        in_lab = ground (arith, passes);
        password = ground arith;
      })

  -- A user whom `authenticate` returns is a user of that lab and that name whose stored hash
  -- matches the password.
  pub authenticate-IsGenuine :
      (u : User) → (authenticate r verify_password q lab ip portal n).0 ≡ ok (some u) → IsGenuine u
  unfolding authenticate get_session_for_lab
  authenticate-IsGenuine u e =
      elim (Option-cases (find? (λ g. g.lab_instance_id == lab) n.server.sessions)) [
        | inl missing ↦ absurd (ground (arith, missing))
        | inr (g, present) ↦
            elim (Result-cases
              (limit_attempts r verify_password g.login_hardening_enabled lab ip n).0) [
                | inr (x, limited) ↦ absurd (ground (arith, present, limited))
                | inl (t, passed) ↦
                    let m =
                      (limit_attempts r verify_password g.login_hardening_enabled lab ip n).1 in
                    checked (get_by_username_in_lab q.username lab m.server) u m refl
                      (ground (arith, present, passed))
              ]
      ]

  -- The lab has a session without Login Hardening, and the name or the password is wrong there.
  pub record IsWrong : Type 0 where
    pub session : GameSession
    pub present : find? (λ g. g.lab_instance_id == lab) n.server.sessions ≡ some session
    pub open_door : session.login_hardening_enabled ≡ false
    pub wrong :
        (u : User)
        → get_by_username_in_lab q.username lab n.server ≡ some u
        → verify_password q.password u.password_hash ≡ false

  -- A login with a wrong name or password, in a lab without Login Hardening, finds nobody, and
  -- all that it changes is what `log_failed_login` records.
  pub authenticate_wrong :
      IsWrong
      → authenticate r verify_password q lab ip portal n
        ≡ (ok none, record n { server = (log_failed_login lab q.username ip portal n.server).1 })
  unfolding authenticate get_session_for_lab check_user log_failed_login write_event
  authenticate_wrong w = elim (Option-cases (get_by_username_in_lab q.username lab n.server)) [
    | inl nobody ↦ ground (arith, w.present, w.open_door, nobody)
    | inr (u, found) ↦ ground (arith, w.present, w.open_door, found, w.wrong u found)
  ]
