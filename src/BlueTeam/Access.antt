-- ===== src/BlueTeam/Access.antt =====
-- Who may act on which session.
use cyber_range.Common.{
  ℕ, ◌≡◌, ◌==◌, String, Bool, true, Option, none, some, subst, ◌⊎◌, inl, inr, arith, find?,
  Option-cases, Bool-cases, refl, ◌≢◌, ◌∙◌, ap, str_eq,
}
use cyber_range.Http.{http, session_not_found, ok, err, Exn, Action, Result-cases}
use cyber_range.Json.{Json, null, bool, num, str, compound, Payload, get}
use cyber_range.Db.{User, GameSession, Server}
use cyber_range.Db.Tables.{has_id}
use cyber_range.Labs.{get_authorized_session, get_session, ensure_uuid}
use cyber_range.Defense.{process_defense_purchase}
use cyber_range.Siem.Forensics.{Heuristics, process_investigation}
use cyber_range.Auth.Vulnerable.Boundary.{Decoded-cases}
use cyber_range.Auth.{
  Refused, claims, refused, subject_user, is_missing, expired, invalid, Tokens, get_by_username,
  get_blue_team_user, get_current_user_secure, is_blue_role,
}
use cyber_range.BlueTeam.{authorized, buy_defense, investigate_log}

module _ (t : Tokens) (header : Option String) (sid : ℕ) (s : Server) where
  -- The header holds a token that the server has signed and that names a stored user with a Blue
  -- Team role, and the session is one of the user's lab.
  pub record IsAuthorized (user : User) : Type 0 where
    pub session : GameSession
    pub token : String
    pub sent : header ≡ some token
    pub payload : Payload
    pub signed : t.decode_verified token ≡ claims payload
    pub name : String
    pub subject : get "sub" payload ≡ some (str name)
    pub stored : find? (λ (u : User). str_eq u.username name) s.users ≡ some user
    pub blue : (str_eq user.role "blue_team" ≡ true) ⊎ (str_eq user.role "admin" ≡ true)
    pub present : find? (has_id sid) s.sessions ≡ some session
    pub own : session.lab_instance_id ≡ user.lab_instance_id

  -- Authentication reads the state and never writes it.
  secure_user-same : (h : Option String) → (get_current_user_secure t h s).1 ≡ s
  unfolding get_current_user_secure
  secure_user-same none = refl
  secure_user-same (some token) = elim (Decoded-cases (t.decode_verified token)) [
    | inr (expired, e) ↦ ground (arith, e)
    | inr (invalid, e) ↦ ground (arith, e)
    | inl (p, e) ↦ ground (arith, e)
  ]

  blue_user-same : (get_blue_team_user t header s).1 ≡ s
  unfolding get_blue_team_user
  blue_user-same = ground (arith, secure_user-same header)

  subject_cases :
      (o : Option Json) (u : User)
      → subject_user t o s ≡ some u
      → (name : String) × (o ≡ some (str name))
        × (find? (λ (v : User). str_eq v.username name) s.users ≡ some u)
  unfolding get_by_username
  subject_cases (some (str name)) u e = (name, refl, e)
  subject_cases (some null) u e = absurd (cc)
  subject_cases (some (bool b)) u e = absurd (cc)
  subject_cases (some (num n)) u e = absurd (cc)
  subject_cases (some (compound c)) u e = absurd (cc)
  subject_cases none u e = absurd (cc)

  unsigned_refused :
      (u : User) (x : Refused) (token : String)
      → header ≡ some token
      → t.decode_verified token ≡ refused x
      → (get_current_user_secure t header s).0 ≢ ok u
  unfolding get_current_user_secure
  unsigned_refused u expired token sent unsigned = λ e. absurd (ground (arith, e, sent, unsigned))
  unsigned_refused u invalid token sent unsigned = λ e. absurd (ground (arith, e, sent, unsigned))

  blue_cases :
      (role : String)
      → is_blue_role t role ≡ true
      → (str_eq role "blue_team" ≡ true) ⊎ (str_eq role "admin" ≡ true)
  blue_cases role e = elim (Bool-cases (str_eq role "blue_team")) [
    | inl blue ↦ inl blue
    | inr other ↦ inr (ground (arith, e, other))
  ]

  -- Whom the token of the header names
  record IsVerified (user : User) : Type 0 where
    pub token : String
    pub sent : header ≡ some token
    pub payload : Payload
    pub signed : t.decode_verified token ≡ claims payload
    pub name : String
    pub subject : get "sub" payload ≡ some (str name)
    pub stored : find? (λ (u : User). str_eq u.username name) s.users ≡ some user

  secure_user-IsVerified : (u : User) → (get_current_user_secure t header s).0 ≡ ok u → IsVerified u
  unfolding get_current_user_secure
  secure_user-IsVerified u e = elim (Option-cases header) [
    | inl nothing ↦ absurd (ground (arith, nothing))
    | inr (token, sent) ↦ elim (Decoded-cases (t.decode_verified token)) [
      | inr (x, unsigned) ↦ absurd (unsigned_refused u x token sent unsigned e)
      | inl (p, signed) ↦ elim (Bool-cases (is_missing t (get "sub" p))) [
        | inl missing ↦ absurd (ground (arith, sent, signed, missing))
        | inr there ↦ elim (Option-cases (subject_user t (get "sub" p) s)) [
          | inl nobody ↦ absurd (ground (arith, sent, signed, there, nobody))
          | inr (v, found) ↦
              let same : v ≡ u = ground (arith, sent, signed, there, found) in
              let (name, subject, stored) = subject_cases (get "sub" p) v found in
              record {
                token = token;
                sent = sent;
                payload = p;
                signed = signed;
                name = name;
                subject = subject;
                stored = stored ∙ ap some same;
              }
        ]
      ]
    ]
  ]

  blue_user-IsVerified :
      (u : User)
      → (get_blue_team_user t header s).0 ≡ ok u
      → IsVerified u × (is_blue_role t u.role ≡ true)
  unfolding get_blue_team_user
  blue_user-IsVerified u e = elim (Result-cases (get_current_user_secure t header s).0) [
    | inr (x, denied) ↦ absurd (ground (arith, denied))
    | inl (v, known) ↦ elim (Bool-cases (is_blue_role t v.role)) [
      | inr other ↦ absurd (ground (arith, known, other))
      | inl blue ↦
          let same : v ≡ u = ground (arith, known, blue) in
          (
            secure_user-IsVerified u (known ∙ ap ok same),
            subst (λ (w : User). is_blue_role t w.role ≡ true) same blue,
          )
    ]
  ]

  blue_user-runs : (u : User) (a : IsAuthorized u) → get_blue_team_user t header s ≡ (ok u, s)
  unfolding get_blue_team_user get_current_user_secure get_by_username
  blue_user-runs u a = elim a.blue [
    | inl blue ↦ ground (arith, a.sent, a.signed, a.subject, a.stored, blue)
    | inr admin ↦ ground (arith, a.sent, a.signed, a.subject, a.stored, admin)
  ]

  -- A call behind the two checks runs for an authorized user.
  authorized-runs :
      {A : Type 0} (u : User) (a : IsAuthorized u) (k : User → GameSession → Action Server A)
      → authorized t header (some sid) k s ≡ k u a.session s
  unfolding get_authorized_session get_session ensure_uuid
  authorized-runs u a k = ground (arith, blue_user-runs u a, a.present, a.own)

  -- Without an authorized user, every call behind them is refused and changes nothing.
  authorized-cases :
      ((u : User) × IsAuthorized u)
      ⊎ ((e : Exn) × ((A : Type 0) (k : User → GameSession → Action Server A)
            → authorized t header (some sid) k s ≡ (err e, s)))
  unfolding get_authorized_session get_session ensure_uuid
  authorized-cases = elim (Result-cases (get_blue_team_user t header s).0) [
    | inr (x, denied) ↦ inr (x, λ A k. ground (arith, denied, blue_user-same))
    | inl (u, known) ↦ elim (Option-cases (find? (has_id sid) s.sessions)) [
      | inl missing ↦
          inr (http 404 session_not_found, λ A k. ground (arith, known, blue_user-same, missing))
      | inr (g, present) ↦ elim (Bool-cases (g.lab_instance_id == u.lab_instance_id)) [
        | inr foreign ↦ inr (
          http 404 session_not_found,
          λ A k. ground (arith, known, blue_user-same, present, foreign),
        )
        | inl own ↦ inl (
          u,
          let (v, blue) = blue_user-IsVerified u known in
              record {
                session = g;
                token = v.token;
                sent = v.sent;
                payload = v.payload;
                signed = v.signed;
                name = v.name;
                subject = v.subject;
                stored = v.stored;
                blue = blue_cases u.role blue;
                present = present;
                own = ground (arith, own);
              },
        )
      ]
    ]
  ]

  -- A purchase through the endpoint is the purchase for a session of the lab of a verified Blue
  -- Team user, and an investigation is one by that user; or both are refused and change nothing.
  abbrev pub IsGuarded : String → Heuristics → ℕ → Bool → Type 0
  IsGuarded defense h log claim =
      ((u : User) × IsAuthorized u
        × (buy_defense t header sid defense s ≡ process_defense_purchase sid defense s)
        × (investigate_log t header sid h log claim s
            ≡ process_investigation h log claim sid u.id s))
      ⊎ ((e : Exn) × (buy_defense t header sid defense s ≡ (err e, s))
          × (investigate_log t header sid h log claim s ≡ (err e, s)))

  -- A purchase through the endpoint is the purchase for a session of the lab of a verified Blue
  -- Team user, and an investigation is one by that user; any other request is refused and changes
  -- nothing.
  pub blue_requests-IsGuarded :
      (defense : String) (h : Heuristics) (log : ℕ) (claim : Bool) → IsGuarded defense h log claim
  unfolding buy_defense investigate_log
  blue_requests-IsGuarded defense h log claim = elim authorized-cases [
    | inl (u, a) ↦ inl (
      u,
      a,
      authorized-runs u a (λ v g. process_defense_purchase sid defense),
      authorized-runs u a (λ v g. process_investigation h log claim sid v.id),
    )
    | inr (e, denied) ↦ inr (
      e,
      denied _ (λ v g. process_defense_purchase sid defense),
      denied _ (λ v g. process_investigation h log claim sid v.id),
    )
  ]
