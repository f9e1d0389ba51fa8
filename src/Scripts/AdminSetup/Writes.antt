-- ===== src/Scripts/AdminSetup/Writes.antt =====
-- When `seed` writes rows, and what a lab has afterwards.
use cyber_range.Common.{
  ℕ, ◌≡◌, String, Bool, Option, none, some, List, [], ◌∷◌, ◌==◌, arith, refl, str_eq, Option-cases,
  Bool-cases, inl, inr, ◌⊎◌,
}
use cyber_range.Http.{
  Result, ok, err, Exn, Action, Result-cases, script_error, bad_username, same_usernames,
  negative_budget, other_role_or_lab, team_conflict, multiple_sessions, empty_password,
}
use cyber_range.Db.{User, GameSession, Server}
use cyber_range.Auth.{get_by_username}
use cyber_range.Scripts.AdminSetup.{
  Options, sessions_of, suits_role, existing_user, bad_names, is_negative, only_session, validate,
  resolve_hash, Found, look_up,
}

-- How a call that only reads ends
abbrev Reads : {A : Type 0} → Action Server A → Server → Type 0
Reads {A} m s = ((a : A) × (m s ≡ (ok a, s))) ⊎ ((e : Exn) × (m s ≡ (err e, s)))

existing_user-Reads :
    (name role : String) (lab : ℕ) (s : Server) → Reads (existing_user name role lab) s
unfolding existing_user
existing_user-Reads name role lab s = elim (Option-cases (get_by_username name s)) [
  | inl missing ↦ inl (none, ground (arith, missing))
  | inr (u, found) ↦ elim (Bool-cases (suits_role role lab u)) [
    | inl suits ↦ inl (some u, ground (arith, found, suits))
    | inr foreign ↦ inr (script_error other_role_or_lab, ground (arith, found, foreign))
  ]
]

only_session-Reads :
    (team : Option ℕ) (gs : List GameSession) (s : Server) → Reads (only_session team gs) s
unfolding only_session
only_session-Reads team [] s = inl (none, refl)
only_session-Reads none (g ∷ []) s = inl (some g, refl)
only_session-Reads (some t) (g ∷ []) s = elim (Bool-cases (g.team_id == t)) [
  | inl same ↦ inl (some g, ground (arith, same))
  | inr other ↦ inr (script_error team_conflict, ground (arith, other))
]
only_session-Reads team (g ∷ h ∷ r) s = inr (script_error multiple_sessions, refl)

module _ (is_trimmed : String → Bool) where
  validate-Reads : (o : Options) (s : Server) → Reads (validate is_trimmed o) s
  unfolding validate
  validate-Reads o s = elim (Bool-cases (bad_names is_trimmed o)) [
    | inl bad ↦ inr (script_error bad_username, ground (arith, bad))
    | inr good ↦ elim (Bool-cases (str_eq o.red_username o.blue_username)) [
      | inl same ↦ inr (script_error same_usernames, ground (arith, good, same))
      | inr distinct ↦ elim (Bool-cases (is_negative o.budget)) [
        | inl debt ↦ inr (script_error negative_budget, ground (arith, good, distinct, debt))
        | inr funded ↦ inl (tt, ground (arith, good, distinct, funded))
      ]
    ]
  ]

  module _ (password_lookup : String → Result String) (hash_password : String → String) where
    resolve_hash-Reads :
        (role : String) (o : Option User) (s : Server)
        → Reads (resolve_hash is_trimmed password_lookup hash_password role o) s
    unfolding resolve_hash
    resolve_hash-Reads role (some u) s = inl (none, refl)
    resolve_hash-Reads role none s = elim (Result-cases (password_lookup role)) [
      | inr (e, raised) ↦ inr (e, ground (arith, raised))
      | inl (p, given) ↦ elim (Bool-cases (str_eq p "")) [
        | inl empty ↦ inr (script_error empty_password, ground (arith, given, empty))
        | inr filled ↦ inl (some (hash_password p), ground (arith, given, filled))
      ]
    ]

    -- What `look_up` has found, by its steps
    pub record IsFound (o : Options) (s : Server) (f : Found) : Type 0 where
      pub valid : validate is_trimmed o s ≡ (ok tt, s)
      pub red : existing_user o.red_username "red_team" o.lab_id s ≡ (ok f.red, s)
      pub blue : existing_user o.blue_username "blue_team" o.lab_id s ≡ (ok f.blue, s)
      pub session : only_session o.team_id (sessions_of o.lab_id s) s ≡ (ok f.session, s)
      pub red_hash :
          resolve_hash is_trimmed password_lookup hash_password "red_team" f.red s
          ≡ (ok f.red_hash, s)
      pub blue_hash :
          resolve_hash is_trimmed password_lookup hash_password "blue_team" f.blue s
          ≡ (ok f.blue_hash, s)

    pub look_up-cases :
        (o : Options) (s : Server)
        → ((f : Found) × ((look_up is_trimmed password_lookup hash_password o s ≡ (ok f, s))
              × IsFound o s f))
          ⊎ ((e : Exn) × (look_up is_trimmed password_lookup hash_password o s ≡ (err e, s)))
    unfolding look_up
    look_up-cases o s = elim (validate-Reads o s) [
      | inr (e, a) ↦ inr (e, ground (arith, a))
      | inl (t, a) ↦ elim (existing_user-Reads o.red_username "red_team" o.lab_id s) [
        | inr (e, b) ↦ inr (e, ground (arith, a, b))
        | inl (red, b) ↦ elim (existing_user-Reads o.blue_username "blue_team" o.lab_id s) [
          | inr (e, c) ↦ inr (e, ground (arith, a, b, c))
          | inl (blue, c) ↦ elim (only_session-Reads o.team_id (sessions_of o.lab_id s) s) [
            | inr (e, d) ↦ inr (e, ground (arith, a, b, c, d))
            | inl (session, d) ↦ elim (resolve_hash-Reads "red_team" red s) [
              | inr (e, h) ↦ inr (e, ground (arith, a, b, c, d, h))
              | inl (red_hash, h) ↦ elim (resolve_hash-Reads "blue_team" blue s) [
                | inr (e, k) ↦ inr (e, ground (arith, a, b, c, d, h, k))
                | inl (blue_hash, k) ↦ inl (
                  _,
                  (
                    ground (arith, a, b, c, d, h, k),
                    record {
                      valid = a;
                      red = b;
                      blue = c;
                      session = d;
                      red_hash = h;
                      blue_hash = k;
                    },
                  ),
                )
              ]
            ]
          ]
        ]
      ]
    ]
