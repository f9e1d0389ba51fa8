-- ===== src/Scripts/AdminSetup/Rows.antt =====
-- The rows of one user and of the session, before and after `seed` has put them in place.
use cyber_range.Common.{
  ℕ, ◌≡◌, ◌+◌, String, Bool, true, false, Option, none, some, List, [], ◌∷◌, ◌++◌, ◌==◌, arith,
  refl, subst, ◌∙◌, find?-append, find?-append_miss, select-append, find?-passes, str_eq,
  str_eq_iff, Option-cases, Bool-cases, inl, inr,
}
use cyber_range.Common.Int.{ℤ}
use cyber_range.Http.{ok}
use cyber_range.Db.{User, GameSession, Server}
use cyber_range.Auth.{get_by_username}
use cyber_range.Scripts.AdminSetup.{
  Options, sessions_of, suits_role, conflicts, existing_user, only_session, keep_or_add,
  keep_or_start, add_user, add_session, team_or, fresh_session,
}

-- The user `u` has the name, and the role and the lab that were asked for.
pub record IsPlaced (name role : String) (lab : ℕ) (u : User) (s : Server) : Type 0 where
  pub found : get_by_username name s ≡ some u
  pub suits : suits_role role lab u ≡ true
  pub named : str_eq u.username name ≡ true

-- The outcome of a lookup, by the user that it gives
existing_user-some :
    (name role : String) (lab : ℕ) (u : User) (s : Server)
    → existing_user name role lab s ≡ (ok (some u), s)
    → IsPlaced name role lab u s
unfolding existing_user get_by_username
existing_user-some name role lab u s e = elim (Option-cases (get_by_username name s)) [
  | inl missing ↦ absurd (ground (arith, e, missing))
  | inr (v, found) ↦ elim (Bool-cases (suits_role role lab v)) [
    | inr foreign ↦ absurd (ground (arith, e, found, foreign))
    | inl suits ↦ record {
      found = ground (arith, e, found, suits);
      suits = ground (arith, e, found, suits);
      named =
          ground
            (arith, e, found, suits, find?-passes (λ w. str_eq w.username name) s.users v found);
    }
  ]
]

existing_user-none :
    (name role : String) (lab : ℕ) (s : Server)
    → existing_user name role lab s ≡ (ok none, s)
    → get_by_username name s ≡ none
unfolding existing_user
existing_user-none name role lab s e = elim (Option-cases (get_by_username name s)) [
  | inl missing ↦ missing
  | inr (v, found) ↦ elim (Bool-cases (suits_role role lab v)) [
    | inr foreign ↦ absurd (ground (arith, e, found, foreign))
    | inl suits ↦ absurd (ground (arith, e, found, suits))
  ]
]

-- A user who is in place is found again.
pub existing_user-IsPlaced :
    (name role : String) (lab : ℕ) (u : User) (s : Server)
    → IsPlaced name role lab u s
    → existing_user name role lab s ≡ (ok (some u), s)
unfolding existing_user
existing_user-IsPlaced name role lab u s p = ground (arith, p.found, p.suits)

-- A lookup depends on the rows of its name only.
pub existing_user_moved :
    (name role : String) (lab : ℕ) (o : Option User) (s t : Server)
    → get_by_username name t ≡ get_by_username name s
    → existing_user name role lab s ≡ (ok o, s)
    → existing_user name role lab t ≡ (ok o, t)
unfolding existing_user
existing_user_moved name role lab o s t m e = elim (Option-cases (get_by_username name s)) [
  | inl missing ↦ ground (arith, m, e, missing)
  | inr (v, found) ↦ elim (Bool-cases (suits_role role lab v)) [
    | inr foreign ↦ absurd (ground (arith, e, found, foreign))
    | inl suits ↦ ground (arith, m, e, found, suits)
  ]
]

pub IsPlaced-moved :
    (name role : String) (lab : ℕ) (u : User) (s t : Server)
    → get_by_username name t ≡ get_by_username name s
    → IsPlaced name role lab u s
    → IsPlaced name role lab u t
IsPlaced-moved name role lab u s t m p = record {
  found = m ∙ p.found;
  suits = p.suits;
  named = p.named;
}

-- From `s` to `t`, the user `u` has been put in place, and nobody else has been touched.
pub record Adds (name role : String) (lab : ℕ) (u : User) (s t : Server) : Type 0 where
  pub placed : IsPlaced name role lab u t
  pub kept : t.sessions ≡ s.sessions
  pub others :
      (other : String)
      → str_eq name other ≡ false
      → get_by_username other t ≡ get_by_username other s

abbrev row : ℕ → String → String → ℕ → String → User
row id name role lab hash = record {
  id = id;
  username = name;
  password_hash = hash;
  role = role;
  lab_instance_id = lab;
}

abbrev with_user : User → Server → Server
with_user u s = record s { users = s.users ++ u ∷ []; next_id = s.next_id + 1 }

added_user :
    (name role : String) (lab : ℕ) (hash : String) (s : Server)
    → get_by_username name s ≡ none
    → Adds name role lab
        (row s.next_id name role lab hash)
        s
        (with_user (row s.next_id name role lab hash) s)
unfolding get_by_username
added_user name role lab hash s missing =
    let u = row s.next_id name role lab hash in
    record {
      placed = record {
        found =
            find?-append (λ v. str_eq v.username name) s.users (u ∷ []) missing
            ∙ ground (arith, str_eq_iff name name);
        suits = ground (arith, str_eq_iff role role);
        named = ground (arith, str_eq_iff name name);
      };
      kept = refl;
      others = λ other e. find?-append_miss (λ v. str_eq v.username other) s.users u e;
    }

pub keep_or_add-Adds :
    (name role : String) (lab : ℕ) (o : Option User) (h : Option String) (s : Server)
    → existing_user name role lab s ≡ (ok o, s)
    → (o ≡ none → (p : String) × (h ≡ some p))
    → (u : User) × (t : Server) × (keep_or_add o h name role lab s ≡ (ok u, t))
      × Adds name role lab u s t
      × ((p : String) → o ≡ none → h ≡ some p → u.password_hash ≡ p)
unfolding keep_or_add add_user
keep_or_add-Adds name role lab (some u) h s e k = (
  u,
  s,
  refl,
  record { placed = existing_user-some name role lab u s e; kept = refl; others = λ other n. refl },
  λ p n. absurd (cc),
)
keep_or_add-Adds name role lab none h s e k =
    let (p, hashed) = k refl in
    (
      row s.next_id name role lab p,
      with_user (row s.next_id name role lab p) s,
      rw hashed refl,
      added_user name role lab p s (existing_user-none name role lab s e),
      λ q n same. ground (arith, hashed, same),
    )

-- The lab has the session `g` and no other, and its team is the one that was asked for.
pub record IsOnly (o : Options) (g : GameSession) (s : Server) : Type 0 where
  pub only : sessions_of o.lab_id s ≡ g ∷ []
  pub agrees : conflicts o.team_id g ≡ false

only_session-some :
    (team : Option ℕ) (gs : List GameSession) (g : GameSession) (s : Server)
    → only_session team gs s ≡ (ok (some g), s)
    → (gs ≡ g ∷ []) × (conflicts team g ≡ false)
unfolding only_session
only_session-some team [] g s e = absurd (ground (arith, e))
only_session-some none (h ∷ []) g s e = ground (arith, e)
only_session-some (some t) (h ∷ []) g s e = ground (arith, e)
only_session-some team (h ∷ k ∷ r) g s e = absurd (ground (arith, e))

only_session-none :
    (team : Option ℕ) (gs : List GameSession) (s : Server)
    → only_session team gs s ≡ (ok none, s)
    → gs ≡ []
unfolding only_session
only_session-none team [] s e = refl
only_session-none none (h ∷ []) s e = absurd (ground (arith, e))
only_session-none (some t) (h ∷ []) s e = absurd (ground (arith, e))
only_session-none team (h ∷ k ∷ r) s e = absurd (ground (arith, e))

only_session_anywhere :
    (team : Option ℕ) (gs : List GameSession) (f : Option GameSession) (s t : Server)
    → only_session team gs s ≡ (ok f, s)
    → only_session team gs t ≡ (ok f, t)
unfolding only_session
only_session_anywhere team [] f s t e = ground (arith, e)
only_session_anywhere none (h ∷ []) f s t e = ground (arith, e)
only_session_anywhere (some x) (h ∷ []) f s t e = ground (arith, e)
only_session_anywhere team (h ∷ k ∷ r) f s t e = absurd (ground (arith, e))

pub only_session_moved :
    (team : Option ℕ) (gs hs : List GameSession) (f : Option GameSession) (s t : Server)
    → gs ≡ hs
    → only_session team gs s ≡ (ok f, s)
    → only_session team hs t ≡ (ok f, t)
only_session_moved team gs hs f s t m e =
    subst (λ l. only_session team l t ≡ (ok f, t)) m (only_session_anywhere team gs f s t e)

pub only_session-IsOnly :
    (o : Options) (g : GameSession) (s : Server)
    → IsOnly o g s
    → only_session o.team_id (sessions_of o.lab_id s) s ≡ (ok (some g), s)
unfolding only_session
only_session-IsOnly o g s p = rw p.only (ground (arith, p.agrees))

fresh_session_agrees :
    (id lab red : ℕ) (is_solo : Bool) (budget : ℤ) (team : Option ℕ)
    → conflicts team (fresh_session id lab (team_or team red) is_solo budget) ≡ false
fresh_session_agrees id lab red is_solo budget none = refl
fresh_session_agrees id lab red is_solo budget (some t) = ground arith

pub keep_or_start-IsOnly :
    (o : Options) (f : Option GameSession) (red : ℕ) (s : Server)
    → only_session o.team_id (sessions_of o.lab_id s) s ≡ (ok f, s)
    → (g : GameSession) × (t : Server) × (keep_or_start f o red s ≡ (ok g, t))
      × IsOnly o g t
      × (t.users ≡ s.users)
      × (f ≡ none → g.login_hardening_enabled ≡ false)
unfolding keep_or_start add_session sessions_of
keep_or_start-IsOnly o (some g) red s e =
    let (only, agrees) = only_session-some o.team_id (sessions_of o.lab_id s) g s e in
    (g, s, refl, record { only = only; agrees = agrees }, refl, λ n. absurd (cc))
keep_or_start-IsOnly o none red s e =
    let g = fresh_session s.next_id o.lab_id (team_or o.team_id red) o.is_solo o.budget in
    (
      g,
      record s { sessions = s.sessions ++ g ∷ []; next_id = s.next_id + 1 },
      refl,
      record {
        only =
            select-append (λ x. x.lab_instance_id == o.lab_id) s.sessions (g ∷ [])
            ∙ ground (arith, only_session-none o.team_id (sessions_of o.lab_id s) s e);
        agrees = fresh_session_agrees s.next_id o.lab_id red o.is_solo o.budget o.team_id;
      },
      refl,
      λ n. refl,
    )
