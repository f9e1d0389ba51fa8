-- ===== src/Scripts/AdminSetup/Provision.antt =====
-- What a lab has after `seed`, and that a second run changes nothing.
use cyber_range.Common.{
  ℕ, ◌≡◌, String, Bool, true, false, Option, none, some, ◌==◌, arith, refl, ap, sym, subst, ◌∙◌,
  find?, select, str_eq, str_eq_iff, Bool-cases, inl, inr, ◌⊎◌,
}
use cyber_range.Http.{Result, ok, err, Exn, Result-cases}
use cyber_range.Db.{User, GameSession, Server}
use cyber_range.Auth.{get_by_username}
use cyber_range.Scripts.AdminSetup.{
  Options, Report, sessions_of, validate, resolve_hash, bad_names, is_negative, report_of,
  created_of, is_missing, Found, look_up, keep_or_add, keep_or_start, write_rows, seed,
  seed_transaction,
}
use cyber_range.Scripts.AdminSetup.Writes.{IsFound, look_up-cases}
use cyber_range.Scripts.AdminSetup.Rows.{
  IsPlaced, IsOnly, existing_user-IsPlaced, existing_user_moved, IsPlaced-moved, keep_or_add-Adds,
  only_session_moved, only_session-IsOnly, keep_or_start-IsOnly,
}

sessions_of_moved :
    (lab : ℕ) (s t : Server) → t.sessions ≡ s.sessions → sessions_of lab s ≡ sessions_of lab t
unfolding sessions_of
sessions_of_moved lab s t m = sym (ap (select (λ g. g.lab_instance_id == lab)) m)

get_by_username_moved :
    (name : String) (s t : Server)
    → t.users ≡ s.users
    → get_by_username name t ≡ get_by_username name s
unfolding get_by_username
get_by_username_moved name s t m = ap (find? (λ u. str_eq u.username name)) m

differ_sym : (a b : String) → str_eq a b ≡ false → str_eq b a ≡ false
differ_sym a b h = ground (arith, str_eq_iff a b, str_eq_iff b a)

distinct_names :
    (is_trimmed : String → Bool) (o : Options) (s : Server)
    → validate is_trimmed o s ≡ (ok tt, s)
    → str_eq o.red_username o.blue_username ≡ false
unfolding validate
distinct_names is_trimmed o s e = elim (Bool-cases (bad_names is_trimmed o)) [
  | inl bad ↦ absurd (ground (arith, e, bad))
  | inr good ↦ elim (Bool-cases (str_eq o.red_username o.blue_username)) [
    | inl same ↦ absurd (ground (arith, e, good, same))
    | inr distinct ↦ distinct
  ]
]

-- Whether the options are valid does not depend on the rows.
validate_anywhere :
    (is_trimmed : String → Bool) (o : Options) (s t : Server)
    → validate is_trimmed o s ≡ (ok tt, s)
    → validate is_trimmed o t ≡ (ok tt, t)
unfolding validate
validate_anywhere is_trimmed o s t e = elim (Bool-cases (bad_names is_trimmed o)) [
  | inl bad ↦ absurd (ground (arith, e, bad))
  | inr good ↦ elim (Bool-cases (str_eq o.red_username o.blue_username)) [
    | inl same ↦ absurd (ground (arith, e, good, same))
    | inr distinct ↦ elim (Bool-cases (is_negative o.budget)) [
      | inl debt ↦ absurd (ground (arith, e, good, distinct, debt))
      | inr funded ↦ ground (arith, good, distinct, funded)
    ]
  ]
]

is_missing-none : {A : Type 0} (o : Option A) → is_missing o ≡ true → o ≡ none
is_missing-none none e = refl
is_missing-none (some a) e = absurd (ground (arith, e))

module _ (is_trimmed : String → Bool) (password_lookup : String → Result String)
    (hash_password : String → String) where
  -- The lab as `o` describes it: both users in place, one session, and the report tells their IDs.
  -- A red user whom the run has created has the password that was looked up, and a session that
  -- it has created is without Login Hardening.
  pub record IsProvisioned (o : Options) (r : Report) (s : Server) : Type 0 where
    pub red : User
    pub blue : User
    pub session : GameSession
    pub valid : validate is_trimmed o s ≡ (ok tt, s)
    pub red_placed : IsPlaced o.red_username "red_team" o.lab_id red s
    pub blue_placed : IsPlaced o.blue_username "blue_team" o.lab_id blue s
    pub one_session : IsOnly o session s
    pub reported : r ≡ report_of o red blue session r.created
    pub new_red :
        r.created.red_team ≡ true
        → (p : String) × (password_lookup "red_team" ≡ ok p) × (red.password_hash ≡ hash_password p)
    pub new_session : r.created.session ≡ true → session.login_hardening_enabled ≡ false

  resolve_hash_lookup :
      (role : String) (o : Option User) (h : Option String) (s : Server)
      → resolve_hash is_trimmed password_lookup hash_password role o s ≡ (ok h, s)
      → o ≡ none
      → (p : String) × (password_lookup role ≡ ok p) × (h ≡ some (hash_password p))
  unfolding resolve_hash
  resolve_hash_lookup role (some u) h s e n = absurd (cc)
  resolve_hash_lookup role none h s e n = elim (Result-cases (password_lookup role)) [
    | inr (x, raised) ↦ absurd (ground (arith, e, raised))
    | inl (p, given) ↦ elim (Bool-cases (str_eq p "")) [
      | inl empty ↦ absurd (ground (arith, e, given, empty))
      | inr filled ↦ (p, given, ground (arith, e, given, filled))
    ]
  ]

  resolve_hash_given :
      (role : String) (o : Option User) (h : Option String) (s : Server)
      → resolve_hash is_trimmed password_lookup hash_password role o s ≡ (ok h, s)
      → o ≡ none
      → (p : String) × (h ≡ some p)
  resolve_hash_given role o h s e n =
      let (p, given, hashed) = resolve_hash_lookup role o h s e n in (hash_password p, hashed)

  write_rows-IsProvisioned :
      (o : Options) (f : Found) (s : Server)
      → IsFound is_trimmed password_lookup hash_password o s f
      → (r : Report) × (t : Server) × (write_rows o f s ≡ (ok r, t)) × IsProvisioned o r t
  unfolding write_rows
  write_rows-IsProvisioned o f s i =
      let differ = distinct_names is_trimmed o s i.valid in
      let (red, a, wrote_red, adds_red, red_password) =
        keep_or_add-Adds o.red_username "red_team" o.lab_id f.red f.red_hash s i.red
          (resolve_hash_given "red_team" f.red f.red_hash s i.red_hash) in
      let (blue, b, wrote_blue, adds_blue, blue_password) =
        keep_or_add-Adds o.blue_username "blue_team" o.lab_id f.blue f.blue_hash a
          (existing_user_moved o.blue_username "blue_team" o.lab_id f.blue s a
            (adds_red.others o.blue_username differ) i.blue)
          (resolve_hash_given "blue_team" f.blue f.blue_hash s i.blue_hash) in
      let (g, t, wrote_session, one, kept, soft) = keep_or_start-IsOnly o f.session red.id b (
        only_session_moved o.team_id (sessions_of o.lab_id s) (sessions_of o.lab_id b) f.session s b
          (sessions_of_moved o.lab_id s b (adds_blue.kept ∙ adds_red.kept)) i.session) in
      (
        report_of o red blue g (created_of f),
        t,
        ground (arith, wrote_red, wrote_blue, wrote_session),
        record {
          red = red;
          blue = blue;
          session = g;
          valid = validate_anywhere is_trimmed o s t i.valid;
          red_placed =
              IsPlaced-moved o.red_username "red_team" o.lab_id red a t
                (get_by_username_moved o.red_username b t kept
                  ∙ adds_blue.others o.red_username
                      (differ_sym o.red_username o.blue_username differ))
                adds_red.placed;
          blue_placed =
              IsPlaced-moved o.blue_username "blue_team" o.lab_id blue b t
                (get_by_username_moved o.blue_username b t kept) adds_blue.placed;
          one_session = one;
          reported = refl;
          new_red = λ c.
              let absent = is_missing-none f.red c in
              let (p, given, hashed) =
                resolve_hash_lookup "red_team" f.red f.red_hash s i.red_hash absent in
              (p, given, red_password (hash_password p) absent hashed);
          new_session = λ c. soft (is_missing-none f.session c);
        },
      )

  -- The lab is provisioned, or an exception leaves the rows as they were.
  abbrev pub Ends : Options → Server → Type 0
  Ends o s =
      ((r : Report) × (t : Server) × (seed is_trimmed password_lookup hash_password o s ≡ (ok r, t))
        × IsProvisioned o r t)
      ⊎ ((e : Exn) × (seed is_trimmed password_lookup hash_password o s ≡ (err e, s)))

  -- `seed` ends with the lab provisioned, both users in place with one session and the report
  -- telling their IDs, or it raises, and then it has written nothing.
  pub seed_outcome : (o : Options) (s : Server) → Ends o s
  unfolding seed
  seed_outcome o s = elim (look_up-cases is_trimmed password_lookup hash_password o s) [
    | inr (e, raised) ↦ inr (e, ground (arith, raised))
    | inl (f, (found, i)) ↦
        let (r, t, wrote, p) = write_rows-IsProvisioned o f s i in
        inl (r, t, ground (arith, found, wrote), p)
  ]

-- What a second run reports: the same IDs, and that it has created nothing
abbrev pub unchanged : Report → Report
unchanged r = record r { created = record { red_team = false; blue_team = false; session = false } }

module _ (is_trimmed : String → Bool) (password_lookup password_lookup' : String → Result String)
    (hash_password hash_password' : String → String) (o : Options) where
  seed_repeat :
      (r : Report) (s : Server)
      → IsProvisioned is_trimmed password_lookup hash_password o r s
      → seed is_trimmed password_lookup' hash_password' o s ≡ (ok (unchanged r), s)
  unfolding seed look_up write_rows keep_or_add keep_or_start resolve_hash
  seed_repeat r s p =
      let red = existing_user-IsPlaced o.red_username "red_team" o.lab_id p.red s p.red_placed in
      let blue =
        existing_user-IsPlaced o.blue_username "blue_team" o.lab_id p.blue s p.blue_placed in
      let one = only_session-IsOnly o p.session s p.one_session in
      ground (arith, p.valid, red, blue, one, p.reported)

  -- After a run that succeeded, a second run with the same options, whatever the passwords and
  -- the hash, changes nothing and reports the same IDs.
  pub setup_repeat :
      (r : Report) (s t : Server)
      → seed_transaction is_trimmed password_lookup hash_password o s ≡ (ok r, t)
      → seed_transaction is_trimmed password_lookup' hash_password' o t ≡ (ok (unchanged r), t)
  unfolding seed_transaction
  setup_repeat r s t e = elim (seed_outcome is_trimmed password_lookup hash_password o s) [
    | inr (x, raised) ↦ absurd (ground (arith, raised, e))
    | inl (r', t', ended, p) ↦
        let same : (r' ≡ r) × (t' ≡ t) = ground (arith, ended, e) in
        ground (arith, same, seed_repeat r' t' p)
  ]

  -- A run that succeeded has provisioned the lab.
  pub setup-IsProvisioned :
      (r : Report) (s t : Server)
      → seed_transaction is_trimmed password_lookup hash_password o s ≡ (ok r, t)
      → IsProvisioned is_trimmed password_lookup hash_password o r t
  unfolding seed_transaction
  setup-IsProvisioned r s t e = elim (seed_outcome is_trimmed password_lookup hash_password o s) [
    | inr (x, raised) ↦ absurd (ground (arith, raised, e))
    | inl (r', t', ended, p) ↦
        let same_report : r' ≡ r = ground (arith, ended, e) in
        let same_rows : t' ≡ t = ground (arith, ended, e) in
        subst (IsProvisioned is_trimmed password_lookup hash_password o r) same_rows
          (subst (λ x. IsProvisioned is_trimmed password_lookup hash_password o x t') same_report p)
  ]
