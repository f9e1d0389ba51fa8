-- ===== src/Labs/Exercises/Seeding.antt =====
-- What the steps of a seeding leave in the tables.
use cyber_range.Common.{
  ℕ, ◌≡◌, String, Bool, true, List, [], ◌∷◌, ◌++◌, ◌==◌, ◌&&◌, any, any-append, str_eq_iff, All,
  map, select, arith, refl, subst, ap, sym, ◌∙◌, str_eq, append_assoc, append-nil, Option-cases,
  Bool-cases, inl, inr,
}
use Prim.Native.String.{◌++◌ as str_append}
use cyber_range.Http.{ok, Result-cases}
use cyber_range.Db.{GameSession, CtfFlag, LabSecret, Server}
use cyber_range.Labs.Secrets.{exercises_for_lab, add_secret}
use cyber_range.Auth.{get_by_username}
use cyber_range.Ctf.{register_flag, add_flag}
use cyber_range.Chat.Threads.{add_seeded_thread}
use cyber_range.Labs.Exercises.{
  rewards, reward_of, stored_value, missing_from, get_or_create_hidden_user, seed_conversation,
  seed_flag, seed_flags, drawn,
}

any-left : {A : Type 0} (p : A → Bool) (xs ys : List A) → any p xs ≡ true → any p (xs ++ ys) ≡ true
any-left p xs ys h = ground (any-append p xs ys, h, arith)

any-last :
    {A : Type 0} (p : A → Bool) (xs : List A) (a : A) → p a ≡ true → any p (xs ++ a ∷ []) ≡ true
any-last p xs a h = ground (any-append p xs (a ∷ []), h, arith)

listed-last :
    (lab : ℕ) (r : LabSecret) (xs : List LabSecret)
    → r.lab_instance_id ≡ lab
    → map (λ x. x.exercise) (select (λ x. x.lab_instance_id == lab) (xs ++ r ∷ []))
      ≡ map (λ x. x.exercise) (select (λ x. x.lab_instance_id == lab) xs) ++ r.exercise ∷ []
listed-last lab r [] h = ground (arith, h)
listed-last lab r (x ∷ xs) h = ground (arith, listed-last lab r xs h)

-- The tables that neither the hidden user nor the conversation writes
record KeepsGame (s t : Server) : Type 0 where
  flags : t.flags ≡ s.flags
  secrets : t.secrets ≡ s.secrets
  sessions : t.sessions ≡ s.sessions

get_or_create_hidden_user-KeepsGame :
    (name role : String) (lab : ℕ) (hash : String) (s : Server)
    → KeepsGame s (get_or_create_hidden_user name role lab hash s).1
unfolding get_or_create_hidden_user
get_or_create_hidden_user-KeepsGame name role lab hash s =
    elim (Option-cases (get_by_username name s)) [
      | inl missing ↦ record {
        flags = ground (arith, missing);
        secrets = ground (arith, missing);
        sessions = ground (arith, missing);
      }
      | inr (u, found) ↦ record {
        flags = ground (arith, found);
        secrets = ground (arith, found);
        sessions = ground (arith, found);
      }
    ]

module _ (hash : String → String) (uuid_hex : ℕ → String) (password_hash : String) where
  seed_conversation-KeepsGame :
      (lab : ℕ) (g : GameSession) (value : String) (s : Server)
      → KeepsGame s (seed_conversation hash uuid_hex password_hash lab g value s).1
  unfolding seed_conversation add_seeded_thread
  seed_conversation-KeepsGame lab g value s =
      let name = str_append "staff_" (uuid_hex lab) in
      let k = get_or_create_hidden_user-KeepsGame name "staff" lab password_hash s in
      elim (Result-cases (get_or_create_hidden_user name "staff" lab password_hash s).0) [
        | inl (u, made) ↦ record {
          flags = ground (arith, made, k.flags);
          secrets = ground (arith, made, k.secrets);
          sessions = ground (arith, made, k.sessions);
        }
        | inr (e, failed) ↦ record {
          flags = ground (arith, failed, k.flags);
          secrets = ground (arith, failed, k.secrets);
          sessions = ground (arith, failed, k.sessions);
        }
      ]

  -- One flag more, with its reward and its secret
  record Adds (lab : ℕ) (exercise value : String) (s t : Server) : Type 0 where
    id : ℕ
    flags :
        t.flags
        ≡ s.flags
          ++ record { id = id; flag_value = hash value; reward = reward_of exercise; lab_id = lab }
            ∷ []
    secrets :
        t.secrets
        ≡ s.secrets
          ++ record {
            lab_instance_id = lab;
            exercise = exercise;
            flag_id = id;
            value = stored_value hash uuid_hex password_hash exercise value;
          }
            ∷ []
    sessions : t.sessions ≡ s.sessions

  abbrev with_flag : ℕ → String → String → Server → Server
  with_flag lab exercise value s =
      let (flag, s') = register_flag hash uuid_hex lab value (reward_of exercise) s in
      add_secret lab exercise flag.id (stored_value hash uuid_hex password_hash exercise value) s'

  seed_flag-Adds :
      (lab : ℕ) (g : GameSession) (exercise value : String) (s : Server)
      → Adds lab exercise value s (seed_flag hash uuid_hex password_hash lab g exercise value s).1
  unfolding seed_flag register_flag add_flag add_secret
  seed_flag-Adds lab g exercise value s = elim (Bool-cases (str_eq exercise "EX-04")) [
    | inr other ↦ record {
      id = s.next_id;
      flags = ground (arith, other);
      secrets = ground (arith, other);
      sessions = ground (arith, other);
    }
    | inl staff ↦
        let k = seed_conversation-KeepsGame lab g value (with_flag lab exercise value s) in
        record {
          id = s.next_id;
          flags = ground (arith, staff, k.flags);
          secrets = ground (arith, staff, k.secrets);
          sessions = ground (arith, staff, k.sessions);
        }
  ]

  -- The exercises of a lab after a step
  exercises-Adds :
      (lab : ℕ) (exercise value : String) (s t : Server)
      → Adds lab exercise value s t
      → exercises_for_lab lab t ≡ exercises_for_lab lab s ++ exercise ∷ []
  unfolding exercises_for_lab
  exercises-Adds lab exercise value s t a = rw a.secrets (listed-last lab _ s.secrets refl)

  -- The flag is in the table, as the hash of its text, with its reward.
  abbrev pub is_registered : ℕ → String → String → CtfFlag → Bool
  is_registered lab exercise value f =
      str_eq f.flag_value (hash value) && f.lab_id == lab && f.reward == reward_of exercise

  abbrev pub IsRegistered : ℕ → Server → String × String → Type 0
  IsRegistered lab s (exercise, value) = any (is_registered lab exercise value) s.flags ≡ true

  -- What the loop leaves: every exercise of the list is registered and listed.
  pub record Seeds (new_flag : String → String) (lab : ℕ) (es : List String) (s t : Server)
      : Type 0 where
    pub listed : exercises_for_lab lab t ≡ exercises_for_lab lab s ++ es
    pub sessions : t.sessions ≡ s.sessions
    pub older : (p : CtfFlag → Bool) → any p s.flags ≡ true → any p t.flags ≡ true
    pub registered : All (IsRegistered lab t) (drawn hash uuid_hex password_hash new_flag es)

  pub seed_flags-Seeds :
      (new_flag : String → String) (lab : ℕ) (g : GameSession) (es : List String) (s t : Server)
      → seed_flags hash uuid_hex password_hash new_flag lab g es s ≡ (ok tt, t)
      → Seeds new_flag lab es s t
  unfolding seed_flags
  seed_flags-Seeds new_flag lab g [] s t e =
      let same : s ≡ t = ground (arith, e) in
      subst (Seeds new_flag lab [] s) same (record {
        listed = sym (append-nil (exercises_for_lab lab s));
        sessions = refl;
        older = λ p h. h;
        registered = tt;
      })
  seed_flags-Seeds new_flag lab g (x ∷ es) s t e =
      elim (Result-cases (seed_flag hash uuid_hex password_hash lab g x (new_flag x) s).0) [
        | inr (y, failed) ↦ absurd (ground (arith, e, failed))
        | inl (u, done) ↦
            let m = (seed_flag hash uuid_hex password_hash lab g x (new_flag x) s).1 in
            let a = seed_flag-Adds lab g x (new_flag x) s in
            let rest = seed_flags-Seeds new_flag lab g es m t (ground (arith, e, done)) in
            record {
              listed =
                  rest.listed
                  ∙ ap (λ l. l ++ es) (exercises-Adds lab x (new_flag x) s m a)
                  ∙ append_assoc (exercises_for_lab lab s) (x ∷ []) es;
              sessions = rest.sessions ∙ a.sessions;
              older = λ p h. rest.older p (rw a.flags (any-left p s.flags _ h));
              registered = (
                rest.older (is_registered lab x (new_flag x)) (
                    rw a.flags (
                      any-last (is_registered lab x (new_flag x)) s.flags _
                        (ground (arith, str_eq_iff (hash (new_flag x)) (hash (new_flag x)))))),
                rest.registered,
              );
            }
      ]

-- Nothing is missing after the missing exercises were added.
pub missing_from-all :
    (seeded : List String) → missing_from rewards (seeded ++ missing_from rewards seeded) ≡ []
unfolding missing_from
missing_from-all seeded =
    let added = missing_from rewards seeded in
    ground (
      arith,
      any-append (str_eq "EX-03") seeded added,
      any-append (str_eq "EX-04") seeded added,
      any-append (str_eq "EX-05") seeded added,
    )
