-- ===== src/Http.antt =====
-- Exceptions of the request handlers, and handlers as actions on a state. `HTTPException` of
-- FastAPI is `http` with its status code and its detail; the other constructors are the exception
-- classes that the handlers of backend/app catch by name.
use cyber_range.Common.{
  ℕ, String, Bool, Option, none, some, ◌≡◌, refl, ◌⊎◌, inl, inr, if◌then◌else◌,
}
use cyber_range.Common.Int.{ℤ}

-- The `detail` of an HTTPException, by the message that the source gives.
pub data Detail : Type 0 where
  invalid_defense session_not_found already_active : Detail
  insufficient_funds : ℕ → ℤ → Detail
  too_many_requests too_many_logins invalid_ids : Detail
  log_not_found already_investigated log_not_in_session : Detail
  invalid_payload invalid_flag already_captured : Detail
  missing_header invalid_token not_authenticated token_expired user_not_found : Detail
  access_restricted invalid_credentials incorrect_credentials not_blue_team : Detail
  wrong_directory too_large not_a_pdf thread_not_found : Detail
  queue_full turn_timed_out body_too_large : Detail
  query_failed : String → Detail

-- The messages of the command-line scripts' SetupError and SeedError.
pub data Fault : Type 0 where
  bad_username same_usernames negative_budget other_role_or_lab multiple_sessions : Fault
  team_conflict empty_password no_password lab_without_session no_private_flag : Fault
  not_indexed wrong_driver : Fault

pub data Exn : Type 0 where
  http : ℕ → Detail → Exn
  script_error : Fault → Exn
  value_error type_error token_error unavailable : Exn
  queue_empty runtime_error cancelled key_error : Exn

pub data Result (A : Type 0) : Type 0 where
  ok : A → Result A
  err : Exn → Result A

-- A handler: the state comes back after a raise too, since what was committed stays committed.
abbrev pub Action : Type 0 → Type 0 → Type 0
Action S A = S → Result A × S

module _ {S A : Type 0} where
  abbrev pub pure : A → Action S A
  pure a s = (ok a, s)

  abbrev pub raise : Exn → Action S A
  raise e s = (err e, s)

  abbrev pub gets : (S → A) → Action S A
  gets f s = (ok (f s), s)

  -- a call that may raise and touches no state
  abbrev pub lift : Result A → Action S A
  lift r s = (r, s)

  -- `x = …; if x is None: raise e`
  abbrev pub or_raise : Option A → Exn → Action S A
  or_raise none e = raise e
  or_raise (some a) e = pure a

abbrev pub modify : {S : Type 0} → (S → S) → Action S Unit
modify f s = (ok tt, f s)

-- `if c: raise e`
abbrev pub raise_if : {S : Type 0} → Bool → Exn → Action S Unit
raise_if c e s = (if c then err e else ok tt, s)

infixl 5 ◌>>=◌ ◌>>◌
abbrev pub ◌>>=◌ : {S A B : Type 0} → Action S A → (A → Action S B) → Action S B
◌>>=◌ m f s = let (r, s') = m s in elim r [ ok a ↦ f a s' | err e ↦ (err e, s') ]

abbrev pub ◌>>◌ : {S A B : Type 0} → Action S A → Action S B → Action S B
m >> k = m >>= λ _. k

-- A call that returned a value.
abbrev pub Returns : {S A : Type 0} → Result A × S → Type 0
Returns {A} r = (a : A) × (r.0 ≡ ok a)

pub Result-cases : {A : Type 0} (r : Result A) → ((a : A) × (r ≡ ok a)) ⊎ ((e : Exn) × (r ≡ err e))
Result-cases (ok a) = inl (a, refl)
Result-cases (err e) = inr (e, refl)
