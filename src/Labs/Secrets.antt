-- ===== src/Labs/Secrets.antt =====
-- Exercise secrets of a lab: `LabSecretRepository` of backend/app/labs/repository.py, and
-- `get_exercise_secret` of labs/service.py.
use cyber_range.Common.{
  ℕ, String, Bool, Option, none, some, List, [], ◌∷◌, ◌++◌, ◌==◌, ◌&&◌, map, find?, select, str_eq,
}
use cyber_range.Db.{LabSecret, Server}

abbrev pub is_secret : ℕ → String → LabSecret → Bool
is_secret lab exercise x = x.lab_instance_id == lab && str_eq x.exercise exercise

-- `get`
unfoldable pub get_secret : ℕ → String → Server → Option LabSecret
get_secret lab exercise s = find? (is_secret lab exercise) s.secrets

-- `exercises_for_lab`, as the list of the rows' exercises
unfoldable pub exercises_for_lab : ℕ → Server → List String
exercises_for_lab lab s = map (λ x. x.exercise) (select (λ x. x.lab_instance_id == lab) s.secrets)

-- `add`
unfoldable pub add_secret : ℕ → String → ℕ → Option String → Server → Server
add_secret lab exercise flag_id value s = record s {
  secrets =
      s.secrets
      ++ record { lab_instance_id = lab; exercise = exercise; flag_id = flag_id; value = value }
        ∷ [];
}

abbrev value_of : Option LabSecret → Option String
value_of none = none
value_of (some x) = x.value

unfoldable pub get_exercise_secret : ℕ → String → Server → Option String
unfolding get_secret
get_exercise_secret lab exercise s = value_of (get_secret lab exercise s)
