-- ===== src/Siem/Worker/Outage.antt =====
-- `is_connection_error` of backend/app/siem/soc_worker.py: a walk along the causes of an exception,
-- which may form a cycle. An exception is its `id`; fuel counts the rounds of the loop.
pub mod Decides
use cyber_range.Common.{
  ℕ, zero, suc, Bool, true, false, Option, none, some, List, [], ◌∷◌, ◌==◌, any, if◌then◌else◌,
}

-- The exceptions of the process, by `id`
pub record Exceptions : Type 0 where
  -- `isinstance(error, NETWORK_ERRORS)`
  pub is_network : ℕ → Bool
  -- `__cause__` and `__context__`
  pub cause : ℕ → Option ℕ
  pub context : ℕ → Option ℕ

-- `error.__cause__ or error.__context__`
abbrev pub first_of : Option ℕ → Option ℕ → Option ℕ
first_of (some e) other = some e
first_of none other = other

unfoldable pub next_error : Exceptions → ℕ → Option ℕ
next_error x e = first_of (x.cause e) (x.context e)

abbrev pub is_in : ℕ → List ℕ → Bool
is_in e seen = any (λ k. k == e) seen

-- The loop; `none` where the fuel has run out
unfoldable pub walk : Exceptions → ℕ → List ℕ → Option ℕ → Option Bool
walk x zero seen error = none
walk x (suc fuel) seen none = some false
walk x (suc fuel) seen (some e) =
    let rest = walk x fuel (e ∷ seen) (next_error x e) in
    if is_in e seen then some false else if x.is_network e then some true else rest

abbrev pub is_connection_error : Exceptions → ℕ → Option ℕ → Option Bool
is_connection_error x fuel error = walk x fuel [] error
