-- ===== src/Defense/Ownership.antt =====
-- What `activate` switches on: the bought defense and no other.
use cyber_range.Common.{
  ℕ, ◌+◌, String, true, false, ◌≡◌, refl, some, arith, subst, sym, Bool-cases, inl, inr, str_eq,
  str_eq_iff, if◌then◌else◌,
}
use cyber_range.Common.Int.{ℤ}
use cyber_range.Db.{GameSession}
use cyber_range.Defense.{price_of, already_owned, activate, prompt_overridden}

-- The value of what a session owns, in points of the price list.
unfoldable pub owned_value : GameSession → ℕ
owned_value g =
    (if prompt_overridden g then 2 else 0)
    + (if g.rate_limit_enabled then 3 else 0)
    + (if g.use_reranker then 4 else 0)
    + (if g.jwt_filter_enabled then 2 else 0)
    + (if g.login_hardening_enabled then 2 else 0)

-- What holds of the five defenses at their prices holds of everything that has a price.
module _ (P : String → ℕ → Type 0) where
  at_key : (t k : String) (n p : ℕ) → str_eq t k ≡ true → P k n → some n ≡ some p → P t p
  at_key t k n p same here e =
      subst (λ u. P u p) (sym ((str_eq_iff t k).0 same)) (subst (P k) (cc) here)

  pub price_of-cases :
      P "system_prompt" 2
      → P "jwt_filter" 2
      → P "rate_limit" 3
      → P "reranker" 4
      → P "login_hardening" 2
      → (t : String) (p : ℕ) → price_of t ≡ some p
      → P t p
  unfolding price_of
  price_of-cases a b c d f t p e = elim (Bool-cases (str_eq t "system_prompt")) [
    | inl y ↦ at_key t "system_prompt" 2 p y a (rw y at e)
    | inr n ↦ elim (Bool-cases (str_eq t "jwt_filter")) [
      | inl y ↦ at_key t "jwt_filter" 2 p y b (rw (n, y) at e)
      | inr n' ↦ elim (Bool-cases (str_eq t "rate_limit")) [
        | inl y ↦ at_key t "rate_limit" 3 p y c (rw (n, n', y) at e)
        | inr n'' ↦ elim (Bool-cases (str_eq t "reranker")) [
          | inl y ↦ at_key t "reranker" 4 p y d (rw (n, n', n'', y) at e)
          | inr o ↦ elim (Bool-cases (str_eq t "login_hardening")) [
            | inl y ↦ at_key t "login_hardening" 2 p y f (rw (n, n', n'', o, y) at e)
            | inr o' ↦ absurd (ground arith)
          ]
        ]
      ]
    ]
  ]

-- A bought defense counts as owned.
pub already_owned-activate :
    (t : String) (p : ℕ) (g : GameSession)
    → price_of t ≡ some p
    → already_owned t (activate t g) ≡ true
unfolding already_owned activate
already_owned-activate t p g =
    price_of-cases (λ u _. already_owned u (activate u g) ≡ true) refl refl refl refl refl t p

-- Buying one defense leaves every other one as it was.
pub already_owned-activate_ne :
    (t u : String) (g : GameSession)
    → str_eq t u ≡ false
    → already_owned u (activate t g) ≡ already_owned u g
unfolding already_owned activate
already_owned-activate_ne t u g h = ground (
  arith,
  str_eq_iff t u,
  str_eq_iff t "system_prompt",
  str_eq_iff u "system_prompt",
  str_eq_iff t "rate_limit",
  str_eq_iff u "rate_limit",
  str_eq_iff t "reranker",
  str_eq_iff u "reranker",
  str_eq_iff t "jwt_filter",
  str_eq_iff u "jwt_filter",
  str_eq_iff t "login_hardening",
  str_eq_iff u "login_hardening",
)

-- A purchase that is not refused as a repeat adds exactly its price to the owned value.
pub owned_value-activate :
    (t : String) (p : ℕ) (g : GameSession)
    → price_of t ≡ some p
    → already_owned t g ≡ false
    → owned_value (activate t g) ≡ owned_value g + p
unfolding already_owned activate owned_value
owned_value-activate t p g =
    price_of-cases
      (λ u q. already_owned u g ≡ false → owned_value (activate u g) ≡ owned_value g + q)
      (λ n. ground arith) (λ n. ground arith) (λ n. ground arith) (λ n. ground arith)
      (λ n. ground arith) t p

-- Switching a defense on touches neither the row's key nor its lab nor its budget.
pub activate-keys :
    (t : String) (g : GameSession)
    → ((activate t g).id ≡ g.id)
      × ((activate t g).defense_budget ≡ g.defense_budget)
      × ((activate t g).lab_instance_id ≡ g.lab_instance_id)
unfolding activate
activate-keys t g = ground arith

-- Ownership does not depend on the budget.
pub already_owned-budget :
    (t : String) (b : ℤ) (g : GameSession)
    → already_owned t (record g { defense_budget = b }) ≡ already_owned t g
unfolding already_owned
already_owned-budget t b g = refl

pub owned_value-budget :
    (b : ℤ) (g : GameSession) → owned_value (record g { defense_budget = b }) ≡ owned_value g
unfolding owned_value
owned_value-budget b g = refl
