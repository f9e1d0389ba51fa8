-- ===== src/Defense/Purchase.antt =====
-- What a purchase does on every branch.
use cyber_range.Common.{
  ℕ, String, true, false, ◌≡◌, ◌≢◌, ◌∙◌, inl, inr, sym, ap, some, none, arith, str_eq, find?,
  find?-passes, find?-update_first, find?-update_first_ne, Option-cases, Bool-cases,
}
use cyber_range.Common.Int.{pos, ◌-ℤ◌, ◌≤ℤ◌, ltb_ℤ}
use cyber_range.Http.{
  Exn, ok, err, Returns, http, invalid_defense, session_not_found, already_active,
  insufficient_funds,
}
use cyber_range.Db.{GameSession, Server}
use cyber_range.Db.Tables.{has_id, write_session}
use cyber_range.Defense.{
  BuyDefenseResponse, price_of, already_owned, charge_and_activate, active_defenses,
  process_defense_purchase,
}
use cyber_range.Defense.Ownership.{
  already_owned-activate, already_owned-activate_ne, activate-keys, already_owned-budget,
}

module _ (sid : ℕ) (t : String) (s : Server) where
  -- The four guards of a purchase, independent of the code: `p` is the price, `g` the session.
  pub record CanBuy (p : ℕ) (g : GameSession) : Type 0 where
    pub priced : price_of t ≡ some p
    pub present : find? (has_id sid) s.sessions ≡ some g
    pub missing : already_owned t g ≡ false
    pub covered : pos p ≤ℤ g.defense_budget

module _ (sid : ℕ) (t : String) (s : Server) (p : ℕ) (g : GameSession)
    (c : CanBuy sid t s p g) where
  pub purchase_runs : process_defense_purchase sid t s ≡ (
    ok (record {
      bought = t;
      price = p;
      new_balance = g.defense_budget -ℤ pos p;
      active = active_defenses (charge_and_activate t p g);
    }),
    write_session sid (charge_and_activate t p) s,
  )
  unfolding process_defense_purchase
  purchase_runs = ground (arith, c.priced, c.present, c.missing, c.covered)

-- The row that a purchase stores.
bought_row-owns :
    (t : String) (p : ℕ) (g : GameSession)
    → price_of t ≡ some p
    → already_owned t (charge_and_activate t p g) ≡ true
unfolding charge_and_activate
bought_row-owns t p g = already_owned-activate t p _

bought_row-keeps :
    (t u : String) (p : ℕ) (g : GameSession)
    → str_eq t u ≡ false
    → already_owned u (charge_and_activate t p g) ≡ already_owned u g
unfolding charge_and_activate
bought_row-keeps t u p g ne =
    already_owned-activate_ne t u _ ne ∙ already_owned-budget u (g.defense_budget -ℤ pos p) g

pub bought_row-keys :
    (t : String) (p : ℕ) (g : GameSession)
    → ((charge_and_activate t p g).id ≡ g.id)
      × ((charge_and_activate t p g).defense_budget ≡ g.defense_budget -ℤ pos p)
unfolding charge_and_activate
bought_row-keys t p g =
    let keys = activate-keys t (record g { defense_budget = g.defense_budget -ℤ pos p }) in
    (keys.0, keys.1)

module _ (sid : ℕ) (t : String) (s : Server) (p : ℕ) (g : GameSession) where
  -- The purchase succeeds and stores `row` for the session, with the price taken from its budget,
  -- the bought defense on and every other defense as it was; no other session changes, and the
  -- balance that is reported is the one stored.
  pub record IsBought : Type 0 where
    pub response : BuyDefenseResponse
    pub row : GameSession
    pub succeeds : (process_defense_purchase sid t s).0 ≡ ok response
    pub stored : find? (has_id sid) (process_defense_purchase sid t s).1.sessions ≡ some row
    pub charged : row.defense_budget ≡ g.defense_budget -ℤ pos p
    pub reported : response.new_balance ≡ row.defense_budget
    pub owned : already_owned t row ≡ true
    pub others_kept : (u : String) → str_eq t u ≡ false → already_owned u row ≡ already_owned u g
    pub sessions_kept :
        (j : ℕ)
        → j ≢ sid
        → find? (has_id j) (process_defense_purchase sid t s).1.sessions
          ≡ find? (has_id j) s.sessions

module _ (sid : ℕ) (t : String) (s : Server) (p : ℕ) (g : GameSession)
    (c : CanBuy sid t s p g) where
  -- A purchase of a priced defense that the session lacks and can pay for succeeds: it takes the
  -- price from the session's budget, switches the bought defense on, leaves every other defense
  -- of the session and every other session as they were, and reports the balance it stored.
  pub purchase_effect : IsBought sid t s p g
  purchase_effect = record {
    response = record {
      bought = t;
      price = p;
      new_balance = g.defense_budget -ℤ pos p;
      active = active_defenses (charge_and_activate t p g);
    };
    row = charge_and_activate t p g;
    succeeds = ap (λ r. r.0) (purchase_runs sid t s p g c);
    stored =
        rw (purchase_runs sid t s p g c)
          (find?-update_first (has_id sid) (charge_and_activate t p) s.sessions g c.present stays);
    charged = keys.1;
    reported = sym keys.1;
    owned = bought_row-owns t p g c.priced;
    others_kept = λ u ne. bought_row-keeps t u p g ne;
    sessions_kept = λ j ne. rw (purchase_runs sid t s p g c) (
        find?-update_first_ne (has_id sid) (has_id j) (charge_and_activate t p) s.sessions
          (apart j ne));
  }
    where
      keys :
          ((charge_and_activate t p g).id ≡ g.id)
          × ((charge_and_activate t p g).defense_budget ≡ g.defense_budget -ℤ pos p)
      keys = bought_row-keys t p g

      stays : has_id sid (charge_and_activate t p g) ≡ true
      stays = rw keys.0 (find?-passes (has_id sid) s.sessions g c.present)

      apart :
          (j : ℕ)
          → j ≢ sid
          → (a : GameSession) → has_id sid a ≡ true
          → (has_id j a ≡ false) × (has_id j (charge_and_activate t p a) ≡ false)
      apart j ne a h = ground (arith, bought_row-keys t p a)

-- the row that the session has afterwards
pub stored_row :
    (sid : ℕ) (t : String) (s : Server) (p : ℕ) (g : GameSession)
    → CanBuy sid t s p g
    → find? (has_id sid) (process_defense_purchase sid t s).1.sessions
      ≡ some (charge_and_activate t p g)
stored_row sid t s p g c = rw (purchase_runs sid t s p g c) (
    find?-update_first (has_id sid) (charge_and_activate t p) s.sessions g c.present
      (rw ((bought_row-keys t p g).0) (find?-passes (has_id sid) s.sessions g c.present)))

module _ (sid : ℕ) (t : String) (s : Server) where
  -- A purchase succeeds only where the four conditions hold.
  pub purchase_needs :
      Returns (process_defense_purchase sid t s) → (p : ℕ) × (g : GameSession) × CanBuy sid t s p g
  unfolding process_defense_purchase
  purchase_needs (resp, e) = elim (Option-cases (price_of t)) [
    | inl unknown ↦ absurd (ground arith)
    | inr (p, priced) ↦ elim (Option-cases (find? (has_id sid) s.sessions)) [
      | inl missing ↦ absurd (ground arith)
      | inr (g, present) ↦ (p, g, ground arith)
    ]
  ]

  -- Why a purchase is refused: one exception for each guard, which really failed.
  pub data Refusal : Exn → Type 0 where
    unknown : {e : Exn} → e ≡ http 400 invalid_defense → price_of t ≡ none → Refusal e
    no_session :
        {e : Exn}
        → e ≡ http 404 session_not_found
        → find? (has_id sid) s.sessions ≡ none
        → Refusal e
    owned :
        {e : Exn} (g : GameSession)
        → e ≡ http 400 already_active
        → find? (has_id sid) s.sessions ≡ some g
        → already_owned t g ≡ true
        → Refusal e
    too_poor :
        {e : Exn} (p : ℕ) (g : GameSession)
        → e ≡ http 400 (insufficient_funds p g.defense_budget)
        → price_of t ≡ some p
        → find? (has_id sid) s.sessions ≡ some g
        → ¬ (pos p ≤ℤ g.defense_budget)
        → Refusal e

  -- A refused purchase changes nothing, and its exception names a guard that does not hold.
  pub purchase_refused :
      (e : Exn)
      → (process_defense_purchase sid t s).0 ≡ err e
      → ((process_defense_purchase sid t s).1 ≡ s) × Refusal e
  unfolding process_defense_purchase
  purchase_refused e h = elim (Option-cases (price_of t)) [
    | inl none_priced ↦ (ground arith, unknown (ground arith) none_priced)
    | inr (p, priced) ↦ elim (Option-cases (find? (has_id sid) s.sessions)) [
      | inl missing ↦ (ground arith, no_session (ground arith) missing)
      | inr (g, present) ↦ elim (Bool-cases (already_owned t g)) [
        | inl had ↦ (ground arith, owned g (ground arith) present had)
        | inr new ↦ elim (Bool-cases (ltb_ℤ g.defense_budget (pos p))) [
          | inl short ↦ (ground arith, too_poor p g (ground arith) priced present (ground arith))
          | inr enough ↦ absurd (ground arith)
        ]
      ]
    ]
  ]

-- After a purchase has succeeded, the same purchase is refused as already active, whatever the
-- budget, and charges nothing.
pub purchase_twice :
    (sid : ℕ) (t : String) (s : Server)
    → Returns (process_defense_purchase sid t s)
    → let s' = (process_defense_purchase sid t s).1 in
      process_defense_purchase sid t s' ≡ (err (http 400 already_active), s')
unfolding process_defense_purchase
purchase_twice sid t s r =
    let (p, g, c) = purchase_needs sid t s r in
    let b = purchase_effect sid t s p g c in ground (arith, c.priced, b.stored, b.owned)
