-- ===== src/Agents/Email/Recipients.antt =====
-- What an allowed recipient is.
use cyber_range.Common.{
  ◌≡◌, ◌⊎◌, inl, inr, String, Bool, true, false, none, some, List, [], ◌∷◌, ◌++◌, arith, refl, sym,
  ◌∙◌, Option-cases, Bool-cases, str_eq,
}
use cyber_range.Documents.Paths.{Text, codes, text_eq, is_empty}
use cyber_range.Documents.Paths.Laws.{text_eq_iff}
use cyber_range.Agents.Email.{
  EmailArguments, rpartition_at, has_at, split_comma, allowed_domains, is_member, plain_address,
  one_address, recipient_allowed, send_real_email, handle_send_email,
}

rpartition_at-none : (t : Text) → rpartition_at t ≡ none → has_at t ≡ false
unfolding rpartition_at
rpartition_at-none [] e = refl
rpartition_at-none (c ∷ s) e = elim (Option-cases (rpartition_at s)) [
  | inr ((l, d), found) ↦ absurd (ground (arith, e, found))
  | inl missing ↦ ground (arith, e, missing, rpartition_at-none s missing)
]

-- The two parts stand around the last "@".
rpartition_at-some :
    (t local domain : Text)
    → rpartition_at t ≡ some (local, domain)
    → (t ≡ local ++ b'@' ∷ domain) × (has_at domain ≡ false)
unfolding rpartition_at
rpartition_at-some [] local domain e = absurd (ground (arith, e))
rpartition_at-some (c ∷ s) local domain e = elim (Option-cases (rpartition_at s)) [
  | inr ((l, d), found) ↦
      let below = rpartition_at-some s l d found in ground (arith, e, found, below)
  | inl missing ↦ ground (arith, e, missing, rpartition_at-none s missing)
]

module _ (getaddresses : Text → List (Text × Text)) (strip lower : Text → Text)
    (domains to_address : Text) where
  -- The address is one plain address, with a single "@", and its domain is a listed one.
  pub record IsInDomain : Type 0 where
    pub local : Text
    pub domain : Text
    pub whole : strip to_address ≡ local ++ b'@' ∷ domain
    pub named : is_empty local ≡ false
    pub plain_local : has_at local ≡ false
    pub plain_domain : has_at domain ≡ false
    pub listed :
        is_member getaddresses strip lower
          (lower domain)
          (allowed_domains getaddresses strip lower (split_comma domains))
        ≡ true

  split_address :
      (name address : Text)
      → text_eq address (strip to_address) ≡ true
      → plain_address getaddresses strip lower domains (rpartition_at address) ≡ true
      → IsInDomain
  split_address name address same e = elim (Option-cases (rpartition_at address)) [
    | inl missing ↦ absurd (ground (arith, e, missing))
    | inr ((l, d), found) ↦
        let parts = rpartition_at-some address l d found in
        record {
          local = l;
          domain = d;
          whole = sym ((text_eq_iff address (strip to_address)).0 same) ∙ parts.0;
          named = ground (arith, e, found);
          plain_local = ground (arith, e, found);
          plain_domain = parts.1;
          listed = ground (arith, e, found);
        }
  ]

  one_address-IsInDomain :
      (as' : List (Text × Text))
      → one_address getaddresses strip lower domains to_address as' ≡ true
      → IsInDomain
  one_address-IsInDomain [] e = absurd (ground (arith, e))
  one_address-IsInDomain ((name, address) ∷ []) e =
      split_address name address (ground (arith, e)) (ground (arith, e))
  one_address-IsInDomain (a ∷ b ∷ r) e = absurd (ground (arith, e))

  -- A recipient is allowed only as one plain address whose domain is a listed one.
  pub recipient_allowed-IsInDomain :
      recipient_allowed getaddresses strip lower domains to_address ≡ true → IsInDomain
  unfolding recipient_allowed
  recipient_allowed-IsInDomain e = one_address-IsInDomain (getaddresses to_address) e

-- The handler hands over nothing, or exactly the call's message, to an allowed recipient.
pub handle_send_email-cases :
    (getaddresses : Text → List (Text × Text)) (strip lower : Text → Text)
    (smtp : EmailArguments → Bool) (host : String) (domains : Text) (args : EmailArguments)
    (outbox : List EmailArguments)
    → ((handle_send_email getaddresses strip lower smtp host domains args outbox).1 ≡ outbox)
      ⊎ (((handle_send_email getaddresses strip lower smtp host domains args outbox).1
            ≡ outbox ++ args ∷ [])
          × (recipient_allowed getaddresses strip lower domains (codes args.to_address) ≡ true))
unfolding handle_send_email send_real_email
handle_send_email-cases getaddresses strip lower smtp host domains args outbox =
    elim (Bool-cases (str_eq host "")) [
      | inl mock ↦ inl (ground (arith, mock))
      | inr real ↦
          elim (Bool-cases
            (recipient_allowed getaddresses strip lower domains (codes args.to_address))) [
              | inl allowed ↦ inr (ground (arith, real, allowed), allowed)
              | inr foreign ↦ inl (ground (arith, real, foreign))
            ]
    ]
