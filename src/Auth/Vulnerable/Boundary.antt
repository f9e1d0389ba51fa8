-- ===== src/Auth/Vulnerable/Boundary.antt =====
-- The laboratory boundary of the Red Team's tokens.
use cyber_range.Common.{
  ℕ, ◌≡◌, String, false, Option, none, some, ◌==◌, ◌⊎◌, inl, inr, find?-passes, str_eq_iff, arith,
  refl, sym, subst, Option-cases,
}
use cyber_range.Http.{ok, Result-cases}
use cyber_range.Json.{Json, str, Payload, get, get_eq-str}
use cyber_range.Db.{User}
use cyber_range.Redis.{Redis, Node}
use cyber_range.Auth.{Tokens, Decoded, Refused, claims, refused, Principal, get_by_id}
use cyber_range.Auth.Vulnerable.{scoped_user, scope_mismatch, get_current_user_vulnerable}

pub Decoded-cases :
    (d : Decoded) → ((p : Payload) × (d ≡ claims p)) ⊎ ((x : Refused) × (d ≡ refused x))
Decoded-cases (claims p) = inl (p, refl)
Decoded-cases (refused x) = inr (x, refl)

module _ (r : Redis) (t : Tokens) (n : Node r) where
  -- `u` is a stored Red Team user whom a scope token with a good signature names.
  pub record IsNamed (u : User) : Type 0 where
    pub scope : Payload
    pub inner : Json
    pub signed : t.decode_scope inner ≡ claims scope
    pub named : t.parse_uuid (get "id" scope) ≡ some u.id
    pub by_name : get "sub" scope ≡ some (str u.username)
    pub by_lab : get "lab_instance_id" scope ≡ some (str (t.uuid_text u.lab_instance_id))
    pub stored : get_by_id u.id n.server ≡ some u
    pub red : u.role ≡ "red_team"

  -- A user that was found by an id has that id.
  get_by_id-id :
      (id : ℕ) (u : User)
      → get_by_id id n.server ≡ some u
      → (u.id ≡ id) × (get_by_id u.id n.server ≡ some u)
  unfolding get_by_id
  get_by_id-id id u e =
      let same : u.id ≡ id =
        ground (arith, find?-passes (λ (v : User). v.id == id) n.server.users u e) in
      (same, subst (λ k. get_by_id k n.server ≡ some u) (sym same) e)

  abbrev inner_token : Payload → Json
  inner_token payload = elim (get "lab_scope" payload) [ none ↦ str "" | some j ↦ j ]

  -- the checks that a user and a scope have passed
  scoped_user_passed :
      (payload scope : Payload) (id : ℕ) (v u : User)
      → t.decode_scope (inner_token payload) ≡ claims scope
      → t.parse_uuid (get "id" scope) ≡ some id
      → get_by_id id n.server ≡ some v
      → (scoped_user r t payload n).0 ≡ ok u
      → (scope_mismatch r t v scope ≡ false) × (v ≡ u) × ((scoped_user r t payload n).1 ≡ n)
  unfolding scoped_user
  scoped_user_passed payload scope id v u signed named found e = ground arith

  scope_mismatch-IsNamed :
      (payload scope : Payload) (id : ℕ) (u : User)
      → t.decode_scope (inner_token payload) ≡ claims scope
      → t.parse_uuid (get "id" scope) ≡ some id
      → get_by_id id n.server ≡ some u
      → scope_mismatch r t u scope ≡ false
      → IsNamed u
  scope_mismatch-IsNamed payload scope id u signed named found fits =
      let (same, stored) = get_by_id-id id u found in
      record {
        scope = scope;
        inner = inner_token payload;
        signed = signed;
        named = rw same named;
        by_name = get_eq-str (get "sub" scope) u.username (ground arith);
        by_lab =
            get_eq-str (get "lab_instance_id" scope) (t.uuid_text u.lab_instance_id) (ground arith);
        stored = stored;
        red = (str_eq_iff u.role "red_team").0 (ground arith);
      }

  pub scoped_user-IsNamed :
      (payload : Payload) (u : User)
      → (scoped_user r t payload n).0 ≡ ok u
      → IsNamed u × ((scoped_user r t payload n).1 ≡ n)
  scoped_user-IsNamed payload u e = elim (Decoded-cases (t.decode_scope (inner_token payload))) [
    | inr (x, unsigned) ↦ absurd (unfold scoped_user in ground arith)
    | inl (scope, signed) ↦ elim (Option-cases (t.parse_uuid (get "id" scope))) [
      | inl unnamed ↦ absurd (unfold scoped_user in ground arith)
      | inr (id, named) ↦ elim (Option-cases (get_by_id id n.server)) [
        | inl missing ↦ absurd (unfold scoped_user in ground arith)
        | inr (v, found) ↦
            let (fits, same, left) = scoped_user_passed payload scope id v u signed named found e in
            (
              subst IsNamed same
                  (scope_mismatch-IsNamed payload scope id v signed named found fits),
              left,
            )
      ]
    ]
  ]

  -- What the principal of an accepted token is, whatever the outer token claims.
  pub record IsBounded (p : Principal) : Type 0 where
    pub user : User
    pub names : IsNamed user
    pub sub : p.sub ≡ user.username
    pub id : p.id ≡ user.id
    pub lab : p.lab_instance_id ≡ user.lab_instance_id

  -- An accepted token, however its outer part was forged, gives the name, id and laboratory of a
  -- stored Red Team user whom a correctly signed scope token names: only the role is the
  -- player's to choose.
  pub accepted-IsBounded :
      (header : Option String) (ip : String) (p : Principal)
      → (get_current_user_vulnerable r t header ip n).0 ≡ ok p
      → IsBounded p
  unfolding get_current_user_vulnerable
  accepted-IsBounded none ip p e = absurd (ground arith)
  accepted-IsBounded (some token) ip p e = elim (Decoded-cases (t.decode_unverified token)) [
    | inr (x, bad) ↦ absurd (ground arith)
    | inl (payload, outer) ↦ elim (Result-cases (scoped_user r t payload n).0) [
      | inr (x, bad) ↦ absurd (ground arith)
      | inl (u, good) ↦
          let (names, left) = scoped_user-IsNamed payload u good in
          record {
            user = u;
            names = names;
            sub = ground (arith, outer, good);
            id = ground (arith, outer, good);
            lab = ground (arith, outer, good);
          }
    ]
  ]
