-- ===== src/Auth/Login/Tokens.antt =====
-- A Red Team token that a login issued is accepted.
use cyber_range.Common.{
  ◌+◌, ◌*◌, ◌≡◌, String, true, none, some, [], ◌∷◌, find?, arith, ◌==◌, str_eq_refl, str_eq_iff,
  Bool, false,
}
use cyber_range.Common.Int.{pos}
use cyber_range.Http.{ok}
use cyber_range.Json.{num, str, Payload, get, put, get_eq, json_eq}
use cyber_range.Db.{User, GameSession}
use cyber_range.Labs.{get_session_for_lab}
use cyber_range.Redis.{Redis, Node}
use cyber_range.Auth.{Tokens, claims, get_by_id}
use cyber_range.Auth.Vulnerable.{get_current_user_vulnerable, scoped_user, checked_claims}
use cyber_range.Auth.Login.{token_data, create_access_token, scope_claims}

module _ (r : Redis) (t : Tokens) (encode : Payload → String) (n : Node r) (u : User) where
  -- the claims of the scope token and of the outer token that a login issues now
  abbrev pub issued_scope : Payload
  issued_scope =
      ("sub", str u.username)
      ∷ ("id", str (t.uuid_text u.id))
      ∷ ("lab_instance_id", str (t.uuid_text u.lab_instance_id))
      ∷ ("exp", num (pos (n.server.now + 15 * 60)))
      ∷ ("aud", str "red-lab-scope")
      ∷ []

  abbrev pub issued_claims : Payload
  issued_claims =
      ("sub", str u.username)
      ∷ ("role", str u.role)
      ∷ ("id", str (t.uuid_text u.id))
      ∷ ("lab_instance_id", str (t.uuid_text u.lab_instance_id))
      ∷ ("exp", num (pos (n.server.now + 15 * 60)))
      ∷ ("lab_scope", str (encode issued_scope))
      ∷ []

  -- PyJWT decodes what it encoded, and a UUID is read back from its text, for these tokens.
  pub record IsReadBack : Type 0 where
    pub outer : t.decode_unverified (encode issued_claims) ≡ claims issued_claims
    pub strict : t.decode_strict (encode issued_claims) ≡ claims issued_claims
    pub scope : t.decode_scope (str (encode issued_scope)) ≡ claims issued_scope
    pub id : t.parse_uuid (some (str (t.uuid_text u.id))) ≡ some u.id

  -- `u` is a stored Red Team user of a lab with a session.
  pub record IsPlayer (g : GameSession) : Type 0 where
    pub stored : get_by_id u.id n.server ≡ some u
    pub red : u.role ≡ "red_team"
    pub present :
        find? (λ (s : GameSession). s.lab_instance_id == u.lab_instance_id) n.server.sessions
        ≡ some g

  issued :
      u.role ≡ "red_team"
      → create_access_token encode (token_data t.uuid_text u) none n.server
        ≡ (ok (encode issued_claims), n.server)
  unfolding create_access_token scope_claims get put
  issued red = ground (arith, (str_eq_iff u.role "red_team").1 red)

  -- Every check of the scope passes for these claims.
  scoped_issued :
      (g : GameSession) → IsReadBack → IsPlayer g → scoped_user r t issued_claims n ≡ (ok u, n)
  unfolding scoped_user get get_eq json_eq
  scoped_issued g back p = ground (
    arith,
    back.scope,
    back.id,
    p.stored,
    (str_eq_iff u.role "red_team").1 p.red,
    str_eq_refl u.username,
    str_eq_refl (t.uuid_text u.id),
    str_eq_refl (t.uuid_text u.lab_instance_id),
  )

  checked_issued :
      (strict : Bool) (ip : String)
      → IsReadBack
      → checked_claims r t strict u (encode issued_claims) issued_claims ip n
        ≡ (ok issued_claims, n)
  unfolding checked_claims get get_eq json_eq
  checked_issued true ip back = ground (arith, back.strict, str_eq_refl u.role)
  checked_issued false ip back = ground (arith, str_eq_refl u.role)

  -- The token that a login issues to a Red Team user is accepted with and without JWT Strict
  -- Mode, as that user with that role, and leaves the state as it is: nothing is logged.
  pub login_token_accepted :
      (g : GameSession) (ip : String)
      → IsReadBack
      → IsPlayer g
      → (create_access_token encode (token_data t.uuid_text u) none n.server
          ≡ (ok (encode issued_claims), n.server))
        × (get_current_user_vulnerable r t (some (encode issued_claims)) ip n ≡ (
          ok (record {
            sub = u.username;
            id = u.id;
            role = some (str u.role);
            lab_instance_id = u.lab_instance_id;
          }),
          n,
        ))
  unfolding get_current_user_vulnerable get_session_for_lab get
  login_token_accepted g ip back p = (
    issued p.red,
    ground (
      arith,
      back.outer,
      p.present,
      scoped_issued g back p,
      checked_issued g.jwt_filter_enabled ip back,
    ),
  )
