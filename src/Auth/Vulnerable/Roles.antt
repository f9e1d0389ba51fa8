-- ===== src/Auth/Vulnerable/Roles.antt =====
-- Forged roles, with JWT Strict Mode on and off.
use cyber_range.Common.{
  ℕ, ◌≡◌, ◌∙◌, ap, String, Bool, true, false, some, [], ◌∷◌, ◌++◌, ◌==◌, inl, inr, find?, arith,
}
use cyber_range.Http.{ok, err, http, invalid_token, Result-cases}
use cyber_range.Json.{str, Payload, get, get_eq, get_eq-str}
use cyber_range.Db.{User, GameSession, SecurityAuditLog}
use cyber_range.Redis.{Redis, Node}
use cyber_range.Siem.{new_event}
use cyber_range.Siem.Forgery.{forgery_key, forgery_payload, forgery_logged}
use cyber_range.Auth.{Tokens, claims, Principal}
use cyber_range.Auth.Vulnerable.{scoped_user, checked_claims, get_current_user_vulnerable}
use cyber_range.Auth.Vulnerable.Boundary.{Decoded-cases, scoped_user-IsNamed}

abbrev of_lab : ℕ → GameSession → Bool
of_lab lab g = g.lab_instance_id == lab

module _ (r : Redis) (t : Tokens) (n : Node r) where
  -- In Strict Mode the claims that go on are those of a verified token with the stored role.
  strict_claims-role :
      (u : User) (token : String) (payload q : Payload) (ip : String)
      → (checked_claims r t true u token payload ip n).0 ≡ ok q
      → (t.decode_strict token ≡ claims q) × (get "role" q ≡ some (str u.role))
  unfolding checked_claims
  strict_claims-role u token payload q ip e = elim (Decoded-cases (t.decode_strict token)) [
    | inr (x, bad) ↦ absurd (ground arith)
    | inl (q', strict) ↦
        let same : q' ≡ q = ground arith in
        (strict ∙ ap claims same, get_eq-str (get "role" q) u.role (ground arith))
  ]

  -- Where the lab has bought JWT Strict Mode, an accepted token carries a good signature itself,
  -- and the principal's role is the stored "red_team": no forged role gets through.
  pub strict_mode_role :
      (token ip : String) (p : Principal) (g : GameSession)
      → (get_current_user_vulnerable r t (some token) ip n).0 ≡ ok p
      → find? (of_lab p.lab_instance_id) n.server.sessions ≡ some g
      → g.jwt_filter_enabled ≡ true
      → (q : Payload) × (t.decode_strict token ≡ claims q)
        × (p.role ≡ get "role" q)
        × (p.role ≡ some (str "red_team"))
  unfolding get_current_user_vulnerable
  strict_mode_role token ip p g e present on = elim (Decoded-cases (t.decode_unverified token)) [
    | inr (x, bad) ↦ absurd (ground arith)
    | inl (payload, outer) ↦ elim (Result-cases (scoped_user r t payload n).0) [
      | inr (x, bad) ↦ absurd (ground arith)
      | inl (u, good) ↦
          let (names, left) = scoped_user-IsNamed r t n payload u good in
          let lab : p.lab_instance_id ≡ u.lab_instance_id = ground (arith, outer, good) in
          let found : find? (of_lab u.lab_instance_id) n.server.sessions ≡ some g =
            rw lab at present in
          elim (Result-cases (checked_claims r t true u token payload ip n).0) [
            | inr (x, bad) ↦ absurd (ground (arith, outer, good, left, found, on))
            | inl (q, passed) ↦
                let (strict, role) = strict_claims-role u token payload q ip passed in
                let carried : p.role ≡ get "role" q =
                  ground (arith, outer, good, left, found, on, passed) in
                (q, strict, carried, carried ∙ role ∙ ap (λ s. some (str s)) names.red)
          ]
    ]
  ]

  module _ (token ip : String) (payload : Payload) (u : User) (g : GameSession)
      (outer : t.decode_unverified token ≡ claims payload)
      (good : scoped_user r t payload n ≡ (ok u, n))
      (found : find? (of_lab u.lab_instance_id) n.server.sessions ≡ some g)
      (forged : get_eq (get "role" payload) (some (str u.role)) ≡ false)
      (up : n.server.audit_up ≡ true) where
    abbrev logged : Bool → SecurityAuditLog
    logged blocked =
        new_event n.server u.lab_instance_id "AUTH_BYPASS_ATTEMPT"
          (forgery_payload (get "role" payload) blocked) ip

    -- Without Strict Mode a forged role is accepted as claimed, and the first use in a window is
    -- recorded in the player's own lab as not blocked.
    pub forged_role_accepted :
        g.jwt_filter_enabled ≡ false
        → r.value (forgery_key r u.lab_instance_id (get "role" payload) u.id false) n.store ≡ 0
        → let (res, n') = get_current_user_vulnerable r t (some token) ip n in
          (res
            ≡ ok (record {
              sub = u.username;
              id = u.id;
              role = get "role" payload;
              lab_instance_id = u.lab_instance_id;
            }))
          × (n'.server.audit_logs ≡ n.server.audit_logs ++ logged false ∷ [])
    unfolding get_current_user_vulnerable checked_claims
    forged_role_accepted off free = (
      ground (arith, outer, good, found, forged, off),
      ground (
        arith,
        outer,
        good,
        found,
        forged,
        off,
        forgery_logged r u.lab_instance_id (get "role" payload) ip u.id false n free up,
      ),
    )

    -- With Strict Mode a forged role is refused with 401, whether the outer signature is wrong or
    -- the verified role differs, and the first use in a window is recorded as blocked.
    pub forged_role_blocked :
        g.jwt_filter_enabled ≡ true
        → ((q : Payload) → t.decode_strict token ≡ claims q → q ≡ payload)
        → r.value (forgery_key r u.lab_instance_id (get "role" payload) u.id true) n.store ≡ 0
        → let (res, n') = get_current_user_vulnerable r t (some token) ip n in
          (res ≡ err (http 401 invalid_token))
          × (n'.server.audit_logs ≡ n.server.audit_logs ++ logged true ∷ [])
    unfolding get_current_user_vulnerable checked_claims
    forged_role_blocked on agrees free =
        let event =
          forgery_logged r u.lab_instance_id (get "role" payload) ip u.id true n free up in
        elim (Decoded-cases (t.decode_strict token)) [
          | inr (x, bad) ↦ ground (arith, outer, good, found, forged, on, bad, event)
          | inl (q, strict) ↦
              ground (arith, outer, good, found, forged, on, strict, agrees q strict, event)
        ]
