-- ===== src/Labs/Authorization.antt =====
-- How `get_authorized_session` ends: with a session of the given lab, or with an exception.
use cyber_range.Common.{
  ℕ, ◌≡◌, ◌==◌, Option, none, some, arith, ap, find?, Option-cases, Bool-cases, ◌⊎◌, inl, inr, refl,
}
use cyber_range.Http.{ok, err, http, Exn, invalid_ids, session_not_found}
use cyber_range.Db.{GameSession, Server}
use cyber_range.Db.Tables.{has_id}
use cyber_range.Labs.{get_session, ensure_uuid, get_authorized_session}

-- `g` is the session of the ID, and the lab is its own.
pub record IsOwnSession (session_id lab : Option ℕ) (s : Server) (g : GameSession) : Type 0 where
  pub id : ℕ
  pub spelled : session_id ≡ some id
  pub present : find? (has_id id) s.sessions ≡ some g
  pub own : lab ≡ some g.lab_instance_id

pub get_authorized_session-cases :
    (session_id lab : Option ℕ) (s : Server)
    → ((g : GameSession) × (get_authorized_session session_id lab s ≡ (ok g, s))
        × IsOwnSession session_id lab s g)
      ⊎ ((e : Exn) × (get_authorized_session session_id lab s ≡ (err e, s)))
unfolding get_authorized_session get_session ensure_uuid
get_authorized_session-cases none lab s = inr (http 422 invalid_ids, refl)
get_authorized_session-cases (some id) none s = inr (http 422 invalid_ids, refl)
get_authorized_session-cases (some id) (some lab) s =
    elim (Option-cases (find? (has_id id) s.sessions)) [
      | inl missing ↦ inr (http 404 session_not_found, ground (arith, missing))
      | inr (g, present) ↦ elim (Bool-cases (g.lab_instance_id == lab)) [
        | inr foreign ↦ inr (http 404 session_not_found, ground (arith, present, foreign))
        | inl own ↦ inl (
          g,
          ground (arith, present, own),
          record {
            id = id;
            spelled = refl;
            present = present;
            own = ap some (ground (arith, own));
          },
        )
      ]
    ]
