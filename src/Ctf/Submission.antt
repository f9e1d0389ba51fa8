-- ===== src/Ctf/Submission.antt =====
-- One submission: what it needs, what it stores, and that it counts once.
use cyber_range.Common.{
  ℕ, ◌≡◌, ◌∙◌, String, Bool, false, some, [], ◌∷◌, ◌++◌, ◌==◌, inl, inr, find?, any, arith, sym,
  Option-cases, Bool-cases,
}
use cyber_range.Http.{ok, err, Exn, Returns}
use cyber_range.Json.{str, Payload}
use cyber_range.Db.{CtfFlag, GameSession, Server}
use cyber_range.Siem.Events.{log_security_event-Appends, log_security_event-ok}
use cyber_range.Ctf.{is_flag, is_capture, add_submission, submit_flag, captured_payload}

module _ (hash : String → String) (uuid_text : ℕ → String) (user lab : ℕ) (text : String)
    (s : Server) where
  abbrev of_lab : GameSession → Bool
  of_lab g = g.lab_instance_id == lab

  -- The conditions under which a flag counts: the lab's session `g` exists, the hash is that of a
  -- flag `f` of this very lab, and the session's team has not captured `f`.
  pub record CanCapture (g : GameSession) (f : CtfFlag) : Type 0 where
    pub present : find? of_lab s.sessions ≡ some g
    pub correct : find? (is_flag (hash text) lab) s.flags ≡ some f
    pub first : any (is_capture g.team_id f.id) s.submissions ≡ false

  -- A correct flag of the player's own lab is credited to the lab's team: exactly one submission
  -- row is stored, for that team, flag and lab, and the reward of that flag is reported.
  pub capture_effect :
      (g : GameSession) (f : CtfFlag)
      → CanCapture g f
      → let (res, s') = submit_flag hash uuid_text (some user) (some lab) text s in
        (res ≡ ok (record { captured = f; reward = f.reward }))
        × (s'.submissions
            ≡ s.submissions
              ++ record {
                id = s.next_id;
                team_id = g.team_id;
                flag_id = f.id;
                lab_instance_id = lab;
              }
                ∷ [])
        × (s'.flags ≡ s.flags)
        × (s'.sessions ≡ s.sessions)
  unfolding submit_flag add_submission
  capture_effect g f c =
      let s₁ = add_submission g.team_id f.id lab s in
      ground (
        arith,
        c.present,
        c.correct,
        c.first,
        log_security_event-Appends lab "CTF_FLAG_CAPTURED" (captured_payload uuid_text f user)
            "CTF_ENGINE" s₁,
        log_security_event-ok lab "CTF_FLAG_CAPTURED" (captured_payload uuid_text f user)
            "CTF_ENGINE" s₁,
      )

  -- A submission is credited only under those conditions.
  pub capture_needs :
      Returns (submit_flag hash uuid_text (some user) (some lab) text s)
      → (g : GameSession) × (f : CtfFlag) × CanCapture g f
  unfolding submit_flag
  capture_needs (resp, e) = elim (Option-cases (find? of_lab s.sessions)) [
    | inl missing ↦ absurd (ground arith)
    | inr (g, present) ↦ elim (Option-cases (find? (is_flag (hash text) lab) s.flags)) [
      | inl wrong ↦ absurd (
          ground (
            arith,
            present,
            wrong,
            log_security_event-ok lab "CTF_SUBMIT_FAILED" (("attempted_flag", str text) ∷ [])
                "CTF_ENGINE" s,
          ))
      | inr (f, correct) ↦ (g, f, ground arith)
    ]
  ]

  -- A submission that is not credited stores no submission row.
  pub refused_stores_nothing :
      (e : Exn)
      → (submit_flag hash uuid_text (some user) (some lab) text s).0 ≡ err e
      → (submit_flag hash uuid_text (some user) (some lab) text s).1.submissions ≡ s.submissions
  unfolding submit_flag
  refused_stores_nothing e h = elim (Option-cases (find? of_lab s.sessions)) [
    | inl missing ↦ ground arith
    | inr (g, present) ↦ elim (Option-cases (find? (is_flag (hash text) lab) s.flags)) [
      | inl wrong ↦
          let payload : Payload = ("attempted_flag", str text) ∷ [] in
          ground (
            arith,
            present,
            wrong,
            log_security_event-ok lab "CTF_SUBMIT_FAILED" payload "CTF_ENGINE" s,
            log_security_event-Appends lab "CTF_SUBMIT_FAILED" payload "CTF_ENGINE" s,
          )
      | inr (f, correct) ↦ elim (Bool-cases (any (is_capture g.team_id f.id) s.submissions)) [
        | inl again ↦ ground (arith, present, correct)
        | inr first ↦ absurd (cc (sym (capture_effect g f (ground arith)).0 ∙ h))
      ]
    ]
  ]
