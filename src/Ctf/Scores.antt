-- ===== src/Ctf/Scores.antt =====
-- Submissions one after another: no flag is credited twice, and none across laboratories.
use cyber_range.Common.{
  ℕ, ◌≤◌, ◌≡◌, ◌∙◌, String, false, some, List, [], ◌∷◌, ◌++◌, inl, inr, find?-passes, any, count,
  count-append, count-any, arith, sym, subst, str_eq_iff, Bool-cases,
}
use cyber_range.Http.{ok, Result-cases}
use cyber_range.Db.{CtfSubmission, Server}
use cyber_range.Ctf.{is_flag, is_capture, SubmitResponse, submit_flag}
use cyber_range.Ctf.Submission.{capture_effect, capture_needs, refused_stores_nothing}

-- No team has a flag twice.
abbrev pub NoRepeats : Server → Type 0
NoRepeats s = (team flag : ℕ) → count (is_capture team flag) s.submissions ≤ 1

module _ (hash : String → String) (uuid_text : ℕ → String) where
  -- A player who submits a text: the player's id and lab, as the token gives them.
  pub record Attempt : Type 0 where
    pub user : ℕ
    pub lab : ℕ
    pub text : String

  pub submit : Attempt → Server → Server
  submit a s = (submit_flag hash uuid_text (some a.user) (some a.lab) a.text s).1

  row-once :
      (team flag : ℕ) (subs : List CtfSubmission) (c : CtfSubmission)
      → any (is_capture c.team_id c.flag_id) subs ≡ false
      → count (is_capture team flag) subs ≤ 1
      → count (is_capture team flag) (subs ++ c ∷ []) ≤ 1
  row-once team flag subs c new h = elim (Bool-cases (is_capture team flag c)) [
    | inr other ↦ ground (arith, count-append (is_capture team flag) subs (c ∷ []))
    | inl same ↦
        let t : c.team_id ≡ team = ground arith in
        let f : c.flag_id ≡ flag = ground arith in
        let none_yet : any (is_capture team flag) subs ≡ false =
          subst (λ k. any (is_capture team k) subs ≡ false) f
            (subst (λ k. any (is_capture k c.flag_id) subs ≡ false) t new) in
        ground (
          arith,
          count-append (is_capture team flag) subs (c ∷ []),
          count-any (is_capture team flag) subs none_yet,
        )
  ]

  -- A submission, credited or refused, never gives a team a flag that it already has.
  pub submit-NoRepeats : (a : Attempt) (s : Server) → NoRepeats s → NoRepeats (submit a s)
  unfolding submit
  submit-NoRepeats a s h team flag =
      elim (Result-cases (submit_flag hash uuid_text (some a.user) (some a.lab) a.text s).0) [
        | inr (e, refused) ↦
            rw (refused_stores_nothing hash uuid_text a.user a.lab a.text s e refused) (h team flag)
        | inl (resp, done) ↦
            let (g, f, c) = capture_needs hash uuid_text a.user a.lab a.text s (resp, done) in
            let effect = capture_effect hash uuid_text a.user a.lab a.text s g f c in
            rw effect.1 (row-once team flag s.submissions _ c.first (h team flag))
      ]

  pub submit_all : List Attempt → Server → Server
  submit_all [] s = s
  submit_all (a ∷ as') s = submit_all as' (submit a s)

  -- After any sequence of submissions by any players of any labs, no team has a flag twice.
  pub submit_all-NoRepeats :
      (as' : List Attempt) (s : Server) → NoRepeats s → NoRepeats (submit_all as' s)
  unfolding submit_all
  submit_all-NoRepeats [] s h = h
  submit_all-NoRepeats (a ∷ as') s h =
      submit_all-NoRepeats as' (submit a s) (submit-NoRepeats a s h)

  -- A credited flag belongs to the player's own lab, its stored hash is that of the submitted
  -- text, and the credited row is for the team of a session of that lab.
  pub captured_in_lab :
      (a : Attempt) (s : Server) (resp : SubmitResponse)
      → (submit_flag hash uuid_text (some a.user) (some a.lab) a.text s).0 ≡ ok resp
      → (resp.captured.lab_id ≡ a.lab)
        × (resp.captured.flag_value ≡ hash a.text)
        × (resp.reward ≡ resp.captured.reward)
  captured_in_lab a s resp e =
      let (g, f, c) = capture_needs hash uuid_text a.user a.lab a.text s (resp, e) in
      let effect = capture_effect hash uuid_text a.user a.lab a.text s g f c in
      let good = find?-passes (is_flag (hash a.text) a.lab) s.flags f c.correct in
      let same : ok resp ≡ ok (record { captured = f; reward = f.reward }) = sym e ∙ effect.0 in
      ground (arith, same, good, str_eq_iff f.flag_value (hash a.text))
