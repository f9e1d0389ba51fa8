-- ===== src/Chat/Answer/Confidential.antt =====
-- Which documents can reach a prompt.
use cyber_range.Common.{
  ℕ, ◌≡◌, String, Bool, true, Option, none, some, List, [], ◌∷◌, ◌==◌, ◌&&◌, ◌||◌, not, any, All,
  arith, subst, ap, sym, str_eq, Bool-cases, inl, inr,
}
use cyber_range.Http.{Result, ok, Result-cases}
use cyber_range.Json.{Json, is_str}
use cyber_range.Db.{GameSession, Server}
use cyber_range.Labs.Authorization.{get_authorized_session-cases}
use cyber_range.Labs.Secrets.{get_exercise_secret}
use cyber_range.Documents.Pipeline.{StoredChunk}
use cyber_range.Chat.Threads.{get_or_create_thread}
use cyber_range.Chat.Prompt.{build_prompts, clean_username}
use cyber_range.Chat.Context.{Where, where_of, texts_of, present_docs, choose_docs}
use cyber_range.Chat.Context.Choice.{choose_docs-All, choose_docs-same}
use cyber_range.Chat.Answer.{Caller, Turn, Streamed, prepare, context_texts}

-- A chunk that the search may give for `w`
abbrev pub permits : Where → StoredChunk → Bool
permits w c =
    c.lab_instance_id == w.lab_instance_id && (not w.only_public || str_eq c.access_level "public")

-- The text is that of an indexed chunk that the filter permits.
abbrev pub IsPermitted : List StoredChunk → Where → String → Type 0
IsPermitted indexed w text = any (λ c. permits w c && str_eq c.document text) indexed ≡ true

abbrev pub AreFound : List StoredChunk → Where → List (Option String) → Type 0
AreFound indexed w [] = Unit
AreFound indexed w (none ∷ ds) = AreFound indexed w ds
AreFound indexed w (some d ∷ ds) = IsPermitted indexed w d × AreFound indexed w ds

present_docs-All :
    (indexed : List StoredChunk) (w : Where) (ds : List (Option String))
    → AreFound indexed w ds
    → All (IsPermitted indexed w) (present_docs ds)
unfolding present_docs
present_docs-All indexed w [] h = tt
present_docs-All indexed w (none ∷ ds) h = present_docs-All indexed w ds h
present_docs-All indexed w (some d ∷ ds) h = elim (Bool-cases (str_eq d "")) [
  | inl empty ↦ rw empty (present_docs-All indexed w ds h.1)
  | inr filled ↦ rw filled (h.0, present_docs-All indexed w ds h.1)
]

module _ {Score : Type 0} (gtb : Score → Score → Bool) (is_positive : Score → Bool)
    (predict : String → List String → Result (List Score))
    (search_documents : String → Where → Result (Option (List (Option String))))
    (llm_turn : String × String → ℕ → Server → Streamed × Server) (indexed : List StoredChunk) where
  -- The vector store's `where`: what a search finds is permitted.
  abbrev pub Respects : Type 0
  Respects =
      (prompt : String) (w : Where) (docs : List (Option String))
      → search_documents prompt w ≡ ok (some docs)
      → AreFound indexed w docs

  texts_of-All :
      (prompt : String) (w : Where) (o : Option (List (Option String)))
      → Respects
      → search_documents prompt w ≡ ok o
      → All (IsPermitted indexed w) (texts_of o)
  texts_of-All prompt w none h e = tt
  texts_of-All prompt w (some docs) h e = present_docs-All indexed w docs (h prompt w docs e)

  context-All :
      (g : GameSession) (role : Option Json) (prompt : String) (texts : List String) (s t : Server)
      → Respects
      → context_texts gtb is_positive predict search_documents llm_turn g role prompt s
        ≡ (ok texts, t)
      → (All (IsPermitted indexed (where_of g.lab_instance_id role)) texts) × (t ≡ s)
  context-All g role prompt texts s t h e =
      elim (Result-cases (search_documents prompt (where_of g.lab_instance_id role))) [
        | inr (x, raised) ↦ absurd (ground (arith, e, raised))
        | inl (o, found) ↦
            let chosen : choose_docs gtb is_positive predict g.use_reranker prompt (texts_of o) s
                ≡ (ok texts, t) =
              ground (arith, e, found) in
            (
              choose_docs-All gtb is_positive
                  (IsPermitted indexed (where_of g.lab_instance_id role)) predict g.use_reranker
                  prompt (texts_of o) texts s t
                  (texts_of-All prompt (where_of g.lab_instance_id role) o h found) chosen,
              choose_docs-same gtb is_positive predict g.use_reranker prompt (texts_of o) texts s t
                  chosen,
            )
      ]

  -- What a caller may see of a lab: the public chunks, and with the role admin all of them
  abbrev pub allowed : ℕ → Option Json → Where
  allowed lab role = record { lab_instance_id = lab; only_public = not (is_str "admin" role) }

  -- The prompts of a turn: the context holds permitted texts only.
  pub record IsConfidential (user : Caller) (q : Turn) (s : Server) (prompts : String × String)
      (g : GameSession) : Type 0 where
    pub texts : List String
    pub permitted : All (IsPermitted indexed (allowed g.lab_instance_id user.role)) texts
    pub own_lab : some g.lab_instance_id ≡ user.lab_instance_id
    pub built :
        prompts
        ≡ build_prompts q.prompt texts
            (clean_username user.sub)
            g.system_prompt
            (get_exercise_secret g.lab_instance_id "EX-03" s)

  -- If the vector store's search respects its filter, the context of a turn holds only texts of
  -- indexed chunks of the caller's own lab, and unless the token claims the role admin, only of
  -- public ones.
  pub prepare-IsConfidential :
      (user : Caller) (id : ℕ) (q : Turn) (s t : Server) (g : GameSession)
      (prompts : String × String)
      → Respects
      → prepare gtb is_positive predict search_documents llm_turn user id q s ≡ (ok (g, prompts), t)
      → IsConfidential user q t prompts g
  unfolding prepare
  prepare-IsConfidential user id q s t g prompts h e =
      elim (get_authorized_session-cases q.session_id user.lab_instance_id s) [
        | inr (x, refused) ↦ absurd (ground (arith, e, refused))
        | inl (g', authorized, own) ↦
            elim (Result-cases (get_or_create_thread (some q.thread_id) id own.id q.prompt s).0) [
              | inr (x, foreign) ↦ absurd (ground (arith, e, authorized, own.spelled, foreign))
              | inl (th, opened) ↦
                  let m = (get_or_create_thread (some q.thread_id) id own.id q.prompt s).1 in
                  elim (Result-cases
                    (context_texts gtb is_positive predict search_documents llm_turn g' user.role
                      q.prompt m).0) [
                        | inr (x, failed) ↦
                            absurd (ground (arith, e, authorized, own.spelled, opened, failed))
                        | inl (texts, found) ↦
                            let t' =
                              (context_texts gtb is_positive predict search_documents llm_turn g'
                                user.role q.prompt m).1 in
                            let all =
                              context-All g' user.role q.prompt texts m t' h
                                (ap (λ x. (x, t')) found) in
                            let same : g' ≡ g =
                              ground (arith, e, authorized, own.spelled, opened, found) in
                            subst (IsConfidential user q t prompts) same (record {
                              texts = texts;
                              permitted = all.0;
                              own_lab = sym own.own;
                              built = ground (arith, e, authorized, own.spelled, opened, found);
                            })
                      ]
            ]
      ]
