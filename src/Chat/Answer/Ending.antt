-- ===== src/Chat/Answer/Ending.antt =====
-- How the stream of a turn ends, and what it leaves in the thread.
use cyber_range.Common.{
  ℕ, ◌≡◌, String, Bool, true, false, Option, some, List, [], ◌∷◌, ◌++◌, map, arith, refl, subst, ap,
  sym, ◌∙◌, inl, inr,
}
use cyber_range.Http.{
  Result, ok, err, http, script_error, value_error, type_error, token_error, unavailable,
  queue_empty, runtime_error, cancelled, key_error, Result-cases,
}
use cyber_range.Db.{GameSession, ChatThread, Server}
use cyber_range.Labs.{ensure_uuid}
use cyber_range.Labs.Authorization.{get_authorized_session-cases}
use cyber_range.Chat.Threads.{get_thread, get_or_create_thread, exchange}
use cyber_range.Chat.Threads.Ownership.{
  IsOpened, get_or_create_thread-IsOpened, get_thread-append_messages, get_thread_moved,
}
use cyber_range.Json.{Json}
use cyber_range.Chat.Context.{Where, where_of, texts_of}
use cyber_range.Chat.Context.Choice.{choose_docs-same}
use cyber_range.Chat.Answer.{
  Line, text_line, error_line, done_line, Caller, Turn, Streamed, sent_chunks, concat,
  closing_lines, prepare, context_texts, generate_chat_response_sse,
}

-- Texts, then at most one error, then the end mark, and nothing after it
unfoldable pub is_stream : List Line → Bool
is_stream [] = false
is_stream (text_line t ∷ ls) = is_stream ls
is_stream (error_line e ∷ done_line ∷ []) = true
is_stream (error_line e ∷ _) = false
is_stream (done_line ∷ []) = true
is_stream (done_line ∷ l ∷ ls) = false

texts_first :
    (ts : List String) (ls : List Line) → is_stream (map text_line ts ++ ls) ≡ is_stream ls
unfolding is_stream
texts_first [] ls = refl
texts_first (t ∷ ts) ls = texts_first ts ls

-- Whether the client is told of a failure
unfoldable pub has_error : List Line → Bool
has_error [] = false
has_error (error_line e ∷ ls) = true
has_error (_ ∷ ls) = has_error ls

texts_silent :
    (ts : List String) (ls : List Line) → has_error (map text_line ts ++ ls) ≡ has_error ls
unfolding has_error
texts_silent [] ls = refl
texts_silent (t ∷ ts) ls = texts_silent ts ls

-- An exception that `except Exception` catches
abbrev pub is_failure : Result Unit → Bool
is_failure (ok t) = false
is_failure (err cancelled) = false
is_failure (err _) = true

-- The caller's thread after the turn: with the exchange if the model's stream has ended well and
-- its messages are committed, as it was before otherwise.
abbrev pub thread_after : Turn → Streamed → Result Unit → ℕ → ChatThread → ChatThread
thread_after q a committed now th = elim a.ended [
  | err e ↦ th
  | ok t ↦ elim committed [
    | err e ↦ th
    | ok t ↦ record th {
      messages = th.messages ++ exchange now q.prompt (concat (sent_chunks a.chunks));
    }
  ]
]

module _ {Score : Type 0} (gtb : Score → Score → Bool) (is_positive : Score → Bool)
    (predict : String → List String → Result (List Score))
    (search_documents : String → Where → Result (Option (List (Option String))))
    (llm_turn : String × String → ℕ → Server → Streamed × Server)
    (commit : Server → Result Unit) where
  abbrev generate : Caller → Turn → Server → List Line × Server
  generate = generate_chat_response_sse gtb is_positive predict search_documents llm_turn commit

  abbrev prepared : Caller → ℕ → Turn → Server → Result (GameSession × (String × String)) × Server
  prepared = prepare gtb is_positive predict search_documents llm_turn

  abbrev closing : Result Unit → List Line
  closing = closing_lines gtb is_positive predict search_documents llm_turn

  closing_lines-ends :
      (r : Result Unit) → (is_stream (closing r) ≡ true) × (has_error (closing r) ≡ is_failure r)
  unfolding is_stream has_error
  closing_lines-ends (ok t) = (refl, refl)
  closing_lines-ends (err (http n d)) = (refl, refl)
  closing_lines-ends (err (script_error f)) = (refl, refl)
  closing_lines-ends (err value_error) = (refl, refl)
  closing_lines-ends (err type_error) = (refl, refl)
  closing_lines-ends (err token_error) = (refl, refl)
  closing_lines-ends (err unavailable) = (refl, refl)
  closing_lines-ends (err queue_empty) = (refl, refl)
  closing_lines-ends (err runtime_error) = (refl, refl)
  closing_lines-ends (err cancelled) = (refl, refl)
  closing_lines-ends (err key_error) = (refl, refl)

  -- How a turn goes: through its preparation, the model's stream and the commit of the messages
  abbrev pub outcome : Caller → ℕ → Turn → Server → Result Unit
  outcome user id q s = elim (prepared user id q s).0 [
    | err e ↦ err e
    | ok (g, prompts) ↦
        let (a, s') = llm_turn prompts g.lab_instance_id (prepared user id q s).1 in
        elim a.ended [ err e ↦ err e | ok t ↦ commit s' ]
  ]

  -- The client gets texts, then at most one error, then one end mark and nothing more, whatever
  -- exception the preparation, the model's stream or the commit of the messages ends with; the
  -- error is there exactly if one of them has ended with an exception other than a cancellation.
  pub generate_chat_response_sse-ends :
      (user : Caller) (id : ℕ) (q : Turn) (s : Server)
      → user.id ≡ some id
      → (is_stream (generate user q s).0 ≡ true)
        × (has_error (generate user q s).0 ≡ is_failure (outcome user id q s))
  unfolding generate_chat_response_sse
  generate_chat_response_sse-ends user id q s known = elim (Result-cases (prepared user id q s).0) [
    | inr (e, failed) ↦ ground (arith, known, failed, closing_lines-ends (err e))
    | inl ((g, prompts), ready) ↦
        let (a, s') = llm_turn prompts g.lab_instance_id (prepared user id q s).1 in
        elim (Result-cases a.ended) [
          | inr (e, broken) ↦ ground (
            arith,
            known,
            ready,
            broken,
            texts_first (sent_chunks a.chunks) (closing (err e)),
            texts_silent (sent_chunks a.chunks) (closing (err e)),
            closing_lines-ends (err e),
          )
          | inl (u, ended) ↦ elim (Result-cases (commit s')) [
            | inr (e, lost) ↦ ground (
              arith,
              known,
              ready,
              ended,
              lost,
              texts_first (sent_chunks a.chunks) (closing (err e)),
              texts_silent (sent_chunks a.chunks) (closing (err e)),
              closing_lines-ends (err e),
            )
            | inl (v, stored) ↦ ground (
              arith,
              known,
              ready,
              ended,
              stored,
              texts_first (sent_chunks a.chunks) (closing (ok tt)),
              texts_silent (sent_chunks a.chunks) (closing (ok tt)),
              closing_lines-ends (ok tt),
            )
          ]
        ]
  ]

  -- A turn that was prepared, with what the model has sent; its tools write no chat thread.
  pub record IsAsked (user : Caller) (id : ℕ) (q : Turn) (s : Server) : Type 0 where
    pub known : user.id ≡ some id
    pub session : GameSession
    pub prompts : String × String
    pub before : Server
    pub after : Server
    pub sent : Streamed
    pub ready : prepared user id q s ≡ (ok (session, prompts), before)
    pub asked : llm_turn prompts session.lab_instance_id before ≡ (sent, after)
    pub kept : after.threads ≡ before.threads

  pub record IsStored (user : Caller) (id : ℕ) (q : Turn) (s : Server) (a : IsAsked user id q s)
      : Type 0 where
    pub thread : ChatThread
    pub session_id : ℕ
    pub opened : IsOpened q.thread_id id session_id a.before thread
    pub stored :
        get_thread q.thread_id (generate user q s).1
        ≡ some (thread_after q a.sent (commit a.after) a.after.now thread)

  context_texts-same :
      (g : GameSession) (role : Option Json) (prompt : String) (texts : List String) (s t : Server)
      → context_texts gtb is_positive predict search_documents llm_turn g role prompt s
        ≡ (ok texts, t)
      → t ≡ s
  context_texts-same g role prompt texts s t e =
      elim (Result-cases (search_documents prompt (where_of g.lab_instance_id role))) [
        | inr (x, raised) ↦ absurd (ground (arith, e, raised))
        | inl (o, found) ↦
            choose_docs-same gtb is_positive predict g.use_reranker prompt (texts_of o) texts s t
              (ground (arith, e, found))
      ]

  prepare-IsOpened :
      (user : Caller) (id : ℕ) (q : Turn) (s t : Server) (g : GameSession)
      (prompts : String × String)
      → prepared user id q s ≡ (ok (g, prompts), t)
      → (th : ChatThread) × (sid : ℕ) × IsOpened q.thread_id id sid t th
  unfolding prepare ensure_uuid
  prepare-IsOpened user id q s t g prompts e =
      elim (get_authorized_session-cases q.session_id user.lab_instance_id s) [
        | inr (x, refused) ↦ absurd (ground (arith, e, refused))
        | inl (g', authorized, own) ↦
            let opening = get_or_create_thread (some q.thread_id) id own.id q.prompt s in
            elim (Result-cases opening.0) [
              | inr (x, foreign) ↦ absurd (ground (arith, e, authorized, own.spelled, foreign))
              | inl (th, opened) ↦
                  let there =
                    get_or_create_thread-IsOpened q.thread_id id own.id q.prompt s opening.1 th
                      (ap (λ x. (x, opening.1)) opened) in
                  let reading =
                    context_texts gtb is_positive predict search_documents llm_turn g' user.role
                      q.prompt opening.1 in
                  elim (Result-cases reading.0) [
                    | inr (x, failed) ↦
                        absurd (ground (arith, e, authorized, own.spelled, opened, failed))
                    | inl (texts, found) ↦
                        let same =
                          context_texts-same g' user.role q.prompt texts opening.1 reading.1
                            (ap (λ x. (x, reading.1)) found) in
                        let last : reading.1 ≡ t =
                          ground (arith, e, authorized, own.spelled, opened, found) in
                        (
                          th,
                          own.id,
                          subst (λ x. IsOpened q.thread_id id own.id x th) (sym same ∙ last) there,
                        )
                  ]
            ]
      ]

  -- The exchange is added to a thread of the caller exactly if the model's stream has ended well and
  -- the commit of the messages goes through; otherwise the thread stays as it is.
  pub generate_chat_response_sse-IsStored :
      (user : Caller) (id : ℕ) (q : Turn) (s : Server) (a : IsAsked user id q s)
      → IsStored user id q s a
  unfolding generate_chat_response_sse
  generate_chat_response_sse-IsStored user id q s a =
      let (th, sid, opened) = prepare-IsOpened user id q s a.before a.session a.prompts a.ready in
      record {
        thread = th;
        session_id = sid;
        opened = opened;
        stored =
            let here = get_thread_moved q.thread_id a.before a.after a.kept ∙ opened.found in
            elim (Result-cases a.sent.ended) [
              | inr (x, failed) ↦ ground (arith, a.known, a.ready, a.asked, failed, here)
              | inl (x, ended) ↦ elim (Result-cases (commit a.after)) [
                | inr (y, lost) ↦ ground (arith, a.known, a.ready, a.asked, ended, lost, here)
                | inl (y, committed) ↦ ground (
                  arith,
                  a.known,
                  a.ready,
                  a.asked,
                  ended,
                  committed,
                  get_thread-append_messages q.thread_id q.prompt
                      (concat (sent_chunks a.sent.chunks)) th a.after here,
                )
              ]
            ];
      }
