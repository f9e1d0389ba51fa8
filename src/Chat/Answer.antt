-- ===== src/Chat/Answer.antt =====
-- A chat turn: `generate_chat_response_sse` of backend/app/chat/service.py. The vector store, the
-- cross-encoder and the turn of the language model in the GPU queue are parameters.
pub mod Confidential
pub mod Ending
use Prim.Native.String.{◌++◌ as str_append}
use cyber_range.Common.{
  ℕ, String, Bool, true, false, Option, none, some, List, [], ◌∷◌, ◌++◌, map, select, not, str_eq,
  if◌then◌else◌,
}
use cyber_range.Http.{Result, ok, err, Action, cancelled, pure, gets, lift, ◌>>=◌, ◌>>◌}
use cyber_range.Json.{Json}
use cyber_range.Db.{GameSession, Server}
use cyber_range.Labs.{get_authorized_session, ensure_uuid}
use cyber_range.Labs.Secrets.{get_exercise_secret}
use cyber_range.Chat.Threads.{get_or_create_thread, append_messages}
use cyber_range.Chat.Prompt.{build_prompts, clean_username}
use cyber_range.Chat.Context.{Where, where_of, texts_of, choose_docs}

-- One `data:` line of the stream
pub data Line : Type 0 where
  text_line error_line : String → Line
  done_line : Line

-- The user of the token, as far as the turn reads it
pub record Caller : Type 0 where
  pub id : Option ℕ
  pub sub : String
  pub role : Option Json
  pub lab_instance_id : Option ℕ

pub record Turn : Type 0 where
  -- the session ID as the request spells it, and the UUID that it is, if it is one
  pub session_text : String
  pub session_id : Option ℕ
  pub thread_id : ℕ
  pub prompt : String

abbrev pub chat_error_message : String
chat_error_message = "The assistant could not answer. Please try again."

-- What the model has sent, and how its stream has ended
pub record Streamed : Type 0 where
  pub chunks : List String
  pub ended : Result Unit

-- `if chunk:`
unfoldable pub sent_chunks : List String → List String
sent_chunks cs = select (λ c. not (str_eq c "")) cs

unfoldable pub concat : List String → String
concat [] = ""
concat (c ∷ cs) = str_append c (concat cs)

module _ {Score : Type 0} (gtb : Score → Score → Bool) (is_positive : Score → Bool)
    (predict : String → List String → Result (List Score))
    (search_documents : String → Where → Result (Option (List (Option String))))
    (llm_turn : String × String → ℕ → Server → Streamed × Server) where
  abbrev pub context_texts : GameSession → Option Json → String → Action Server (List String)
  context_texts g role prompt =
      lift (search_documents prompt (where_of g.lab_instance_id role)) >>= λ docs.
      choose_docs gtb is_positive predict g.use_reranker prompt (texts_of docs)

  -- Everything before the model is asked: the session and the prompts
  unfoldable pub prepare : Caller → ℕ → Turn → Action Server (GameSession × (String × String))
  unfolding get_authorized_session get_or_create_thread ensure_uuid
  prepare user user_id q = do
    session ← get_authorized_session q.session_id user.lab_instance_id
    session_id ← ensure_uuid q.session_id
    get_or_create_thread (some q.thread_id) user_id session_id q.prompt
    texts ← context_texts session user.role q.prompt
    secret ← gets (get_exercise_secret session.lab_instance_id "EX-03")
    pure (
      session,
      build_prompts q.prompt texts (clean_username user.sub) session.system_prompt secret,
    )

  -- What follows the texts: the line of `except Exception`, which a cancellation passes by, and the
  -- line of `finally`
  abbrev pub closing_lines : Result Unit → List Line
  closing_lines (ok t) = done_line ∷ []
  closing_lines (err cancelled) = done_line ∷ []
  closing_lines (err _) = error_line chat_error_message ∷ done_line ∷ []

  -- `commit` is how the commit of the messages ends: it may raise, and then they are not stored.
  module _ (commit : Server → Result Unit) where
    -- After the last chunk, if the model's stream has ended well
    abbrev pub store_answer : Turn → Streamed → Action Server Unit
    store_answer q a s = elim a.ended [
      | err e ↦ (err e, s)
      | ok t ↦ elim (commit s) [
        | err e ↦ (err e, s)
        | ok t ↦ (ok tt, append_messages q.thread_id q.prompt (concat (sent_chunks a.chunks)) s)
      ]
    ]

    abbrev pub end_turn : Turn → Streamed × Server → List Line × Server
    end_turn q (a, s) =
        let (r, s') = store_answer q a s in
        (map text_line (sent_chunks a.chunks) ++ closing_lines r, s')

    abbrev pub answer_turn : Caller → ℕ → Turn → Server → List Line × Server
    answer_turn user user_id q s =
        let (r, s') = prepare user user_id q s in
        elim r [
          | err e ↦ (closing_lines (err e), s')
          | ok (session, prompts) ↦ end_turn q (llm_turn prompts session.lab_instance_id s')
        ]

    -- The lines of the stream, and the tables at its end
    unfoldable pub generate_chat_response_sse : Caller → Turn → Server → List Line × Server
    unfolding prepare
    generate_chat_response_sse user q s = elim user.id [
      | none ↦ (error_line "Invalid token: Missing user ID" ∷ done_line ∷ [], s)
      | some user_id ↦ answer_turn user user_id q s
    ]
