-- ===== src/Tests/Assistant.antt =====
-- One chat turn of the sample lab's student, whose lab has a public and a private document.
use cyber_range.Common.{
  ℕ, ◌≡◌, String, Bool, true, Option, none, some, List, [], ◌∷◌, ◌==◌, ltb, refl, arith, subst,
  Bool-cases, inl, inr, if◌then◌else◌,
}
use cyber_range.Http.{Result, ok, err, unavailable}
use cyber_range.Json.{str}
use cyber_range.Db.{ChatThread, GameSession, Server}
use cyber_range.Labs.{get_authorized_session, get_session, ensure_uuid}
use cyber_range.Documents.Pipeline.{StoredChunk}
use cyber_range.Chat.Threads.{get_or_create_thread, get_thread}
use cyber_range.Chat.Context.{Where, choose_docs, present_docs}
use cyber_range.Chat.Answer.{Caller, Turn, Streamed, prepare, generate_chat_response_sse}
use cyber_range.Chat.Answer.Confidential.{AreFound, IsConfidential, prepare-IsConfidential}
use cyber_range.Chat.Answer.Ending.{
  is_stream, has_error, is_failure, outcome, generate_chat_response_sse-ends, IsAsked, IsStored,
  generate_chat_response_sse-IsStored,
}
use cyber_range.Http.{http, thread_not_found}
use cyber_range.Auth.{Principal}
use cyber_range.Redis.{Node}
use cyber_range.Defense.Limits.{enforce_rate_limit}
use cyber_range.Chat.Ask.{chat_ask}
use cyber_range.Chat.Ask.Guards.{chat_ask_foreign}
use cyber_range.Tests.Memory.{memory, empty_cells}
use cyber_range.Tests.Rows.{session, server}

abbrev public_chunk : StoredChunk
public_chunk = record {
  document = "notes";
  source = "notes.pdf";
  lab_instance_id = 7;
  access_level = "public";
  chunk_id = 0;
  token_length = 1;
}

abbrev private_chunk : StoredChunk
private_chunk = record public_chunk { document = "staff"; access_level = "private" }

abbrev indexed : List StoredChunk
indexed = private_chunk ∷ public_chunk ∷ []

abbrev search : String → Where → Result (Option (List (Option String)))
search prompt w = if w.lab_instance_id == 7 then ok (some (some "notes" ∷ [])) else ok none

search-Respects :
    (prompt : String) (w : Where) (docs : List (Option String))
    → search prompt w ≡ ok (some docs)
    → AreFound indexed w docs
search-Respects prompt w docs e = elim (Bool-cases (w.lab_instance_id == 7)) [
  | inr other ↦ absurd (ground (arith, e, other))
  | inl here ↦
      let same : some "notes" ∷ [] ≡ docs = ground (arith, e, here) in
      subst (AreFound indexed w) same (ground (arith, here), tt)
]

abbrev predict : String → List String → Result (List ℕ)
predict prompt docs = ok (1 ∷ [])

abbrev positive : ℕ → Bool
positive n = ltb 0 n

abbrev later : ℕ → ℕ → Bool
later a b = ltb b a

abbrev model : String × String → ℕ → Server → Streamed × Server
model prompts lab s = (record { chunks = "Hel" ∷ "" ∷ "lo" ∷ []; ended = ok tt }, s)

abbrev ann : Caller
ann = record { id = some 11; sub = "ann"; role = some (str "red_team"); lab_instance_id = some 7 }

abbrev turn : Turn
turn = record { session_text = "1"; session_id = some 1; thread_id = 40; prompt = "Hi" }

abbrev ready_state : Result (GameSession × (String × String)) × Server
ready_state = prepare later positive predict search model ann 11 turn server

abbrev prompts_of : Result (GameSession × (String × String)) → String × String
prompts_of (ok p) = p.1
prompts_of (err e) = ("", "")

prepared :
    prepare later positive predict search model ann 11 turn server
    ≡ (ok (session, prompts_of ready_state.0), ready_state.1)
unfolding prepare get_authorized_session get_session ensure_uuid get_or_create_thread get_thread
    choose_docs present_docs
prepared = refl

abbrev commits : Server → Result Unit
commits s = ok tt

-- the commit of the messages fails
abbrev loses : Server → Result Unit
loses s = err unavailable

generate_chat_response_sse-ends_example :
    let lines =
      (generate_chat_response_sse later positive predict search model loses ann turn server).0 in
    (is_stream lines ≡ true)
    × (has_error lines
        ≡ is_failure (outcome later positive predict search model loses ann 11 turn server))
generate_chat_response_sse-ends_example =
    generate_chat_response_sse-ends later positive predict search model loses ann 11 turn server
      refl

prepare-IsConfidential_example :
    IsConfidential later positive predict search model indexed ann turn ready_state.1
      (prompts_of ready_state.0)
      session
prepare-IsConfidential_example =
    prepare-IsConfidential later positive predict search model indexed ann 11 turn server
      ready_state.1 session (prompts_of ready_state.0) search-Respects prepared

asked : IsAsked later positive predict search model commits ann 11 turn server
asked = record {
  known = refl;
  session = session;
  prompts = prompts_of ready_state.0;
  before = ready_state.1;
  after = ready_state.1;
  sent = record { chunks = "Hel" ∷ "" ∷ "lo" ∷ []; ended = ok tt };
  ready = prepared;
  asked = refl;
  kept = refl;
}

generate_chat_response_sse-IsStored_example :
    IsStored later positive predict search model commits ann 11 turn server asked
generate_chat_response_sse-IsStored_example =
    generate_chat_response_sse-IsStored later positive predict search model commits ann 11 turn
      server asked

abbrev player : Principal
player = record { sub = "ann"; id = 11; role = some (str "red_team"); lab_instance_id = 7 }

abbrev lobby : Node memory
lobby = record { server = server; store = empty_cells }

abbrev foreign_thread : ChatThread
foreign_thread = record { id = 40; user_id = 12; session_id = 1; title = "x"; messages = [] }

abbrev shared : Node memory
shared = record lobby { server = record server { threads = foreign_thread ∷ [] } }

in_limit : (enforce_rate_limit memory (some 1) "1" "10.0.0.1" shared).0 ≡ ok tt
unfolding enforce_rate_limit get_session ensure_uuid
in_limit = refl

thread_there :
    get_thread 40 (enforce_rate_limit memory (some 1) "1" "10.0.0.1" shared).1.server
    ≡ some foreign_thread
unfolding enforce_rate_limit get_session ensure_uuid get_thread
thread_there = refl

chat_ask_foreign_example : chat_ask memory player turn "10.0.0.1" shared ≡ (
  err (http 404 thread_not_found),
  (enforce_rate_limit memory (some 1) "1" "10.0.0.1" shared).1,
)
chat_ask_foreign_example =
    chat_ask_foreign memory player turn "10.0.0.1" shared session
      (record { id = 1; spelled = refl; present = refl; own = refl }) foreign_thread in_limit
      thread_there refl
