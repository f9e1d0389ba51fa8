-- ===== src/Chat/Engine.antt =====
-- The stream of the language model, `generate_unified_stream` of backend/app/chat/llm_engine.py.
-- What LangChain streams is a parameter, as is `str.strip`.
use cyber_range.Common.{
  ℕ, ◌≡◌, String, Bool, true, false, Option, none, some, List, [], ◌∷◌, ◌++◌, ◌||◌, ◌&&◌, not,
  str_eq, refl, ◌∙◌, arith, inl, inr, Bool-cases, if◌then◌else◌,
}
use cyber_range.Http.{Result, ok, err, runtime_error, Result-cases}
use cyber_range.Documents.Paths.{Text, is_empty}
use cyber_range.Agents.Email.{EmailArguments}
use cyber_range.Agents.Tools.{ToolCall, Desk, execute_tool_call}
use cyber_range.Agents.Tools.Audit.{execute_tool_call-IsAudited}
use cyber_range.Chat.Answer.{Streamed}

-- What `astream` yields: the contents of the chunks, none where one is no text, how it ends, and
-- the added response's finish reason and tool calls.
pub record Response : Type 0 where
  pub contents : List (Option String)
  pub ended : Result Unit
  pub cut_off : Bool
  pub calls : List ToolCall

-- `if isinstance(chunk.content, str) and chunk.content`
unfoldable pub yielded : List (Option String) → List String
yielded [] = []
yielded (none ∷ cs) = yielded cs
yielded (some c ∷ cs) = let rest = yielded cs in if str_eq c "" then rest else c ∷ rest

module _ (is_blank : String → Bool) where
  -- `has_text`
  unfoldable pub has_text : List String → Bool
  has_text [] = false
  has_text (c ∷ cs) = let rest = has_text cs in if is_blank c then rest else true

  -- The two RuntimeErrors after the stream
  abbrev pub is_unusable : Response → Bool
  is_unusable r =
      is_empty r.contents || r.cut_off || (not (has_text (yielded r.contents)) && is_empty r.calls)

module _ (getaddresses : Text → List (Text × Text)) (strip lower : Text → Text)
    (smtp : EmailArguments → Bool) (host : String) (domains : Text)
    (validate_args : String → Option EmailArguments) (is_blank : String → Bool) (lab : ℕ) where
  -- The tool calls, one after another, and what each one shows
  unfoldable pub run_calls : List ToolCall → Desk → List String × Desk
  run_calls [] d = ([], d)
  run_calls (c ∷ cs) d =
      let (shown, d') =
        execute_tool_call getaddresses strip lower smtp host domains validate_args c lab d in
      let rest = run_calls cs d' in (shown ∷ rest.0, rest.1)

  abbrev after_stream : Response → Desk → Streamed × Desk
  after_stream r d =
      if is_unusable is_blank r
      then (record { chunks = yielded r.contents; ended = err runtime_error }, d)
      else (let ran = run_calls r.calls d in
          (record { chunks = yielded r.contents ++ ran.0; ended = ok tt }, ran.1))

  unfoldable pub generate_unified_stream : Response → Desk → Streamed × Desk
  unfolding run_calls
  generate_unified_stream r d = elim r.ended [
    | ok t ↦ after_stream r d
    | err e ↦ (record { chunks = yielded r.contents; ended = err e }, d)
  ]

  run_calls-threads :
      (cs : List ToolCall) (d : Desk) → (run_calls cs d).1.server.threads ≡ d.server.threads
  unfolding run_calls
  run_calls-threads [] d = refl
  run_calls-threads (c ∷ cs) d =
      run_calls-threads cs _
      ∙ (execute_tool_call-IsAudited getaddresses strip lower smtp host domains validate_args c lab
          d).same_threads

  -- The model's stream and its tools write no chat thread.
  generate_unified_stream-threads :
      (r : Response) (d : Desk) → (generate_unified_stream r d).1.server.threads ≡ d.server.threads
  unfolding generate_unified_stream
  generate_unified_stream-threads r d = elim (Result-cases r.ended) [
    | inr (e, broken) ↦ ground (arith, broken)
    | inl (t, whole) ↦ elim (Bool-cases (is_unusable is_blank r)) [
      | inl bad ↦ ground (arith, whole, bad)
      | inr good ↦ ground (arith, whole, good, run_calls-threads r.calls d)
    ]
  ]
