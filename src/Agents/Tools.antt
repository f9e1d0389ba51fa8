-- ===== src/Agents/Tools.antt =====
-- Tool calls of the model, backend/app/agents/tools/registry.py. The strict reading of a call's
-- arguments, json and pydantic, is a parameter.
pub mod Audit
use cyber_range.Common.{
  ℕ, String, Bool, Option, none, some, List, [], ◌∷◌, ◌++◌, str_eq, if◌then◌else◌,
}
use cyber_range.Json.{Json, null, str, Payload, put}
use cyber_range.Db.{Server}
use cyber_range.Siem.{log_security_event}
use cyber_range.Documents.Paths.{Text}
use cyber_range.Agents.Email.{EmailArguments, ToolResult, handle_send_email}

-- A completed `ToolCallChunk`
pub record ToolCall : Type 0 where
  pub name : Option String
  pub args : Option String

-- The server, and what was handed to the SMTP server
pub record Desk : Type 0 where
  pub server : Server
  pub outbox : List EmailArguments

abbrev name_json : Option String → Json
name_json none = null
name_json (some name) = str name

abbrev pub failed_payload : Option String → Payload
failed_payload name = ("tool", name_json name) ∷ ("reason", str "Invalid tool or arguments") ∷ []

abbrev pub tool_payload : ToolCall → ToolResult → Payload
tool_payload call result = put "risk" (str "high") (put "tool" (name_json call.name) result.payload)

abbrev pub failed_message : String
failed_message = "\n\n*[SYSTEM]: Tool execution failed: invalid tool or arguments.*"

abbrev args_text : Option String → String
args_text none = ""
args_text (some text) = text

module _ (getaddresses : Text → List (Text × Text)) (strip lower : Text → Text)
    (smtp : EmailArguments → Bool) (host : String) (domains : Text)
    (validate_args : String → Option EmailArguments) where
  -- `TOOLS.get(name)`, and the arguments read strictly: none where either fails
  abbrev pub valid_call : ToolCall → Option EmailArguments
  valid_call call = elim (call.name) [
    | none ↦ none
    | some name ↦ if str_eq name "send_email" then validate_args (args_text call.args) else none
  ]

  abbrev pub audited : ℕ → String → Payload → Server → Server
  audited lab event_type payload s = (log_security_event lab event_type payload "LLM_AGENT" s).1

  abbrev pub run_tool : ℕ → ToolCall → Option EmailArguments → Desk → String × Desk
  run_tool lab call none d = (
    failed_message,
    record d { server = audited lab "AI_TOOL_FAILED" (failed_payload call.name) d.server },
  )
  run_tool lab call (some args) d =
      let (result, outbox) =
        handle_send_email getaddresses strip lower smtp host domains args d.outbox in
      (
        result.message,
        record {
          server = audited lab result.event_type (tool_payload call result) d.server;
          outbox = outbox;
        },
      )

  -- What the chat shows, and the desk afterwards
  unfoldable pub execute_tool_call : ToolCall → ℕ → Desk → String × Desk
  execute_tool_call call lab d = run_tool lab call (valid_call call) d
