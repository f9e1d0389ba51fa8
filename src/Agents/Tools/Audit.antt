-- ===== src/Agents/Tools/Audit.antt =====
-- Each tool call leaves one event, and mail leaves only for the lab's domains.
use cyber_range.Common.{
  ℕ, ◌≡◌, ◌+◌, ◌⊎◌, inl, inr, String, Bool, Option, some, List, [], ◌∷◌, ◌++◌, arith, length,
  Option-cases, if◌then◌else◌,
}
use cyber_range.Documents.Paths.{Text, codes}
use cyber_range.Siem.Events.{log_security_event-Appends}
use cyber_range.Agents.Email.{EmailArguments, handle_send_email}
use cyber_range.Agents.Email.Recipients.{
  IsInDomain, recipient_allowed-IsInDomain, handle_send_email-cases,
}
use cyber_range.Agents.Tools.{
  ToolCall, Desk, failed_payload, tool_payload, valid_call, execute_tool_call,
}

module _ (getaddresses : Text → List (Text × Text)) (strip lower : Text → Text)
    (smtp : EmailArguments → Bool) (host : String) (domains : Text)
    (validate_args : String → Option EmailArguments) (call : ToolCall) (lab : ℕ) (d : Desk) where
  abbrev desk_after : Desk
  desk_after =
      (execute_tool_call getaddresses strip lower smtp host domains validate_args call lab d).1

  -- The message of the call, to a recipient in a listed domain, is all that was handed over.
  pub record IsSentInLab : Type 0 where
    pub args : EmailArguments
    pub read : valid_call getaddresses strip lower smtp host domains validate_args call ≡ some args
    pub handed : desk_after.outbox ≡ d.outbox ++ args ∷ []
    pub recipient : IsInDomain getaddresses strip lower domains (codes args.to_address)

  pub record IsAudited : Type 0 where
    pub mail : (desk_after.outbox ≡ d.outbox) ⊎ IsSentInLab
    pub events :
        length desk_after.server.audit_logs
        ≡ length d.server.audit_logs + (if d.server.audit_up then 1 else 0)
    pub same_users : desk_after.server.users ≡ d.server.users
    pub same_sessions : desk_after.server.sessions ≡ d.server.sessions
    pub same_threads : desk_after.server.threads ≡ d.server.threads

  -- Whatever the model calls, one event is logged if the audit log can be written, no session,
  -- user or chat thread changes, and mail is handed over only for a call that was read, and only
  -- to one plain address of a listed domain.
  pub execute_tool_call-IsAudited : IsAudited
  unfolding execute_tool_call
  execute_tool_call-IsAudited =
      elim (Option-cases
        (valid_call getaddresses strip lower smtp host domains validate_args call)) [
          | inl unread ↦
              let kept =
                log_security_event-Appends lab "AI_TOOL_FAILED" (failed_payload call.name)
                  "LLM_AGENT" d.server in
              record {
                mail = inl (ground (arith, unread));
                events = ground (arith, unread, kept.more);
                same_users = ground (arith, unread, kept.same_users);
                same_sessions = ground (arith, unread, kept.same_sessions);
                same_threads = ground (arith, unread, kept.same_threads);
              }
          | inr (args, read) ↦
              let done =
                handle_send_email getaddresses strip lower smtp host domains args d.outbox in
              let kept =
                log_security_event-Appends lab done.0.event_type (tool_payload call done.0)
                  "LLM_AGENT" d.server in
              record {
                mail =
                    elim (handle_send_email-cases getaddresses strip lower smtp host domains args
                      d.outbox) [
                        | inl silent ↦ inl (ground (arith, read, silent))
                        | inr (handed, allowed) ↦ inr (record {
                          args = args;
                          read = read;
                          handed = ground (arith, read, handed);
                          recipient =
                              recipient_allowed-IsInDomain getaddresses strip lower domains
                                (codes args.to_address) allowed;
                        })
                      ];
                events = ground (arith, read, kept.more);
                same_users = ground (arith, read, kept.same_users);
                same_sessions = ground (arith, read, kept.same_sessions);
                same_threads = ground (arith, read, kept.same_threads);
              }
        ]
