-- ===== src/Tests/Mail.antt =====
-- A call of the email tool that mails a student of the lab, and one that mails an outsider.
use cyber_range.Common.{◌≡◌, true, false, some, List, [], ◌∷◌, refl}
use cyber_range.Documents.Paths.{Text, codes, text_eq}
use cyber_range.Agents.Email.{
  EmailArguments, recipient_allowed, rpartition_at, split_comma, allowed_domains,
}
use cyber_range.Agents.Tools.{ToolCall, Desk}
use cyber_range.Agents.Tools.Audit.{IsAudited, execute_tool_call-IsAudited}
use cyber_range.Tests.Rows.{server}

abbrev whole_address : Text → List (Text × Text)
whole_address t = ([], t) ∷ []

abbrev same : Text → Text
same t = t

abbrev letter : EmailArguments
letter = record { to_address = "a@lab.test"; subject = "hi"; body = "flag{x}" }

abbrev domains : Text
domains = codes "lab.test,uni.test"

allowed : recipient_allowed whole_address same same domains (codes "a@lab.test") ≡ true
unfolding recipient_allowed rpartition_at split_comma allowed_domains text_eq
allowed = refl

outsider : recipient_allowed whole_address same same domains (codes "a@b@lab.test") ≡ false
unfolding recipient_allowed rpartition_at split_comma allowed_domains text_eq
outsider = refl

abbrev call : ToolCall
call = record { name = some "send_email"; args = some "{}" }

abbrev desk : Desk
desk = record { server = server; outbox = [] }

execute_tool_call-IsAudited_example :
    IsAudited whole_address same same
      (λ a. true)
      "smtp.lab.test"
      domains
      (λ t. some letter)
      call
      7
      desk
execute_tool_call-IsAudited_example =
    execute_tool_call-IsAudited whole_address same same (λ a. true) "smtp.lab.test" domains
      (λ t. some letter) call 7 desk
