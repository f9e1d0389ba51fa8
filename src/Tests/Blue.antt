-- ===== src/Tests/Blue.antt =====
-- A Blue Team user of the sample lab.
use cyber_range.Common.{true, some, none, [], ◌∷◌}
use cyber_range.Json.{str}
use cyber_range.Db.{User, Server}
use cyber_range.Auth.{Tokens, claims}
use cyber_range.BlueTeam.Access.{IsGuarded, blue_requests-IsGuarded}
use cyber_range.Tests.Rows.{student, server, heuristics}

abbrev analyst : User
analyst = record student { id = 12; username = "bob"; role = "blue_team" }

abbrev staffed : Server
staffed = record server { users = student ∷ analyst ∷ [] }

abbrev blue_tokens : Tokens
blue_tokens = record {
  decode_unverified = λ _. claims [];
  decode_verified = λ _. claims (("sub", str "bob") ∷ []);
  decode_strict = λ _. claims [];
  decode_scope = λ _. claims [];
  uuid_text = λ _. "id";
  parse_uuid = λ _. none;
}

blue_requests-IsGuarded_example :
    IsGuarded blue_tokens (some "token") 1 staffed "reranker" heuristics 3 true
blue_requests-IsGuarded_example =
    blue_requests-IsGuarded blue_tokens (some "token") 1 staffed "reranker" heuristics 3 true
