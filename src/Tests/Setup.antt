-- ===== src/Tests/Setup.antt =====
-- A setup of the sample lab on an empty database.
use cyber_range.Common.{
  ◌≡◌, String, Bool, true, Option, none, some, refl, arith, str_eq, if◌then◌else◌,
}
use cyber_range.Common.Int.{pos}
use cyber_range.Http.{Result, ok}
use cyber_range.Db.{Server}
use cyber_range.Redis.{Node}
use cyber_range.Auth.{get_by_username}
use cyber_range.Scripts.AdminSetup.{
  Options, Report, seed, seed_transaction, look_up, validate, existing_user, sessions_of,
  only_session, resolve_hash, write_rows, keep_or_add, keep_or_start, add_user, add_session,
  read_password,
}
use cyber_range.Scripts.AdminSetup.Provision.{Ends, seed_outcome, unchanged, setup_repeat}
use cyber_range.Scripts.AdminSetup.FirstLogin.{IsFirstSetup, LogsIn, setup_login}
use cyber_range.Tests.Rows.{server}
use cyber_range.Tests.Memory.{memory, empty_cells}
use cyber_range.Tests.Codes.{flat, flat-IsDigest}

abbrev options : Options
options = record {
  lab_id = 9;
  red_username = "rob";
  blue_username = "bea";
  team_id = none;
  budget = pos 5;
  is_solo = true;
}

abbrev trimmed : String → Bool
trimmed s = true

abbrev environ : String → Option String
environ role = if str_eq role "red_team" then some "pw" else some "pw2"

abbrev passwords : String → Result String
passwords role = read_password environ none role

abbrev hash : String → String
hash p = p

abbrev report : Report
report = record {
  lab_instance_id = 9;
  session_id = 22;
  team_id = 20;
  is_solo = true;
  red_user_id = 20;
  blue_user_id = 21;
  red_username = "rob";
  blue_username = "bea";
  created = record { red_team = true; blue_team = true; session = true };
}

abbrev provisioned : Server
provisioned = (seed_transaction trimmed passwords hash options server).1

ran : seed_transaction trimmed passwords hash options server ≡ (ok report, provisioned)
unfolding seed_transaction seed look_up validate existing_user sessions_of only_session resolve_hash
    write_rows keep_or_add keep_or_start add_user add_session read_password get_by_username
ran = refl

seed_outcome_example : Ends trimmed passwords hash options server
seed_outcome_example = seed_outcome trimmed passwords hash options server

-- The second run has no passwords to give.
setup_repeat_example :
    seed_transaction trimmed (read_password (λ role. none) none) hash options provisioned
    ≡ (ok (unchanged report), provisioned)
setup_repeat_example =
    setup_repeat trimmed passwords (read_password (λ role. none) none) hash hash options report
      server provisioned ran

abbrev node : Node memory
node = record { server = provisioned; store = empty_cells }

set_up : IsFirstSetup memory str_eq trimmed passwords hash flat options report server node "pw"
unfolding read_password
set_up = record {
  setup = ran;
  new_student = refl;
  new_lab = refl;
  password = refl;
  bcrypt = refl;
  signed = flat-IsDigest;
  uuid = omega arith;
}

setup_login_example :
    LogsIn memory str_eq trimmed passwords hash flat options report node "pw" "10.0.0.1" "red"
setup_login_example =
    setup_login memory str_eq trimmed passwords hash flat options report server node "pw" "10.0.0.1"
      "red" set_up
