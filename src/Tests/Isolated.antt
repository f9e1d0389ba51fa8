-- ===== src/Tests/Isolated.antt =====
-- A lab whose reader is isolated, and one whose reader may create objects.
use cyber_range.Common.{ℕ, ◌≡◌, String, true, false, Option, none, some, [], ◌∷◌, refl, any}
use cyber_range.Chat.Isolation.{
  Role, View, Catalog, Url, Connection, Ran, fetched, is_search, check_reader_boundary, reader_url,
  search_history,
}
use cyber_range.Chat.Isolation.Boundary.{IsGuarded, search_history-IsGuarded}

abbrev owner : Role
owner = record {
  rolname = "sqli_view_07";
  rolcanlogin = false;
  rolsuper = false;
  rolcreatedb = false;
  rolcreaterole = false;
  rolreplication = false;
  rolbypassrls = false;
}

abbrev reader : Role
reader = record owner { rolname = "sqli_read_07"; rolcanlogin = true }

abbrev history : View
history = record {
  relname = "chat_history";
  relkind = "v";
  owner = "sqli_view_07";
  reloptions = "security_barrier=true" ∷ [];
  readable = true;
}

abbrev catalog : Catalog
catalog = record {
  roles = owner ∷ reader ∷ [];
  has_memberships = false;
  can_create = false;
  has_extra_data = false;
  has_extra_routines = false;
  views = history ∷ record history { relname = "audit_logs" } ∷ [];
}

open_schema :
    check_reader_boundary "07" (record catalog { can_create = true })
    ≡ some "SQLi reader can create persistent objects; review PUBLIC grants."
unfolding check_reader_boundary
open_schema = refl

abbrev control : Url
control = record {
  drivername = "postgresql+asyncpg";
  username = "app";
  password = "pw";
  database = "range";
  host = "localhost";
  port = none;
}

abbrev configured : String → Option Url
configured hex =
    some (record control { username = "sqli_read_07"; host = "127.0.0.1"; port = some 5432 })

abbrev open_reader : Url → Option Connection
open_reader url =
    some
      (record { session_user = "sqli_read_07"; current_user = "sqli_read_07"; catalog = catalog })

abbrev one_row : Connection → String → Ran ℕ
one_row c sql = fetched (5 ∷ [])

answered :
    any is_search (search_history control configured open_reader one_row "07" "1" "x").1 ≡ true
unfolding search_history reader_url check_reader_boundary
answered = refl

search_history-IsGuarded_example : IsGuarded control configured open_reader one_row "07" "1" "x"
search_history-IsGuarded_example =
    search_history-IsGuarded control configured open_reader one_row "07" "1" "x" answered
