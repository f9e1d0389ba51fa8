-- ===== src/Chat/Isolation.antt =====
-- The guards of the injectable history search, backend/app/chat/sqli_isolation.py and
-- sqli_search.py. What PostgreSQL answers to the catalog queries, the connections file and the run of
-- the query are parameters.
pub mod Boundary
use Prim.Native.String.{◌++◌ as str_append}
use cyber_range.Common.{
  ℕ, String, Bool, true, false, Option, none, some, List, [], ◌∷◌, ◌==◌, ◌&&◌, ◌||◌, not, any,
  length, str_eq, if◌then◌else◌,
}
use cyber_range.Chat.Ask.{Searched, rows, history_query_error, isolation_error}

-- `LabObjects`: the names of a lab's schema, reader and owner; `hex` is the UUID in hexadecimal.
abbrev pub schema_of : String → String
schema_of hex = str_append "sqli_" hex

abbrev pub reader_of : String → String
reader_of hex = str_append "sqli_read_" hex

abbrev pub owner_of : String → String
owner_of hex = str_append "sqli_view_" hex

pub record Role : Type 0 where
  pub rolname : String
  pub rolcanlogin : Bool
  pub rolsuper : Bool
  pub rolcreatedb : Bool
  pub rolcreaterole : Bool
  pub rolreplication : Bool
  pub rolbypassrls : Bool

pub record View : Type 0 where
  pub relname : String
  pub relkind : String
  pub owner : String
  pub reloptions : List String
  pub readable : Bool

-- The answers to the six queries of `check_reader_boundary`
pub record Catalog : Type 0 where
  pub roles : List Role
  pub has_memberships : Bool
  pub can_create : Bool
  pub has_extra_data : Bool
  pub has_extra_routines : Bool
  pub views : List View

abbrev same_bool : Bool → Bool → Bool
same_bool a b = if a then b else not b

abbrev pub is_safe_role : String → Role → Bool
is_safe_role hex role =
    same_bool role.rolcanlogin (str_eq role.rolname (reader_of hex))
    && not (
        role.rolsuper || role.rolcreatedb || role.rolcreaterole || role.rolreplication
        || role.rolbypassrls)

abbrev pub all_of : {A : Type 0} → (A → Bool) → List A → Bool
all_of p xs = not (any (λ x. not (p x)) xs)

abbrev pub has_name : String → List View → Bool
has_name name views = any (λ v. str_eq v.relname name) views

abbrev pub has_option : String → View → Bool
has_option o v = any (str_eq o) v.reloptions

abbrev pub is_protected : String → View → Bool
is_protected hex v =
    str_eq v.relkind "v"
    && str_eq v.owner (owner_of hex)
    && v.readable
    && has_option "security_barrier=true" v
    && not (has_option "security_invoker=true" v)

-- The names are exactly the two views'.
abbrev pub are_the_views : List View → Bool
are_the_views views =
    all_of (λ v. str_eq v.relname "chat_history" || str_eq v.relname "audit_logs") views
    && has_name "chat_history" views
    && has_name "audit_logs" views

abbrev pub are_protected : String → List View → Bool
are_protected hex views =
    length views == 2 && are_the_views views && all_of (is_protected hex) views

-- `check_reader_boundary`: the message of the IsolationError that it raises, or none
unfoldable pub check_reader_boundary : String → Catalog → Option String
check_reader_boundary hex c =
    if not (length c.roles == 2)
    then some "SQLi roles are missing."
    else if not (all_of (is_safe_role hex) c.roles)
    then some "SQLi roles have unsafe attributes."
    else if c.has_memberships
    then some "SQLi roles must not have role memberships."
    else if c.can_create
    then some "SQLi reader can create persistent objects; review PUBLIC grants."
    else if c.has_extra_data
    then some "SQLi reader has unexpected data access; review PUBLIC grants."
    else if c.has_extra_routines
    then some "SQLi reader can access extra routines, sequences or foreign servers."
    else if not (are_protected hex c.views)
    then some "SQLi views are missing or incorrectly protected."
    else none

-- SQLAlchemy's URL; an absent part is the empty text.
pub record Url : Type 0 where
  pub drivername : String
  pub username : String
  pub password : String
  pub database : String
  pub host : String
  pub port : Option ℕ

abbrev pub host_of : String → String
host_of value =
    if str_eq value "localhost" || str_eq value "127.0.0.1" || str_eq value "::1"
    then "localhost"
    else value

abbrev pub port_of : Option ℕ → ℕ
port_of none = 5432
port_of (some p) = if p == 0 then 5432 else p

abbrev pub is_reader_url : Url → String → Url → Bool
is_reader_url control hex url =
    str_eq url.drivername "postgresql+asyncpg"
    && str_eq url.username (reader_of hex)
    && not (str_eq url.password "")
    && str_eq url.database control.database
    && str_eq (host_of url.host) (host_of control.host)
    && port_of url.port == port_of control.port

-- `reader_url`: the lab's entry of the connections file, none where any step fails
abbrev pub checked_url : Url → String → Option Url → Option Url
checked_url control hex none = none
checked_url control hex (some url) = if is_reader_url control hex url then some url else none

unfoldable pub reader_url : Url → (String → Option Url) → String → Option Url
reader_url control entry hex = checked_url control hex (entry hex)

-- How the query ends: rows, a database error with its SQLSTATE, or another exception
pub data Ran (Row : Type 0) : Type 0 where
  fetched : List Row → Ran Row
  database_error : Option String → Ran Row
  broken : Ran Row

-- The messages by SQLSTATE
unfoldable pub error_message : Option String → String
error_message none = "History database query failed."
error_message (some code) =
    if str_eq code "42601"
    then "SQL syntax error [42601]"
    else if str_eq code "42501"
    then "SQL permission denied [42501]"
    else if str_eq code "42P01"
    then "SQL relation does not exist [42P01]"
    else if str_eq code "42703"
    then "SQL column does not exist [42703]"
    else if str_eq code "42804"
    then "SQL type mismatch [42804]"
    else if str_eq code "22P02"
    then "SQL invalid input value [22P02]"
    else if str_eq code "57014"
    then "SQL query timed out [57014]"
    else "History database query failed."

-- A connection: `session_user`, `current_user` and the catalog
pub record Connection : Type 0 where
  pub session_user : String
  pub current_user : String
  pub catalog : Catalog

abbrev pub as_searched : {Row : Type 0} → Ran Row → Searched Row
as_searched (fetched found) = rows found
as_searched (database_error code) = history_query_error (error_message code)
as_searched broken = history_query_error "History database is unavailable."

abbrev pub is_reader : String → Connection → Bool
is_reader hex c = str_eq c.session_user (reader_of hex) && str_eq c.current_user (reader_of hex)

infixr 65 ◌<>◌
abbrev ◌<>◌ : String → String → String
s <> t = str_append s t

-- What is executed on the connection, in order: the query for the identity, the queries of
-- `check_reader_boundary`, and the search
pub data Statement : Type 0 where
  identity boundary : Statement
  search : String → Statement

abbrev pub is_search : Statement → Bool
is_search (search sql) = true
is_search _ = false

-- `raw_query`: the search text is put in as it is.
abbrev pub raw_query : String → String → String → String
raw_query hex session_text query =
    "SELECT id, title, messages FROM \""
    <> schema_of hex
    <> "\".chat_history "
    <> "WHERE session_id = '"
    <> session_text
    <> "'::uuid "
    <> "AND (title || ' ' || messages::text) ILIKE '%"
    <> query
    <> "%' "
    <> "ORDER BY created_at"

module _ {Row : Type 0} (control : Url) (entry : String → Option Url)
    (connect : Url → Option Connection) (run : Connection → String → Ran Row) where
  abbrev pub guarded : String → String → Connection → Searched Row × List Statement
  guarded hex sql c =
      if not (is_reader hex c)
      then (isolation_error "History connection is not the expected lab reader.", identity ∷ [])
      else elim (check_reader_boundary hex c.catalog) [
        | some message ↦ (isolation_error message, identity ∷ boundary ∷ [])
        | none ↦ (as_searched (run c sql), identity ∷ boundary ∷ search sql ∷ [])
      ]

  abbrev pub connected : String → String → Option Connection → Searched Row × List Statement
  connected hex sql none = (history_query_error "History database is unavailable.", [])
  connected hex sql (some c) = guarded hex sql c

  -- The outcome, with what was executed
  unfoldable pub search_history : String → String → String → Searched Row × List Statement
  unfolding reader_url check_reader_boundary
  search_history hex session_text query = elim (reader_url control entry hex) [
    | none ↦ (
      isolation_error "History search needs a configured restricted connection for this lab.",
      [],
    )
    | some url ↦ connected hex (raw_query hex session_text query) (connect url)
  ]
