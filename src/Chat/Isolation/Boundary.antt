-- ===== src/Chat/Isolation/Boundary.antt =====
-- The search runs only behind the lab's isolated reader.
use cyber_range.Common.{
  ◌≡◌, ◌≢◌, ◌↔◌, ◌⊎◌, ◌||◌, ◌&&◌, String, Bool, true, false, Option, none, some, List, [], ◌∷◌, any,
  arith, ==_iff, str_eq, str_eq_iff, length, All, Option-cases, Bool-cases, inl, inr,
}
use cyber_range.Chat.Isolation.{
  Role, View, Catalog, is_safe_role, all_of, reader_of, owner_of, has_name, is_protected,
  are_protected, check_reader_boundary, Url, host_of, port_of, is_reader_url, reader_url,
  Connection, is_reader, raw_query, Statement, identity, boundary, search, is_search, Ran,
  search_history,
}

-- A role of the lab: the reader alone may log in, and it has no attribute that bypasses rights.
pub record IsSafe (hex : String) (r : Role) : Type 0 where
  pub login : (r.rolcanlogin ≡ true) ↔ (r.rolname ≡ reader_of hex)
  pub no_superuser : r.rolsuper ≡ false
  pub no_databases : r.rolcreatedb ≡ false
  pub no_roles : r.rolcreaterole ≡ false
  pub no_replication : r.rolreplication ≡ false
  pub no_bypass : r.rolbypassrls ≡ false

-- One of the two views: it belongs to the lab's owner and runs with the owner's rights behind a
-- security barrier.
pub record IsBarrier (hex : String) (v : View) : Type 0 where
  pub name : (v.relname ≡ "chat_history") ⊎ (v.relname ≡ "audit_logs")
  pub view : v.relkind ≡ "v"
  pub owned : v.owner ≡ owner_of hex
  pub readable : v.readable ≡ true
  pub barrier : any (str_eq "security_barrier=true") v.reloptions ≡ true
  pub definer : any (str_eq "security_invoker=true") v.reloptions ≡ false

-- The catalog shows two safe roles and the two views, and no right beyond them.
pub record IsIsolated (hex : String) (c : Catalog) : Type 0 where
  pub two_roles : length c.roles ≡ 2
  pub safe_roles : All (IsSafe hex) c.roles
  pub no_memberships : c.has_memberships ≡ false
  pub no_creation : c.can_create ≡ false
  pub no_data : c.has_extra_data ≡ false
  pub no_routines : c.has_extra_routines ≡ false
  pub two_views : length c.views ≡ 2
  pub history : has_name "chat_history" c.views ≡ true
  pub logs : has_name "audit_logs" c.views ≡ true
  pub barriers : All (IsBarrier hex) c.views

is_safe_role-IsSafe : (hex : String) (r : Role) → is_safe_role hex r ≡ true → IsSafe hex r
is_safe_role-IsSafe hex r e =
    let named = str_eq_iff r.rolname (reader_of hex) in
    elim (Bool-cases r.rolcanlogin) [
      | inl may ↦ record {
        login = ground (arith, e, may, named);
        no_superuser = ground (arith, e, may);
        no_databases = ground (arith, e, may);
        no_roles = ground (arith, e, may);
        no_replication = ground (arith, e, may);
        no_bypass = ground (arith, e, may);
      }
      | inr not_ ↦ record {
        login = ground (arith, e, not_, named);
        no_superuser = ground (arith, e, not_);
        no_databases = ground (arith, e, not_);
        no_roles = ground (arith, e, not_);
        no_replication = ground (arith, e, not_);
        no_bypass = ground (arith, e, not_);
      }
    ]

all_of-All :
    {A : Type 0} (P : A → Type 0) (p : A → Bool) (xs : List A)
    → ((x : A) → p x ≡ true → P x)
    → all_of p xs ≡ true
    → All P xs
all_of-All P p [] h e = tt
all_of-All P p (x ∷ xs) h e = elim (Bool-cases (p x)) [
  | inl passes ↦ (h x passes, all_of-All P p xs h (ground (arith, e, passes)))
  | inr fails ↦ absurd (ground (arith, e, fails))
]

abbrev is_the_view : String → View → Bool
is_the_view hex v =
    (str_eq v.relname "chat_history" || str_eq v.relname "audit_logs") && is_protected hex v

is_protected-IsBarrier :
    (hex : String) (v : View)
    → (str_eq v.relname "chat_history" || str_eq v.relname "audit_logs") ≡ true
    → is_protected hex v ≡ true
    → IsBarrier hex v
is_protected-IsBarrier hex v named e = record {
  name = elim (Bool-cases (str_eq v.relname "chat_history")) [
    | inl here ↦ inl ((str_eq_iff v.relname "chat_history").0 here)
    | inr other ↦ inr ((str_eq_iff v.relname "audit_logs").0 (ground (arith, named, other)))
  ];
  view = (str_eq_iff v.relkind "v").0 (ground (arith, e));
  owned = (str_eq_iff v.owner (owner_of hex)).0 (ground (arith, e));
  readable = ground (arith, e);
  barrier = ground (arith, e);
  definer = ground (arith, e);
}

both-All :
    {A : Type 0} (P Q R : A → Type 0) (xs : List A)
    → ((x : A) → P x → Q x → R x)
    → All P xs
    → All Q xs
    → All R xs
both-All P Q R [] h a b = tt
both-All P Q R (x ∷ xs) h a b = (h x a.0 b.0, both-All P Q R xs h a.1 b.1)

views-barriers :
    (hex : String) (vs : List View)
    → are_protected hex vs ≡ true
    → (length vs ≡ 2) × All (IsBarrier hex) vs
views-barriers hex vs e =
    let named = λ (v : View). str_eq v.relname "chat_history" || str_eq v.relname "audit_logs" in
    let names : all_of named vs ≡ true = ground (arith, e) in
    let protected : all_of (is_protected hex) vs ≡ true = ground (arith, e) in
    (
      (==_iff (length vs) 2).0 (ground (arith, e)),
      both-All (λ v. named v ≡ true) (λ v. is_protected hex v ≡ true) (IsBarrier hex) vs
          (is_protected-IsBarrier hex) (all_of-All (λ v. named v ≡ true) named vs (λ v h. h) names)
          (all_of-All (λ v. is_protected hex v ≡ true) (is_protected hex) vs (λ v h. h) protected),
    )

check_reader_boundary-IsIsolated :
    (hex : String) (c : Catalog) → check_reader_boundary hex c ≡ none → IsIsolated hex c
unfolding check_reader_boundary
check_reader_boundary-IsIsolated hex c e =
    let safe : all_of (is_safe_role hex) c.roles ≡ true = ground (arith, e) in
    let protected : are_protected hex c.views ≡ true = ground (arith, e) in
    let views = views-barriers hex c.views protected in
    record {
      two_roles = (==_iff (length c.roles) 2).0 (ground (arith, e));
      safe_roles =
          all_of-All (IsSafe hex) (is_safe_role hex) c.roles (is_safe_role-IsSafe hex) safe;
      no_memberships = ground (arith, e);
      no_creation = ground (arith, e);
      no_data = ground (arith, e);
      no_routines = ground (arith, e);
      two_views = views.0;
      history = ground (arith, protected);
      logs = ground (arith, protected);
      barriers = views.1;
    }

-- The lab's connection leads to the configured database, as the lab's reader with a password.
pub record IsRestricted (control : Url) (hex : String) (url : Url) : Type 0 where
  pub driver : url.drivername ≡ "postgresql+asyncpg"
  pub user : url.username ≡ reader_of hex
  pub secret : url.password ≢ ""
  pub same_database : url.database ≡ control.database
  pub same_host : host_of url.host ≡ host_of control.host
  pub same_port : port_of url.port ≡ port_of control.port

is_reader_url-IsRestricted :
    (control : Url) (hex : String) (url : Url)
    → is_reader_url control hex url ≡ true
    → IsRestricted control hex url
is_reader_url-IsRestricted control hex url e = record {
  driver = (str_eq_iff url.drivername "postgresql+asyncpg").0 (ground (arith, e));
  user = (str_eq_iff url.username (reader_of hex)).0 (ground (arith, e));
  secret = λ empty. absurd (ground (arith, e, (str_eq_iff url.password "").1 empty));
  same_database = (str_eq_iff url.database control.database).0 (ground (arith, e));
  same_host = (str_eq_iff (host_of url.host) (host_of control.host)).0 (ground (arith, e));
  same_port = (==_iff (port_of url.port) (port_of control.port)).0 (ground (arith, e));
}

module _ {Row : Type 0} (control : Url) (entry : String → Option Url)
    (connect : Url → Option Connection) (run : Connection → String → Ran Row)
    (hex session_text query : String) where
  abbrev executed : List Statement
  executed = (search_history control entry connect run hex session_text query).1

  -- The search was the last of what was executed, after the identity and the isolation, on a
  -- connection of the lab's entry, as the lab's reader, whose catalog shows the isolation.
  pub record IsGuarded : Type 0 where
    pub url : Url
    pub connection : Connection
    pub listed : entry hex ≡ some url
    pub restricted : IsRestricted control hex url
    pub reached : connect url ≡ some connection
    pub session_user : connection.session_user ≡ reader_of hex
    pub current_user : connection.current_user ≡ reader_of hex
    pub isolated : IsIsolated hex connection.catalog
    pub order : executed ≡ identity ∷ boundary ∷ search (raw_query hex session_text query) ∷ []

  -- If a search statement is executed at all, the lab's entry of the connections file leads to the
  -- configured database as the lab's reader, the connection has that identity, its catalog shows
  -- two roles without further attributes and the two protected views and no right beyond them, and
  -- the statement comes once, after the queries that establish this.
  pub search_history-IsGuarded : any is_search executed ≡ true → IsGuarded
  unfolding search_history reader_url
  search_history-IsGuarded e = elim (Option-cases (entry hex)) [
    | inl missing ↦ absurd (ground (arith, e, missing))
    | inr (url, present) ↦ elim (Bool-cases (is_reader_url control hex url)) [
      | inr other ↦ absurd (ground (arith, e, present, other))
      | inl own ↦ elim (Option-cases (connect url)) [
        | inl down ↦ absurd (ground (arith, e, present, own, down))
        | inr (c, reached) ↦ elim (Bool-cases (is_reader hex c)) [
          | inr stranger ↦ absurd (ground (arith, e, present, own, reached, stranger))
          | inl reader ↦ elim (Option-cases (check_reader_boundary hex c.catalog)) [
            | inr (m, unsafe) ↦ absurd (ground (arith, e, present, own, reached, reader, unsafe))
            | inl passed ↦ record {
              url = url;
              connection = c;
              listed = present;
              restricted = is_reader_url-IsRestricted control hex url own;
              reached = reached;
              session_user = (str_eq_iff c.session_user (reader_of hex)).0 (ground (arith, reader));
              current_user = (str_eq_iff c.current_user (reader_of hex)).0 (ground (arith, reader));
              isolated = check_reader_boundary-IsIsolated hex c.catalog passed;
              order = ground (arith, present, own, reached, reader, passed);
            }
          ]
        ]
      ]
    ]
  ]
