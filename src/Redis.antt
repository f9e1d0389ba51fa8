-- ===== src/Redis.antt =====
-- Redis as the code uses it, a service that the model takes as a parameter: the commands of
-- defense/service.py and siem/service.py, each `none` where the server cannot be reached, with
-- the documented behaviour that the code relies on.
use cyber_range.Common.{ℕ, ◌+◌, ◌≡◌, ◌≢◌, String, Bool, true, false, Option, some}
use cyber_range.Db.{Server}

-- The keys that the code formats, by their parts. UUIDs and the final 0 or 1 have a fixed length,
-- so two texts agree only where the parts do; `rate_limit` holds the session ID as the request
-- spells it, which is a UUID in one of its spellings and has no colon but in "urn:uuid:".
pub data Key : Type 0 where
  rate_limit : String → String → Key
  login_attempts : ℕ → String → ℕ → Key
  jwt_forgery : ℕ → ℕ → String → Bool → Key

pub record Redis : Type 1 where
  pub Store : Type 0
  -- what is observed of a key: its number (0 where the key is absent), and its time to live
  pub value : Key → Store → ℕ
  pub ttl : Key → Store → Option ℕ
  pub incr : Key → Store → Option (ℕ × Store)
  pub expire : Key → ℕ → Store → Option Store
  -- INCR and EXPIRE in one MULTI
  pub incr_expire : Key → ℕ → Store → Option (ℕ × Store)
  -- SET key 1 NX EX seconds: whether the key was set
  pub set_nx : Key → ℕ → Store → Option (Bool × Store)
  pub delete : Key → Store → Option Store
  pub incr_counts :
      (k : Key) (s : Store) (n : ℕ) (s' : Store)
      → incr k s ≡ some (n, s')
      → (n ≡ value k s + 1) × (value k s' ≡ n)
  -- INCR keeps the time to live of a key
  pub incr_keeps_ttl :
      (k : Key) (s : Store) (n : ℕ) (s' : Store) → incr k s ≡ some (n, s') → ttl k s' ≡ ttl k s
  pub expire_keeps :
      (k : Key) (t : ℕ) (s s' : Store)
      → expire k t s ≡ some s'
      → (value k s' ≡ value k s) × (ttl k s' ≡ some t)
  pub incr_expire_counts :
      (k : Key) (t : ℕ) (s : Store) (n : ℕ) (s' : Store)
      → incr_expire k t s ≡ some (n, s')
      → (n ≡ value k s + 1) × (value k s' ≡ n) × (ttl k s' ≡ some t)
  pub set_nx_reserves :
      (k : Key) (t : ℕ) (s : Store) (set : Bool) (s' : Store)
      → set_nx k t s ≡ some (set, s')
      → value k s' ≢ 0
  pub set_nx_taken :
      (k : Key) (t : ℕ) (s : Store) (set : Bool) (s' : Store)
      → set_nx k t s ≡ some (set, s')
      → value k s ≢ 0
      → (set ≡ false) × (s' ≡ s)
  pub set_nx_free :
      (k : Key) (t : ℕ) (s : Store) (set : Bool) (s' : Store)
      → set_nx k t s ≡ some (set, s')
      → value k s ≡ 0
      → set ≡ true
  pub delete_frees : (k : Key) (s s' : Store) → delete k s ≡ some s' → value k s' ≡ 0

-- The server with its Redis.
pub record Node (r : Redis) : Type 0 where
  pub server : Server
  pub store : r.Store
