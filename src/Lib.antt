-- ===== src/Lib.antt =====
-- The backend of the AI Security CyberRange: a game in which Red Team players attack an assistant,
-- and Blue Team players buy defenses and investigate the events that the attacks leave. The code is
-- Python under backend/app and scripts; each file here begins with a comment that names the code it
-- is about.
--
-- How the parts interact. A handler is an action on a state, `S → Result A × S` (Http): it returns
-- a value or raises an exception, and the state comes back in both cases, since what was committed
-- stays committed. The state is `Db.Server`: the tables of backend/app/db/models.py as lists of
-- rows, the clock, the next row id, and whether the audit log can be written. With Redis it is
-- `Redis.Node`. Queries are `find?` and `select` on these lists, and a write through a row that a
-- query gave is `update_first` with the same test.
--
-- Parts:
--   Common, Json, Http      lists, signed integers, JSON payloads, exceptions
--   Db, Labs                backend/app/db/models.py, db/ids.py, labs/repository.py and
--                           labs/service.py: Codes are the login codes, over Base64;
--                           Exercises is labs/exercises.py
--   Redis                   the Redis commands that the code sends, with their documented behaviour
--   Auth                    backend/app/auth/service.py and auth/router.py: Vulnerable is the Red
--                           Team's forgeable token with its authenticated scope, Login the issue
--   Defense                 backend/app/defense/service.py: the shop, and Limits, the two limits
--   Siem                    backend/app/siem/service.py and siem/repository.py: events; Forensics
--                           is siem/forensics.py, Worker is siem/soc_worker.py
--   Ctf                     backend/app/ctf/service.py and ctf/repository.py
--   Documents               backend/app/documents/object_store.py, with posixpath in Paths, the
--                           chunking of documents/service.py in Chunks, its jobs in Pipeline,
--                           and the endpoint of documents/router.py in Upload
--   Game                    purchases and investigations together, as a history of one game
--   BlueTeam                backend/app/defense/router.py and backend/app/siem/router.py
--   Chat                    backend/app/chat: Threads, Prompt, Context and Answer for a turn of
--                           the assistant, Ask for the endpoints, Engine for the
--                           model's stream, Isolation for the guards of the injectable search
--   Agents                  backend/app/agents/tools: Email is the email tool, Tools the registry
--   Scripts                 scripts/admin_setup.py
--   LlmQueue                backend/app/core/queue_manager.py
--   Tests                   concrete inputs at which the theorems are applied
--
-- Conventions. UUIDs and row ids are numbers, since the code mostly compares them; where it needs
-- their text, the text is a function, and the bytes of a UUID in a login code are its digits in
-- base 256. Timestamps are seconds. A row that is locked from a query to the commit is read and
-- written in one action; where other requests may run in between, as while the SOC worker waits for
-- the model, they are a parameter that may change the state. Money is a signed integer. Loops are
-- structural recursion on a list, except that the batches of a document are inserted with one round
-- of fuel for each chunk, which is enough since a batch is never empty, and the walk over the
-- causes of an exception takes one round of fuel more than there are exceptions; the endless loop
-- of the SOC worker is modelled by its round.
--
-- Parameters. PyJWT, bcrypt, SHA-256, HMAC, the language model, the vector store, the cross-
-- encoder, the SMTP server, PostgreSQL's catalog and Redis are not part of the repository: the
-- definitions take them as arguments, as they take the three compiled patterns of the heuristics,
-- and a theorem that relies on their behaviour says so in its hypotheses. The commit of a chat
-- turn's messages may fail too. Redis is a record of commands, each of which may fail, with laws
-- for counters, expiry and reservations; Tests.Memory is an instance.
--
-- Not modelled: the private document of an exercise, the SOC agent's prompt and the DDL of the SQL
-- injection exercise; the construction of database, model and storage clients, which is wiring of
-- third-party code; logging; and concurrent transactions other than those named above, which the
-- database orders by its row locks.
pub mod Common
pub mod Http
pub mod Json
pub mod Db
pub mod Labs
pub mod Defense
pub mod Siem
pub mod Redis
pub mod Auth
pub mod Ctf
pub mod Documents
mod Tests
pub mod LlmQueue
pub mod Game
pub mod BlueTeam
pub mod Scripts
pub mod Chat
pub mod Agents
