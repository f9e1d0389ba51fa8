-- ===== src/Tests.antt =====
-- Concrete inputs: a lab with its rows, and a Redis, at which the theorems are applied.
mod Assistant
mod Codes
mod Isolated
mod Setup
mod Mail
mod Outage
mod Seeding
mod Memory
mod Rows
mod Game
mod Limits
mod Access
mod Files
mod Queue
mod Worker
mod Logins
mod Chunking
mod Economy
mod Uploads
mod Blue
mod Indexing
