-- ===== src/Agents.antt =====
-- The assistant's tools, backend/app/agents.
pub mod Email
pub mod Tools
