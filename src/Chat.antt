-- ===== src/Chat.antt =====
-- The assistant of the Red Team, backend/app/chat.
pub mod Threads
pub mod Prompt
pub mod Context
pub mod Answer
pub mod Ask
pub mod Engine
pub mod Isolation
