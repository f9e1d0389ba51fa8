-- ===== src/Scripts.antt =====
-- The command-line tools under scripts/.
pub mod AdminSetup
