-- ===== src/Agent.antt =====
-- The agent: its RPC handlers and the states of a Run (cmds/dutagent).
pub mod Errors
pub mod Run
pub mod Handlers
pub mod Lifecycle
