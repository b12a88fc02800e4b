-- ===== src/Identity.antt =====
-- Who may do what, and the names of sessions: src/identity.
pub mod Components
pub mod Aliases
pub mod SessionName
pub mod Suggestion
pub mod Routable
