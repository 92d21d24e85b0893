-- ===== src/Panel.antt =====
-- internal/http: the server's state and its handlers.
pub mod Types
pub mod Mutate
pub mod View
pub mod Clients
pub mod Policy
pub mod Summary
pub mod Stats
pub mod Actions
pub mod Reality
pub mod Activity
pub mod Logs
pub mod Keys
pub mod State
pub mod Links
pub mod Auth
pub mod Lan
pub mod Admin
