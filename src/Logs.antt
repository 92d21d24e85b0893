-- ===== src/Logs.antt =====
-- internal/logs: a log file that is followed as it grows, and the fan-out of its lines.
pub mod Lines
pub mod Follow
pub mod Hub
