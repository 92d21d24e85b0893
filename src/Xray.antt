-- ===== src/Xray.antt =====
-- internal/xray: the config file's model and codec, and the operations on its clients.
pub mod Model
pub mod Codec
pub mod RoundTrip
pub mod Clients
pub mod Disk
pub mod Stats
pub mod Keys
