-- ===== src/Client.antt =====
-- client/ws: the load-testing client's connections.
pub mod Dial
pub mod Pool
pub mod Stats
pub mod Reader
pub mod Writer
pub mod Overall
pub mod FanOut
pub mod Pipeline
pub mod Socket
