-- ===== src/Nats.antt =====
-- pkg/nats: the configuration of a NATS server, and the credentials file.
pub mod Creds
pub mod Json
pub mod Config
pub mod Server
