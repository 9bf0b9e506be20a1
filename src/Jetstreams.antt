-- ===== src/Jetstreams.antt =====
-- pkg/jetstreams: the stream configurations, the controller that creates and deletes streams, and the
-- messages that it collects for each domain.
pub mod Messages
pub mod StreamConfig
pub mod Duration
pub mod Sources
pub mod Jsm
pub mod Controller
