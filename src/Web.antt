-- ===== src/Web.antt =====
-- The package `web`: live readings, polling, recording, the JSON and HTML handlers and the
-- lifespan.
pub mod Broadcast
pub mod Poller
pub mod Recorder
pub mod Api
pub mod Lifespan
pub mod Live
pub mod Views
mod Tests
