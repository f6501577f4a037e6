-- ===== src/Meeting.antt =====
-- src/sona/meeting: the parts of a meeting's recording that keep its transcript.
pub mod Journal
pub mod Persistence
pub mod Events
mod Smoother
mod Overlay
mod Finalizer
