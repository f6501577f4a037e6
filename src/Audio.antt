-- ===== src/Audio.antt =====
-- src/sona/audio: capture, fan-out, routing and levels of the audio frames.
pub mod Frames
pub mod Hub
pub mod Frame
pub mod Profile
pub mod Router
pub mod Levels
pub mod Wire
