-- ===== src/Runtime.antt =====
-- src/sona/meeting/runtime_mode.py: RuntimeModeCoordinator, which switches the microphone between
-- the assistant, the subtitles and a meeting.
pub mod State
pub mod Steps
pub mod Restoring
pub mod Transition
pub mod Commands
pub mod Endings
mod Rules
mod Moves
mod Recovery
mod Restored
mod Switch
mod Switched
mod Settled
mod Starts
mod Ends
mod Leaves
mod Serial
mod Guarded
mod Keeps
mod Kept
mod Reach
mod Stuck
mod Works
mod Allowed
mod Completes
mod Tests
