-- ===== src/Reactor.antt =====
-- The reactor thread of class Session, packages/dart_pty_macos/native/PtySession.cc, over an
-- arbitrary operating system and arbitrary calls of other threads.
pub mod Os
pub mod World
pub mod Keeps
pub mod Quiet
pub mod Sound
pub mod Sections
pub mod Collect
pub mod ReadSound
pub mod Queue
pub mod WriteSound
pub mod Rules
pub mod ControlSound
pub mod ReapSound
pub mod RunSound
pub mod Promises
pub mod Exit
pub mod Diagnostics
pub mod Filters
pub mod Reading
pub mod Writing
pub mod Signals
pub mod Reaping
pub mod Control
pub mod Running
mod Tests
