-- ===== src/Snapshot.antt =====
-- The snapshots of class Session, packages/dart_pty_macos/native/PtySession.cc: of the process, of
-- its working directory and of the foreground job.
pub mod Bytes
pub mod Arguments
pub mod Elapsed
pub mod Os
pub mod Members
pub mod Job
pub mod Process
mod Tests
