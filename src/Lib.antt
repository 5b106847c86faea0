-- ===== src/Lib.antt =====
-- Dart Terminal: the native PTY library, packages/dart_pty_macos/native: PtySession.cc,
-- PtySpawn.c and PtyExecChild.c.
--
-- The library runs a program on a pseudo-terminal. A client, on any thread, holds a 64-bit handle
-- and calls Session methods, each of which is one section under the session's mutex followed by its
-- effects. A reactor thread per session moves bytes between the terminal and the client, applies the
-- client's requests and waits for the child. Output goes to the client's callback and is in flight
-- until the client acknowledges it; above the high mark the reactor stops reading.
--
-- Registry (files Registry.antt, Registry/*) is class SessionRegistry. Registry/Handle has Encode and
--   Decode, Registry/Slots the struct Slot; Insert, Lookup and Remove are `insert`, `lookup` and
--   `remove`. Registry/Validity, Registry/Lookup and Registry/Stale hold proofs.
-- Config is OwnedConfig and CopyConfig over DptySessionConfigV1 of dart_pty_macos.h: `is_malformed`
--   is the first guard, `copy_fields` the rest. A C string is the list of its bytes before the
--   terminator and a null pointer is `none`; `offsetof` and `sizeof` are those of a 64-bit Mac
--   (120, 128 and 136). The callback is only tested for null. Status is SetError and ClearError.
-- Session is the state of class Session; Session/Calls has its public methods, `enqueue_write` for
--   Write, WriteTracked and EnqueueWrite, and `perform` for any of them. A call is a Reply: the error
--   it leaves, the new state, and its effects in order. Session/Invariant, Session/Preserve,
--   Session/Bytes, Session/Answers and Session/Acknowledge hold proofs, Session/Samples a state for
--   tests.
-- Event is what the library does that others can see, and Event/Trace reads the bytes of the two
--   streams off a list of effects.
-- Reactor is the reactor thread. Reactor/Os is the operating system: the answer to the n-th call of a
--   kind, which is a parameter, together with the calls that other threads make before the n-th time
--   that the reactor takes the mutex. How a wait status is read (WIFEXITED and the like) is part of
--   it, too. IsDocumented says that read(2) and write(2) transfer no more
--   than they were asked to, and that no call is interrupted by signals for ever. Reactor/World has
--   the actions, in which `locked` is a section under the mutex; Reactor/Filters is SetReadEnabled
--   and SetWriteEnabled, Reactor/Reading ReadAvailable, Reactor/Writing FlushWrites, Reactor/Signals
--   DeliverSignal, SendToForeground and SendToProcessGroups, Reactor/Diagnostics EmitStateSnapshot,
--   Reactor/Reaping ReapChild, FinishExit, FinishError, TerminateAndReap and CloseDescriptors,
--   Reactor/Control ProcessControl, and Reactor/Running CheckExec, ConfigureKqueue, EventLoop and
--   Run. Reactor/Keeps, Reactor/Quiet, Reactor/Sound, Reactor/Sections, Reactor/Rules,
--   Reactor/Collect, Reactor/Queue and the files named after a part with Sound hold proofs, which
--   Reactor/Exit and Reactor/Promises conclude.
-- Snapshot has the snapshots of class Session, over what the system answers, with Snapshot/Os for the
--   kinds of answers. Snapshot/Job is GetForegroundJobSnapshot: `open_job` is its first locked
--   section, `observe_job` and `measure_job` what it asks without the lock, and `close_job` the second
--   section, at which the session is another. Snapshot/Members is the scan of the process group and
--   the order of its members, Snapshot/Arguments ReadProcessArguments over the block that sysctl
--   copies, Snapshot/Elapsed AbsoluteDeltaMicroseconds, and Snapshot/Process GetProcessSnapshot and
--   GetWorkingDirectorySnapshot. The other files below Snapshot hold proofs.
-- Api is the C interface, dpty_session_create and the others, over the registry, the sessions by
--   number and the error of the calling thread: `call` is what the functions on one session share.
--   Api/Requests names a call of any of them, to state what they all do.
--   Api/Runs mixes calls with steps of the reactors, which change a session in any way but its
--   handle. The other files below Api hold proofs.
-- Spawn is PtySpawn.c and PtyExecChild.c: dpty_spawn_prepared over Spawn/Table, the descriptors with
--   their flags and the children, and dpty_exec_child in Spawn/Child. Spawn/Pipe, Spawn/Prepare,
--   Spawn/Master, Spawn/Leaks and Spawn/Reports hold proofs.
--
-- Numbers are natural numbers, with the wrap-around of 16, 32 and 64 bits written out where the code
-- can reach it. A descriptor or a child that the code stores as -1 is `none`. Errors and signals have
-- the numbers of macOS.
--
-- Fuel: a call that is repeated while it is interrupted has fuel for one more than `patience`, the
-- bound on interruptions in a row; a world in which such fuel runs out is marked `stalled`. The loops
-- of ReadAvailable and FlushWrites count the turns that the source counts (8 reads, 8 batches, 8
-- writes). EventLoop is given a number of rounds, after which the model stops, since the program does
-- not bound them; what is proved of it holds for every number.
--
-- Not modelled: the thread itself (Join and the destructor), the wiping of memory by SecureZero, the
-- faults that a build with DPTY_TESTING injects, and what forkpty does in the child. The reactor takes
-- the result of dpty_spawn_prepared as the parameter `spawn`. WriteTracked's own test of its result
-- pointer, which dpty_session_write_tracked makes before it, is left out. Where two threads emit
-- diagnostics at the same time, the order of their events is one of the possible ones.
pub mod Base
pub mod Registry
pub mod Int
pub mod Errno
pub mod Signal
pub mod Status
pub mod Config
pub mod Event
pub mod Session
pub mod Reactor
pub mod Snapshot
pub mod Api
pub mod Spawn
