-- ===== src/Reactor/Tests.antt =====
-- A run of the reactor over a small concrete system, and the theorems at it.
use dart_terminal.Base.{
  ℕ, zero, suc, ◌+◌, ◌≤◌, ◌<◌, ◌≡◌, refl, ◌⊎◌, true, false, none, some, List, [], ◌∷◌, ◌++◌, arith,
  length, take, length-take,
}
use dart_terminal.Errno
use dart_terminal.Event.Trace.{taken, outputs}
use dart_terminal.Session.{Session}
use dart_terminal.Session.Calls.{
  Call, acknowledges, writes_bytes, perform, enqueue_write, acknowledge,
}
use dart_terminal.Session.Invariant.{Inv}
use dart_terminal.Session.Samples.{config, config-IsUsable, busy, busy-Inv}
use dart_terminal.Reactor.Os.{
  Os, IsDocumented, ReadResult, got, read_failed, wrote, group, no_group, not_delivered, not_yet,
  no_attributes, kernel_events, readable, spawned, poll_ready, pipe_read,
}
use dart_terminal.Reactor.World.{World, wake_reactor, set_errno, sets, receive, skip, tell}
use dart_terminal.Reactor.Reading.{read_available}
use dart_terminal.Reactor.Exit.{drain_when_done, drain-drain_when_done}
use dart_terminal.Reactor.Filters.{set_read_enabled, set_write_enabled}
use dart_terminal.Reactor.Sound.{Sound}
use dart_terminal.Reactor.WriteSound.{flush_writes-Sound}
use dart_terminal.Reactor.Writing.{flush_writes}
use dart_terminal.Reactor.Running.{run, drain}
use dart_terminal.Reactor.Promises.{new_world, taken-run, run-Inv}
use dart_terminal.Session.Bytes.{unwritten}

-- One interrupted read, one of data, one without, and then a byte each time.
abbrev reads : ℕ → ℕ → ReadResult
reads zero size = read_failed Errno.intr
reads (suc zero) size = got (take size (21 ∷ 22 ∷ 23 ∷ []))
reads (suc (suc zero)) size = read_failed Errno.again
reads (suc (suc (suc n))) size = got (take size (31 ∷ []))

abbrev interruptions : ℕ → ℕ
interruptions zero = 1
interruptions (suc n) = 0

-- The first time the mutex is taken, another thread has acknowledged a batch and written.
abbrev calls : ℕ → List Call
calls zero = acknowledges 0 3 ∷ writes_bytes (some (4 ∷ [])) false ∷ []
calls (suc n) = []

abbrev small_system : Os
small_system = record {
  others = calls;
  read = reads;
  write = λ n bytes. wrote (length bytes);
  patience = 1;
  streak = interruptions;
  tcgetpgrp = λ n. no_group Errno.notty;
  getpgid = λ n child. no_group Errno.srch;
  kill = λ n target signal. not_delivered Errno.srch;
  waitpid = λ n child. not_yet;
  exit_status = λ status. some 0;
  term_signal = λ status. none;
  tcgetattr = λ n. no_attributes Errno.notty;
  now = λ n. n;
  kevent = λ n. kernel_events (readable ∷ []);
  spawn = λ n. spawned 7 9 5;
  poll = λ n. poll_ready;
  read_pipe = λ n. pipe_read 0 0;
  kqueue = λ n. group 6;
  register = λ n. none;
}

reads_fit : (n size : ℕ) (bytes : List ℕ) → reads n size ≡ got bytes → length bytes ≤ size
reads_fit zero size bytes e = cc
reads_fit (suc zero) size bytes e = ground (arith, length-take {A = ℕ} size (21 ∷ 22 ∷ 23 ∷ []))
reads_fit (suc (suc zero)) size bytes e = cc
reads_fit (suc (suc (suc n))) size bytes e = ground (arith, length-take {A = ℕ} size (31 ∷ []))

interruptions_bound : (n : ℕ) → interruptions n ≤ 1
interruptions_bound zero = omega arith
interruptions_bound (suc n) = omega arith

reads_settle :
    (n size : ℕ) → reads n size ≡ read_failed Errno.intr → interruptions (n + 1) < interruptions n
reads_settle zero size e = omega arith
reads_settle (suc zero) size e = cc
reads_settle (suc (suc zero)) size e = ground arith
reads_settle (suc (suc (suc n))) size e = cc

small_system-IsDocumented : IsDocumented small_system
small_system-IsDocumented = record {
  read_fits = reads_fit;
  write_fits = λ n k bytes e. ground arith;
  streak_bound = interruptions_bound;
  read_settles = reads_settle;
  write_settles = λ n bytes e. cc;
  wait_settles = λ n child e. cc;
  poll_settles = λ n e. cc;
  pipe_settles = λ n e. cc;
}

abbrev at_work : World
at_work = record {
  session = record busy { master_fd = some 9 };
  errno = 0;
  locks = 0;
  transfers = 0;
  queries = 0;
  trace = [];
  accepted = 2 ∷ 3 ∷ [];
  received = [];
  stalled = false;
}

install-Inv : (s : Session) → Inv s → Inv (record s { master_fd = some 9 })
install-Inv s v = ground arith

at_work-Sound : Sound at_work
unfolding busy
at_work-Sound = record {
  inv = install-Inv busy busy-Inv;
  extra = tt;
  split = (2 ∷ 3 ∷ [], refl, λ open_. refl);
  delivered = refl;
  live = refl;
}

-- The interruption is passed over, and the three bytes are delivered.
reads_three : outputs (read_available small_system at_work).1.trace ≡ 21 ∷ 22 ∷ 23 ∷ []
unfolding read_available perform busy sets enqueue_write acknowledge receive skip tell
reads_three = refl

flush_writes-Sound_example : Sound (flush_writes small_system at_work).1
flush_writes-Sound_example =
    flush_writes-Sound small_system small_system-IsDocumented at_work at_work-Sound

-- The program is started, the write of the other thread arrives, and reading stops at the high mark.
abbrev small_run : World
small_run = (run small_system 1 (new_world config)).1

run_writes : taken small_run.trace ≡ 4 ∷ []
unfolding run tell sets new_world perform enqueue_write acknowledge skip set_write_enabled receive
    wake_reactor set_read_enabled set_errno
run_writes = refl

run_reads : outputs small_run.trace ≡ 31 ∷ 31 ∷ 31 ∷ 31 ∷ 31 ∷ 31 ∷ 31 ∷ 31 ∷ []
unfolding run tell sets new_world perform enqueue_write acknowledge skip set_write_enabled receive
    wake_reactor set_read_enabled set_errno
run_reads = refl

taken-run_example :
    (rest : List ℕ) × (taken small_run.trace ++ rest ≡ small_run.accepted)
    × ((small_run.session.child_completed ≡ true) ⊎ (rest ≡ unwritten small_run.session))
taken-run_example = taken-run small_system small_system-IsDocumented config config-IsUsable 1

run-Inv_example : Inv small_run.session × (small_run.stalled ≡ false)
run-Inv_example = run-Inv small_system small_system-IsDocumented config config-IsUsable 1

drain-drain_when_done_example : drain small_system at_work ≡ drain_when_done small_system at_work
drain-drain_when_done_example =
    drain-drain_when_done small_system small_system-IsDocumented at_work at_work-Sound
