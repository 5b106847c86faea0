-- ===== src/Reactor/Os.antt =====
-- The operating system and the other threads, as the reactor meets them: the answer to the n-th call
-- of a kind, whatever it may be.
use dart_terminal.Base.{ℕ, ◌+◌, ◌≤◌, ◌<◌, ◌≡◌, Bool, Option, List, length}
use dart_terminal.Errno
use dart_terminal.Int.{ℤ}
use dart_terminal.Session.Calls.{Call}

-- `got []` is a count of 0.
pub data ReadResult : Type 0 where
  got : List ℕ → ReadResult
  read_failed : ℕ → ReadResult

pub data WriteResult : Type 0 where
  wrote : ℕ → WriteResult
  write_failed : ℕ → WriteResult

-- tcgetpgrp and getpgid.
pub data GroupResult : Type 0 where
  group : ℕ → GroupResult
  no_group : ℕ → GroupResult

pub data KillResult : Type 0 where
  delivered : KillResult
  not_delivered : ℕ → KillResult

-- waitpid: the child and its status, 0, or an error.
pub data WaitResult : Type 0 where
  reaped : ℕ → WaitResult
  not_yet : WaitResult
  wait_failed : ℕ → WaitResult

-- tcgetattr: c_cc[VEOF] and c_lflag.
pub data TermResult : Type 0 where
  attributes : ℕ → ℕ → TermResult
  no_attributes : ℕ → TermResult

pub data KernelEvent : Type 0 where
  readable writable control : KernelEvent
  exited : (ident value : ℕ) (has_status : Bool) → KernelEvent

pub data KernelResult : Type 0 where
  kernel_events : List KernelEvent → KernelResult
  kernel_failed : ℕ → KernelResult

-- dpty_spawn_prepared: the child and the two descriptors, or a status and an error.
pub data SpawnResult : Type 0 where
  spawned : (child master exec_error : ℕ) → SpawnResult
  not_spawned : (error_number : ℕ) → SpawnResult

-- poll(2) on the child's error pipe: readable or hung up, nothing within 5 s, or an error.
pub data PollResult : Type 0 where
  poll_ready poll_timeout : PollResult
  poll_failed : ℕ → PollResult

-- read(2) of one errno from that pipe: the number of bytes with the number they hold, or an error.
pub data PipeResult : Type 0 where
  pipe_read : (count value : ℕ) → PipeResult
  pipe_failed : ℕ → PipeResult

pub record Os : Type 0 where
  -- the calls that other threads make before the n-th acquisition of the mutex
  pub others : ℕ → List Call
  -- the n-th transfer, asked for at most so many bytes, or given these bytes
  pub read : ℕ → ℕ → ReadResult
  pub write : ℕ → List ℕ → WriteResult
  -- a bound on how many transfers in a row are interrupted, and how many still will be at the n-th
  pub patience : ℕ
  pub streak : ℕ → ℕ
  -- the n-th other call
  pub tcgetpgrp : ℕ → GroupResult
  pub getpgid : ℕ → ℕ → GroupResult
  pub kill : ℕ → ℤ → ℕ → KillResult
  pub waitpid : ℕ → ℕ → WaitResult
  -- WEXITSTATUS where WIFEXITED holds, and WTERMSIG where WIFSIGNALED holds
  pub exit_status : ℕ → Option ℕ
  pub term_signal : ℕ → Option ℕ
  pub tcgetattr : ℕ → TermResult
  pub now : ℕ → ℕ
  pub kevent : ℕ → KernelResult
  pub spawn : ℕ → SpawnResult
  pub poll : ℕ → PollResult
  pub read_pipe : ℕ → PipeResult
  -- kqueue(2), and the errno of a failed registration of the four filters
  pub kqueue : ℕ → GroupResult
  pub register : ℕ → Option ℕ

-- Documented behaviour: `read` and `write` transfer no more than they were asked to, and no call is
-- interrupted by signals without end.
pub record IsDocumented (os : Os) : Type 0 where
  pub read_fits : (n size : ℕ) (bytes : List ℕ) → os.read n size ≡ got bytes → length bytes ≤ size
  pub write_fits : (n k : ℕ) (bytes : List ℕ) → os.write n bytes ≡ wrote k → k ≤ length bytes
  pub streak_bound : (n : ℕ) → os.streak n ≤ os.patience
  pub read_settles :
      (n size : ℕ) → os.read n size ≡ read_failed Errno.intr → os.streak (n + 1) < os.streak n
  pub write_settles :
      (n : ℕ) (bytes : List ℕ)
      → os.write n bytes ≡ write_failed Errno.intr
      → os.streak (n + 1) < os.streak n
  pub wait_settles :
      (n pid : ℕ) → os.waitpid n pid ≡ wait_failed Errno.intr → os.streak (n + 1) < os.streak n
  pub poll_settles : (n : ℕ) → os.poll n ≡ poll_failed Errno.intr → os.streak (n + 1) < os.streak n
  pub pipe_settles :
      (n : ℕ) → os.read_pipe n ≡ pipe_failed Errno.intr → os.streak (n + 1) < os.streak n
