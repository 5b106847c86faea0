-- ===== src/Session.antt =====
-- class Session of packages/dart_pty_macos/native/PtySession.cc: its fields, and the queues' entries.
-- A descriptor, a process number and a deadline that is -1, -1 or time_point::max() in the source is
-- `none` here.
pub mod Calls
pub mod Invariant
pub mod Preserve
pub mod Bytes
pub mod Answers
pub mod Acknowledge
pub mod Samples
mod Tests
use dart_terminal.Base.{ℕ, ◌^◌, Bool, true, false, Option, none, List, []}
use dart_terminal.Config.{OwnedConfig}

abbrev pub word : ℕ
word = 2 ^ 64

pub data State : Type 0 where
  created running finished : State

pub record OutputBatch : Type 0 where
  pub sequence : ℕ
  pub bytes : List ℕ

pub record PendingResize : Type 0 where
  pub rows : ℕ
  pub columns : ℕ

pub record PendingWrite : Type 0 where
  pub request_id : ℕ
  pub diagnostic : Bool
  pub dequeue_observed : Bool
  pub bytes : List ℕ

pub record Session : Type 0 where
  pub config : OwnedConfig
  pub handle : ℕ
  pub state : State
  pub kqueue_fd : Option ℕ
  pub master_fd : Option ℕ
  pub exec_error_fd : Option ℕ
  pub child_pid : Option ℕ
  pub child_completed : Bool
  pub child_reaped_by_session : Bool
  pub child_externally_reaped : Bool
  pub child_status : ℕ
  pub master_eof : Bool
  pub finished_reaping : Bool
  pub read_retry_requested : Bool
  pub read_enabled : Bool
  pub write_enabled : Bool
  pub next_sequence : ℕ
  pub outstanding : List OutputBatch
  pub read_in_flight_bytes : ℕ
  pub read_paused : Bool
  pub writes : List PendingWrite
  pub write_offset : ℕ
  pub write_queued_bytes : ℕ
  pub next_write_request_id : ℕ
  pub pending_resize : Option PendingResize
  pub pending_signals : List ℕ
  pub closing : Bool
  pub close_started : Bool
  pub force_close_requested : Bool
  pub emit_waitpid_pending : Bool
  pub waitpid_error_observed : Bool
  pub process_exit_ready_observed : Bool
  pub process_exit_status_valid : Bool
  pub process_exit_status : ℕ
  pub close_grace_millis : ℕ
  pub close_kill_deadline : Option ℕ
  pub bytes_read : ℕ
  pub bytes_written : ℕ
  pub read_batches : ℕ
  pub write_backpressure_rejections : ℕ
  pub max_read_in_flight_bytes : ℕ
  pub max_write_queued_bytes : ℕ
  pub read_pause_count : ℕ

-- Session(OwnedConfig), with the members' initial values.
unfoldable pub new_session : OwnedConfig → Session
new_session config = record {
  config = config;
  handle = 0;
  state = created;
  kqueue_fd = none;
  master_fd = none;
  exec_error_fd = none;
  child_pid = none;
  child_completed = false;
  child_reaped_by_session = false;
  child_externally_reaped = false;
  child_status = 0;
  master_eof = false;
  finished_reaping = false;
  read_retry_requested = false;
  read_enabled = true;
  write_enabled = false;
  next_sequence = 0;
  outstanding = [];
  read_in_flight_bytes = 0;
  read_paused = false;
  writes = [];
  write_offset = 0;
  write_queued_bytes = 0;
  next_write_request_id = 1;
  pending_resize = none;
  pending_signals = [];
  closing = false;
  close_started = false;
  force_close_requested = false;
  emit_waitpid_pending = false;
  waitpid_error_observed = false;
  process_exit_ready_observed = false;
  process_exit_status_valid = false;
  process_exit_status = 0;
  close_grace_millis = 0;
  close_kill_deadline = none;
  bytes_read = 0;
  bytes_written = 0;
  read_batches = 0;
  write_backpressure_rejections = 0;
  max_read_in_flight_bytes = 0;
  max_write_queued_bytes = 0;
  read_pause_count = 0;
}

unfoldable pub set_handle : ℕ → Session → Session
set_handle h s = record s { handle = h }

abbrev pub is_created : State → Bool
is_created created = true
is_created _ = false

abbrev pub is_running : State → Bool
is_running running = true
is_running _ = false

abbrev pub is_finished : State → Bool
is_finished finished = true
is_finished _ = false
