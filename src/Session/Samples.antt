-- ===== src/Session/Samples.antt =====
-- A session of class Session, packages/dart_pty_macos/native/PtySession.cc, in the middle of its work.
use dart_terminal.Base.{refl, true, false, none, some, [], ◌∷◌, arith}
use dart_terminal.Config.{OwnedConfig}
use dart_terminal.Config.Bounds.{IsUsable}
use dart_terminal.Session.{Session, new_session, running}
use dart_terminal.Session.Invariant.{Inv}

abbrev pub config : OwnedConfig
config = record {
  executable = b'/' ∷ b's' ∷ b'h' ∷ [];
  arguments = (b'/' ∷ b's' ∷ b'h' ∷ []) ∷ [];
  environment = [];
  working_directory = none;
  rows = 24;
  columns = 80;
  read_high_water = 8;
  read_low_water = 2;
  read_batch = 4;
  read_batches_per_event_loop_turn = 0;
  write_capacity = 5;
  diagnostics_enabled = true;
}

pub config-IsUsable : IsUsable config
config-IsUsable = omega arith

-- Started, with two bytes queued and one batch of three bytes outstanding.
unfoldable pub busy : Session
unfolding new_session
busy = record (new_session config) {
  state = running;
  kqueue_fd = some 5;
  next_sequence = 1;
  outstanding = record { sequence = 0; bytes = 7 ∷ 8 ∷ 9 ∷ [] } ∷ [];
  read_in_flight_bytes = 3;
  max_read_in_flight_bytes = 3;
  read_paused = true;
  writes =
      record {
        request_id = 0;
        diagnostic = false;
        dequeue_observed = false;
        bytes = 1 ∷ 2 ∷ 3 ∷ [];
      }
      ∷ [];
  write_offset = 1;
  write_queued_bytes = 2;
  max_write_queued_bytes = 3;
}

pub busy-Inv : Inv busy
unfolding busy
busy-Inv = record {
  usable = omega arith;
  flight = refl;
  flight_bound = omega arith;
  flight_peak = omega arith;
  numbered = (0, (refl, refl));
  queued = refl;
  offset = omega arith;
  filled = omega arith;
  capacity = omega arith;
  peak = omega arith;
  drained = λ e. cc;
  forced = λ e. cc;
  started = λ e. cc;
}
