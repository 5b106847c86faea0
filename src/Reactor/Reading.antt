-- ===== src/Reactor/Reading.antt =====
-- ReadAvailable: from the terminal to OUTPUT events, at most eight batches a turn, no more in
-- flight than the high mark.
use dart_terminal.Base.{
  ℕ, zero, suc, ◌+◌, ◌-◌, ◌%◌, min, max, Bool, true, false, not, ◌&&◌, ◌||◌, Option, none, some,
  List, [], ◌∷◌, ◌++◌, leb, ◌==◌, if◌then◌else◌, length,
}
use dart_terminal.Errno
use dart_terminal.Event.{Event, output}
use dart_terminal.Int.{pos}
use dart_terminal.Config.{maximum_read_batches_per_turn}
use dart_terminal.Session.{word, Session}
use dart_terminal.Reactor.Os.{Os, ReadResult, got, read_failed}
use dart_terminal.Reactor.Diagnostics.{has_master}
use dart_terminal.Reactor.Filters.{set_read_enabled}
use dart_terminal.Reactor.World.{
  Act, Done, pure, gets, locked, ◌>>=◌, ◌>>◌, skip, sets, receive, retrying, emit, wake_reactor,
}

-- The first section: how much may be read, or `none` to pause.
unfoldable pub claim : Session → Option ℕ × Session
claim s =
    if leb s.config.read_high_water s.read_in_flight_bytes
    then (
      none,
      record s {
        read_paused = true;
        read_pause_count =
            if s.read_paused then s.read_pause_count else (s.read_pause_count + 1) % word;
      },
    )
    else (some (min s.config.read_batch (s.config.read_high_water - s.read_in_flight_bytes)), s)

abbrev pub limits_turns : Session → Bool
limits_turns s = not (s.config.read_batches_per_event_loop_turn == 0)

-- The second section: the batch's number, and whether the turn ends with it.
unfoldable pub push_batch : List ℕ → Session → (ℕ × Bool) × Session
push_batch bytes s = (
  (s.next_sequence, limits_turns s),
  record s {
    next_sequence = (s.next_sequence + 1) % word;
    outstanding = s.outstanding ++ record { sequence = s.next_sequence; bytes = bytes } ∷ [];
    read_in_flight_bytes = (s.read_in_flight_bytes + length bytes) % word;
    bytes_read = (s.bytes_read + length bytes) % word;
    read_batches = (s.read_batches + 1) % word;
    max_read_in_flight_bytes =
        max s.max_read_in_flight_bytes ((s.read_in_flight_bytes + length bytes) % word);
    read_paused = if limits_turns s then true else s.read_paused;
    read_pause_count =
        if limits_turns s then (s.read_pause_count + 1) % word else s.read_pause_count;
  },
)

unfoldable pub output_event : ℕ → List ℕ → Event
output_event sequence bytes = record {
  type = output;
  sequence = sequence;
  bytes = bytes;
  length = length bytes;
  value1 = pos 0;
  value2 = pos 0;
  system_error = 0;
}

unfoldable pub clear_retry : Session → Session
clear_retry s = record s { read_retry_requested = false }

unfoldable pub request_retry : Session → Session
request_retry s = record s { read_retry_requested = true }

unfoldable pub reach_end : Session → Session
reach_end s = record s { master_eof = true }

abbrev pub read_interrupted : ReadResult → Bool
read_interrupted (got bytes) = false
read_interrupted (read_failed e) = e == Errno.intr

module _ (os : Os) where
  -- What one read adds to the batch: the bytes collected, and whether the terminal has ended. A turn
  -- limit is what lets the loop read `more`.
  unfoldable pub absorb :
      (List ℕ → Act (List ℕ × Bool)) → ℕ → List ℕ → ReadResult → Act (List ℕ × Bool)
  absorb more size bytes (read_failed e) = pure (bytes, not (e == Errno.again))
  absorb more size bytes (got new) = if length new == 0 then pure (bytes, true) else do
    receive new
    limited ← gets limits_turns
    let all = bytes ++ new
    if not limited || (length all == size) then pure (all, false) else more all

  -- The inner loop, with the number of reads that are left.
  unfoldable pub collect : ℕ → ℕ → List ℕ → Act (List ℕ × Bool)
  unfolding retrying absorb
  collect zero size bytes = pure (bytes, false)
  collect (suc attempts) size bytes =
      retrying (λ n. os.read n (size - length bytes)) read_interrupted (suc os.patience)
      >>= absorb (collect attempts size) size bytes

  unfoldable pub end_of_terminal : Act Done
  unfolding reach_end
  end_of_terminal = sets reach_end >> set_read_enabled os false

  unfoldable pub deliver : List ℕ → Bool → Act Done → Act Done
  unfolding push_batch output_event
  deliver bytes ended next = do
    pushed ← locked os (push_batch bytes)
    if pushed.1 then set_read_enabled os false else skip
    emit (output_event pushed.0 bytes)
    if pushed.1 || ended then skip else next

  unfoldable pub read_batch : ℕ → Act Done → Act Done
  unfolding collect end_of_terminal deliver
  read_batch size next = do
    collected ← collect maximum_read_batches_per_turn size []
    if collected.1 then end_of_terminal else skip
    if length collected.0 == 0 then skip else deliver collected.0 collected.1 next

  -- The outer loop, with the number of batches that the turn still allows.
  unfoldable pub read_loop : ℕ → Act Done
  unfolding claim read_batch request_retry
  read_loop zero = sets request_retry >> wake_reactor
  read_loop (suc batches) = do
    available ← locked os claim
    elim available [
      | none ↦ set_read_enabled os false
      | some size ↦ read_batch size (read_loop batches)
    ]

  unfoldable pub read_available : Act Done
  unfolding read_loop clear_retry
  read_available = do
    sets clear_retry
    readable ← gets (λ s. has_master s && not s.master_eof)
    if readable then read_loop maximum_read_batches_per_turn else skip
