-- ===== src/Session/Calls.antt =====
-- The public methods of class Session: what another thread does to a session between two steps of
-- its reactor. Each takes the mutex once, so a call is one atomic change of the fields, followed by
-- its diagnostic event and by Wake.
use dart_terminal.Base.{
  ℕ, ◌+◌, ◌-◌, ◌*◌, ◌%◌, max, String, Bool, true, false, not, ◌&&◌, ◌||◌, Option, none, some, List,
  [], ◌∷◌, ◌++◌, ltb, leb, ◌==◌, if◌then◌else◌, length,
}
use dart_terminal.Errno
use dart_terminal.Signal
use dart_terminal.Int.{ℤ, pos, minus_one}
use dart_terminal.Event.{EventType, write_enqueued, Effect, emits, wakes, spawns, plain}
use dart_terminal.Status.{
  Status, invalid_argument, wrong_state, backpressured, system_error, LastError, set_error,
  clear_error,
}
use dart_terminal.Session.{
  word, running, finished, OutputBatch, Session, is_created, is_running, is_finished,
}

-- The thread's last error after a call that began by clearing it, the request number that a tracked
-- write reports (0 for a rejected or other call), the session, and the effects in order.
pub record Reply : Type 0 where
  pub error : LastError
  pub request_id : ℕ
  pub session : Session
  pub effects : List Effect

abbrev refuse : Status → ℕ → String → Session → Reply
refuse status number message s = record {
  error = set_error status number message;
  request_id = 0;
  session = s;
  effects = [];
}

abbrev accept : Session → List Effect → Reply
accept s effects = record { error = clear_error; request_id = 0; session = s; effects = effects }

unfoldable pub wake : Session → List Effect
wake s = elim s.kqueue_fd [ none ↦ [] | some fd ↦ wakes fd ∷ [] ]

unfoldable pub emit_diagnostic : Session → EventType → ℕ → ℕ → ℤ → ℤ → ℕ → List Effect
emit_diagnostic s t sequence n v1 v2 e =
    if s.config.diagnostics_enabled then emits (plain t sequence n v1 v2 e) ∷ [] else []

-- `spawned` is whether std::thread could be made.
unfoldable pub start : Bool → Session → Reply
unfolding set_error clear_error
start spawned s =
    if not (is_created s.state)
    then refuse wrong_state 0 "PTY session has already been started" s
    else if spawned
    then accept (record s { state = running }) (spawns ∷ [])
    else refuse system_error Errno.again "could not create PTY reactor thread"
        (record s { state = finished })

abbrev pub accepts_input : Session → Bool
accepts_input s = is_running s.state && (not s.closing && not s.child_completed)

unfoldable pub next_request_id : ℕ → ℕ
next_request_id n = let m = (n + 1) % word in if m == 0 then 1 else m

unfoldable pub push_write : List ℕ → Bool → Session → Session
unfolding next_request_id
push_write bytes tracked s = record s {
  next_write_request_id =
      if tracked then next_request_id s.next_write_request_id else s.next_write_request_id;
  writes =
      s.writes
      ++ record {
        request_id = if tracked then s.next_write_request_id else 0;
        diagnostic = tracked;
        dequeue_observed = false;
        bytes = bytes;
      }
        ∷ [];
  write_queued_bytes = (s.write_queued_bytes + length bytes) % word;
  max_write_queued_bytes =
      max s.max_write_queued_bytes ((s.write_queued_bytes + length bytes) % word);
  emit_waitpid_pending = if tracked then true else s.emit_waitpid_pending;
}

unfoldable pub queue_write : List ℕ → Bool → Session → Reply
unfolding push_write wake emit_diagnostic set_error clear_error
queue_write bytes tracked s =
    if not (accepts_input s)
    then refuse wrong_state 0 "PTY session does not accept writes" s
    else if ltb s.config.write_capacity (length bytes)
        || ltb (s.config.write_capacity - length bytes) s.write_queued_bytes
    then refuse backpressured 0 "PTY write queue is full"
        (record s { write_backpressure_rejections = (s.write_backpressure_rejections + 1) % word })
    else let t = push_write bytes tracked s in
      record {
        error = clear_error;
        request_id = if tracked then s.next_write_request_id else 0;
        session = t;
        effects =
            (if tracked
              then emit_diagnostic s write_enqueued s.next_write_request_id (length bytes)
                  (pos t.write_queued_bytes) (pos 0) 0
              else [])
            ++ wake s;
      }

-- Write, for `tracked` false, and WriteTracked. A null pointer is `none`.
unfoldable pub enqueue_write : Option (List ℕ) → Bool → Session → Reply
unfolding queue_write set_error
enqueue_write none tracked s =
    refuse invalid_argument Errno.inval "PTY write requires non-empty bytes" s
enqueue_write (some bytes) tracked s =
    if length bytes == 0
    then refuse invalid_argument Errno.inval "PTY write requires non-empty bytes" s
    else queue_write bytes tracked s

unfoldable pub pop_batch : ℕ → List OutputBatch → Session → Session
pop_batch n rest s = record s {
  read_in_flight_bytes = (s.read_in_flight_bytes + word - n) % word;
  outstanding = rest;
}

unfoldable pub acknowledge_front : ℕ → ℕ → List OutputBatch → Session → Reply
unfolding pop_batch wake set_error clear_error
acknowledge_front sequence n [] s =
    refuse invalid_argument Errno.inval "PTY output acknowledgement is out of order" s
acknowledge_front sequence n (b ∷ rest) s =
    if not (b.sequence == sequence) || not (length b.bytes == n)
    then refuse invalid_argument Errno.inval "PTY output acknowledgement is out of order" s
    else let t = pop_batch (length b.bytes) rest s in
      accept t
        (if t.read_paused && leb t.read_in_flight_bytes t.config.read_low_water then wake t else [])

unfoldable pub acknowledge : ℕ → ℕ → Session → Reply
unfolding acknowledge_front
acknowledge sequence n s = acknowledge_front sequence n s.outstanding s

unfoldable pub resize : ℕ → ℕ → Session → Reply
unfolding wake set_error clear_error
resize rows columns s =
    if (rows == 0) || (columns == 0)
    then refuse invalid_argument Errno.inval "PTY size must be nonzero" s
    else if not (accepts_input s)
    then refuse wrong_state 0 "PTY session cannot be resized" s
    else accept (record s { pending_resize = some (record { rows = rows; columns = columns }) })
        (wake s)

-- DptySignal: 1 to 6; 0 is the answer for any other number.
unfoldable pub native_signal : ℕ → ℕ
native_signal n =
    if n == 1
    then Signal.int
    else if n == 2
    then Signal.tstp
    else if n == 3
    then Signal.quit
    else if n == 4
    then Signal.hup
    else if n == 5
    then Signal.term
    else if n == 6
    then Signal.kill
    else 0

unfoldable pub send_signal : ℕ → Session → Reply
unfolding native_signal wake set_error clear_error
send_signal n s =
    if native_signal n == 0
    then refuse invalid_argument Errno.inval "PTY signal is invalid" s
    else if not (accepts_input s)
    then refuse wrong_state 0 "PTY session cannot receive a signal" s
    else accept (record s { pending_signals = s.pending_signals ++ native_signal n ∷ [] }) (wake s)

abbrev pub maximum_close_grace_millis : ℕ
maximum_close_grace_millis = 60 * 1000

unfoldable pub close : ℕ → Session → Reply
unfolding wake set_error clear_error
close grace s =
    if ltb maximum_close_grace_millis grace
    then refuse invalid_argument Errno.inval "PTY close grace period exceeds 60 seconds" s
    else if is_finished s.state
    then accept s []
    else if not (is_running s.state)
    then refuse wrong_state 0 "PTY session has not started" s
    else accept
        (record s {
          closing = true;
          close_grace_millis = if s.closing then s.close_grace_millis else grace;
        })
        (wake s)

unfoldable pub force_close : Session → Reply
unfolding wake set_error clear_error
force_close s =
    if is_finished s.state
    then accept s []
    else if not (is_running s.state)
    then refuse wrong_state 0 "PTY session has not started" s
    else accept (record s { closing = true; force_close_requested = true }) (wake s)

abbrev pub is_empty : {A : Type 0} → List A → Bool
is_empty [] = true
is_empty (x ∷ xs) = false

unfoldable pub can_destroy : Session → Bool
can_destroy s = is_finished s.state && is_empty s.outstanding

-- DptySessionStatsV1 as GetStats fills it; `child_pid` is -1 where no child is known.
pub record Stats : Type 0 where
  pub bytes_read : ℕ
  pub bytes_written : ℕ
  pub read_batches : ℕ
  pub write_backpressure_rejections : ℕ
  pub max_read_in_flight_bytes : ℕ
  pub max_write_queued_bytes : ℕ
  pub read_pause_count : ℕ
  pub child_pid : ℤ
  pub has_exited : ℕ

abbrev pub pid_value : Option ℕ → ℤ
pid_value none = minus_one
pid_value (some p) = pos p

unfoldable pub get_stats : Session → Stats
get_stats s = record {
  bytes_read = s.bytes_read;
  bytes_written = s.bytes_written;
  read_batches = s.read_batches;
  write_backpressure_rejections = s.write_backpressure_rejections;
  max_read_in_flight_bytes = s.max_read_in_flight_bytes;
  max_write_queued_bytes = s.max_write_queued_bytes;
  read_pause_count = s.read_pause_count;
  child_pid = pid_value s.child_pid;
  has_exited = if is_finished s.state then 1 else 0;
}

-- The calls that change a session.
pub data Call : Type 0 where
  starts : Bool → Call
  writes_bytes : Option (List ℕ) → Bool → Call
  acknowledges : ℕ → ℕ → Call
  resizes_to : ℕ → ℕ → Call
  sends : ℕ → Call
  closes_within : ℕ → Call
  forces : Call

unfoldable pub perform : Call → Session → Reply
perform (starts b) s = start b s
perform (writes_bytes bytes tracked) s = enqueue_write bytes tracked s
perform (acknowledges sequence n) s = acknowledge sequence n s
perform (resizes_to rows columns) s = resize rows columns s
perform (sends n) s = send_signal n s
perform (closes_within grace) s = close grace s
perform forces s = force_close s
