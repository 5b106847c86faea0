-- ===== src/Reactor/Control.antt =====
-- ProcessControl: the requests that other threads left under the mutex.
use dart_terminal.Base.{
  ℕ, ◌+◌, Bool, true, false, not, ◌&&◌, ◌||◌, Option, none, some, List, [], ◌∷◌, leb, if◌then◌else◌,
}
use dart_terminal.Signal
use dart_terminal.Event.{force_close_dequeued, resizes}
use dart_terminal.Int.{pos}
use dart_terminal.Session.{PendingResize, Session}
use dart_terminal.Reactor.Os.{Os}
use dart_terminal.Reactor.Diagnostics.{has_master, emit_state_snapshot}
use dart_terminal.Reactor.Filters.{set_read_enabled}
use dart_terminal.Reactor.Signals.{send_to_foreground, send_to_process_groups}
use dart_terminal.Reactor.Reading.{read_available}
use dart_terminal.Reactor.Writing.{flush_writes}
use dart_terminal.Reactor.World.{
  Act, Done, gets, locked, asks, ◌>>=◌, ◌>>◌, skip, sets, tell, diagnose,
}

-- What the section under the mutex takes with it.
pub record Plan : Type 0 where
  pub resize : Option PendingResize
  pub signals : List ℕ
  pub force_close : Bool
  pub begin_close : Bool
  pub grace_millis : ℕ
  pub resume_read : Bool

unfoldable pub take_requests : Session → Plan × Session
take_requests s =
    let begin = not s.force_close_requested && (s.closing && not s.close_started) in
    (
      record {
        resize = s.pending_resize;
        signals = s.pending_signals;
        force_close = s.force_close_requested;
        begin_close = begin;
        grace_millis = if begin then s.close_grace_millis else 0;
        resume_read = s.read_paused && leb s.read_in_flight_bytes s.config.read_low_water;
      },
      record s {
        pending_resize = none;
        pending_signals = [];
        force_close_requested = false;
        close_started = s.force_close_requested || (s.close_started || begin);
      },
    )

unfoldable pub expect_wait : Session → ℕ × Session
expect_wait s = (s.write_queued_bytes, record s { emit_waitpid_pending = true })

unfoldable pub set_deadline : Option ℕ → Session → Session
set_deadline d s = record s { close_kill_deadline = d }

abbrev pub passed : ℕ → Option ℕ → Bool
passed now none = false
passed now (some deadline) = leb deadline now

module _ (os : Os) where
  unfoldable pub apply_resize : Option PendingResize → Act Done
  apply_resize none = skip
  apply_resize (some r) = do
    open_ ← gets has_master
    if open_ then tell (resizes r.rows r.columns ∷ []) else skip

  unfoldable pub send_all : List ℕ → Act Done
  unfolding send_to_foreground
  send_all [] = skip
  send_all (signal ∷ rest) = send_to_foreground os signal >> send_all rest

  unfoldable pub kill_now : Act Done
  unfolding send_to_process_groups set_deadline
  kill_now = do send_to_process_groups os Signal.kill; sets (set_deadline none)

  unfoldable pub force : Act Done
  unfolding expect_wait emit_state_snapshot kill_now
  force = do
    queued ← locked os expect_wait
    diagnose force_close_dequeued 0 0 (pos queued) (pos 0) 0
    emit_state_snapshot os 0
    kill_now

  unfoldable pub hang_up : ℕ → Act Done
  unfolding expect_wait emit_state_snapshot send_to_process_groups set_deadline
  hang_up grace = do
    locked os expect_wait
    emit_state_snapshot os 0
    send_to_process_groups os Signal.hup
    now ← asks os.now
    sets (set_deadline (some (now + grace)))

  unfoldable pub begin_closing : Plan → Act Done
  unfolding force hang_up
  begin_closing p = do
    completed ← gets (λ s. s.child_completed)
    if p.force_close && not completed
        then force
        else (if p.begin_close then hang_up p.grace_millis else skip)

  unfoldable pub enforce_deadline : Act Done
  unfolding kill_now
  enforce_deadline = do
    closing ← gets (λ s. s.close_started && not s.child_completed)
    if not closing then skip else do
      now ← asks os.now
      late ← gets (λ s. passed now s.close_kill_deadline)
      if late then kill_now else skip

  unfoldable pub process_control : Act Done
  unfolding take_requests apply_resize send_all begin_closing enforce_deadline read_available
      flush_writes
  process_control = do
    plan ← locked os take_requests
    apply_resize plan.resize
    send_all plan.signals
    begin_closing plan
    enforce_deadline
    if plan.resume_read then set_read_enabled os true >> read_available os else skip
    flush_writes os
