-- ===== src/Reactor/Reaping.antt =====
-- ObserveProcessExitReady, ReapChild, FinishExit, FinishError, TerminateAndReap and CloseDescriptors.
use dart_terminal.Base.{
  ℕ, suc, ◌+◌, Bool, true, false, not, ◌&&◌, Option, none, some, [], ◌∷◌, ◌==◌, if◌then◌else◌,
}
use dart_terminal.Errno
use dart_terminal.Event.{
  exit, error, exit_published, process_exit_ready, waitpid_result, external_reap_observed, plain,
  closes,
}
use dart_terminal.Int.{pos, minus_one}
use dart_terminal.Session.{Session, finished}
use dart_terminal.Reactor.Os.{Os, WaitResult, reaped, not_yet, wait_failed}
use dart_terminal.Reactor.Signals.{positive, child_of, send_to_process_groups}
use dart_terminal.Reactor.World.{
  Act, Done, gets, locked, asks, retrying, ◌>>=◌, ◌>>◌, skip, sets, tell, set_errno, emit, diagnose,
}

unfoldable pub note_status : ℕ → Session → Session
note_status status s = record s { process_exit_status = status; process_exit_status_valid = true }

unfoldable pub note_ready : Session → Session
note_ready s = record s { process_exit_ready_observed = true }

unfoldable pub observe_process_exit_ready : ℕ → ℕ → Bool → Act Done
unfolding note_status note_ready
observe_process_exit_ready child status valid = do
  if valid then sets (note_status status) else skip
  seen ← gets (λ s. s.process_exit_ready_observed)
  if seen then skip else do
    sets note_ready
    diagnose process_exit_ready 0 (if valid then 1 else 0) (pos child) (pos status) 0

-- The child's end: what is queued for it is dropped.
unfoldable pub complete_child : ℕ → Session → Session
complete_child status s = record s {
  child_completed = true;
  child_status = status;
  emit_waitpid_pending = false;
  writes = [];
  write_offset = 0;
  write_queued_bytes = 0;
}

unfoldable pub complete_reaped : ℕ → Session → Unit {0} × Session
unfolding complete_child
complete_reaped status s = (tt, record (complete_child status s) { child_reaped_by_session = true })

unfoldable pub take_pending : Session → Bool × Session
take_pending s = (s.emit_waitpid_pending, record s { emit_waitpid_pending = false })

-- Whether the error is the first, and the retained status if the child was reaped by another.
unfoldable pub note_wait_error : ℕ → Session → (Bool × Option ℕ) × Session
unfolding complete_child
note_wait_error e s =
    let t = record s { waitpid_error_observed = true } in
    if (e == Errno.child) && (s.process_exit_ready_observed && s.process_exit_status_valid)
    then (
      (not s.waitpid_error_observed, some s.process_exit_status),
      record (complete_child s.process_exit_status t) { child_externally_reaped = true },
    )
    else ((not s.waitpid_error_observed, none), t)

unfoldable pub set_finished : Session → Unit {0} × Session
set_finished s = (tt, record s { state = finished })

unfoldable pub set_failed : Session → Unit {0} × Session
set_failed s = (tt, record s { state = finished; child_pid = none })

unfoldable pub end_reaping : Session → Session
end_reaping s = record s { finished_reaping = true }

unfoldable pub drop_kqueue : Session → Session
drop_kqueue s = record s { kqueue_fd = none }

unfoldable pub drop_exec_error : Session → Session
drop_exec_error s = record s { exec_error_fd = none }

unfoldable pub drop_master : Session → Option ℕ × Session
drop_master s = (s.master_fd, record s { master_fd = none })

unfoldable pub close_one : Option ℕ → Act Done
close_one none = skip
close_one (some fd) = tell (closes fd ∷ [])

abbrev pub wait_interrupted : WaitResult → Bool
wait_interrupted (wait_failed e) = e == Errno.intr
wait_interrupted _ = false

module _ (os : Os) where
  unfoldable pub report_external : ℕ → ℕ → Option ℕ → Act Done
  report_external child e none = skip
  report_external child e (some status) =
      diagnose external_reap_observed 0 0 (pos child) (pos status) e

  unfoldable pub wait_result : ℕ → WaitResult → Act Done
  unfolding observe_process_exit_ready complete_reaped take_pending note_wait_error report_external
  wait_result child (reaped status) = do
    observe_process_exit_ready child status true
    locked os (complete_reaped status)
    diagnose waitpid_result 0 0 (pos child) (pos status) 0
  wait_result child not_yet = do
    pending ← locked os take_pending
    if pending then diagnose waitpid_result 0 0 (pos 0) (pos 0) 0 else skip
  wait_result child (wait_failed e) = do
    set_errno e
    if e == Errno.intr then skip else do
      noted ← locked os (note_wait_error e)
      if noted.0 then diagnose waitpid_result 0 0 minus_one (pos 0) e else skip
      report_external child e noted.1

  unfoldable pub wait_for : Option ℕ → Act Done
  unfolding wait_result
  wait_for none = skip
  wait_for (some child) = do set_errno 0; r ← asks (λ n. os.waitpid n child); wait_result child r

  unfoldable pub reap_child : Act Done
  unfolding wait_for child_of
  reap_child = do
    completed ← gets (λ s. s.child_completed)
    if completed then skip else do child ← locked os child_of; wait_for (positive child)

  unfoldable pub signal_of : Option ℕ → ℕ × ℕ
  signal_of none = (0, 0)
  signal_of (some signal) = (128 + signal, signal)

  unfoldable pub exited_of : ℕ → Option ℕ → ℕ × ℕ
  unfolding signal_of
  exited_of status none = signal_of (os.term_signal status)
  exited_of status (some code) = (code, 0)

  -- The exit code and the signal of a status.
  unfoldable pub exit_of : ℕ → ℕ × ℕ
  unfolding exited_of
  exit_of status = exited_of status (os.exit_status status)

  unfoldable pub finish_exit : Act Done
  unfolding exit_of set_finished end_reaping
  finish_exit = do
    status ← gets (λ s. exit_of s.child_status)
    locked os set_finished
    sets end_reaping
    diagnose exit_published 0 0 (pos status.0) (pos status.1) 0
    emit (plain exit 0 0 (pos status.0) (pos status.1) 0)

  -- `status` is the number of the DptyStatus.
  unfoldable pub finish_error : ℕ → ℕ → Act Done
  unfolding set_failed
  finish_error status e = do locked os set_failed; emit (plain error 0 0 (pos status) (pos 0) e)

  unfoldable pub waited : WaitResult → Act Done
  waited (wait_failed e) = set_errno e
  waited _ = skip

  -- `while (waitpid(...) < 0 && errno == EINTR) {}`.
  unfoldable pub wait_blocking : Option ℕ → Act Done
  unfolding retrying waited
  wait_blocking none = skip
  wait_blocking (some child) =
      retrying (λ n. os.waitpid n child) wait_interrupted (suc os.patience) >>= waited

  unfoldable pub terminate_and_reap : ℕ → Act Done
  unfolding send_to_process_groups wait_blocking child_of
  terminate_and_reap signal = do
    send_to_process_groups os signal
    child ← locked os child_of
    wait_blocking (positive child)

  unfoldable pub close_descriptors : Act Done
  unfolding close_one drop_kqueue drop_exec_error drop_master
  close_descriptors = do
    kqueue ← gets (λ s. s.kqueue_fd)
    sets drop_kqueue
    close_one kqueue
    exec_error ← gets (λ s. s.exec_error_fd)
    sets drop_exec_error
    close_one exec_error
    master ← locked os drop_master
    close_one master
