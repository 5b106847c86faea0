-- ===== src/Reactor/ReapSound.antt =====
-- ReapChild, FinishExit, FinishError and CloseDescriptors keep the world sound.
use dart_terminal.Base.{
  ℕ, ◌≡◌, refl, inl, inr, Bool, true, ◌&&◌, Option, none, some, arith, ◌==◌, Bool-cases,
}
use dart_terminal.Errno
use dart_terminal.Session.{Session}
use dart_terminal.Session.Invariant.{Inv}
use dart_terminal.Reactor.Os.{Os, IsDocumented, WaitResult, reaped, not_yet, wait_failed}
use dart_terminal.Reactor.Keeps.{Keeps, Keeps-locked}
use dart_terminal.Reactor.Quiet.{child-Keeps, report_external-Keeps, close_one-Keeps}
use dart_terminal.Reactor.Reaping.{
  observe_process_exit_ready, complete_child, complete_reaped, note_wait_error, wait_result,
  wait_for, reap_child, finish_exit, finish_error, close_descriptors,
}
use dart_terminal.Reactor.Sound.{Sound, Sound-IsRobust, IsMinor, minor-Sound, complete-Sound}
use dart_terminal.Reactor.World.{World, locked}
use dart_terminal.Reactor.Rules.{run_rules}

-- The child's end, whichever of the three marks are set with it.
complete_child-Inv :
    (status : ℕ) (a b c : Bool) (s : Session)
    → Inv s
    → Inv (record (complete_child status s) {
      child_reaped_by_session = a;
      child_externally_reaped = b;
      waitpid_error_observed = c;
    })
unfolding complete_child
complete_child-Inv status a b c s v = record {
  usable = v.usable;
  flight = v.flight;
  flight_bound = v.flight_bound;
  flight_peak = v.flight_peak;
  numbered = v.numbered;
  queued = omega arith;
  offset = refl;
  filled = tt;
  capacity = omega arith;
  peak = v.peak;
  drained = λ e. refl;
  forced = v.forced;
  started = v.started;
}

complete_reaped-Inv : (status : ℕ) (s : Session) → Inv s → Inv (complete_reaped status s).1
unfolding complete_reaped
complete_reaped-Inv status s v =
    complete_child-Inv status true s.child_externally_reaped s.waitpid_error_observed s v

error_noted-IsMinor : IsMinor (λ s. record s { waitpid_error_observed = true })
error_noted-IsMinor = record { inv = λ s v. ground arith; queue = λ s. refl; completed = λ s. refl }

note_wait_error-Sound :
    (e : ℕ) (w : World) → Sound w → Sound (record w { session = (note_wait_error e w.session).1 })
unfolding note_wait_error complete_child
note_wait_error-Sound e w h =
    let s : Session = w.session in
    elim (Bool-cases
      ((e == Errno.child) && (s.process_exit_ready_observed && s.process_exit_status_valid))) [
        | inl external ↦ rw external (
            complete-Sound
              (λ t. record (complete_child t.process_exit_status t) {
                child_externally_reaped = true;
                waitpid_error_observed = true;
              })
              w
              (complete_child-Inv s.process_exit_status s.child_reaped_by_session true true s h.inv)
              refl h)
        | inr other ↦ rw other (
            minor-Sound (λ t. record t { waitpid_error_observed = true }) error_noted-IsMinor
              (λ t q. q) w h)
      ]

complete_reaped-completed :
    (status : ℕ) (s : Session) → (complete_reaped status s).1.child_completed ≡ true
unfolding complete_reaped
complete_reaped-completed status s = refl

module _ (os : Os) (doc : IsDocumented os) where
  pub observe-Keeps :
      (child status : ℕ) (b : Bool) → Keeps Sound (observe_process_exit_ready child status b)
  unfolding observe_process_exit_ready
  observe-Keeps child status b = search run_rules depth 12

  complete_reaped-Keeps : (status : ℕ) → Keeps Sound (locked os (complete_reaped status))
  complete_reaped-Keeps status = Keeps-locked Sound-IsRobust os (complete_reaped status) λ w h.
      complete-Sound (λ s. (complete_reaped status s).1) w
        (complete_reaped-Inv status w.session h.inv) (complete_reaped-completed status w.session) h

  note_wait_error-Keeps : (e : ℕ) → Keeps Sound (locked os (note_wait_error e))
  note_wait_error-Keeps e =
      Keeps-locked Sound-IsRobust os (note_wait_error e) (note_wait_error-Sound e)

  wait_result-Keeps : (child : ℕ) (r : WaitResult) → Keeps Sound (wait_result os child r)
  unfolding wait_result
  wait_result-Keeps child (reaped status) =
      search (run_rules, observe-Keeps, complete_reaped-Keeps) depth 10
  wait_result-Keeps child not_yet = search run_rules depth 10
  wait_result-Keeps child (wait_failed e) =
      search (run_rules, note_wait_error-Keeps, report_external-Keeps) depth 14

  wait_for-Keeps : (o : Option ℕ) → Keeps Sound (wait_for os o)
  unfolding wait_for
  wait_for-Keeps none = search run_rules
  wait_for-Keeps (some child) = search (run_rules, wait_result-Keeps) depth 10

  pub reap_child-Keeps : Keeps Sound (reap_child os)
  unfolding reap_child
  reap_child-Keeps = search (run_rules, child-Keeps, wait_for-Keeps) depth 10

  pub finish_exit-Keeps : Keeps Sound (finish_exit os)
  unfolding finish_exit
  finish_exit-Keeps = search run_rules depth 14

  pub finish_error-Keeps : (status e : ℕ) → Keeps Sound (finish_error os status e)
  unfolding finish_error
  finish_error-Keeps status e = search run_rules depth 10

  pub close_descriptors-Keeps : Keeps Sound (close_descriptors os)
  unfolding close_descriptors
  close_descriptors-Keeps = search (run_rules, close_one-Keeps) depth 16
