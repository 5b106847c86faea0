-- ===== src/Reactor/ControlSound.antt =====
-- ProcessControl keeps the world sound.
use dart_terminal.Base.{ℕ, true}
use dart_terminal.Reactor.Os.{Os, IsDocumented}
use dart_terminal.Reactor.Control.{
  Plan, kill_now, force, hang_up, begin_closing, enforce_deadline, process_control,
}
use dart_terminal.Reactor.Filters.{set_read_enabled}
use dart_terminal.Reactor.Keeps.{Keeps}
use dart_terminal.Reactor.Quiet.{
  emit_state_snapshot-Keeps, send_to_process_groups-Keeps, send_all-Keeps, apply_resize-Keeps,
}
use dart_terminal.Reactor.Collect.{set_read_enabled-Keeps}
use dart_terminal.Reactor.ReadSound.{read_available-Keeps}
use dart_terminal.Reactor.Sound.{Nothing-IsStable, Sound}
use dart_terminal.Reactor.WriteSound.{flush_writes-Keeps}
use dart_terminal.Reactor.Rules.{run_rules}

module _ (os : Os) (doc : IsDocumented os) where
  kill_now-Keeps : Keeps Sound (kill_now os)
  unfolding kill_now
  kill_now-Keeps = search (run_rules, send_to_process_groups-Keeps)

  force-Keeps : Keeps Sound (force os)
  unfolding force
  force-Keeps = search (run_rules, emit_state_snapshot-Keeps, kill_now-Keeps) depth 10

  hang_up-Keeps : (n : ℕ) → Keeps Sound (hang_up os n)
  unfolding hang_up
  hang_up-Keeps n =
      search (run_rules, emit_state_snapshot-Keeps, send_to_process_groups-Keeps) depth 12

  begin_closing-Keeps : (p : Plan) → Keeps Sound (begin_closing os p)
  unfolding begin_closing
  begin_closing-Keeps p = search (run_rules, force-Keeps, hang_up-Keeps) depth 10

  enforce_deadline-Keeps : Keeps Sound (enforce_deadline os)
  unfolding enforce_deadline
  enforce_deadline-Keeps = search (run_rules, kill_now-Keeps) depth 12

  enable_read-Keeps : Keeps Sound (set_read_enabled os true)
  enable_read-Keeps = set_read_enabled-Keeps os Nothing-IsStable (λ b s q. q) true

  pub process_control-Keeps : Keeps Sound (process_control os)
  unfolding process_control
  process_control-Keeps =
      search
        (
          run_rules, apply_resize-Keeps, send_all-Keeps, begin_closing-Keeps,
          enforce_deadline-Keeps, enable_read-Keeps, read_available-Keeps, flush_writes-Keeps,
        )
        depth 20
