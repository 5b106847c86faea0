-- ===== src/Reactor/RunSound.antt =====
-- The whole of the reactor thread keeps the world sound.
use dart_terminal.Base.{ℕ, zero, suc, ◌+◌, ◌<◌, ◌≡◌, true, Option, none, some, List, [], ◌∷◌, arith}
use dart_terminal.Reactor.Os.{
  Os, IsDocumented, KernelEvent, readable, writable, control, exited, KernelResult, kernel_events,
  kernel_failed, SpawnResult, spawned, not_spawned, PollResult, poll_ready, poll_timeout,
  poll_failed, GroupResult, group, no_group,
}
use dart_terminal.Reactor.Keeps.{Keeps, Keeps-bind}
use dart_terminal.Reactor.Quiet.{retrying-Keeps, terminate_and_reap-Keeps, close_one-Keeps}
use dart_terminal.Reactor.ReadSound.{read_available-Keeps}
use dart_terminal.Reactor.Reaping.{terminate_and_reap}
use dart_terminal.Reactor.Running.{
  poll_interrupted, pipe_interrupted, read_child_error, poll_outcome, check_exec, register_filters,
  kqueue_outcome, configure_kqueue, handle_event, handle_events, drain, round, fail_loop,
  kernel_round, event_loop, abandon, serve, configure, after_spawn, run,
}
use dart_terminal.Reactor.Sound.{Account-Moves, Sound, Sound-IsRobust}
use dart_terminal.Reactor.World.{Act, Done}
use dart_terminal.Reactor.WriteSound.{flush_writes-Keeps}
use dart_terminal.Reactor.Rules.{run_rules}
use dart_terminal.Reactor.ControlSound.{process_control-Keeps}
use dart_terminal.Reactor.ReapSound.{
  observe-Keeps, reap_child-Keeps, finish_exit-Keeps, finish_error-Keeps, close_descriptors-Keeps,
}

module _ (os : Os) (doc : IsDocumented os) where
  pipe_settles_lem :
      (n : ℕ) → pipe_interrupted (os.read_pipe n) ≡ true → os.streak (n + 1) < os.streak n
  pipe_settles_lem n e = ground (arith, doc.pipe_settles n)

  poll_settles_lem : (n : ℕ) → poll_interrupted (os.poll n) ≡ true → os.streak (n + 1) < os.streak n
  poll_settles_lem n e = ground (arith, doc.poll_settles n)

  read_child_error-Keeps : Keeps Sound (read_child_error os)
  unfolding read_child_error
  read_child_error-Keeps =
      let asked =
        retrying-Keeps os doc Sound-IsRobust Account-Moves os.read_pipe pipe_interrupted
          pipe_settles_lem in
      search (run_rules, close_one-Keeps) depth 12

  poll_outcome-Keeps : (r : PollResult) → Keeps Sound (poll_outcome os r)
  unfolding poll_outcome
  poll_outcome-Keeps poll_ready = read_child_error-Keeps
  poll_outcome-Keeps poll_timeout = search run_rules
  poll_outcome-Keeps (poll_failed e) = search run_rules

  check_exec-Keeps : Keeps Sound (check_exec os)
  unfolding check_exec
  check_exec-Keeps =
      Keeps-bind _ _
        (retrying-Keeps os doc Sound-IsRobust Account-Moves os.poll poll_interrupted
          poll_settles_lem)
        poll_outcome-Keeps

  register_filters-Keeps : (fd : ℕ) (o : Option ℕ) → Keeps Sound (register_filters os fd o)
  unfolding register_filters
  register_filters-Keeps fd none = search run_rules
  register_filters-Keeps fd (some e) = search run_rules

  kqueue_outcome-Keeps : (r : GroupResult) → Keeps Sound (kqueue_outcome os r)
  unfolding kqueue_outcome
  kqueue_outcome-Keeps (group fd) = search (run_rules, register_filters-Keeps)
  kqueue_outcome-Keeps (no_group e) = search run_rules

  configure_kqueue-Keeps : Keeps Sound (configure_kqueue os)
  unfolding configure_kqueue
  configure_kqueue-Keeps = search (run_rules, kqueue_outcome-Keeps)

  handle_event-Keeps : (e : KernelEvent) → Keeps Sound (handle_event os e)
  unfolding handle_event
  handle_event-Keeps readable = read_available-Keeps os doc
  handle_event-Keeps writable = flush_writes-Keeps os doc
  handle_event-Keeps control = search run_rules
  handle_event-Keeps (exited a b c) = search (run_rules, observe-Keeps, reap_child-Keeps)

  handle_events-Keeps : (es : List KernelEvent) → Keeps Sound (handle_events os es)
  unfolding handle_events
  handle_events-Keeps [] = search run_rules
  handle_events-Keeps (e ∷ es) = Keeps-bind _ _ (handle_event-Keeps e) λ _. handle_events-Keeps es

  drain-Keeps : Keeps Sound (drain os)
  unfolding drain
  drain-Keeps = search (run_rules, read_available-Keeps, finish_exit-Keeps) depth 12

  round-Keeps : Keeps Sound (round os)
  unfolding round
  round-Keeps =
      search (run_rules, process_control-Keeps, read_available-Keeps, reap_child-Keeps, drain-Keeps)
        depth 14

  terminate-Keeps : (signal : ℕ) → Keeps Sound (terminate_and_reap os signal)
  terminate-Keeps signal = terminate_and_reap-Keeps os doc Sound-IsRobust Account-Moves signal

  fail_loop-Keeps : Keeps Sound (fail_loop os)
  unfolding fail_loop
  fail_loop-Keeps = search (run_rules, terminate-Keeps, finish_error-Keeps)

  kernel_round-Keeps :
      (r : KernelResult) (next : Act Done) → Keeps Sound next → Keeps Sound (kernel_round os r next)
  unfolding kernel_round
  kernel_round-Keeps (kernel_events es) next k =
      search (run_rules, handle_events-Keeps, round-Keeps)
  kernel_round-Keeps (kernel_failed e) next k =
      search (run_rules, fail_loop-Keeps, round-Keeps) depth 10

  pub event_loop-Keeps : (rounds : ℕ) → Keeps Sound (event_loop os rounds)
  unfolding event_loop
  event_loop-Keeps zero = search run_rules
  event_loop-Keeps (suc rounds) =
      let k = event_loop-Keeps rounds in search (run_rules, kernel_round-Keeps) depth 10

  abandon-Keeps : (e : ℕ) → Keeps Sound (abandon os e)
  unfolding abandon
  abandon-Keeps e = search (run_rules, terminate-Keeps, close_descriptors-Keeps, finish_error-Keeps)

  serve-Keeps : (rounds child : ℕ) → Keeps Sound (serve os rounds child)
  unfolding serve
  serve-Keeps rounds child =
      search (run_rules, process_control-Keeps, event_loop-Keeps, close_descriptors-Keeps) depth 12

  configured-Keeps :
      (rounds child : ℕ) (o : Option ℕ)
      → Keeps Sound
          (elim o as (λ x. Act Done) [ none ↦ serve os rounds child | some e ↦ abandon os e ])
  configured-Keeps rounds child none = serve-Keeps rounds child
  configured-Keeps rounds child (some e) = abandon-Keeps e

  configure-Keeps : (rounds child : ℕ) → Keeps Sound (configure os rounds child)
  unfolding configure
  configure-Keeps rounds child =
      Keeps-bind _ _ configure_kqueue-Keeps (configured-Keeps rounds child)

  checked-Keeps :
      (rounds child : ℕ) (o : Option ℕ)
      → Keeps Sound
          (elim o as (λ x. Act Done) [ none ↦ configure os rounds child | some e ↦ abandon os e ])
  checked-Keeps rounds child none = configure-Keeps rounds child
  checked-Keeps rounds child (some e) = abandon-Keeps e

  after_spawn-Keeps : (rounds : ℕ) (r : SpawnResult) → Keeps Sound (after_spawn os rounds r)
  unfolding after_spawn
  after_spawn-Keeps rounds (not_spawned e) = finish_error-Keeps os doc _ e
  after_spawn-Keeps rounds (spawned child master exec_error) =
      search (run_rules, check_exec-Keeps, checked-Keeps) depth 10

  pub run-Keeps : (rounds : ℕ) → Keeps Sound (run os rounds)
  unfolding run
  run-Keeps rounds = search (run_rules, after_spawn-Keeps)
