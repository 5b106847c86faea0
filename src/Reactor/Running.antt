-- ===== src/Reactor/Running.antt =====
-- Run, CheckExec, ConfigureKqueue and EventLoop.
use dart_terminal.Base.{
  ℕ, zero, suc, Bool, false, not, ◌&&◌, ◌||◌, Option, none, some, List, [], ◌∷◌, ltb, ◌==◌,
  if◌then◌else◌,
}
use dart_terminal.Errno
use dart_terminal.Signal
use dart_terminal.Event.{started, plain, closes}
use dart_terminal.Int.{pos}
use dart_terminal.Session.{Session}
use dart_terminal.Session.Calls.{is_empty}
use dart_terminal.Reactor.Os.{
  Os, KernelEvent, readable, writable, control, exited, KernelResult, kernel_events, kernel_failed,
  SpawnResult, spawned, not_spawned, PollResult, poll_ready, poll_timeout, poll_failed, PipeResult,
  pipe_read, pipe_failed, GroupResult, group, no_group,
}
use dart_terminal.Reactor.Reading.{read_available}
use dart_terminal.Reactor.Writing.{flush_writes}
use dart_terminal.Reactor.Reaping.{
  observe_process_exit_ready, reap_child, finish_exit, finish_error, terminate_and_reap,
  close_descriptors, drop_exec_error, close_one,
}
use dart_terminal.Reactor.Control.{process_control}
use dart_terminal.Reactor.World.{
  Act, Done, pure, gets, locked, asks, retrying, ◌>>=◌, ◌>>◌, skip, sets, tell, set_errno,
  get_errno, emit,
}

-- DPTY_STATUS_SYSTEM_ERROR.
abbrev pub system_error_number : ℕ
system_error_number = 5

unfoldable pub install_child : ℕ → ℕ → Session → Unit {0} × Session
install_child child master s = (tt, record s { master_fd = some master; child_pid = some child })

unfoldable pub install_exec_error : ℕ → Session → Session
install_exec_error fd s = record s { exec_error_fd = some fd }

unfoldable pub install_kqueue : ℕ → Session → Session
install_kqueue fd s = record s { kqueue_fd = some fd }

-- Whether there is room below the high mark, and whether nothing is outstanding.
unfoldable pub output_state : Session → (Bool × Bool) × Session
output_state s = ((ltb s.read_in_flight_bytes s.config.read_high_water, is_empty s.outstanding), s)

abbrev pub poll_interrupted : PollResult → Bool
poll_interrupted (poll_failed e) = e == Errno.intr
poll_interrupted _ = false

abbrev pub pipe_interrupted : PipeResult → Bool
pipe_interrupted (pipe_failed e) = e == Errno.intr
pipe_interrupted _ = false

module _ (os : Os) where
  -- sizeof(int).
  unfoldable pub pipe_outcome : PipeResult → Option ℕ
  pipe_outcome (pipe_read count value) = if count == 4 then some value else none
  pipe_outcome (pipe_failed e) = some e

  unfoldable pub read_child_error : Act (Option ℕ)
  unfolding retrying pipe_outcome close_one drop_exec_error
  read_child_error = do
    r ← retrying os.read_pipe pipe_interrupted (suc os.patience)
    fd ← gets (λ s. s.exec_error_fd)
    close_one fd
    sets drop_exec_error
    pure (pipe_outcome r)

  unfoldable pub poll_outcome : PollResult → Act (Option ℕ)
  unfolding read_child_error
  poll_outcome poll_ready = read_child_error
  poll_outcome poll_timeout = pure (some Errno.timedout)
  poll_outcome (poll_failed e) = pure (some e)

  -- CheckExec: `none` if the child runs the program, or the error.
  unfoldable pub check_exec : Act (Option ℕ)
  unfolding retrying poll_outcome
  check_exec = retrying os.poll poll_interrupted (suc os.patience) >>= poll_outcome

  unfoldable pub register_filters : ℕ → Option ℕ → Act (Option ℕ)
  unfolding install_kqueue
  register_filters fd none = sets (install_kqueue fd) >> pure none
  register_filters fd (some e) = tell (closes fd ∷ []) >> pure (some e)

  unfoldable pub kqueue_outcome : GroupResult → Act (Option ℕ)
  unfolding register_filters
  kqueue_outcome (group fd) = asks os.register >>= register_filters fd
  kqueue_outcome (no_group e) = pure (some e)

  -- ConfigureKqueue: `none`, or the error.
  unfoldable pub configure_kqueue : Act (Option ℕ)
  unfolding kqueue_outcome
  configure_kqueue = asks os.kqueue >>= kqueue_outcome

  unfoldable pub handle_event : KernelEvent → Act Done
  unfolding read_available flush_writes observe_process_exit_ready reap_child
  handle_event readable = read_available os
  handle_event writable = flush_writes os
  handle_event control = skip
  handle_event (exited ident value has_status) = do
    observe_process_exit_ready ident value has_status
    reap_child os

  unfoldable pub handle_events : List KernelEvent → Act Done
  unfolding handle_event
  handle_events [] = skip
  handle_events (e ∷ es) = handle_event e >> handle_events es

  -- After the child's end: the rest of its output, then EXIT once all of it is acknowledged.
  unfoldable pub drain : Act Done
  unfolding read_available output_state finish_exit
  drain = do
    read_available os
    out ← locked os output_state
    ended ← gets (λ s. s.master_eof)
    if (ended || not out.0) && out.1 then finish_exit os else skip

  -- The part of a round that follows its kernel events.
  unfoldable pub round : Act Done
  unfolding process_control read_available reap_child drain
  round = do
    process_control os
    retry ← gets (λ s. s.read_retry_requested)
    if retry then read_available os else skip
    reap_child os
    completed ← gets (λ s. s.child_completed)
    if completed then drain else skip

  unfoldable pub fail_loop : Act Done
  unfolding terminate_and_reap finish_error
  fail_loop = do
    terminate_and_reap os Signal.kill
    e ← get_errno
    finish_error os system_error_number e

  unfoldable pub kernel_round : KernelResult → Act Done → Act Done
  unfolding handle_events round fail_loop
  kernel_round (kernel_events es) next = handle_events es >> (round >> next)
  kernel_round (kernel_failed e) next = do
    set_errno e
    if e == Errno.intr then round >> next else fail_loop

  -- The first `rounds` rounds of the loop, which the program runs until `finished_reaping_`.
  unfoldable pub event_loop : ℕ → Act Done
  unfolding kernel_round
  event_loop zero = skip
  event_loop (suc rounds) = do
    over ← gets (λ s. s.finished_reaping)
    if over then skip else do r ← asks os.kevent; kernel_round r (event_loop rounds)

  unfoldable pub abandon : ℕ → Act Done
  unfolding terminate_and_reap close_descriptors finish_error
  abandon e = do
    terminate_and_reap os Signal.kill
    close_descriptors os
    finish_error os system_error_number e

  unfoldable pub serve : ℕ → ℕ → Act Done
  unfolding process_control event_loop close_descriptors
  serve rounds child = do
    emit (plain started 0 0 (pos child) (pos 0) 0)
    process_control os
    event_loop rounds
    close_descriptors os

  unfoldable pub configure : ℕ → ℕ → Act Done
  unfolding configure_kqueue abandon serve
  configure rounds child = do
    failed ← configure_kqueue
    elim failed [ none ↦ serve rounds child | some e ↦ abandon e ]

  unfoldable pub after_spawn : ℕ → SpawnResult → Act Done
  unfolding install_child install_exec_error check_exec abandon configure finish_error
  after_spawn rounds (not_spawned e) = finish_error os system_error_number e
  after_spawn rounds (spawned child master exec_error) = do
    locked os (install_child child master)
    sets (install_exec_error exec_error)
    failed ← check_exec
    elim failed [ none ↦ configure rounds child | some e ↦ abandon e ]

  unfoldable pub run : ℕ → Act Done
  unfolding after_spawn
  run rounds = asks os.spawn >>= after_spawn rounds
