-- ===== src/Reactor/Quiet.antt =====
-- Actions that change no field of the session: they keep whatever other threads cannot break.
use dart_terminal.Base.{
  ℕ, zero, suc, ◌+◌, ◌<◌, ◌≡◌, inl, inr, Bool, true, Option, none, some, List, [], ◌∷◌, arith,
  Bool-cases,
}
use dart_terminal.Int.{ℤ}
use dart_terminal.Session.{PendingResize}
use dart_terminal.Reactor.Os.{
  Os, IsDocumented, GroupResult, group, no_group, TermResult, attributes, no_attributes, KillResult,
  delivered, not_delivered, WaitResult,
}
use dart_terminal.Reactor.World.{World, locked, retrying}
use dart_terminal.Reactor.Keeps.{Keeps, IsRobust, Moves, keeps_rules, Keeps-bind, Keeps-locked}
use dart_terminal.Reactor.Diagnostics.{
  group_result, term_result, foreground_group, terminal_attributes, emit_state_snapshot,
  termios_event, snapshot,
}
use dart_terminal.Reactor.Signals.{
  child_of, kill_result, deliver_signal, signal_process, signal_group, no_target, signal_fallback,
  send_to_foreground, process_group, send_to_process_groups,
}
use dart_terminal.Reactor.Writing.{Front, announce, complete}
use dart_terminal.Reactor.Reaping.{
  waited, wait_interrupted, wait_blocking, terminate_and_reap, close_one, report_external,
}
use dart_terminal.Reactor.Control.{apply_resize, send_all}

module _ (os : Os) (doc : IsDocumented os) {P : World → Type 0} (rob : IsRobust P) where
  group_result-Keeps : (r : GroupResult) → Keeps P (group_result r)
  unfolding group_result
  group_result-Keeps (group p) = search keeps_rules
  group_result-Keeps (no_group e) = search keeps_rules

  term_result-Keeps : (r : TermResult) → Keeps P (term_result r)
  unfolding term_result
  term_result-Keeps (attributes a b) = search keeps_rules
  term_result-Keeps (no_attributes e) = search keeps_rules

  pub close_one-Keeps : (fd : Option ℕ) → Keeps P (close_one fd)
  unfolding close_one
  close_one-Keeps none = search keeps_rules
  close_one-Keeps (some fd) = search keeps_rules

  pub complete-Keeps : (o : Option (ℕ × ℕ × ℕ)) → Keeps P (complete os o)
  unfolding complete
  complete-Keeps none = search keeps_rules
  complete-Keeps (some (a, b, c)) = search keeps_rules

  pub report_external-Keeps : (child e : ℕ) (o : Option ℕ) → Keeps P (report_external os child e o)
  unfolding report_external
  report_external-Keeps child e none = search keeps_rules
  report_external-Keeps child e (some s) = search keeps_rules

  foreground_group-Keeps : Keeps P (foreground_group os)
  unfolding foreground_group
  foreground_group-Keeps = search (keeps_rules, group_result-Keeps)

  terminal_attributes-Keeps : Keeps P (terminal_attributes os)
  unfolding terminal_attributes
  terminal_attributes-Keeps = search (keeps_rules, term_result-Keeps)

  kill_result-Keeps :
      (target : ℤ) (signal : ℕ) (r : KillResult) → Keeps P (kill_result os target signal r)
  unfolding kill_result
  kill_result-Keeps target signal delivered = search keeps_rules
  kill_result-Keeps target signal (not_delivered e) = search keeps_rules

  deliver_signal-Keeps : (target : ℤ) (signal : ℕ) → Keeps P (deliver_signal os target signal)
  unfolding deliver_signal
  deliver_signal-Keeps target signal = search (keeps_rules, kill_result-Keeps)

  signal_process-Keeps : (signal : ℕ) (o : Option ℕ) → Keeps P (signal_process os signal o)
  unfolding signal_process
  signal_process-Keeps signal none = search keeps_rules
  signal_process-Keeps signal (some p) = deliver_signal-Keeps _ signal

  signal_group-Keeps : (signal : ℕ) (o : Option ℕ) → Keeps P (signal_group os signal o)
  unfolding signal_group
  signal_group-Keeps signal none = search keeps_rules
  signal_group-Keeps signal (some p) = deliver_signal-Keeps _ signal

  signal_fallback-Keeps : (signal : ℕ) (a b : Option ℕ) → Keeps P (signal_fallback os signal a b)
  unfolding signal_fallback no_target
  signal_fallback-Keeps signal (some a) (some b) = search (keeps_rules, signal_process-Keeps)
  signal_fallback-Keeps signal none (some b) = search (keeps_rules, signal_process-Keeps)
  signal_fallback-Keeps signal (some a) none = search keeps_rules
  signal_fallback-Keeps signal none none = search keeps_rules

  process_group-Keeps : (o : Option ℕ) → Keeps P (process_group os o)
  unfolding process_group
  process_group-Keeps none = search keeps_rules
  process_group-Keeps (some p) = search (keeps_rules, group_result-Keeps)

  waited-Keeps : (r : WaitResult) → Keeps P (waited os r)
  unfolding waited
  waited-Keeps (WaitResult.wait_failed e) = search keeps_rules
  waited-Keeps _ = search keeps_rules

  pub apply_resize-Keeps : (o : Option PendingResize) → Keeps P (apply_resize os o)
  unfolding apply_resize
  apply_resize-Keeps none = search keeps_rules
  apply_resize-Keeps (some r) = search keeps_rules

  pub child-Keeps : Keeps P (locked os child_of)
  unfolding child_of
  child-Keeps = Keeps-locked rob os _ λ w h. h

  termios_event-Keeps : (n : ℕ) (o : Option (ℕ × ℕ)) (e : ℕ) → Keeps P (termios_event os n o e)
  unfolding termios_event
  termios_event-Keeps n none e = search keeps_rules
  termios_event-Keeps n (some (a, b)) e = search keeps_rules

  snapshot-Keeps : Keeps P (locked os (snapshot os))
  unfolding snapshot
  snapshot-Keeps = Keeps-locked rob os _ λ w h. h

  pub emit_state_snapshot-Keeps : (n : ℕ) → Keeps P (emit_state_snapshot os n)
  unfolding emit_state_snapshot
  emit_state_snapshot-Keeps n =
      search
        (
          keeps_rules, foreground_group-Keeps, terminal_attributes-Keeps, snapshot-Keeps,
          termios_event-Keeps,
        )
        depth 20

  pub announce-Keeps : (f : Front) → Keeps P (announce os f)
  unfolding announce
  announce-Keeps f = search (keeps_rules, emit_state_snapshot-Keeps)

  pub send_to_foreground-Keeps : (signal : ℕ) → Keeps P (send_to_foreground os signal)
  unfolding send_to_foreground
  send_to_foreground-Keeps signal =
      search
        (
          keeps_rules, foreground_group-Keeps, signal_group-Keeps, child-Keeps,
          signal_fallback-Keeps,
        )
        depth 12

  pub send_to_process_groups-Keeps : (signal : ℕ) → Keeps P (send_to_process_groups os signal)
  unfolding send_to_process_groups no_target
  send_to_process_groups-Keeps signal =
      search
        (
          keeps_rules, foreground_group-Keeps, signal_group-Keeps, child-Keeps, process_group-Keeps,
          signal_process-Keeps,
        )
        depth 20

  pub send_all-Keeps : (signals : List ℕ) → Keeps P (send_all os signals)
  unfolding send_all
  send_all-Keeps [] = search keeps_rules
  send_all-Keeps (n ∷ ns) = Keeps-bind _ _ (send_to_foreground-Keeps n) λ _. send_all-Keeps ns

module _ (os : Os) (doc : IsDocumented os) {P : World → Type 0} (rob : IsRobust P)
    (move : Moves P) where
  -- With fuel above the interruptions to come, a retried call ends without stalling.
  retrying-fuel :
      {A : Type 0} (f : ℕ → A) (interrupted : A → Bool)
      → ((n : ℕ) → interrupted (f n) ≡ true → os.streak (n + 1) < os.streak n)
      → (fuel : ℕ) (w : World) → os.streak w.transfers < fuel
      → P w
      → P (retrying f interrupted fuel w).1
  unfolding retrying
  retrying-fuel f interrupted settles zero w h p = elim h [ ]
  retrying-fuel f interrupted settles (suc fuel) w h p =
      elim (Bool-cases (interrupted (f w.transfers))) [
        | inl more ↦
            rw (more, retrying)
              (retrying-fuel f interrupted settles fuel (record w { transfers = w.transfers + 1 })
                (omega (arith, settles w.transfers more)) (move (w.transfers + 1) w p))
        | inr over ↦ rw (over, retrying) (move (w.transfers + 1) w p)
      ]

  pub retrying-Keeps :
      {A : Type 0} (f : ℕ → A) (interrupted : A → Bool)
      → ((n : ℕ) → interrupted (f n) ≡ true → os.streak (n + 1) < os.streak n)
      → Keeps P (retrying f interrupted (suc os.patience))
  retrying-Keeps f interrupted settles = record {
    at = λ w p.
        retrying-fuel f interrupted settles (suc os.patience) w
          (omega (arith, doc.streak_bound w.transfers)) p;
  }

  wait_interrupted-settles :
      (child n : ℕ) → wait_interrupted (os.waitpid n child) ≡ true → os.streak (n + 1) < os.streak n
  wait_interrupted-settles child n h = ground (arith, doc.wait_settles n child)

  wait_blocking-Keeps : (o : Option ℕ) → Keeps P (wait_blocking os o)
  unfolding wait_blocking
  wait_blocking-Keeps none = search keeps_rules
  wait_blocking-Keeps (some p) =
      Keeps-bind _ _
        (retrying-Keeps (λ n. os.waitpid n p) wait_interrupted (wait_interrupted-settles p))
        (waited-Keeps os doc rob)

  pub terminate_and_reap-Keeps : (signal : ℕ) → Keeps P (terminate_and_reap os signal)
  unfolding terminate_and_reap
  terminate_and_reap-Keeps signal =
      search (keeps_rules, send_to_process_groups-Keeps, wait_blocking-Keeps) depth 9
