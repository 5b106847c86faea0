-- ===== src/Reactor/Signals.antt =====
-- DeliverSignal, SendToForeground and SendToProcessGroups.
use dart_terminal.Base.{
  ℕ, zero, suc, Bool, true, false, not, ◌&&◌, Option, none, some, [], ◌∷◌, ◌==◌, if◌then◌else◌,
}
use dart_terminal.Errno
use dart_terminal.Event.{signal_delivery, signals}
use dart_terminal.Int.{ℤ, pos, neg, minus_one}
use dart_terminal.Session.{Session}
use dart_terminal.Reactor.Os.{Os, KillResult, delivered, not_delivered}
use dart_terminal.Reactor.Diagnostics.{foreground_group, group_result}
use dart_terminal.Reactor.World.{
  Act, Done, pure, locked, asks, ◌>>=◌, ◌>>◌, skip, tell, set_errno, get_errno, diagnose,
}

-- A process or group number above 0.
abbrev pub positive : Option ℕ → Option ℕ
positive none = none
positive (some zero) = none
positive (some (suc n)) = some (suc n)

abbrev pub same_group : Option ℕ → Option ℕ → Bool
same_group (some a) (some b) = a == b
same_group _ _ = false

unfoldable pub child_of : Session → Option ℕ × Session
child_of s = (s.child_pid, s)

module _ (os : Os) where
  -- Whether kill(2) succeeded.
  unfoldable pub kill_result : ℤ → ℕ → KillResult → Act Bool
  kill_result target signal delivered = do
    tell (signals target signal ∷ [])
    diagnose signal_delivery 0 signal target (pos 0) 0
    pure true
  kill_result target signal (not_delivered e) = do
    set_errno e
    diagnose signal_delivery 0 signal target minus_one e
    pure false

  unfoldable pub deliver_signal : ℤ → ℕ → Act Bool
  unfolding kill_result
  deliver_signal target signal = do
    set_errno 0
    r ← asks (λ n. os.kill n target signal)
    kill_result target signal r

  -- `DeliverSignal` for a positive number of a process, or of a group by its negation.
  unfoldable pub signal_process : ℕ → Option ℕ → Act Bool
  unfolding deliver_signal
  signal_process signal none = pure false
  signal_process signal (some p) = deliver_signal (pos p) signal

  unfoldable pub signal_group : ℕ → Option ℕ → Act Bool
  unfolding deliver_signal
  signal_group signal none = pure false
  signal_group signal (some p) = deliver_signal (neg p) signal

  unfoldable pub no_target : ℕ → ℕ → Act Done
  no_target signal e = diagnose signal_delivery 0 signal (pos 0) minus_one e

  unfoldable pub signal_fallback : ℕ → Option ℕ → Option ℕ → Act Done
  unfolding signal_process no_target
  signal_fallback signal foreground (some p) = signal_process signal (some p) >> skip
  signal_fallback signal (some g) none = skip
  signal_fallback signal none none = do
    e ← get_errno
    no_target signal (if e == 0 then Errno.srch else e)

  unfoldable pub send_to_foreground : ℕ → Act Done
  unfolding foreground_group signal_group signal_fallback child_of
  send_to_foreground signal = do
    set_errno 0
    foreground ← foreground_group os
    sent ← signal_group signal (positive foreground)
    if sent then skip else do
      child ← locked os child_of
      signal_fallback signal (positive foreground) (positive child)

  unfoldable pub process_group : Option ℕ → Act (Option ℕ)
  unfolding group_result
  process_group none = pure none
  process_group (some p) = asks (λ n. os.getpgid n p) >>= group_result

  abbrev is_none : {A : Type 0} → Option A → Bool
  is_none none = true
  is_none (some a) = false

  unfoldable pub send_to_process_groups : ℕ → Act Done
  unfolding foreground_group process_group signal_group signal_process no_target child_of
  send_to_process_groups signal = do
    child ← locked os child_of
    foreground ← foreground_group os
    own ← process_group (positive child)
    first ← signal_group signal (positive foreground)
    let distinct = not (is_none (positive own)) && not (same_group own foreground)
    second ← if distinct then signal_group signal (positive own) else pure false
    let reached = if distinct then second else first && same_group own foreground
    if reached then skip else signal_process signal (positive child) >> skip
    if is_none (positive foreground) && is_none (positive child)
        then no_target signal Errno.srch
        else skip
