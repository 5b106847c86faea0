-- ===== src/Reactor/Diagnostics.antt =====
-- EmitStateSnapshot, and the queries that the snapshots and the signals share.
use dart_terminal.Base.{ℕ, ◌+◌, Bool, true, false, Option, none, some, if◌then◌else◌}
use dart_terminal.Event.{state_snapshot, termios_snapshot}
use dart_terminal.Int.{ℤ, pos, minus_one}
use dart_terminal.Session.{Session}
use dart_terminal.Reactor.Os.{
  Os, GroupResult, group, no_group, TermResult, attributes, no_attributes,
}
use dart_terminal.Reactor.World.{
  Act, Done, pure, gets, locked, asks, ◌>>=◌, ◌>>◌, set_errno, get_errno, diagnose,
}

abbrev flag : Bool → ℕ → ℕ
flag b n = if b then n else 0

-- The bits of DptySessionStateFlag.
unfoldable pub state_flags : Session → ℕ
state_flags s =
    flag s.closing 1
    + flag s.close_started 2
    + flag s.child_reaped_by_session 4
    + flag s.master_eof 8
    + flag s.read_paused 16
    + flag s.read_enabled 32
    + flag s.write_enabled 64
    + flag s.child_completed 128
    + flag s.child_externally_reaped 256

-- `none` is a negative result, whose errno is set.
unfoldable pub group_result : GroupResult → Act (Option ℕ)
group_result (group p) = pure (some p)
group_result (no_group e) = set_errno e >> pure none

unfoldable pub term_result : TermResult → Act (Option (ℕ × ℕ))
term_result (attributes veof lflag) = pure (some (veof, lflag))
term_result (no_attributes e) = set_errno e >> pure none

abbrev pub has_master : Session → Bool
has_master s = elim s.master_fd [ none ↦ false | some fd ↦ true ]

module _ (os : Os) where
  unfoldable pub foreground_group : Act (Option ℕ)
  unfolding group_result
  foreground_group = do
    open_ ← gets has_master
    if open_ then asks os.tcgetpgrp >>= group_result else pure none

  unfoldable pub terminal_attributes : Act (Option (ℕ × ℕ))
  unfolding term_result
  terminal_attributes = do
    open_ ← gets has_master
    if open_ then asks os.tcgetattr >>= term_result else pure none

  unfoldable pub snapshot : Session → (ℕ × ℕ) × Session
  unfolding state_flags
  snapshot s = ((s.write_queued_bytes, state_flags s), s)

  abbrev group_value : Option ℕ → ℤ
  group_value none = minus_one
  group_value (some p) = pos p

  abbrev is_none : {A : Type 0} → Option A → Bool
  is_none none = true
  is_none (some a) = false

  unfoldable pub termios_event : ℕ → Option (ℕ × ℕ) → ℕ → Act Done
  termios_event request none e = diagnose termios_snapshot request 0 (pos 0) (pos 0) e
  termios_event request (some (veof, lflag)) e =
      diagnose termios_snapshot request veof (pos lflag) (pos 1) 0

  unfoldable pub emit_state_snapshot : ℕ → Act Done
  unfolding foreground_group terminal_attributes snapshot termios_event
  emit_state_snapshot request = do
    set_errno 0
    foreground ← foreground_group
    foreground_errno ← get_errno
    set_errno 0
    terminal ← terminal_attributes
    terminal_errno ← get_errno
    state ← locked os snapshot
    diagnose state_snapshot request state.0 (group_value foreground) (pos state.1)
        (if is_none foreground then foreground_errno else 0)
    termios_event request terminal terminal_errno
