-- ===== src/Reactor/Filters.antt =====
-- SetReadEnabled and SetWriteEnabled: the kqueue filters of the terminal's descriptor.
use dart_terminal.Base.{Bool, true, false, not, ◌&&◌, none, some, [], ◌∷◌, if◌then◌else◌}
use dart_terminal.Event.{read_filter, write_filter}
use dart_terminal.Session.{Session}
use dart_terminal.Reactor.Os.{Os}
use dart_terminal.Reactor.Diagnostics.{has_master}
use dart_terminal.Reactor.World.{Act, Done, gets, locked, ◌>>=◌, ◌>>◌, skip, sets, tell}

abbrev pub same_bool : Bool → Bool → Bool
same_bool true b = b
same_bool false b = not b

abbrev pub has_kqueue : Session → Bool
has_kqueue s = elim s.kqueue_fd [ none ↦ false | some fd ↦ true ]

-- The section under the mutex: whether the filter changes.
unfoldable pub switch_read : Bool → Session → Bool × Session
switch_read enabled s = if same_bool s.read_enabled enabled then (false, s) else (
  true,
  record s { read_enabled = enabled; read_paused = if enabled then false else s.read_paused },
)

module _ (os : Os) where
  unfoldable pub set_read_enabled : Bool → Act Done
  unfolding switch_read
  set_read_enabled enabled = do
    ready ← gets (λ s. has_kqueue s && has_master s)
    if not ready then skip else do
      changed ← locked os (switch_read enabled)
      if changed then tell (read_filter enabled ∷ []) else skip

-- `write_enabled_` is the reactor's own: no mutex.
unfoldable pub switch_write : Bool → Session → Session
switch_write enabled s = record s { write_enabled = enabled }

unfoldable pub set_write_enabled : Bool → Act Done
unfolding switch_write
set_write_enabled enabled = do
  needed ← gets (λ s. has_kqueue s && (has_master s && not (same_bool s.write_enabled enabled)))
  if not needed then skip else do sets (switch_write enabled); tell (write_filter enabled ∷ [])
