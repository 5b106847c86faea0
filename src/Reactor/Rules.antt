-- ===== src/Reactor/Rules.antt =====
-- Rules for actions that keep the world sound.
use dart_terminal.Session.{Session}
use dart_terminal.Reactor.Os.{Os}
use dart_terminal.Reactor.Keeps.{
  Keeps, IsRobust, Moves, keeps_rules, Keeps-bind, Keeps-if, Keeps-sets, Keeps-locked, Keeps-gets,
  Keeps-skip, Keeps-wake_reactor, Keeps-tell, Keeps-diagnose, Keeps-asks, Keeps-pure,
  Keeps-set_errno, Keeps-get_errno,
}
use dart_terminal.Reactor.Sections.{minor_rules}
use dart_terminal.Reactor.Sound.{
  Account-Moves, Nothing-IsStable, Sound, Sound-IsRobust, IsMinor, minor-Sound, complete-Sound,
}
use dart_terminal.Reactor.World.{locked, sets}

pub Keeps-minor_sets : (f : Session → Session) → IsMinor f → Keeps Sound (sets f)
Keeps-minor_sets f m = Keeps-sets f (minor-Sound f m (λ s q. q))

pub Keeps-minor_locked :
    (os : Os) {A : Type 0} (f : Session → A × Session)
    → IsMinor (λ s. (f s).1)
    → Keeps Sound (locked os f)
Keeps-minor_locked os f m =
    Keeps-locked Sound-IsRobust os f (minor-Sound (λ s. (f s).1) m (λ s q. q))

pub ruleset run_rules = (
  Keeps-bind, Keeps-if, Keeps-gets, Keeps-skip, Keeps-wake_reactor, Keeps-tell, Keeps-diagnose,
  Keeps-asks, Keeps-pure, Keeps-set_errno, Keeps-get_errno, Keeps-minor_sets, Keeps-minor_locked,
  minor_rules, Sound-IsRobust,
)
