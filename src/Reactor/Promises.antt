-- ===== src/Reactor/Promises.antt =====
-- What a whole run of the reactor thread promises, from the call of Start on.
use dart_terminal.Base.{ℕ, ◌≡◌, refl, ◌⊎◌, inl, inr, true, false, List, [], ◌++◌, Bool-cases}
use dart_terminal.Config.{OwnedConfig}
use dart_terminal.Config.Bounds.{IsUsable}
use dart_terminal.Event.Trace.{taken}
use dart_terminal.Session.{new_session}
use dart_terminal.Session.Calls.{start, perform, starts}
use dart_terminal.Session.Invariant.{Inv, new_session-Inv}
use dart_terminal.Session.Bytes.{unwritten}
use dart_terminal.Session.Preserve.{perform-Inv}
use dart_terminal.Reactor.Os.{Os, IsDocumented}
use dart_terminal.Reactor.Running.{run}
use dart_terminal.Reactor.RunSound.{run-Keeps}
use dart_terminal.Reactor.Sound.{Sound}
use dart_terminal.Reactor.World.{World}

-- The world when the thread of a new session begins.
unfoldable pub new_world : OwnedConfig → World
unfolding new_session start
new_world c = record {
  session = (start true (new_session c)).session;
  errno = 0;
  locks = 0;
  transfers = 0;
  queries = 0;
  trace = [];
  accepted = [];
  received = [];
  stalled = false;
}

new_world-Sound : (c : OwnedConfig) → IsUsable c → Sound (new_world c)
unfolding new_world new_session start
new_world-Sound c u = record {
  inv = unfold perform in perform-Inv (starts true) (new_session c) (new_session-Inv c u);
  extra = tt;
  split = ([], refl, λ open_. refl);
  delivered = refl;
  live = refl;
}

module _ (os : Os) (doc : IsDocumented os) where
  run-Sound : (c : OwnedConfig) → IsUsable c → (rounds : ℕ) → Sound (run os rounds (new_world c)).1
  run-Sound c u rounds = (run-Keeps os doc rounds).at (new_world c) (new_world-Sound c u)

  -- Over a documented system, from the start of a session with a usable configuration, the bytes
  -- that the terminal has taken are a prefix of the bytes of the accepted writes, in order, and
  -- while the child has not ended the others are what the write queue holds.
  pub taken-run :
      (c : OwnedConfig)
      → IsUsable c
      → (rounds : ℕ)
      → (rest : List ℕ) × (taken (run os rounds (new_world c)).1.trace ++ rest
          ≡ (run os rounds (new_world c)).1.accepted)
        × (((run os rounds (new_world c)).1.session.child_completed ≡ true)
            ⊎ (rest ≡ unwritten (run os rounds (new_world c)).1.session))
  taken-run c u rounds =
      let h = run-Sound c u rounds in
      let (rest, e, now) = h.split in
      (
        rest,
        e,
        elim (Bool-cases (run os rounds (new_world c)).1.session.child_completed) [
          | inl ended ↦ inl ended
          | inr open_ ↦ inr (now open_)
        ],
      )

  -- Over a documented system, a run from the start of a session with a usable configuration ends
  -- with the session's invariant, and no loop of it runs out of fuel: reading and writing at most a
  -- turn's worth, and repeating interrupted calls, always end.
  pub run-Inv :
      (c : OwnedConfig)
      → IsUsable c
      → (rounds : ℕ)
      → Inv (run os rounds (new_world c)).1.session
        × ((run os rounds (new_world c)).1.stalled ≡ false)
  run-Inv c u rounds = let h = run-Sound c u rounds in (h.inv, h.live)
