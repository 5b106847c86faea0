-- ===== src/Reactor/World.antt =====
-- Actions of the reactor thread. A section under the mutex is one atomic step, before which other
-- threads may have made any calls; all that the reactor touches outside the mutex is its own.
use dart_terminal.Base.{ℕ, zero, suc, ◌+◌, Bool, true, false, List, [], ◌∷◌, ◌++◌}
use dart_terminal.Event.{EventType, Event, Effect, emits}
use dart_terminal.Int.{ℤ}
use dart_terminal.Session.{Session}
use dart_terminal.Session.Calls.{Call, perform, wake, emit_diagnostic}
use dart_terminal.Session.Bytes.{accepted_bytes}
use dart_terminal.Reactor.Os.{Os}

pub record World : Type 0 where
  pub session : Session
  pub errno : ℕ
  -- how often the mutex was taken, bytes were transferred, and the system was asked otherwise
  pub locks : ℕ
  pub transfers : ℕ
  pub queries : ℕ
  -- all effects, oldest first
  pub trace : List Effect
  -- what the calls of other threads added to the write queue, and what `read` returned
  pub accepted : List ℕ
  pub received : List ℕ
  -- whether a loop was left because its fuel ran out
  pub stalled : Bool

abbrev pub Act : Type 0 → Type 0
Act A = World → A × World

unfoldable pub answer : Call → World → World
answer c w =
    let r = perform c w.session in
    record w {
      session = r.session;
      trace = w.trace ++ r.effects;
      accepted = w.accepted ++ accepted_bytes c r;
    }

unfoldable pub answer_all : List Call → World → World
unfolding answer
answer_all [] w = w
answer_all (c ∷ cs) w = answer_all cs (answer c w)

module _ {A : Type 0} where
  unfoldable pub pure : A → Act A
  pure a w = (a, w)

  -- A read of fields, outside the mutex.
  unfoldable pub gets : (Session → A) → Act A
  gets f w = (f w.session, w)

  unfoldable pub locked : Os → (Session → A × Session) → Act A
  unfolding answer_all
  locked os f w =
      let v = answer_all (os.others w.locks) (record w { locks = w.locks + 1 }) in
      let r = f v.session in (r.0, record v { session = r.1 })

  unfoldable pub asks : (ℕ → A) → Act A
  asks f w = (f w.queries, record w { queries = w.queries + 1 })

  unfoldable pub transfer : (ℕ → A) → Act A
  transfer f w = (f w.transfers, record w { transfers = w.transfers + 1 })

module _ {A B : Type 0} where
  infixl 5 ◌>>=◌ ◌>>◌
  unfoldable pub ◌>>=◌ : Act A → (A → Act B) → Act B
  unfolding pure gets locked asks transfer
  ◌>>=◌ m f w = let r = m w in f r.0 r.1

  abbrev pub ◌>>◌ : Act A → Act B → Act B
  m >> n = m >>= λ _. n

abbrev pub Done : Type 0
Done = Unit {0}

unfoldable pub skip : Act Done
skip w = (tt, w)

-- A write of fields that only the reactor uses, outside the mutex.
unfoldable pub sets : (Session → Session) → Act Done
sets f w = (tt, record w { session = f w.session })

unfoldable pub tell : List Effect → Act Done
tell es w = (tt, record w { trace = w.trace ++ es })

unfoldable pub set_errno : ℕ → Act Done
set_errno n w = (tt, record w { errno = n })

unfoldable pub get_errno : Act ℕ
get_errno w = (w.errno, w)

unfoldable pub receive : List ℕ → Act Done
receive bytes w = (tt, record w { received = w.received ++ bytes })

unfoldable pub stall : Act Done
stall w = (tt, record w { stalled = true })

abbrev pub emit : Event → Act Done
emit e = tell (emits e ∷ [])

unfoldable pub diagnose : EventType → ℕ → ℕ → ℤ → ℤ → ℕ → Act Done
diagnose t sequence n v1 v2 e w =
    (tt, record w { trace = w.trace ++ emit_diagnostic w.session t sequence n v1 v2 e })

unfoldable pub wake_reactor : Act Done
wake_reactor w = (tt, record w { trace = w.trace ++ wake w.session })

-- `do { r = call(); } while (r is an error && errno == EINTR)`, with fuel.
unfoldable pub retrying : {A : Type 0} → (ℕ → A) → (A → Bool) → ℕ → Act A
unfolding ◌>>=◌ stall
retrying f interrupted zero w = (f w.transfers, record w { stalled = true })
retrying f interrupted (suc fuel) w =
    let r = f w.transfers in
    let next = record w { transfers = w.transfers + 1 } in
    elim (interrupted r) [ true ↦ retrying f interrupted fuel next | false ↦ (r, next) ]
