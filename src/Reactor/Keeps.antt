-- ===== src/Reactor/Keeps.antt =====
-- Actions that keep a property of the world: one rule for each way to build an action.
use dart_terminal.Base.{ℕ, ◌+◌, ◌≡◌, Bool, true, false, List, [], ◌∷◌, ◌++◌, arith, if◌then◌else◌}
use dart_terminal.Event.{EventType, Effect, emits, plain}
use dart_terminal.Event.Trace.{is_silent}
use dart_terminal.Int.{ℤ}
use dart_terminal.Session.{Session}
use dart_terminal.Session.Calls.{Call, wake, emit_diagnostic}
use dart_terminal.Reactor.Os.{Os}
use dart_terminal.Reactor.World.{
  World, Act, answer, answer_all, pure, gets, locked, asks, transfer, ◌>>=◌, skip, sets, tell,
  set_errno, get_errno, diagnose, wake_reactor,
}

-- `P` holds after the action if it held before.
pub record Keeps {A : Type 0} (P : World → Type 0) (m : Act A) : Type 0 where
  pub at : (w : World) → P w → P (m w).1

-- The number of transfers is nothing to `P`.
abbrev pub Moves : (World → Type 0) → Type 0
Moves P = (n : ℕ) (w : World) → P w → P (record w { transfers = n })

-- Nothing that `P` says can be broken by another thread's call, by the counters of
-- locks and queries, or by an effect
-- that neither writes to the terminal nor delivers output.
pub record IsRobust (P : World → Type 0) : Type 0 where
  pub calls : (c : Call) (w : World) → P w → P (answer c w)
  pub errno : (n : ℕ) (w : World) → P w → P (record w { errno = n })
  pub locks : (n : ℕ) (w : World) → P w → P (record w { locks = n })
  pub queries : (n : ℕ) (w : World) → P w → P (record w { queries = n })
  pub silent :
      (es : List Effect) (w : World)
      → is_silent es ≡ true
      → P w
      → P (record w { trace = w.trace ++ es })

emit_diagnostic-silent :
    (s : Session) (t : EventType) (n m : ℕ) (a b : ℤ) (e : ℕ)
    → is_silent (emits (plain t n m a b e) ∷ []) ≡ true
    → is_silent (emit_diagnostic s t n m a b e) ≡ true
unfolding emit_diagnostic
emit_diagnostic-silent s t n m a b e h = ground arith

wake-silent : (s : Session) → is_silent (wake s) ≡ true
unfolding wake
wake-silent s = ground arith

module _ {P : World → Type 0} (rob : IsRobust P) where
  pub answer_all-Keeps : (cs : List Call) (w : World) → P w → P (answer_all cs w)
  unfolding answer_all
  answer_all-Keeps [] w h = h
  answer_all-Keeps (c ∷ cs) w h = answer_all-Keeps cs (answer c w) (rob.calls c w h)

  pub Keeps-tell : (es : List Effect) → is_silent es ≡ true → Keeps P (tell es)
  unfolding tell
  Keeps-tell es q = record { at = λ w h. rob.silent es w q h }

  pub Keeps-set_errno : (n : ℕ) → Keeps P (set_errno n)
  unfolding set_errno
  Keeps-set_errno n = record { at = λ w h. rob.errno n w h }

  pub Keeps-wake_reactor : Keeps P wake_reactor
  unfolding wake_reactor
  Keeps-wake_reactor = record {
    at = λ w h. rob.silent (wake w.session) w (wake-silent w.session) h;
  }

  pub Keeps-diagnose :
      (t : EventType) (n m : ℕ) (a b : ℤ) (e : ℕ)
      → is_silent (emits (plain t n m a b e) ∷ []) ≡ true
      → Keeps P (diagnose t n m a b e)
  unfolding diagnose
  Keeps-diagnose t n m a b e q = record {
    at = λ w h.
        rob.silent (emit_diagnostic w.session t n m a b e) w
          (emit_diagnostic-silent w.session t n m a b e q) h;
  }

module _ {P : World → Type 0} where
  pub Keeps-skip : Keeps P skip
  unfolding skip
  Keeps-skip = record { at = λ w h. h }

  pub Keeps-get_errno : Keeps P get_errno
  unfolding get_errno
  Keeps-get_errno = record { at = λ w h. h }

  pub Keeps-sets :
      (f : Session → Session)
      → ((w : World) → P w → P (record w { session = f w.session }))
      → Keeps P (sets f)
  unfolding sets
  Keeps-sets f k = record { at = λ w h. k w h }

module _ {A : Type 0} {P : World → Type 0} where
  pub Keeps-pure : (a : A) → Keeps P (pure a)
  unfolding pure
  Keeps-pure a = record { at = λ w h. h }

  pub Keeps-gets : (f : Session → A) → Keeps P (gets f)
  unfolding gets
  Keeps-gets f = record { at = λ w h. h }

  pub Keeps-if : (b : Bool) (m n : Act A) → Keeps P m → Keeps P n → Keeps P (if b then m else n)
  Keeps-if true m n km kn = km
  Keeps-if false m n km kn = kn

module _ {A : Type 0} {P : World → Type 0} (rob : IsRobust P) where
  pub Keeps-asks : (f : ℕ → A) → Keeps P (asks f)
  unfolding asks
  Keeps-asks f = record { at = λ w h. rob.queries (w.queries + 1) w h }

  pub Keeps-locked :
      (os : Os) (f : Session → A × Session)
      → ((w : World) → P w → P (record w { session = (f w.session).1 }))
      → Keeps P (locked os f)
  unfolding locked
  Keeps-locked os f k = record {
    at = λ w h. k _ (
        answer_all-Keeps rob (os.others w.locks) (record w { locks = w.locks + 1 })
          (rob.locks (w.locks + 1) w h));
  }

module _ {A B : Type 0} {P : World → Type 0} where
  pub Keeps-bind :
      (m : Act A) (f : A → Act B) → Keeps P m → ((a : A) → Keeps P (f a)) → Keeps P (m >>= f)
  unfolding ◌>>=◌
  Keeps-bind m f km kf = record { at = λ w h. (kf (m w).0).at (m w).1 (km.at w h) }

pub Keeps-transfer :
    {A : Type 0} {P : World → Type 0} → Moves P → (f : ℕ → A) → Keeps P (transfer f)
unfolding transfer
Keeps-transfer move f = record { at = λ w h. move (w.transfers + 1) w h }

-- A section under the mutex, from one property to another.
pub locked_from :
    {A : Type 0} {P : World → Type 0} (Q : World → Type 0) (os : Os) (f : Session → A × Session)
    → IsRobust P
    → ((v : World) → P v → Q (record v { session = (f v.session).1 }))
    → (w : World) → P w
    → Q (locked os f w).1
unfolding locked
locked_from Q os f rob k w h = k _ (
    answer_all-Keeps rob (os.others w.locks) (record w { locks = w.locks + 1 })
      (rob.locks (w.locks + 1) w h))

pub ruleset keeps_rules = (
  Keeps-skip, Keeps-tell, Keeps-set_errno, Keeps-get_errno, Keeps-wake_reactor, Keeps-diagnose,
  Keeps-sets, Keeps-pure, Keeps-gets, Keeps-asks, Keeps-locked, Keeps-if, Keeps-bind,
)
