-- ===== src/Reactor/Sound.antt =====
-- What holds of the world at every step of the reactor: the session's invariant, the account of the
-- two byte streams, and that no loop ran out of fuel.
use dart_terminal.Base.{
  ℕ, ◌≡◌, refl, sym, ap, ◌∙◌, Bool, true, false, Option, none, some, List, [], ◌++◌, arith,
}
use dart_terminal.Event.{Effect}
use dart_terminal.Event.Trace.{
  taken, outputs, is_silent, taken-append, outputs-append, silent_streams,
}
use dart_terminal.Session.{Session}
use dart_terminal.Session.Calls.{
  Call, perform, starts, writes_bytes, acknowledges, resizes_to, sends, closes_within, forces,
  start, enqueue_write, queue_write, push_write, acknowledge, acknowledge_front, pop_batch, resize,
  send_signal, close, force_close, wake, emit_diagnostic,
}
use dart_terminal.Session.Invariant.{Inv}
use dart_terminal.Session.Preserve.{perform-Inv}
use dart_terminal.Session.Bytes.{unwritten, accepted_bytes, unwritten-perform}
use dart_terminal.Reactor.Keeps.{IsRobust, Moves}
use dart_terminal.Reactor.World.{World, answer}
use mathlib.Core.List.{append_assoc, append-nil}

-- `Q` is what a half-done step knows of the session besides, `undelivered` are bytes that were read
-- and not yet handed to the callback, and `sent` are bytes that the terminal took and that are still
-- in the queue. The bytes that the terminal took are a prefix of the accepted ones, and while the
-- child has not ended the queue holds `sent` and then exactly the others.
pub record Account (Q : Session → Type 0) (undelivered sent : List ℕ) (w : World) : Type 0 where
  pub inv : Inv w.session
  pub extra : Q w.session
  pub split :
      (rest : List ℕ) × (taken w.trace ++ rest ≡ w.accepted)
      × (w.session.child_completed ≡ false → sent ++ rest ≡ unwritten w.session)
  pub delivered : outputs w.trace ++ undelivered ≡ w.received
  pub live : w.stalled ≡ false

abbrev pub IsSound : (Session → Type 0) → List ℕ → World → Type 0
IsSound Q undelivered = Account Q undelivered []

-- No call of another thread breaks `Q`, given the invariant.
pub record IsStable (Q : Session → Type 0) : Type 0 where
  pub at : (c : Call) (s : Session) → Inv s → Q s → Q (perform c s).session

acknowledge-completed :
    (sequence n : ℕ) (s : Session)
    → (acknowledge sequence n s).session.child_completed ≡ s.child_completed
unfolding acknowledge acknowledge_front pop_batch
acknowledge-completed sequence n s = ground arith

enqueue_write-completed :
    (o : Option (List ℕ)) (b : Bool) (s : Session)
    → (enqueue_write o b s).session.child_completed ≡ s.child_completed
unfolding enqueue_write queue_write push_write
enqueue_write-completed none b s = refl
enqueue_write-completed (some bytes) b s = ground arith

perform-completed :
    (c : Call) (s : Session) → (perform c s).session.child_completed ≡ s.child_completed
unfolding perform start resize send_signal close force_close
perform-completed (starts b) s = ground arith
perform-completed (writes_bytes o b) s = enqueue_write-completed o b s
perform-completed (acknowledges sequence n) s = acknowledge-completed sequence n s
perform-completed (resizes_to r c) s = ground arith
perform-completed (sends n) s = ground arith
perform-completed (closes_within n) s = ground arith
perform-completed forces s = ground arith

acknowledge-silent :
    (sequence n : ℕ) (s : Session) → is_silent (acknowledge sequence n s).effects ≡ true
unfolding acknowledge acknowledge_front pop_batch wake
acknowledge-silent sequence n s = ground arith

enqueue_write-silent :
    (o : Option (List ℕ)) (b : Bool) (s : Session) → is_silent (enqueue_write o b s).effects ≡ true
unfolding enqueue_write queue_write emit_diagnostic wake
enqueue_write-silent none b s = refl
enqueue_write-silent (some bytes) b s = ground arith

perform-silent : (c : Call) (s : Session) → is_silent (perform c s).effects ≡ true
unfolding perform start resize send_signal close force_close wake
perform-silent (starts b) s = ground arith
perform-silent (writes_bytes o b) s = enqueue_write-silent o b s
perform-silent (acknowledges sequence n) s = acknowledge-silent sequence n s
perform-silent (resizes_to r c) s = ground arith
perform-silent (sends n) s = ground arith
perform-silent (closes_within n) s = ground arith
perform-silent forces s = ground arith

pub taken-silent : (t es : List Effect) → is_silent es ≡ true → taken (t ++ es) ≡ taken t
taken-silent t es q =
    taken-append t es ∙ ap (λ bs. taken t ++ bs) (silent_streams es q).0 ∙ append-nil (taken t)

pub outputs-silent : (t es : List Effect) → is_silent es ≡ true → outputs (t ++ es) ≡ outputs t
outputs-silent t es q =
    outputs-append t es
    ∙ ap (λ bs. outputs t ++ bs) (silent_streams es q).1
    ∙ append-nil (outputs t)

module _ {Q : Session → Type 0} {undelivered sent : List ℕ} where
  answer-Account :
      IsStable Q
      → (c : Call) (w : World) → Account Q undelivered sent w
      → Account Q undelivered sent (answer c w)
  unfolding answer
  answer-Account st c w h =
      let r = perform c w.session in
      let (rest, e, now) = h.split in
      let more : List ℕ = accepted_bytes c r in
      let quiet : is_silent r.effects ≡ true = perform-silent c w.session in
      record {
        inv = perform-Inv c w.session h.inv;
        extra = st.at c w.session h.inv h.extra;
        split = (
          rest ++ more,
          rw (taken-silent w.trace r.effects quiet)
              (sym (append_assoc (taken w.trace) rest more) ∙ ap (λ bs. bs ++ more) e),
          λ open_.
              sym (append_assoc sent rest more)
              ∙ ap (λ bs. bs ++ more) (now (sym (perform-completed c w.session) ∙ open_))
              ∙ sym (unwritten-perform c w.session h.inv),
        );
        delivered = rw (outputs-silent w.trace r.effects quiet) h.delivered;
        live = h.live;
      }

  pub Account-IsRobust : IsStable Q → IsRobust (Account Q undelivered sent)
  Account-IsRobust st = record {
    calls = answer-Account st;
    errno = λ n w h. record {
      inv = h.inv;
      extra = h.extra;
      split = h.split;
      delivered = h.delivered;
      live = h.live;
    };
    locks = λ n w h. record {
      inv = h.inv;
      extra = h.extra;
      split = h.split;
      delivered = h.delivered;
      live = h.live;
    };
    queries = λ n w h. record {
      inv = h.inv;
      extra = h.extra;
      split = h.split;
      delivered = h.delivered;
      live = h.live;
    };
    silent = λ es w q h. record {
      inv = h.inv;
      extra = h.extra;
      split = rw (taken-silent w.trace es q) h.split;
      delivered = rw (outputs-silent w.trace es q) h.delivered;
      live = h.live;
    };
  }

pub Account-Moves :
    {Q : Session → Type 0} {undelivered sent : List ℕ} → Moves (Account Q undelivered sent)
Account-Moves n w h = record {
  inv = h.inv;
  extra = h.extra;
  split = h.split;
  delivered = h.delivered;
  live = h.live;
}

pub IsSound-IsRobust :
    {Q : Session → Type 0} {undelivered : List ℕ} → IsStable Q → IsRobust (IsSound Q undelivered)
IsSound-IsRobust {undelivered = bytes} st = Account-IsRobust {undelivered = bytes} {sent = []} st

-- The state between two steps.
abbrev pub Nothing : Session → Type 0
Nothing s = Unit {0}

pub Nothing-IsStable : IsStable Nothing
Nothing-IsStable = record { at = λ c s v q. tt }

abbrev pub Sound : World → Type 0
Sound = IsSound Nothing []

pub Sound-IsRobust : IsRobust Sound
Sound-IsRobust = IsSound-IsRobust Nothing-IsStable

-- A change of the session that keeps its invariant, its queue, and whether the child has ended.
pub record IsMinor (f : Session → Session) : Type 0 where
  pub inv : (s : Session) → Inv s → Inv (f s)
  pub queue : (s : Session) → unwritten (f s) ≡ unwritten s
  pub completed : (s : Session) → (f s).child_completed ≡ s.child_completed

pub minor-Sound :
    {Q : Session → Type 0} {undelivered : List ℕ} (f : Session → Session)
    → IsMinor f
    → ((s : Session) → Q s → Q (f s))
    → (w : World) → IsSound Q undelivered w
    → IsSound Q undelivered (record w { session = f w.session })
minor-Sound f m q w h =
    let (rest, e, now) = h.split in
    record {
      inv = m.inv w.session h.inv;
      extra = q w.session h.extra;
      split =
          (rest, e, λ open_. now (sym (m.completed w.session) ∙ open_) ∙ sym (m.queue w.session));
      delivered = h.delivered;
      live = h.live;
    }

-- A change after which the child has ended may drop the queue.
pub complete-Sound :
    (f : Session → Session) (w : World)
    → Inv (f w.session)
    → (f w.session).child_completed ≡ true
    → Sound w
    → Sound (record w { session = f w.session })
complete-Sound f w v done h =
    let (rest, e, now) = h.split in
    record {
      inv = v;
      extra = tt;
      split = (rest, e, λ open_. cc);
      delivered = h.delivered;
      live = h.live;
    }
