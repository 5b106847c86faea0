-- ===== src/Reactor/Collect.antt =====
-- The parts of ReadAvailable: reading up to the room that was claimed, and delivering what was read.
use dart_terminal.Base.{
  ℕ, zero, suc, ◌+◌, ◌-◌, ◌≤◌, ◌<◌, ◌≡◌, refl, sym, ap, ◌∙◌, inl, inr, Bool, not, ◌||◌, Option,
  none, some, List, [], ◌∷◌, ◌++◌, arith, ◌==◌, Bool-cases, length, length-append,
}
use dart_terminal.Event.{Effect, emits}
use dart_terminal.Event.Trace.{outputs, taken, taken-append, outputs-append}
use dart_terminal.Session.{word, OutputBatch, Session}
use dart_terminal.Session.Calls.{
  Call, perform, starts, writes_bytes, acknowledges, resizes_to, sends, closes_within, forces,
  start, enqueue_write, queue_write, push_write, acknowledge, acknowledge_front, pop_batch, resize,
  send_signal, close, force_close,
}
use dart_terminal.Session.Invariant.{Inv, flight_total, flight_total-append, Numbered-append}
use dart_terminal.Reactor.Os.{Os, IsDocumented, ReadResult, got, read_failed}
use dart_terminal.Reactor.Keeps.{
  Keeps, keeps_rules, Keeps-bind, Keeps-if, Keeps-locked, Keeps-gets, Keeps-skip,
}
use dart_terminal.Reactor.Quiet.{retrying-Keeps}
use dart_terminal.Reactor.Filters.{switch_read, set_read_enabled}
use dart_terminal.Reactor.Reading.{
  push_batch, output_event, read_interrupted, absorb, collect, limits_turns,
}
use dart_terminal.Reactor.Sound.{
  IsSound, Account-Moves, IsStable, IsSound-IsRobust, Nothing, Sound, minor-Sound,
}
use dart_terminal.Reactor.Sections.{switch_read-IsMinor}
use dart_terminal.Reactor.World.{World, Act, pure, ◌>>=◌, skip, receive, retrying, emit, tell}
use mathlib.Core.List.{append_assoc, append-nil}

-- There is room for `n` more bytes in flight.
abbrev pub Claimed : ℕ → Session → Type 0
Claimed n s = s.read_in_flight_bytes + n ≤ s.config.read_high_water

acknowledge-Claimed :
    (n sequence size : ℕ) (bs : List OutputBatch) (s : Session)
    → s.outstanding ≡ bs
    → Inv s
    → Claimed n s
    → Claimed n (acknowledge_front sequence size bs s).session
unfolding acknowledge_front pop_batch
acknowledge-Claimed n sequence size [] s e v h = h
acknowledge-Claimed n sequence size (b ∷ rest) s e v h =
    let total : s.read_in_flight_bytes ≡ length b.bytes + flight_total rest =
      v.flight ∙ ap flight_total e in
    let small : s.read_in_flight_bytes < word =
      omega (arith, v.flight_bound, v.usable.high_water) in
    ground arith

enqueue_write-Claimed :
    (n : ℕ) (o : Option (List ℕ)) (b : Bool) (s : Session)
    → Claimed n s
    → Claimed n (enqueue_write o b s).session
unfolding enqueue_write queue_write push_write
enqueue_write-Claimed n none b s h = h
enqueue_write-Claimed n (some bytes) b s h = ground arith

perform-Claimed :
    (n : ℕ) (c : Call) (s : Session) → Inv s → Claimed n s → Claimed n (perform c s).session
unfolding perform start acknowledge resize send_signal close force_close
perform-Claimed n (starts b) s v h = ground arith
perform-Claimed n (writes_bytes o b) s v h = enqueue_write-Claimed n o b s h
perform-Claimed n (acknowledges sequence size) s v h =
    acknowledge-Claimed n sequence size s.outstanding s refl v h
perform-Claimed n (resizes_to r c) s v h = ground arith
perform-Claimed n (sends m) s v h = ground arith
perform-Claimed n (closes_within m) s v h = ground arith
perform-Claimed n forces s v h = ground arith

pub Claimed-IsStable : (n : ℕ) → IsStable (Claimed n)
Claimed-IsStable n = record { at = perform-Claimed n }

pub switch_read-Claimed :
    (n : ℕ) (b : Bool) (s : Session) → Claimed n s → Claimed n (switch_read b s).1
unfolding switch_read
switch_read-Claimed n b s h = ground arith

module _ (os : Os) {Q : Session → Type 0} {bytes : List ℕ} (st : IsStable Q)
    (same : (b : Bool) (s : Session) → Q s → Q (switch_read b s).1) where
  pub set_read_enabled-Keeps : (b : Bool) → Keeps (IsSound Q bytes) (set_read_enabled os b)
  unfolding set_read_enabled
  set_read_enabled-Keeps b =
      let rob = IsSound-IsRobust {undelivered = bytes} st in
      Keeps-bind _ _ (Keeps-gets _) λ ready. Keeps-if (not ready) skip _ Keeps-skip (
        Keeps-bind _ _
          (Keeps-locked rob os (switch_read b) (minor-Sound _ (switch_read-IsMinor b) (same b)))
          λ changed. search keeps_rules)

-- A retried call ends with some answer of the system.
retrying-answer :
    {A : Type 0} (f : ℕ → A) (interrupted : A → Bool) (fuel : ℕ) (w : World)
    → (k : ℕ) × ((retrying f interrupted fuel w).0 ≡ f k)
unfolding retrying
retrying-answer f interrupted zero w = (w.transfers, refl)
retrying-answer f interrupted (suc fuel) w =
    let next = record w { transfers = w.transfers + 1 } in
    let (k, e) = retrying-answer f interrupted fuel next in
    elim (Bool-cases (interrupted (f w.transfers))) [
      | inl more ↦ (k, rw (more, retrying) e)
      | inr over ↦ (w.transfers, rw (over, retrying) refl)
    ]

module _ (os : Os) (doc : IsDocumented os) {Q : Session → Type 0} (st : IsStable Q) where
  -- The bytes collected so far are the ones that are read and not delivered.
  abbrev pub Collected : ℕ → (List ℕ × Bool) × World → Type 0
  Collected size r = IsSound Q r.0.0 r.1 × (length r.0.0 ≤ size)

  receive-Sound :
      (bytes new : List ℕ) (w : World)
      → IsSound Q bytes w
      → IsSound Q (bytes ++ new) (record w { received = w.received ++ new })
  receive-Sound bytes new w h = record {
    inv = h.inv;
    extra = h.extra;
    split = h.split;
    delivered = sym (append_assoc (outputs w.trace) bytes new) ∙ ap (λ bs. bs ++ new) h.delivered;
    live = h.live;
  }

  absorb-Collected :
      (more : List ℕ → Act (List ℕ × Bool)) (size : ℕ) (bytes : List ℕ) (r : ReadResult) (w : World)
      → ((all : List ℕ) (v : World)
          → IsSound Q all v
          → length all ≤ size
          → Collected size (more all v))
      → IsSound Q bytes w
      → ((new : List ℕ) → r ≡ got new → length bytes + length new ≤ size)
      → length bytes ≤ size
      → Collected size (absorb os more size bytes r w)
  unfolding absorb receive ◌>>=◌
  absorb-Collected more size bytes (read_failed e) w k h fits room = (h, room)
  absorb-Collected more size bytes (got new) w k h fits room =
      let all : List ℕ = bytes ++ new in
      let v : World = record w { received = w.received ++ new } in
      let h' : IsSound Q all v = receive-Sound bytes new w h in
      let n : length all ≤ size = omega (arith, length-append bytes new, fits new refl) in
      elim (Bool-cases (length new == 0)) [
        | inl empty ↦ rw empty (h, room)
        | inr filled ↦
            rw filled (elim (Bool-cases (not (limits_turns w.session) || (length all == size))) [
              | inl full ↦ rw full (h', n)
              | inr short ↦ rw short (k all v h' n)
            ])
      ]

  pub collect-Collected :
      (n size : ℕ) (bytes : List ℕ) (w : World)
      → IsSound Q bytes w
      → length bytes ≤ size
      → Collected size (collect os n size bytes w)
  unfolding collect pure ◌>>=◌
  collect-Collected zero size bytes w h room = (h, room)
  collect-Collected (suc n) size bytes w h room =
      let asked : ℕ = size - length bytes in
      let call : ℕ → ReadResult = λ k. os.read k asked in
      let rob = IsSound-IsRobust {undelivered = bytes} st in
      let r = retrying call read_interrupted (suc os.patience) w in
      let (k, e) = retrying-answer call read_interrupted (suc os.patience) w in
      absorb-Collected (collect os n size) size bytes r.0 r.1
        (λ all v. collect-Collected n size all v)
        ((retrying-Keeps os doc rob Account-Moves call read_interrupted
            (λ m p. ground (arith, doc.read_settles m asked))).at
          w h)
        (λ new p. omega (arith, doc.read_fits k asked new (sym e ∙ p))) room

push_batch-Inv :
    (bytes : List ℕ) (s : Session) → Inv s → Claimed (length bytes) s → Inv (push_batch bytes s).1
unfolding push_batch
push_batch-Inv bytes s v room =
    let b : OutputBatch = record { sequence = s.next_sequence; bytes = bytes } in
    let small : s.read_in_flight_bytes + length bytes < word = omega (arith, v.usable.high_water) in
    let (first, n) = v.numbered in
    record {
      usable = v.usable;
      flight = omega (arith, v.flight, flight_total-append s.outstanding b);
      flight_bound = omega arith;
      flight_peak = omega (arith, v.flight_peak);
      numbered = (first, Numbered-append first s.next_sequence s.outstanding b n refl);
      queued = v.queued;
      offset = v.offset;
      filled = v.filled;
      capacity = v.capacity;
      peak = v.peak;
      drained = v.drained;
      forced = v.forced;
      started = v.started;
    }

-- The batch is outstanding, and its event is still to come.
pub push_batch-Sound :
    (bytes : List ℕ) (w : World)
    → IsSound (Claimed (length bytes)) bytes w
    → IsSound Nothing bytes (record w { session = (push_batch bytes w.session).1 })
unfolding push_batch
push_batch-Sound bytes w h = record {
  inv = unfold push_batch in push_batch-Inv bytes w.session h.inv h.extra;
  extra = tt;
  split = h.split;
  delivered = h.delivered;
  live = h.live;
}

-- The event delivers the bytes.
pub emit-Sound :
    (sequence : ℕ) (bytes : List ℕ) (w : World)
    → IsSound Nothing bytes w
    → Sound (emit (output_event sequence bytes) w).1
unfolding tell output_event
emit-Sound sequence bytes w h =
    let e = output_event sequence bytes in
    let es : List Effect = emits e ∷ [] in
    record {
      inv = h.inv;
      extra = tt;
      split = rw (taken-append w.trace es) (rw (append-nil (taken w.trace)) h.split);
      delivered =
          append-nil (outputs (w.trace ++ es))
          ∙ outputs-append w.trace es
          ∙ ap (λ bs. outputs w.trace ++ bs) (append-nil bytes)
          ∙ h.delivered;
      live = h.live;
    }
