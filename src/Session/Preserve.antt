-- ===== src/Session/Preserve.antt =====
-- Every call keeps the session's invariant.
use dart_terminal.Base.{
  ℕ, ◌+◌, ◌%◌, ◌≤◌, ◌<◌, ◌≡◌, refl, ap, ◌∙◌, subst, inl, inr, Bool, false, Option, none, some, List,
  [], ◌∷◌, arith, ◌==◌, if◌then◌else◌, Bool-cases, length,
}
use dart_terminal.Session.{word, OutputBatch, PendingWrite, Session}
use dart_terminal.Session.Calls.{
  start, push_write, queue_write, enqueue_write, pop_batch, acknowledge_front, acknowledge, resize,
  send_signal, close, force_close, Call, starts, writes_bytes, acknowledges, resizes_to, sends,
  closes_within, forces, perform,
}
use dart_terminal.Session.Invariant.{
  Inv, flight_total, Numbered, queued_total-append, Filled-append, OffsetFits-append,
}

start-Inv : (b : Bool) (s : Session) → Inv s → Inv (start b s).session
unfolding start
start-Inv b s v = ground arith

resize-Inv : (r c : ℕ) (s : Session) → Inv s → Inv (resize r c s).session
unfolding resize
resize-Inv r c s v = ground arith

send_signal-Inv : (n : ℕ) (s : Session) → Inv s → Inv (send_signal n s).session
unfolding send_signal
send_signal-Inv n s v = ground arith

close-Inv : (n : ℕ) (s : Session) → Inv s → Inv (close n s).session
unfolding close
close-Inv n s v = ground arith

force_close-Inv : (s : Session) → Inv s → Inv (force_close s).session
unfolding force_close
force_close-Inv s v = ground arith

push_write-Inv :
    (bytes : List ℕ) (tracked : Bool) (s : Session)
    → Inv s
    → s.child_completed ≡ false
    → 0 < length bytes
    → length bytes + s.write_queued_bytes ≤ s.config.write_capacity
    → Inv (push_write bytes tracked s)
unfolding push_write
push_write-Inv bytes tracked s v open_ some_ room =
    let w : PendingWrite = record {
      request_id = if tracked then s.next_write_request_id else 0;
      diagnostic = tracked;
      dequeue_observed = false;
      bytes = bytes;
    } in
    record {
      usable = v.usable;
      flight = v.flight;
      flight_bound = v.flight_bound;
      flight_peak = v.flight_peak;
      numbered = v.numbered;
      queued = omega (arith, v.queued, v.usable.capacity, queued_total-append s.writes w);
      offset = OffsetFits-append s.write_offset s.writes w v.offset some_;
      filled = Filled-append s.writes w v.filled (some_, omega (arith, v.usable.capacity));
      capacity = omega (arith, v.usable.capacity);
      peak = omega (arith, v.usable.capacity, v.peak);
      drained = λ e. cc;
      forced = v.forced;
      started = v.started;
    }

queue_write-Inv :
    (bytes : List ℕ) (tracked : Bool) (s : Session)
    → 0 < length bytes
    → Inv s
    → Inv (queue_write bytes tracked s).session
unfolding queue_write
queue_write-Inv bytes tracked s some_ v = ground (arith, push_write-Inv bytes tracked s v)

enqueue_write-Inv :
    (o : Option (List ℕ)) (tracked : Bool) (s : Session)
    → Inv s
    → Inv (enqueue_write o tracked s).session
unfolding enqueue_write
enqueue_write-Inv none tracked s v = v
enqueue_write-Inv (some bytes) tracked s v = elim (Bool-cases (length bytes == 0)) [
  | inl empty ↦ rw empty v
  | inr filled ↦ rw filled (queue_write-Inv bytes tracked s (ground arith) v)
]

-- Dropping the oldest batch.
pop_batch-Inv :
    (b : OutputBatch) (rest : List OutputBatch) (s : Session)
    → s.outstanding ≡ b ∷ rest
    → Inv s
    → Inv (pop_batch (length b.bytes) rest s)
unfolding pop_batch
pop_batch-Inv b rest s e v =
    let (first, n) = v.numbered in
    let n' : Numbered first (b ∷ rest) s.next_sequence =
      subst (λ bs. Numbered first bs s.next_sequence) e n in
    let total : s.read_in_flight_bytes ≡ length b.bytes + flight_total rest =
      v.flight ∙ ap flight_total e in
    let small : s.read_in_flight_bytes < word =
      omega (arith, v.flight_bound, v.usable.high_water) in
    record {
      usable = v.usable;
      flight = omega arith;
      flight_bound = omega (arith, v.flight_bound);
      flight_peak = v.flight_peak;
      numbered = ((first + 1) % word, n'.1);
      queued = v.queued;
      offset = v.offset;
      filled = v.filled;
      capacity = v.capacity;
      peak = v.peak;
      drained = v.drained;
      forced = v.forced;
      started = v.started;
    }

acknowledge_front-Inv :
    (sequence n : ℕ) (bs : List OutputBatch) (s : Session)
    → s.outstanding ≡ bs
    → Inv s
    → Inv (acknowledge_front sequence n bs s).session
unfolding acknowledge_front
acknowledge_front-Inv sequence n [] s e v = v
acknowledge_front-Inv sequence n (b ∷ rest) s e v = ground (arith, pop_batch-Inv b rest s e v)

-- Every call, accepted or refused, keeps the session's invariant.
pub perform-Inv : (c : Call) (s : Session) → Inv s → Inv (perform c s).session
unfolding perform acknowledge
perform-Inv (starts b) s v = start-Inv b s v
perform-Inv (writes_bytes o tracked) s v = enqueue_write-Inv o tracked s v
perform-Inv (acknowledges sequence n) s v = acknowledge_front-Inv sequence n s.outstanding s refl v
perform-Inv (resizes_to r c) s v = resize-Inv r c s v
perform-Inv (sends n) s v = send_signal-Inv n s v
perform-Inv (closes_within n) s v = close-Inv n s v
perform-Inv forces s v = force_close-Inv s v
