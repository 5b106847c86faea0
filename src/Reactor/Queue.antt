-- ===== src/Reactor/Queue.antt =====
-- What FlushWrites knows of the front of the write queue between its two sections under the mutex.
use dart_terminal.Base.{
  ℕ, ◌+◌, ◌%◌, ◌≤◌, ◌<◌, ◌≡◌, refl, sym, ap, ◌∙◌, subst, ◌≢◌, inl, inr, Bool, true, false, Option,
  none, some, List, [], ◌∷◌, ◌++◌, arith, ◌==◌, Eq-cases, Bool-cases, length, drop, length-drop,
  drop-append, drop-drop, drop-length_append,
}
use dart_terminal.Session.{word, PendingWrite, Session}
use dart_terminal.Session.Calls.{
  Call, perform, starts, writes_bytes, acknowledges, resizes_to, sends, closes_within, forces,
  start, enqueue_write, queue_write, push_write, acknowledge, acknowledge_front, pop_batch, resize,
  send_signal, close, force_close,
}
use dart_terminal.Session.Invariant.{Inv, OffsetFits, Filled, queued_total}
use dart_terminal.Session.Bytes.{unwritten, queue_bytes}
use dart_terminal.Reactor.Writing.{advance}
use dart_terminal.Reactor.Sound.{IsStable}

-- The front request has the bytes `left` after the offset.
abbrev pub FrontIs : List ℕ → ℕ → List PendingWrite → Type 0
FrontIs left offset [] = offset < offset
FrontIs left offset (w ∷ ws) = drop offset w.bytes ≡ left

abbrev pub Heads : List ℕ → Session → Type 0
Heads left s = FrontIs left s.write_offset s.writes

FrontIs-append :
    (left : List ℕ) (offset : ℕ) (ws : List PendingWrite) (w : PendingWrite)
    → FrontIs left offset ws
    → FrontIs left offset (ws ++ w ∷ [])
FrontIs-append left offset [] w h = absurd (omega arith)
FrontIs-append left offset (v ∷ ws) w h = h

push_write-Heads :
    (left bytes : List ℕ) (b : Bool) (s : Session)
    → Heads left s
    → Heads left (push_write bytes b s)
unfolding push_write
push_write-Heads left bytes b s h = FrontIs-append left s.write_offset s.writes _ h

enqueue_write-Heads :
    (left : List ℕ) (o : Option (List ℕ)) (b : Bool) (s : Session)
    → Heads left s
    → Heads left (enqueue_write o b s).session
unfolding enqueue_write queue_write
enqueue_write-Heads left none b s h = h
enqueue_write-Heads left (some bytes) b s h = ground (arith, push_write-Heads left bytes b s h)

acknowledge-Heads :
    (left : List ℕ) (sequence n : ℕ) (s : Session)
    → Heads left s
    → Heads left (acknowledge sequence n s).session
unfolding acknowledge acknowledge_front pop_batch
acknowledge-Heads left sequence n s h = ground arith

perform-Heads :
    (left : List ℕ) (c : Call) (s : Session) → Heads left s → Heads left (perform c s).session
unfolding perform start resize send_signal close force_close
perform-Heads left (starts b) s h = ground arith
perform-Heads left (writes_bytes o b) s h = enqueue_write-Heads left o b s h
perform-Heads left (acknowledges sequence n) s h = acknowledge-Heads left sequence n s h
perform-Heads left (resizes_to r c) s h = ground arith
perform-Heads left (sends n) s h = ground arith
perform-Heads left (closes_within n) s h = ground arith
perform-Heads left forces s h = ground arith

pub Heads-IsStable : (left : List ℕ) → IsStable (Heads left)
Heads-IsStable left = record { at = λ c s v h. perform-Heads left c s h }

-- Noting that the front request was seen.
pub observed-Inv :
    (b : Bool) (w : PendingWrite) (ws : List PendingWrite) (s : Session)
    → s.writes ≡ w ∷ ws
    → Inv s
    → Inv (record s { writes = record w { dequeue_observed = b } ∷ ws })
observed-Inv b w ws s e v = record {
  usable = v.usable;
  flight = v.flight;
  flight_bound = v.flight_bound;
  flight_peak = v.flight_peak;
  numbered = v.numbered;
  queued = v.queued ∙ ap queued_total e;
  offset = subst (OffsetFits s.write_offset) e v.offset;
  filled = subst Filled e v.filled;
  capacity = v.capacity;
  peak = v.peak;
  drained = λ c. let d = v.drained c in cc;
  forced = v.forced;
  started = v.started;
}

pub observed-unwritten :
    (b : Bool) (w : PendingWrite) (ws : List PendingWrite) (s : Session)
    → s.writes ≡ w ∷ ws
    → unwritten (record s { writes = record w { dequeue_observed = b } ∷ ws }) ≡ unwritten s
observed-unwritten b w ws s e = sym (ap (λ q. drop s.write_offset (queue_bytes q)) e)

OffsetFits-start : (ws : List PendingWrite) → Filled ws → OffsetFits 0 ws
OffsetFits-start [] f = refl
OffsetFits-start (w ∷ ws) f = f.0.0

module _ (left : List ℕ) (n : ℕ) (some_ : 0 < n) (fits : n ≤ length left) where
  pub advance-Inv :
      (ws : List PendingWrite) (s : Session)
      → s.writes ≡ ws
      → FrontIs left s.write_offset ws
      → Inv s
      → Inv (advance n s ws).1
  unfolding advance
  advance-Inv [] s e h v = absurd (omega arith)
  advance-Inv (w ∷ ws) s e h v =
      let q : s.write_queued_bytes + s.write_offset ≡ length w.bytes + queued_total ws =
        v.queued ∙ ap queued_total e in
      let o : s.write_offset < length w.bytes = subst (OffsetFits s.write_offset) e v.offset in
      let f : Filled (w ∷ ws) = subst Filled e v.filled in
      let l : length left + s.write_offset ≡ length w.bytes =
        omega (arith, length-drop s.write_offset w.bytes, f.0, o, ap length h) in
      let u : s.write_offset + n < word = omega (arith, f.0) in
      elim (Eq-cases (s.write_offset + n) (length w.bytes)) [
        | inl all ↦
            let t : (s.write_offset + n) % word == length w.bytes ≡ true = ground arith in
            rw t (record {
              usable = v.usable;
              flight = v.flight;
              flight_bound = v.flight_bound;
              flight_peak = v.flight_peak;
              numbered = v.numbered;
              queued = omega (arith, v.capacity, v.usable.capacity);
              offset = OffsetFits-start ws f.1;
              filled = f.1;
              capacity = omega (arith, v.capacity, v.usable.capacity);
              peak = v.peak;
              drained = λ c. let d = v.drained c in cc;
              forced = v.forced;
              started = v.started;
            })
        | inr some_left ↦
            let j : s.write_offset + n < length w.bytes = ground arith in
            let t : ((s.write_offset + n) % word == length w.bytes) ≡ false = ground arith in
            rw t (record {
              usable = v.usable;
              flight = v.flight;
              flight_bound = v.flight_bound;
              flight_peak = v.flight_peak;
              numbered = v.numbered;
              queued = omega (arith, v.capacity, v.usable.capacity);
              offset = subst (OffsetFits ((s.write_offset + n) % word)) (sym e) (omega arith);
              filled = v.filled;
              capacity = omega (arith, v.capacity, v.usable.capacity);
              peak = v.peak;
              drained = v.drained;
              forced = v.forced;
              started = v.started;
            })
      ]

  pub advance-unwritten :
      (ws : List PendingWrite) (s : Session)
      → s.writes ≡ ws
      → FrontIs left s.write_offset ws
      → Inv s
      → unwritten (advance n s ws).1 ≡ drop n (unwritten s)
  unfolding advance
  advance-unwritten [] s e h v = absurd (omega arith)
  advance-unwritten (w ∷ ws) s e h v =
      let o : s.write_offset < length w.bytes = subst (OffsetFits s.write_offset) e v.offset in
      let f : Filled (w ∷ ws) = subst Filled e v.filled in
      let l : length left + s.write_offset ≡ length w.bytes =
        omega (arith, length-drop s.write_offset w.bytes, f.0, o, ap length h) in
      let k : ℕ = s.write_offset + n in
      let u : k % word ≡ k = omega (arith, f.0) in
      let all_bytes : List ℕ = w.bytes ++ queue_bytes ws in
      let q : drop n (unwritten s) ≡ drop k all_bytes =
        drop-drop n s.write_offset (queue_bytes s.writes) ∙ ap (λ x. drop k (queue_bytes x)) e in
      elim (Eq-cases k (length w.bytes)) [
        | inl all ↦
            let t : ((s.write_offset + n) % word == length w.bytes) ≡ true = ground arith in
            rw t (
              sym
                (q ∙ ap (λ x. drop x all_bytes) all ∙ drop-length_append w.bytes (queue_bytes ws)))
        | inr some_left ↦
            let t : ((s.write_offset + n) % word == length w.bytes) ≡ false = ground arith in
            rw t (
              ap (λ x. drop x (queue_bytes s.writes)) u
              ∙ ap (λ x. drop k (queue_bytes x)) e
              ∙ sym q)
      ]

pub advance-completed :
    (n : ℕ) (ws : List PendingWrite) (s : Session)
    → (advance n s ws).1.child_completed ≡ s.child_completed
unfolding advance
advance-completed n [] s = refl
advance-completed n (w ∷ ws) s = ground arith

FrontIs-queue_bytes :
    (left : List ℕ) (offset : ℕ) (ws : List PendingWrite)
    → OffsetFits offset ws
    → FrontIs left offset ws
    → (more : List ℕ) × (drop offset (queue_bytes ws) ≡ left ++ more)
FrontIs-queue_bytes left offset [] o h = absurd (omega arith)
FrontIs-queue_bytes left offset (w ∷ ws) o h = (
  queue_bytes ws,
  drop-append offset w.bytes (queue_bytes ws) (omega arith) ∙ ap (λ bs. bs ++ queue_bytes ws) h,
)

-- The queue begins with the rest of the front request.
pub Heads-unwritten :
    (left : List ℕ) (s : Session)
    → Inv s
    → Heads left s
    → (more : List ℕ) × (unwritten s ≡ left ++ more)
Heads-unwritten left s v h = FrontIs-queue_bytes left s.write_offset s.writes v.offset h

FrontIs-some :
    (left : List ℕ) (offset : ℕ) (ws : List PendingWrite) → FrontIs left offset ws → ws ≢ []
FrontIs-some left offset [] h = absurd (omega arith)
FrontIs-some left offset (w ∷ ws) h = λ e. cc

-- With a request in the queue the child has not ended.
pub Heads-open : (left : List ℕ) (s : Session) → Inv s → Heads left s → s.child_completed ≡ false
Heads-open left s v h = elim (Bool-cases s.child_completed) [
  | inl ended ↦ absurd (FrontIs-some left s.write_offset s.writes h (v.drained ended))
  | inr open_ ↦ open_
]
