-- ===== src/Session/Acknowledge.antt =====
-- Acknowledgements release the outstanding batches in order, and a closing session takes no input.
use dart_terminal.Base.{
  ℕ, ◌+◌, ◌<◌, ◌≡◌, refl, ap, ◌∙◌, ◌≢◌, ◌⊎◌, inl, inr, Bool, true, ◌&&◌, Option, none, some, List,
  [], ◌∷◌, arith, leb, if◌then◌else◌, Eq-cases, length,
}
use dart_terminal.Status.{ok, invalid_argument, set_error, clear_error}
use dart_terminal.Session.{word, OutputBatch, Session}
use dart_terminal.Session.Calls.{
  Reply, start, queue_write, enqueue_write, pop_batch, acknowledge_front, acknowledge, resize,
  send_signal, close, force_close, wake, Call, starts, writes_bytes, acknowledges, resizes_to,
  sends, closes_within, forces, perform,
}
use dart_terminal.Session.Invariant.{Inv, flight_total}
use dart_terminal.Session.Bytes.{unwritten}

-- The outcome of acknowledging the batch `sequence` of `n` bytes, by the outstanding batches.
abbrev pub Acknowledged : ℕ → ℕ → List OutputBatch → Session → Reply → Type 0
Acknowledged sequence n [] s r = (r.error.status ≡ invalid_argument) × (r.session ≡ s)
Acknowledged sequence n (b ∷ rest) s r =
    ((b.sequence ≡ sequence)
      × (length b.bytes ≡ n)
      × (r.error.status ≡ ok)
      × (r.session.outstanding ≡ rest)
      × (r.session.read_in_flight_bytes + n ≡ s.read_in_flight_bytes)
      × (r.effects ≡ (
          if s.read_paused && leb r.session.read_in_flight_bytes s.config.read_low_water
          then wake s
          else [])))
    ⊎ (((b.sequence ≢ sequence) ⊎ (length b.bytes ≢ n))
        × (r.error.status ≡ invalid_argument)
        × (r.session ≡ s))

acknowledge_front_cases :
    (sequence n : ℕ) (bs : List OutputBatch) (s : Session)
    → s.outstanding ≡ bs
    → Inv s
    → Acknowledged sequence n bs s (acknowledge_front sequence n bs s)
unfolding acknowledge_front pop_batch set_error clear_error wake
acknowledge_front_cases sequence n [] s e v = (refl, refl)
acknowledge_front_cases sequence n (b ∷ rest) s e v =
    let total : s.read_in_flight_bytes ≡ length b.bytes + flight_total rest =
      v.flight ∙ ap flight_total e in
    let small : s.read_in_flight_bytes < word =
      omega (arith, v.flight_bound, v.usable.high_water) in
    elim (Eq-cases b.sequence sequence) [
      | inl same ↦ elim (Eq-cases (length b.bytes) n) [
        | inl size ↦ inl (same, size, ground arith, ground arith, ground arith, ground arith)
        | inr other ↦ inr (inr (ground arith), ground arith, ground arith)
      ]
      | inr other ↦ inr (inl (ground arith), ground arith, ground arith)
    ]

-- An acknowledgement of the oldest outstanding batch, by its number and size, releases that batch,
-- takes its bytes off the count in flight, and wakes the reactor exactly if reading is paused and
-- the count is at the low mark; any other is refused and changes nothing.
pub acknowledge_cases :
    (sequence n : ℕ) (s : Session)
    → Inv s
    → Acknowledged sequence n s.outstanding s (acknowledge sequence n s)
unfolding acknowledge
acknowledge_cases sequence n s v = acknowledge_front_cases sequence n s.outstanding s refl v

-- What a closing session keeps.
pub record StaysClosed (s t : Session) : Type 0 where
  pub closing : t.closing ≡ true
  pub grace : t.close_grace_millis ≡ s.close_grace_millis
  pub input : unwritten t ≡ unwritten s
  pub size : t.pending_resize ≡ s.pending_resize
  pub signals : t.pending_signals ≡ s.pending_signals

enqueue_write-closing :
    (o : Option (List ℕ)) (tracked : Bool) (s : Session)
    → s.closing ≡ true
    → StaysClosed s (enqueue_write o tracked s).session
unfolding enqueue_write queue_write
enqueue_write-closing none tracked s c = ground arith
enqueue_write-closing (some bytes) tracked s c = ground arith

acknowledge-closing :
    (sequence n : ℕ) (bs : List OutputBatch) (s : Session)
    → s.closing ≡ true
    → StaysClosed s (acknowledge_front sequence n bs s).session
unfolding acknowledge_front pop_batch
acknowledge-closing sequence n [] s c = ground arith
acknowledge-closing sequence n (b ∷ bs) s c = ground arith

-- Once a session is closing, no call reopens it, changes its grace period, or adds input, a resize
-- or a signal to it.
pub perform-closing :
    (c : Call) (s : Session) → s.closing ≡ true → StaysClosed s (perform c s).session
unfolding perform start acknowledge resize send_signal close force_close
perform-closing (starts b) s e = ground arith
perform-closing (writes_bytes o tracked) s e = enqueue_write-closing o tracked s e
perform-closing (acknowledges sequence n) s e = acknowledge-closing sequence n s.outstanding s e
perform-closing (resizes_to r c) s e = ground arith
perform-closing (sends n) s e = ground arith
perform-closing (closes_within n) s e = ground arith
perform-closing forces s e = ground arith
