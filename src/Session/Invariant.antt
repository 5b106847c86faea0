-- ===== src/Session/Invariant.antt =====
-- What holds of a session whenever its mutex is free.
use dart_terminal.Base.{
  ℕ, ◌+◌, ◌%◌, ◌≤◌, ◌<◌, ◌≡◌, refl, sym, ap, ◌∙◌, true, List, [], ◌∷◌, ◌++◌, arith, length,
}
use dart_terminal.Config.{OwnedConfig, maximum_queue_bytes}
use dart_terminal.Config.Bounds.{IsUsable}
use dart_terminal.Session.{word, OutputBatch, PendingWrite, Session, new_session}

-- The bytes of all batches that are not acknowledged.
abbrev pub flight_total : List OutputBatch → ℕ
flight_total [] = 0
flight_total (b ∷ bs) = length b.bytes + flight_total bs

abbrev pub queued_total : List PendingWrite → ℕ
queued_total [] = 0
queued_total (w ∷ ws) = length w.bytes + queued_total ws

-- Every queued request has a byte, and no more than a queue may hold.
abbrev pub Filled : List PendingWrite → Type 0
Filled [] = Unit {0}
Filled (w ∷ ws) = ((0 < length w.bytes) × (length w.bytes ≤ maximum_queue_bytes)) × Filled ws

-- The offset lies inside the front request, and is 0 without one.
abbrev pub OffsetFits : ℕ → List PendingWrite → Type 0
OffsetFits n [] = n ≡ 0
OffsetFits n (w ∷ ws) = n < length w.bytes

-- The batches are numbered from `first` on, and `next` is the number of the batch to come.
abbrev pub Numbered : ℕ → List OutputBatch → ℕ → Type 0
Numbered first [] next = first ≡ next
Numbered first (b ∷ bs) next = (b.sequence ≡ first) × Numbered ((first + 1) % word) bs next

pub record Inv (s : Session) : Type 0 where
  pub usable : IsUsable s.config
  pub flight : s.read_in_flight_bytes ≡ flight_total s.outstanding
  pub flight_bound : s.read_in_flight_bytes ≤ s.config.read_high_water
  pub flight_peak : s.max_read_in_flight_bytes ≤ s.config.read_high_water
  pub numbered : (first : ℕ) × Numbered first s.outstanding s.next_sequence
  pub queued : s.write_queued_bytes + s.write_offset ≡ queued_total s.writes
  pub offset : OffsetFits s.write_offset s.writes
  pub filled : Filled s.writes
  pub capacity : s.write_queued_bytes ≤ s.config.write_capacity
  pub peak : s.max_write_queued_bytes ≤ s.config.write_capacity
  pub drained : s.child_completed ≡ true → s.writes ≡ []
  pub forced : s.force_close_requested ≡ true → s.closing ≡ true
  pub started : s.close_started ≡ true → s.closing ≡ true

pub new_session-Inv : (c : OwnedConfig) → IsUsable c → Inv (new_session c)
unfolding new_session
new_session-Inv c u = record {
  usable = u;
  flight = refl;
  flight_bound = omega arith;
  flight_peak = omega arith;
  numbered = (0, refl);
  queued = omega arith;
  offset = refl;
  filled = tt;
  capacity = omega arith;
  peak = omega arith;
  drained = λ e. refl;
  forced = λ e. cc;
  started = λ e. cc;
}

pub queued_total-append :
    (ws : List PendingWrite) (w : PendingWrite)
    → queued_total (ws ++ w ∷ []) ≡ queued_total ws + length w.bytes
queued_total-append [] w = omega arith
queued_total-append (v ∷ ws) w = omega (arith, queued_total-append ws w)

pub Filled-append :
    (ws : List PendingWrite) (w : PendingWrite)
    → Filled ws
    → (0 < length w.bytes) × (length w.bytes ≤ maximum_queue_bytes)
    → Filled (ws ++ w ∷ [])
Filled-append [] w f h = (h, tt)
Filled-append (v ∷ ws) w f h = (f.0, Filled-append ws w f.1 h)

pub OffsetFits-append :
    (n : ℕ) (ws : List PendingWrite) (w : PendingWrite)
    → OffsetFits n ws
    → 0 < length w.bytes
    → OffsetFits n (ws ++ w ∷ [])
OffsetFits-append n [] w o h = omega arith
OffsetFits-append n (v ∷ ws) w o h = o

pub flight_total-append :
    (bs : List OutputBatch) (b : OutputBatch)
    → flight_total (bs ++ b ∷ []) ≡ flight_total bs + length b.bytes
flight_total-append [] b = omega arith
flight_total-append (c ∷ bs) b = omega (arith, flight_total-append bs b)

pub Numbered-append :
    (first next : ℕ) (bs : List OutputBatch) (b : OutputBatch)
    → Numbered first bs next
    → b.sequence ≡ next
    → Numbered first (bs ++ b ∷ []) ((next + 1) % word)
Numbered-append first next [] b n e = (e ∙ sym n, ap (λ k. (k + 1) % word) n)
Numbered-append first next (c ∷ bs) b n e =
    (n.0, Numbered-append ((first + 1) % word) next bs b n.1 e)
