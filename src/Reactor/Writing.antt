-- ===== src/Reactor/Writing.antt =====
-- FlushWrites: from the write queue to the terminal, at most eight writes and 512 KiB a turn.
use dart_terminal.Base.{
  ℕ, zero, suc, ◌+◌, ◌-◌, ◌*◌, ◌%◌, Bool, true, false, not, ◌&&◌, Option, none, some, List, [], ◌∷◌,
  leb, ◌==◌, if◌then◌else◌, length, take, drop,
}
use dart_terminal.Errno
use dart_terminal.Event.{write_dequeued, write_completed, write_error, took}
use dart_terminal.Int.{pos}
use dart_terminal.Session.{word, PendingWrite, Session}
use dart_terminal.Reactor.Os.{WriteResult, Os, wrote, write_failed}
use dart_terminal.Reactor.Diagnostics.{has_master, emit_state_snapshot}
use dart_terminal.Reactor.Filters.{set_write_enabled}
use dart_terminal.Reactor.World.{
  Act, Done, gets, locked, transfer, ◌>>=◌, ◌>>◌, skip, tell, stall, diagnose, wake_reactor,
}

abbrev pub maximum_write_batches_per_turn : ℕ
maximum_write_batches_per_turn = 8

abbrev pub maximum_write_bytes_per_turn : ℕ
maximum_write_bytes_per_turn = 512 * 1024

-- What the first section finds at the front of the queue.
pub record Front : Type 0 where
  pub remaining : List ℕ
  pub diagnostic : Bool
  pub request_id : ℕ
  pub queued_bytes : ℕ
  pub emit_dequeue : Bool

unfoldable pub front_of : Session → List PendingWrite → Option Front × Session
front_of s [] = (none, s)
front_of s (w ∷ ws) =
    let observe = w.diagnostic && not w.dequeue_observed in
    (
      some (record {
        remaining = drop s.write_offset w.bytes;
        diagnostic = w.diagnostic;
        request_id = w.request_id;
        queued_bytes = s.write_queued_bytes;
        emit_dequeue = observe;
      }),
      record s {
        writes = record w { dequeue_observed = if observe then true else w.dequeue_observed } ∷ ws;
      },
    )

unfoldable pub peek_front : Session → Option Front × Session
unfolding front_of
peek_front s = front_of s s.writes

-- A completed diagnostic request: its number, its size and what is queued behind it.
unfoldable pub advance : ℕ → Session → List PendingWrite → Option (ℕ × ℕ × ℕ) × Session
advance n s [] = (none, s)
advance n s (w ∷ ws) =
    let offset = (s.write_offset + n) % word in
    let queued = (s.write_queued_bytes + word - n) % word in
    let t = record s {
      write_offset = offset;
      write_queued_bytes = queued;
      bytes_written = (s.bytes_written + n) % word;
    } in
    if offset == length w.bytes
    then (
      if w.diagnostic then some (w.request_id, length w.bytes, queued) else none,
      record t { writes = ws; write_offset = 0 },
    )
    else (none, t)

-- The second section: `n` bytes of the front request have gone.
unfoldable pub consume : ℕ → Session → Option (ℕ × ℕ × ℕ) × Session
unfolding advance
consume n s = advance n s s.writes

module _ (os : Os) where
  unfoldable pub announce : Front → Act Done
  announce f =
      if f.emit_dequeue
      then (do
        diagnose write_dequeued f.request_id (length f.remaining) (pos f.queued_bytes) (pos 0) 0
        emit_state_snapshot os f.request_id)
      else skip

  unfoldable pub complete : Option (ℕ × ℕ × ℕ) → Act Done
  complete none = skip
  complete (some (request, size, queued)) =
      diagnose write_completed request size (pos queued) (pos 0) 0

  unfoldable pub write_blocked : ℕ → Front → Act Done
  write_blocked e f =
      if e == Errno.again
      then set_write_enabled true
      else if f.diagnostic
      then diagnose write_error f.request_id (length f.remaining) (pos f.queued_bytes) (pos 0) e
      else skip

  -- `n` bytes were taken; the turn ends when its bytes are used up.
  unfoldable pub written : Front → ℕ → ℕ → Act Done → Act Done
  unfolding consume complete
  written f n total next = do
    tell (took (take n f.remaining) ∷ [])
    done ← locked os (consume n)
    complete done
    if leb maximum_write_bytes_per_turn (total + n) then wake_reactor else next

  -- After a write: what follows `n` bytes, or an interruption.
  unfoldable pub answered : Front → ℕ → (ℕ → Act Done) → Act Done → WriteResult → Act Done
  unfolding written write_blocked
  answered f total more again (wrote n) = if n == 0 then skip else written f n total (more n)
  answered f total more again (write_failed e) =
      if e == Errno.intr then again else write_blocked e f

  unfoldable pub attempt : ℕ → (ℕ → Act Done) → Act Done → Option Front → Act Done
  unfolding announce answered
  attempt total more again none = set_write_enabled false
  attempt total more again (some f) = do
    announce f
    r ← transfer (λ n. os.write n f.remaining)
    answered f total more again r

  -- The loop, with the writes that the turn still allows, fuel for interrupted ones, and the bytes
  -- taken so far.
  unfoldable pub flush_loop : ℕ → ℕ → ℕ → Act Done
  unfolding peek_front attempt
  flush_loop zero fuel total = wake_reactor
  flush_loop (suc batches) zero total = stall
  flush_loop (suc batches) (suc fuel) total = do
    front ← locked os peek_front
    attempt total (λ n. flush_loop batches (suc os.patience) (total + n))
        (flush_loop (suc batches) fuel total) front

  unfoldable pub flush_writes : Act Done
  unfolding flush_loop
  flush_writes = do
    open_ ← gets (λ s. has_master s && not s.child_completed)
    if open_ then flush_loop maximum_write_batches_per_turn (suc os.patience) 0 else skip
