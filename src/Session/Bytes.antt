-- ===== src/Session/Bytes.antt =====
-- The write queue as what it stands for: a bounded queue of bytes.
use dart_terminal.Base.{
  ℕ, ◌+◌, ◌≤◌, ◌≡◌, refl, sym, ap, ◌∙◌, inl, inr, Bool, true, false, Option, none, some, List, [],
  ◌∷◌, ◌++◌, arith, ◌==◌, if◌then◌else◌, Bool-cases, length, drop, length-append, length-drop,
  drop-append,
}
use dart_terminal.Status.{Status, ok, set_error, clear_error}
use dart_terminal.Session.{OutputBatch, PendingWrite, Session}
use dart_terminal.Session.Calls.{
  Reply, start, push_write, queue_write, enqueue_write, pop_batch, acknowledge_front, acknowledge,
  resize, send_signal, close, force_close, Call, starts, writes_bytes, acknowledges, resizes_to,
  sends, closes_within, forces, perform,
}
use dart_terminal.Session.Invariant.{Inv, queued_total, OffsetFits}
use mathlib.Core.List.{append_assoc, append-nil}

abbrev pub queue_bytes : List PendingWrite → List ℕ
queue_bytes [] = []
queue_bytes (w ∷ ws) = w.bytes ++ queue_bytes ws

-- The accepted bytes that the terminal has not taken, oldest first.
abbrev pub unwritten : Session → List ℕ
unwritten s = drop s.write_offset (queue_bytes s.writes)

abbrev pub is_ok : Status → Bool
is_ok ok = true
is_ok _ = false

-- The bytes that a call adds, as its reply reports.
abbrev pub accepted_bytes : Call → Reply → List ℕ
accepted_bytes (writes_bytes (some bytes) tracked) r = if is_ok r.error.status then bytes else []
accepted_bytes _ r = []

pub queue_bytes-append :
    (ws : List PendingWrite) (w : PendingWrite)
    → queue_bytes (ws ++ w ∷ []) ≡ queue_bytes ws ++ w.bytes
queue_bytes-append [] w = append-nil w.bytes
queue_bytes-append (v ∷ ws) w =
    rw (queue_bytes-append ws w) (sym (append_assoc v.bytes (queue_bytes ws) w.bytes))

pub length-queue_bytes : (ws : List PendingWrite) → length (queue_bytes ws) ≡ queued_total ws
length-queue_bytes [] = refl
length-queue_bytes (w ∷ ws) =
    length-append w.bytes (queue_bytes ws) ∙ ap (λ n. length w.bytes + n) (length-queue_bytes ws)

pub offset-le : (n : ℕ) (ws : List PendingWrite) → OffsetFits n ws → n ≤ length (queue_bytes ws)
offset-le n [] o = omega arith
offset-le n (w ∷ ws) o = omega (arith, length-append w.bytes (queue_bytes ws))

-- `write_queued_bytes_` counts the bytes that the terminal has not taken.
pub length-unwritten : (s : Session) → Inv s → length (unwritten s) ≡ s.write_queued_bytes
length-unwritten s v = omega (
  arith,
  length-drop s.write_offset (queue_bytes s.writes),
  length-queue_bytes s.writes,
  v.queued,
)

push_write-unwritten :
    (bytes : List ℕ) (tracked : Bool) (s : Session)
    → Inv s
    → unwritten (push_write bytes tracked s) ≡ unwritten s ++ bytes
unfolding push_write
push_write-unwritten bytes tracked s v =
    ap (drop s.write_offset) (queue_bytes-append s.writes _)
    ∙ drop-append s.write_offset (queue_bytes s.writes) bytes
        (offset-le s.write_offset s.writes v.offset)

queue_write-unwritten :
    (bytes : List ℕ) (tracked : Bool) (s : Session)
    → Inv s
    → unwritten (queue_write bytes tracked s).session
      ≡ unwritten s ++ (if is_ok (queue_write bytes tracked s).error.status then bytes else [])
unfolding queue_write set_error clear_error
queue_write-unwritten bytes tracked s v =
    ground (arith, push_write-unwritten bytes tracked s v, append-nil (unwritten s))

same : {a b : List ℕ} → a ≡ b → a ≡ b ++ []
same {b} e = e ∙ sym (append-nil b)

enqueue_write-unwritten :
    (o : Option (List ℕ)) (tracked : Bool) (s : Session)
    → Inv s
    → unwritten (enqueue_write o tracked s).session
      ≡ unwritten s ++ accepted_bytes (writes_bytes o tracked) (enqueue_write o tracked s)
unfolding enqueue_write set_error
enqueue_write-unwritten none tracked s v = same refl
enqueue_write-unwritten (some bytes) tracked s v = elim (Bool-cases (length bytes == 0)) [
  | inl empty ↦ rw empty (same refl)
  | inr filled ↦ rw filled (queue_write-unwritten bytes tracked s v)
]

acknowledge_front-unwritten :
    (sequence n : ℕ) (bs : List OutputBatch) (s : Session)
    → unwritten (acknowledge_front sequence n bs s).session ≡ unwritten s
unfolding acknowledge_front pop_batch
acknowledge_front-unwritten sequence n [] s = refl
acknowledge_front-unwritten sequence n (b ∷ bs) s = ground arith

-- A call appends to the queue of unwritten bytes exactly the bytes of a write that it accepts, and
-- every other call, refused writes included, leaves the queue as it is.
pub unwritten-perform :
    (c : Call) (s : Session)
    → Inv s
    → unwritten (perform c s).session ≡ unwritten s ++ accepted_bytes c (perform c s)
unfolding perform start acknowledge resize send_signal close force_close
unwritten-perform (writes_bytes o tracked) s v = enqueue_write-unwritten o tracked s v
unwritten-perform (starts b) s v = same (ground arith)
unwritten-perform (acknowledges sequence n) s v =
    same (acknowledge_front-unwritten sequence n s.outstanding s)
unwritten-perform (resizes_to r c) s v = same (ground arith)
unwritten-perform (sends n) s v = same (ground arith)
unwritten-perform (closes_within n) s v = same (ground arith)
unwritten-perform forces s v = same (ground arith)
