-- ===== src/Spawn/Prepare.antt =====
-- Both ends of the pipe are prepared, or neither is used.
use dart_terminal.Base.{ℕ, ◌≡◌, refl, inl, inr, true, false, List, ◌∷◌, arith, ◌==◌}
use dart_terminal.Spawn.Table.{
  Descriptor, fresh_descriptor, mark_close_on_exec, Answer, done, failed, FlagAnswers, Answers,
  mark_close_on_exec-closed,
}
use dart_terminal.Spawn.{
  set_close_on_exec, Progress, going, stopped, after_mark, set_flag, get_and_set_flag, move_read,
  move_write, mark_read, mark_write, prepare_pipe, piped,
}
use dart_terminal.Spawn.Pipe.{
  Allocates, IsPair, IsHigh, IsHalfMarked, IsReady, IsAt, move_read-IsAt, move_write-IsAt,
}

-- A descriptor once it is marked.
marked : Descriptor → Descriptor
marked d = record d { close_on_exec = true }

mark_read-IsPair :
    (r w : ℕ) (ds old : List Descriptor)
    → (p : IsPair r w ds old)
    → (q : IsPair r w (mark_close_on_exec r ds) old) × (q.read.close_on_exec ≡ true)
unfolding marked
mark_read-IsPair r w ds old p =
    let same = mark_close_on_exec-closed r old p.read_new in
    let rr : (p.read.number == r) ≡ true = ground (arith, p.read_number) in
    let wr : (p.write.number == r) ≡ false = ground (arith, p.write_number, p.apart) in
    let q : IsPair r w (mark_close_on_exec r ds) old = record {
      read = marked p.read;
      write = p.write;
      read_number = p.read_number;
      write_number = p.write_number;
      apart = p.apart;
      read_new = p.read_new;
      write_new = p.write_new;
      table = elim p.table [
        | inl e ↦ inl (rw e (rw (rr, wr, same) refl))
        | inr e ↦ inr (rw e (rw (rr, wr, same) refl))
      ];
    } in
    (q, refl)

mark_write-IsPair :
    (r w : ℕ) (ds old : List Descriptor)
    → (p : IsPair r w ds old) → p.read.close_on_exec ≡ true
    → (q : IsPair r w (mark_close_on_exec w ds) old) × (q.read.close_on_exec ≡ true)
      × (q.write.close_on_exec ≡ true)
unfolding marked
mark_write-IsPair r w ds old p closed =
    let same = mark_close_on_exec-closed w old p.write_new in
    let read_other : (p.read.number == w) ≡ false = ground (arith, p.read_number, p.apart) in
    let ww : (p.write.number == w) ≡ true = ground (arith, p.write_number) in
    let q : IsPair r w (mark_close_on_exec w ds) old = record {
      read = p.read;
      write = marked p.write;
      read_number = p.read_number;
      write_number = p.write_number;
      apart = p.apart;
      read_new = p.read_new;
      write_new = p.write_new;
      table = elim p.table [
        | inl e ↦ inl (rw e (rw (read_other, ww, same) refl))
        | inr e ↦ inr (rw e (rw (read_other, ww, same) refl))
      ];
    } in
    (q, closed, refl)

set_flag-IsAt :
    (a : Answer) (r w : ℕ) (ds old : List Descriptor)
    → IsHigh old r w ds
    → IsAt IsHalfMarked old (after_mark r w ds (set_flag a r ds))
set_flag-IsAt (failed e) r w ds old p = p.0
set_flag-IsAt done r w ds old p =
    let (q, closed) = mark_read-IsPair r w ds old p.0 in (q, p.1, p.2, closed)

mark_read-IsAt :
    (a : FlagAnswers) (old : List Descriptor) (p : Progress)
    → IsAt IsHigh old p
    → IsAt IsHalfMarked old (mark_read a p)
unfolding mark_read set_close_on_exec
mark_read-IsAt a old (stopped r w e ds) p = p
mark_read-IsAt a old (going r w ds) p =
    elim a.get_flags
      as (λ b. IsAt IsHalfMarked old (after_mark r w ds (get_and_set_flag a b r ds))) [
        | failed e ↦ p.0
        | done ↦ set_flag-IsAt a.set_flags r w ds old p
      ]

set_flag-IsReady :
    (a : Answer) (r w : ℕ) (ds old : List Descriptor)
    → IsHalfMarked old r w ds
    → IsAt IsReady old (after_mark r w ds (set_flag a w ds))
set_flag-IsReady (failed e) r w ds old p = p.0
set_flag-IsReady done r w ds old p =
    let (q, closed, write) = mark_write-IsPair r w ds old p.0 p.3 in (q, p.1, p.2, closed, write)

mark_write-IsAt :
    (a : FlagAnswers) (old : List Descriptor) (p : Progress)
    → IsAt IsHalfMarked old p
    → IsAt IsReady old (mark_write a p)
unfolding mark_write set_close_on_exec
mark_write-IsAt a old (stopped r w e ds) p = p
mark_write-IsAt a old (going r w ds) p =
    elim a.get_flags as (λ b. IsAt IsReady old (after_mark r w ds (get_and_set_flag a b w ds))) [
      | failed e ↦ p.0
      | done ↦ set_flag-IsReady a.set_flags r w ds old p
    ]

module _ (allocate : ℕ → List Descriptor → ℕ) (fair : Allocates allocate) where
  piped-IsAt :
      (old : List Descriptor) → IsAt (λ old r w ds. IsPair r w ds old) old (piped allocate old)
  piped-IsAt old =
      let r : ℕ = allocate 0 old in
      let es : List Descriptor = fresh_descriptor r false ∷ old in
      let new = fair.closed 0 es in
      record {
        read = fresh_descriptor r false;
        write = fresh_descriptor (allocate 0 es) false;
        read_number = refl;
        write_number = refl;
        apart = ground (arith, new);
        read_new = fair.closed 0 old;
        write_new = ground (arith, new);
        table = inr refl;
      }

  -- Whatever fails on the way, the two ends of the pipe are open beside what was open before; and
  -- once they are prepared both are above 2 and closed on exec.
  pub prepare_pipe-IsAt :
      (a : Answers) (old : List Descriptor)
      → IsAt IsReady old (prepare_pipe allocate a (piped allocate old))
  unfolding prepare_pipe
  prepare_pipe-IsAt a old =
      let p : Progress = piped allocate old in
      let q : Progress = move_read allocate a.move_read p in
      mark_write-IsAt a.write_flags old
        (mark_read a.read_flags (move_write allocate a.move_write q))
        (mark_read-IsAt a.read_flags old (move_write allocate a.move_write q) (
          move_write-IsAt allocate fair a.move_write old q
            (move_read-IsAt allocate fair a.move_read old p (piped-IsAt old))))
