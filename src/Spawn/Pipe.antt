-- ===== src/Spawn/Pipe.antt =====
-- The two ends of the pipe while they are prepared.
use dart_terminal.Base.{
  ℕ, ◌≤◌, ◌<◌, ◌≡◌, refl, sym, ap, ◌∙◌, ◌≢◌, ◌⊎◌, inl, inr, true, false, List, ◌∷◌, arith, ltb,
  ◌==◌, if_cases,
}
use dart_terminal.Spawn.Table.{
  Descriptor, fresh_descriptor, close_open, Answer, done, failed, has_number, close_open-closed,
}
use dart_terminal.Spawn.{
  Progress, going, stopped, move_above_standard_descriptors, duplicate, after_move_read,
  after_move_write, move_read, move_write,
}

-- What POSIX says of the number of a new descriptor: it is at least the given one, and was closed.
pub record Allocates (allocate : ℕ → List Descriptor → ℕ) : Type 0 where
  pub least : (n : ℕ) (ds : List Descriptor) → n ≤ allocate n ds
  pub closed : (n : ℕ) (ds : List Descriptor) → has_number (allocate n ds) ds ≡ false

-- The two ends are open beside `old`.
pub record IsPair (r w : ℕ) (ds old : List Descriptor) : Type 0 where
  pub read : Descriptor
  pub write : Descriptor
  pub read_number : read.number ≡ r
  pub write_number : write.number ≡ w
  pub apart : r ≢ w
  pub read_new : has_number r old ≡ false
  pub write_new : has_number w old ≡ false
  pub table : (ds ≡ read ∷ write ∷ old) ⊎ (ds ≡ write ∷ read ∷ old)

-- After each of the four calls that prepare them.
abbrev pub IsHighRead : List Descriptor → ℕ → ℕ → List Descriptor → Type 0
IsHighRead old r w ds = IsPair r w ds old × (2 < r)

abbrev pub IsHigh : List Descriptor → ℕ → ℕ → List Descriptor → Type 0
IsHigh old r w ds = IsPair r w ds old × (2 < r) × (2 < w)

abbrev pub IsHalfMarked : List Descriptor → ℕ → ℕ → List Descriptor → Type 0
IsHalfMarked old r w ds =
    (p : IsPair r w ds old) × (2 < r) × (2 < w) × (p.read.close_on_exec ≡ true)

abbrev pub IsReady : List Descriptor → ℕ → ℕ → List Descriptor → Type 0
IsReady old r w ds =
    (p : IsPair r w ds old) × (2 < r)
    × (2 < w)
    × (p.read.close_on_exec ≡ true)
    × (p.write.close_on_exec ≡ true)

abbrev pub IsAt :
    (List Descriptor → ℕ → ℕ → List Descriptor → Type 0) → List Descriptor → Progress → Type 0
IsAt P old (going r w ds) = P old r w ds
IsAt P old (stopped r w e ds) = IsPair r w ds old

-- Without one of them the other remains, and without both none does.
pub close_write-eq :
    (r w : ℕ) (ds old : List Descriptor) (p : IsPair r w ds old) → close_open w ds ≡ p.read ∷ old
close_write-eq r w ds old p =
    let same = close_open-closed w old p.write_new in
    elim p.table [
      | inl e ↦ rw e (ground (arith, same, p.read_number, p.write_number, p.apart))
      | inr e ↦ rw e (ground (arith, same, p.read_number, p.write_number, p.apart))
    ]

pub close_read-eq :
    (r w : ℕ) (ds old : List Descriptor) (p : IsPair r w ds old) → close_open r ds ≡ p.write ∷ old
close_read-eq r w ds old p =
    let same = close_open-closed r old p.read_new in
    elim p.table [
      | inl e ↦ rw e (ground (arith, same, p.read_number, p.write_number, p.apart))
      | inr e ↦ rw e (ground (arith, same, p.read_number, p.write_number, p.apart))
    ]

pub close_both-eq :
    (r w : ℕ) (ds old : List Descriptor) → IsPair r w ds old → close_open w (close_open r ds) ≡ old
close_both-eq r w ds old p =
    rw (close_read-eq r w ds old p)
      (ground (arith, close_open-closed w old p.write_new, p.write_number))

-- A number that is closed beside the pair differs from both, and from all that were open before.
pub apart_from_pair :
    (r w m : ℕ) (ds old : List Descriptor)
    → IsPair r w ds old
    → has_number m ds ≡ false
    → ((m == r) ≡ false) × ((m == w) ≡ false) × (has_number m old ≡ false)
apart_from_pair r w m ds old p h = elim p.table [
  | inl e ↦
      let g = ap (has_number m) (sym e) ∙ h in
      (
        ground (arith, g, p.read_number, p.write_number),
        ground (arith, g, p.read_number, p.write_number),
        ground (arith, g),
      )
  | inr e ↦
      let g = ap (has_number m) (sym e) ∙ h in
      (
        ground (arith, g, p.read_number, p.write_number),
        ground (arith, g, p.read_number, p.write_number),
        ground (arith, g),
      )
]

module _ (allocate : ℕ → List Descriptor → ℕ) (fair : Allocates allocate) where
  read_moved-IsPair :
      (r w : ℕ) (ds old : List Descriptor)
      → IsPair r w ds old
      → let m = allocate 3 ds in IsPair m w (close_open r (fresh_descriptor m true ∷ ds)) old
  read_moved-IsPair r w ds old p =
      let m : ℕ = allocate 3 ds in
      let (mr, mw, mo) = apart_from_pair r w m ds old p (fair.closed 3 ds) in
      rw (mr, close_read-eq r w ds old p)
        (record {
          read = fresh_descriptor m true;
          write = p.write;
          read_number = refl;
          write_number = p.write_number;
          apart = ground (arith, mw);
          read_new = mo;
          write_new = p.write_new;
          table = inl refl;
        })

  write_moved-IsPair :
      (r w : ℕ) (ds old : List Descriptor)
      → IsPair r w ds old
      → let m = allocate 3 ds in IsPair r m (close_open w (fresh_descriptor m true ∷ ds)) old
  write_moved-IsPair r w ds old p =
      let m : ℕ = allocate 3 ds in
      let (mr, mw, mo) = apart_from_pair r w m ds old p (fair.closed 3 ds) in
      rw (mw, close_write-eq r w ds old p)
        (record {
          read = p.read;
          write = fresh_descriptor m true;
          read_number = p.read_number;
          write_number = refl;
          apart = ground (arith, mr);
          read_new = p.read_new;
          write_new = mo;
          table = inr refl;
        })

  duplicated-read :
      (a : Answer) (r w : ℕ) (ds old : List Descriptor)
      → IsPair r w ds old
      → IsAt IsHighRead old (after_move_read r w ds (duplicate allocate a r ds))
  unfolding duplicate
  duplicated-read (failed e) r w ds old p = p
  duplicated-read done r w ds old p = (read_moved-IsPair r w ds old p, fair.least 3 ds)

  duplicated-write :
      (a : Answer) (r w : ℕ) (ds old : List Descriptor)
      → IsHighRead old r w ds
      → IsAt IsHigh old (after_move_write r w ds (duplicate allocate a w ds))
  unfolding duplicate
  duplicated-write (failed e) r w ds old p = p.0
  duplicated-write done r w ds old p = (write_moved-IsPair r w ds old p.0, p.1, fair.least 3 ds)

  pub move_read-IsAt :
      (a : Answer) (old : List Descriptor) (p : Progress)
      → IsAt (λ old r w ds. IsPair r w ds old) old p
      → IsAt IsHighRead old (move_read allocate a p)
  unfolding move_read move_above_standard_descriptors
  move_read-IsAt a old (stopped r w e ds) p = p
  move_read-IsAt a old (going r w ds) p =
      if_cases (λ m. IsAt IsHighRead old (after_move_read r w ds m)) (ltb 2 r)
        (λ high. (p, ground arith)) (λ low. duplicated-read a r w ds old p)

  pub move_write-IsAt :
      (a : Answer) (old : List Descriptor) (p : Progress)
      → IsAt IsHighRead old p
      → IsAt IsHigh old (move_write allocate a p)
  unfolding move_write move_above_standard_descriptors
  move_write-IsAt a old (stopped r w e ds) p = p
  move_write-IsAt a old (going r w ds) p =
      if_cases (λ m. IsAt IsHigh old (after_move_write r w ds m)) (ltb 2 w)
        (λ high. (p.0, p.1, ground arith)) (λ low. duplicated-write a r w ds old p)
