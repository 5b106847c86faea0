-- ===== src/Spawn/Table.antt =====
-- The part of the kernel in the start of a child: descriptors, children, and the answers to calls.
use dart_terminal.Base.{
  ℕ, ◌≡◌, refl, Bool, true, false, ◌||◌, List, [], ◌∷◌, arith, ◌==◌, if◌then◌else◌,
}

-- An open descriptor of the process, with its two flags.
pub record Descriptor : Type 0 where
  pub number : ℕ
  pub close_on_exec : Bool
  pub nonblocking : Bool

abbrev pub fresh_descriptor : ℕ → Bool → Descriptor
fresh_descriptor n c = record { number = n; close_on_exec = c; nonblocking = false }

-- The process: its descriptors, its children, and those it killed.
pub record Kernel : Type 0 where
  pub descriptors : List Descriptor
  pub children : List ℕ
  pub killed : List ℕ

abbrev pub close_open : ℕ → List Descriptor → List Descriptor
close_open n [] = []
close_open n (d ∷ ds) = let rest = close_open n ds in if d.number == n then rest else d ∷ rest

abbrev pub mark_close_on_exec : ℕ → List Descriptor → List Descriptor
mark_close_on_exec n [] = []
mark_close_on_exec n (d ∷ ds) =
    (if d.number == n then record d { close_on_exec = true } else d) ∷ mark_close_on_exec n ds

abbrev pub mark_nonblocking : ℕ → List Descriptor → List Descriptor
mark_nonblocking n [] = []
mark_nonblocking n (d ∷ ds) =
    (if d.number == n then record d { nonblocking = true } else d) ∷ mark_nonblocking n ds

-- A system call: it works, or leaves an error number.
pub data Answer : Type 0 where
  done : Answer
  failed : ℕ → Answer

-- forkpty in the parent.
pub data ForkAnswer : Type 0 where
  forked : ℕ → ForkAnswer
  fork_failed : ℕ → ForkAnswer

-- The answers to fcntl F_GETFD and F_SETFD for one descriptor.
pub record FlagAnswers : Type 0 where
  pub get_flags : Answer
  pub set_flags : Answer

-- The answers in the order of the calls; `waits` are the error numbers of the attempts of waitpid
-- that fail before one that works.
pub record Answers : Type 0 where
  pub pipe : Answer
  pub move_read : Answer
  pub move_write : Answer
  pub read_flags : FlagAnswers
  pub write_flags : FlagAnswers
  pub fork : ForkAnswer
  pub get_status : Answer
  pub master_flags : FlagAnswers
  pub set_status : Answer
  pub waits : List ℕ

abbrev pub remove_child : ℕ → List ℕ → List ℕ
remove_child pid [] = []
remove_child pid (c ∷ cs) = let rest = remove_child pid cs in if c == pid then rest else c ∷ rest

-- Whether a descriptor of the number is open.
abbrev pub has_number : ℕ → List Descriptor → Bool
has_number n [] = false
has_number n (d ∷ ds) = (d.number == n) || has_number n ds

pub close_open-closed :
    (n : ℕ) (ds : List Descriptor) → has_number n ds ≡ false → close_open n ds ≡ ds
close_open-closed n [] h = refl
close_open-closed n (d ∷ ds) h = ground (arith, close_open-closed n ds)

pub mark_close_on_exec-closed :
    (n : ℕ) (ds : List Descriptor) → has_number n ds ≡ false → mark_close_on_exec n ds ≡ ds
mark_close_on_exec-closed n [] h = refl
mark_close_on_exec-closed n (d ∷ ds) h = ground (arith, mark_close_on_exec-closed n ds)

pub mark_nonblocking-closed :
    (n : ℕ) (ds : List Descriptor) → has_number n ds ≡ false → mark_nonblocking n ds ≡ ds
mark_nonblocking-closed n [] h = refl
mark_nonblocking-closed n (d ∷ ds) h = ground (arith, mark_nonblocking-closed n ds)

abbrev pub has_child : ℕ → List ℕ → Bool
has_child pid [] = false
has_child pid (c ∷ cs) = (c == pid) || has_child pid cs

pub remove_child-absent :
    (pid : ℕ) (cs : List ℕ) → has_child pid cs ≡ false → remove_child pid cs ≡ cs
remove_child-absent pid [] h = refl
remove_child-absent pid (c ∷ cs) h = ground (arith, remove_child-absent pid cs)
