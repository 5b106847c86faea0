-- ===== src/Spawn/Tests.antt =====
-- A shell that is started, and the theorems at it.
use dart_terminal.Base.{
  ℕ, suc, ◌≤◌, max, ◌≡◌, refl, ◌⊎◌, inr, true, false, none, some, List, [], ◌∷◌, arith,
}
use dart_terminal.Spawn.Table.{
  Descriptor, fresh_descriptor, Kernel, done, failed, forked, Answers, has_number,
}
use dart_terminal.Spawn.{PreparedConfig, PreparedResult, dpty_spawn_prepared}
use dart_terminal.Spawn.Pipe.{Allocates, IsPair, IsReady}
use dart_terminal.Spawn.Leaks.{IsStarted, IsUndone, IsGiven, IsRefused, dpty_spawn_prepared-IsDone}
use dart_terminal.Spawn.Child.{
  Program, close_marked, IsReported, dpty_exec_child, dpty_exec_child-IsReported,
}

-- A number above all that are open.
above : List Descriptor → ℕ
above [] = 0
above (d ∷ ds) = max (suc d.number) (above ds)

abbrev next_number : ℕ → List Descriptor → ℕ
next_number n ds = max n (above ds)

above-closed : (n : ℕ) (ds : List Descriptor) → above ds ≤ n → has_number n ds ≡ false
unfolding above
above-closed n [] h = refl
above-closed n (d ∷ ds) h = ground (arith, above-closed n ds)

next_number-Allocates : Allocates next_number
next_number-Allocates = record {
  least = λ n ds. omega arith;
  closed = λ n ds. above-closed (next_number n ds) ds (omega arith);
}

abbrev sh : List ℕ
sh = b'/' ∷ b's' ∷ b'h' ∷ []

abbrev shell : PreparedConfig
shell = record {
  executable = some sh;
  argv = some (sh ∷ []);
  envp = some [];
  working_directory = none;
  rows = 24;
  columns = 80;
}

abbrev working : Answers
working = record {
  pipe = done;
  move_read = done;
  move_write = done;
  read_flags = record { get_flags = done; set_flags = done };
  write_flags = record { get_flags = done; set_flags = done };
  fork = forked 10;
  get_status = done;
  master_flags = record { get_flags = done; set_flags = done };
  set_status = done;
  waits = [];
}

-- The terminal cannot be made not to block, and waitpid is interrupted once.
abbrev blocked : Answers
blocked = record working { set_status = failed 25; waits = 4 ∷ [] }

abbrev kernel : Kernel
kernel = record { descriptors = fresh_descriptor 1 false ∷ []; children = 9 ∷ []; killed = [] }

-- What the caller's result holds before the call.
abbrev old_result : PreparedResult
old_result = record { child_pid = some 7; master_fd = some 8; exec_error_fd = none }

dpty_spawn_prepared-IsDone_example :
    let o =
      dpty_spawn_prepared next_number blocked (some shell) (some old_result) (some 0) kernel in
    (IsGiven (some shell) (some old_result) (some 0) × (IsStarted kernel o ⊎ IsUndone kernel o))
    ⊎ IsRefused (some shell) (some old_result) (some 0) kernel o
dpty_spawn_prepared-IsDone_example =
    dpty_spawn_prepared-IsDone next_number next_number-Allocates blocked kernel refl (refl, tt)
      (some shell) (some old_result) (some 0)

-- The pipe 4 and 5 beside the three standard descriptors.
abbrev standard : List Descriptor
standard = fresh_descriptor 0 false ∷ fresh_descriptor 1 false ∷ fresh_descriptor 2 false ∷ []

abbrev inherited : List Descriptor
inherited = fresh_descriptor 5 true ∷ fresh_descriptor 4 true ∷ standard

inherited-IsPair : IsPair 4 5 inherited standard
inherited-IsPair = record {
  read = fresh_descriptor 4 true;
  write = fresh_descriptor 5 true;
  read_number = refl;
  write_number = refl;
  apart = omega arith;
  read_new = refl;
  write_new = refl;
  table = inr refl;
}

inherited-IsReady : IsReady standard 4 5 inherited
unfolding inherited-IsPair
inherited-IsReady = (inherited-IsPair, omega arith, omega arith, refl, refl)

-- A shell of the inherited descriptors.
abbrev child_program : Program
child_program = record {
  executable = sh;
  argv = sh ∷ [];
  envp = [];
  directory = some sh;
  descriptors = close_marked standard;
}

dpty_exec_child-IsReported_example :
    IsReported
      (failed 2)
      done
      child_program
      (dpty_exec_child (failed 2) done 4 sh (sh ∷ []) [] (some sh) inherited)
dpty_exec_child-IsReported_example =
    dpty_exec_child-IsReported (failed 2) done 4 5 sh (sh ∷ []) [] (some sh) inherited standard
      inherited-IsReady
