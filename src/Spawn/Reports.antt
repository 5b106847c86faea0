-- ===== src/Spawn/Reports.antt =====
-- What dpty_spawn_prepared tells its caller of the calls that it makes.
use dart_terminal.Base.{ℕ, ◌≡◌, false, Option, none, some, List, [], ◌∷◌, ltb, if◌then◌else◌}
use dart_terminal.Status.{Status, ok, system_error}
use dart_terminal.Spawn.Table.{
  Descriptor, fresh_descriptor, Kernel, Answer, done, failed, ForkAnswer, forked, fork_failed,
  Answers,
}
use dart_terminal.Spawn.{Spawned, Progress, going, stopped, move_read, move_write}

-- The error number of the first call that fails.
abbrev pub first_failure : List Answer → Option ℕ
first_failure [] = none
first_failure (done ∷ as_) = first_failure as_
first_failure (failed e ∷ as_) = some e

-- A descriptor above the standard ones is not moved, and the answer is not asked for.
abbrev pub moving : ℕ → Answer → Answer
moving n a = if ltb 2 n then done else a

abbrev pub forking : ForkAnswer → Answer
forking (forked pid) = done
forking (fork_failed e) = failed e

abbrev pub master_calls : Answers → List Answer
master_calls a =
    a.master_flags.get_flags ∷ a.master_flags.set_flags ∷ a.get_status ∷ a.set_status ∷ []

-- The calls after pipe in their order, with the read end `r` and the write end `w` that pipe made.
abbrev pub later_calls : Answers → (r w : ℕ) → List Answer
later_calls a r w =
    moving r a.move_read
    ∷ moving w a.move_write
    ∷ a.read_flags.get_flags
    ∷ a.read_flags.set_flags
    ∷ a.write_flags.get_flags
    ∷ a.write_flags.set_flags
    ∷ forking a.fork
    ∷ master_calls a

abbrev pub status_of : Option ℕ → Status
status_of none = ok
status_of (some e) = system_error

abbrev pub error_of : Option ℕ → ℕ
error_of none = 0
error_of (some e) = e

abbrev pub Reports : Option ℕ → Spawned → Type 0
Reports f o = (o.status ≡ status_of f) × (o.error_number ≡ some (error_of f))

-- The first failure, where `as_` are the calls that follow.
abbrev progress_failure : Progress → List Answer → Option ℕ
progress_failure (going r w ds) as_ = first_failure as_
progress_failure (stopped r w e ds) as_ = some e

module _ (allocate : ℕ → List Descriptor → ℕ) where
  -- The ends of the pipe when it is made.
  abbrev pub read_end : List Descriptor → ℕ
  read_end ds = allocate 0 ds

  abbrev pub write_end : List Descriptor → ℕ
  write_end ds = allocate 0 (fresh_descriptor (read_end ds) false ∷ ds)

  -- The calls that a start makes as long as none of them fails.
  abbrev pub calls : Answers → Kernel → List Answer
  calls a k = a.pipe ∷ later_calls a (read_end k.descriptors) (write_end k.descriptors)
