-- ===== src/Spawn.antt =====
-- The start of a child on a new terminal: dpty_spawn_prepared of
-- packages/dart_pty_macos/native/PtySpawn.c with the structures of PtySpawnInternal.h. The kernel's
-- part is a table of open descriptors and the children that are not reaped; whether a call succeeds
-- is an answer given to the model, and where a descriptor is made its number is chosen by
-- `allocate`.
pub mod Table
pub mod Pipe
pub mod Prepare
pub mod Master
pub mod Leaks
pub mod Reports
pub mod Child
mod Tests
use dart_terminal.Base.{
  ℕ, Bool, true, false, ◌||◌, Option, none, some, List, [], ◌∷◌, ltb, ◌==◌, if◌then◌else◌,
}
use dart_terminal.Errno
use dart_terminal.Config.{CString}
use dart_terminal.Status.{Status, ok, invalid_argument, system_error}
use Table.{
  Descriptor, fresh_descriptor, Kernel, close_open, mark_close_on_exec, mark_nonblocking,
  remove_child, Answer, done, failed, ForkAnswer, forked, fork_failed, FlagAnswers, Answers,
}

-- DptyPreparedSpawnConfig; a null pointer is `none`.
pub record PreparedConfig : Type 0 where
  pub executable : Option CString
  pub argv : Option (List CString)
  pub envp : Option (List CString)
  pub working_directory : Option CString
  pub rows : ℕ
  pub columns : ℕ

-- DptyPreparedSpawnResult, with `none` for -1.
pub record PreparedResult : Type 0 where
  pub child_pid : Option ℕ
  pub master_fd : Option ℕ
  pub exec_error_fd : Option ℕ

-- The status, what stands behind the pointers to the error number and to the result, `none` for a
-- null pointer, and the process.
pub record Spawned : Type 0 where
  pub status : Status
  pub error_number : Option ℕ
  pub result : Option PreparedResult
  pub kernel : Kernel

-- What the result is set to before the first system call.
abbrev pub no_result : PreparedResult
no_result = record { child_pid = none; master_fd = none; exec_error_fd = none }

-- A system call failed.
abbrev pub failed_call : ℕ → Kernel → Spawned
failed_call e k = record {
  status = system_error;
  error_number = some e;
  result = some no_result;
  kernel = k;
}

-- A call that changes the descriptors, or fails and leaves them as they are.
pub data Flagged : Type 0 where
  flagged : List Descriptor → Flagged
  unflagged : ℕ → Flagged

abbrev pub set_flag : Answer → ℕ → List Descriptor → Flagged
set_flag (failed e) n ds = unflagged e
set_flag done n ds = flagged (mark_close_on_exec n ds)

abbrev pub get_and_set_flag : FlagAnswers → Answer → ℕ → List Descriptor → Flagged
get_and_set_flag a (failed e) n ds = unflagged e
get_and_set_flag a done n ds = set_flag a.set_flags n ds

unfoldable pub set_close_on_exec : FlagAnswers → ℕ → List Descriptor → Flagged
set_close_on_exec a n ds = get_and_set_flag a a.get_flags n ds

-- The number that stands in `*fd` after a call that worked, and the descriptors.
pub data Moved : Type 0 where
  moved : ℕ → List Descriptor → Moved
  unmoved : ℕ → Moved

-- The two ends of the pipe while it is prepared: going on, or stopped by an error.
pub data Progress : Type 0 where
  going : (read write : ℕ) → List Descriptor → Progress
  stopped : (read write e : ℕ) → List Descriptor → Progress

abbrev pub is_missing : {A : Type 0} → Option A → Bool
is_missing none = true
is_missing (some a) = false

abbrev pub is_incomplete : Option PreparedConfig → Bool
is_incomplete none = true
is_incomplete (some c) =
    is_missing c.executable
    || is_missing c.argv
    || is_missing c.envp
    || c.rows == 0
    || c.columns == 0

-- The first guard; the result and the error number are looked at for null pointers alone.
abbrev pub is_refused : Option PreparedConfig → Option PreparedResult → Option ℕ → Bool
is_refused config result error = is_incomplete config || is_missing result || is_missing error

-- The error number is written where its pointer is not null, the result not at all.
abbrev pub refused : Option PreparedResult → Option ℕ → Kernel → Spawned
refused result error k = record {
  status = invalid_argument;
  error_number = elim error [ none ↦ none | some e ↦ some Errno.inval ];
  result = result;
  kernel = k;
}

abbrev pub after_move_read : (read write : ℕ) → List Descriptor → Moved → Progress
after_move_read r w ds (moved n es) = going n w es
after_move_read r w ds (unmoved e) = stopped r w e ds

abbrev pub after_move_write : (read write : ℕ) → List Descriptor → Moved → Progress
after_move_write r w ds (moved n es) = going r n es
after_move_write r w ds (unmoved e) = stopped r w e ds

abbrev pub after_mark : (read write : ℕ) → List Descriptor → Flagged → Progress
after_mark r w ds (flagged es) = going r w es
after_mark r w ds (unflagged e) = stopped r w e ds

module _ (allocate : ℕ → List Descriptor → ℕ) where
  -- F_DUPFD_CLOEXEC from 3 on, and close of the old number.
  unfoldable pub duplicate : Answer → ℕ → List Descriptor → Moved
  duplicate (failed e) n ds = unmoved e
  duplicate done n ds =
      let m = allocate 3 ds in moved m (close_open n (fresh_descriptor m true ∷ ds))

  unfoldable pub move_above_standard_descriptors : Answer → ℕ → List Descriptor → Moved
  unfolding duplicate
  move_above_standard_descriptors a n ds = if ltb 2 n then moved n ds else duplicate a n ds

  -- The four calls of the condition, each made only if those before it worked.
  unfoldable pub move_read : Answer → Progress → Progress
  unfolding move_above_standard_descriptors
  move_read a (stopped r w e ds) = stopped r w e ds
  move_read a (going r w ds) = after_move_read r w ds (move_above_standard_descriptors a r ds)

  unfoldable pub move_write : Answer → Progress → Progress
  unfolding move_above_standard_descriptors
  move_write a (stopped r w e ds) = stopped r w e ds
  move_write a (going r w ds) = after_move_write r w ds (move_above_standard_descriptors a w ds)

unfoldable pub mark_read : FlagAnswers → Progress → Progress
unfolding set_close_on_exec
mark_read a (stopped r w e ds) = stopped r w e ds
mark_read a (going r w ds) = after_mark r w ds (set_close_on_exec a r ds)

unfoldable pub mark_write : FlagAnswers → Progress → Progress
unfolding set_close_on_exec
mark_write a (stopped r w e ds) = stopped r w e ds
mark_write a (going r w ds) = after_mark r w ds (set_close_on_exec a w ds)

-- The loop on waitpid, over the error numbers of the attempts that fail: EINTR repeats it, and after
-- the last of them the child is reaped.
unfoldable pub wait_child : List ℕ → ℕ → List ℕ → List ℕ
wait_child [] pid children = remove_child pid children
wait_child (e ∷ es) pid children =
    let again = wait_child es pid children in if e == Errno.intr then again else children

-- The master once it is prepared, or the error number of the first of its calls that failed.
pub data Prepared : Type 0 where
  prepared : List Descriptor → Prepared
  unprepared : ℕ → List Descriptor → Prepared

abbrev pub set_nonblocking : Answer → ℕ → List Descriptor → Prepared
set_nonblocking (failed e) master ds = unprepared e ds
set_nonblocking done master ds = prepared (mark_nonblocking master ds)

-- `status` is the answer to F_GETFL.
abbrev pub get_and_set_nonblocking : Answers → Answer → ℕ → List Descriptor → Prepared
get_and_set_nonblocking a (failed e) master ds = unprepared e ds
get_and_set_nonblocking a done master ds = set_nonblocking a.set_status master ds

abbrev pub after_master_mark : Answers → ℕ → List Descriptor → Flagged → Prepared
after_master_mark a master ds (unflagged e) = unprepared e ds
after_master_mark a master ds (flagged es) = get_and_set_nonblocking a a.get_status master es

unfoldable pub prepare_master : Answers → ℕ → List Descriptor → Prepared
unfolding set_close_on_exec
prepare_master a master ds =
    after_master_mark a master ds (set_close_on_exec a.master_flags master ds)

unfoldable pub finish_master : Answers → (read master pid : ℕ) → Kernel → Prepared → Spawned
unfolding wait_child
finish_master a r master pid k (unprepared e ds) = failed_call e (record k {
  descriptors = close_open r (close_open master ds);
  children = wait_child a.waits pid (pid ∷ k.children);
  killed = pid ∷ k.killed;
})
finish_master a r master pid k (prepared ds) = record {
  status = ok;
  error_number = some 0;
  result = some (record { child_pid = some pid; master_fd = some master; exec_error_fd = some r });
  kernel = record k { descriptors = ds; children = pid ∷ k.children };
}

module _ (allocate : ℕ → List Descriptor → ℕ) where
  -- The pipe once it is there: moved above the standard descriptors, and closed on exec.
  unfoldable pub prepare_pipe : Answers → Progress → Progress
  unfolding move_read move_write mark_read mark_write
  prepare_pipe a p =
      mark_write a.write_flags (
        mark_read a.read_flags
          (move_write allocate a.move_write (move_read allocate a.move_read p)))

  unfoldable pub fork_child :
      Answers → (read write : ℕ) → List Descriptor → ForkAnswer → Kernel → Spawned
  unfolding prepare_master finish_master
  fork_child a r w ds (fork_failed e) k =
      failed_call e (record k { descriptors = close_open w (close_open r ds) })
  fork_child a r w ds (forked pid) k =
      let master = allocate 0 ds in
      finish_master a r master pid k
        (prepare_master a master (close_open w (fresh_descriptor master false ∷ ds)))

  unfoldable pub spawn_piped : Answers → Progress → Kernel → Spawned
  unfolding fork_child
  spawn_piped a (stopped r w e ds) k =
      failed_call e (record k { descriptors = close_open w (close_open r ds) })
  spawn_piped a (going r w ds) k = fork_child a r w ds a.fork k

  -- What pipe leaves: two descriptors.
  abbrev pub piped : List Descriptor → Progress
  piped ds =
      let r = allocate 0 ds in
      let es = fresh_descriptor r false ∷ ds in
      let w = allocate 0 es in going r w (fresh_descriptor w false ∷ es)

  abbrev pub spawn_opened : Answers → Kernel → Answer → Spawned
  spawn_opened a k (failed e) = failed_call e k
  spawn_opened a k done = spawn_piped a (prepare_pipe a (piped k.descriptors)) k

  -- `result` and `error` are what stands behind the two pointers at the call.
  unfoldable pub dpty_spawn_prepared :
      Answers → Option PreparedConfig → Option PreparedResult → Option ℕ → Kernel → Spawned
  unfolding prepare_pipe spawn_piped
  dpty_spawn_prepared a config result error k =
      if is_refused config result error then refused result error k else spawn_opened a k a.pipe
