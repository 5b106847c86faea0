-- ===== src/Spawn/Leaks.antt =====
-- No failure leaves a descriptor or a child behind.
use dart_terminal.Base.{
  ℕ, ◌<◌, ◌≡◌, refl, sym, ap, ◌∙◌, ◌≢◌, ◌⊎◌, inl, inr, true, false, Option, none, some, List, [],
  ◌∷◌, arith, ◌==◌, if_cases,
}
use dart_terminal.Errno
use dart_terminal.Status.{ok, invalid_argument, system_error}
use dart_terminal.Spawn.Table.{
  Descriptor, fresh_descriptor, Kernel, remove_child, Answer, done, failed, ForkAnswer, forked,
  fork_failed, Answers, has_number, has_child, close_open-closed, remove_child-absent,
}
use dart_terminal.Spawn.{
  PreparedConfig, PreparedResult, no_result, is_missing, is_refused, Spawned, refused, Progress,
  going, stopped, Prepared, prepared, unprepared, prepare_master, finish_master, wait_child,
  fork_child, spawn_piped, spawn_opened, prepare_pipe, piped, dpty_spawn_prepared,
}
use dart_terminal.Spawn.Pipe.{
  Allocates, IsReady, IsAt, close_write-eq, close_both-eq, apart_from_pair,
}
use dart_terminal.Spawn.Prepare.{prepare_pipe-IsAt}
use dart_terminal.Spawn.Master.{IsMasterAt, prepare_master-IsMasterAt}

-- What the system says of a new child, and of waitpid on it: it can only be interrupted.
abbrev pub IsNew : ForkAnswer → List ℕ → Type 0
IsNew (fork_failed e) children = Unit {0}
IsNew (forked pid) children = has_child pid children ≡ false

abbrev pub AreInterruptions : List ℕ → Type 0
AreInterruptions [] = Unit {0}
AreInterruptions (e ∷ es) = (e ≡ Errno.intr) × AreInterruptions es

-- The child runs; the master and the read end, both closed on exec, are all that is added.
pub record IsStarted (k : Kernel) (o : Spawned) : Type 0 where
  pub pid : ℕ
  pub master : Descriptor
  pub read : Descriptor
  pub succeeded : o.status ≡ ok
  pub no_error : o.error_number ≡ some 0
  pub result :
      o.result
      ≡ some (record {
        child_pid = some pid;
        master_fd = some master.number;
        exec_error_fd = some read.number;
      })
  pub master_flags : (master.close_on_exec ≡ true) × (master.nonblocking ≡ true)
  pub read_flags : (read.close_on_exec ≡ true) × (2 < read.number)
  pub descriptors : o.kernel.descriptors ≡ master ∷ read ∷ k.descriptors
  pub children : o.kernel.children ≡ pid ∷ k.children
  pub killed : o.kernel.killed ≡ k.killed

-- A system call failed: no descriptor is open and no child is left that was not there before.
pub record IsUndone (k : Kernel) (o : Spawned) : Type 0 where
  pub failed : o.status ≡ system_error
  pub result : o.result ≡ some no_result
  pub descriptors : o.kernel.descriptors ≡ k.descriptors
  pub children : o.kernel.children ≡ k.children

-- Nothing that the call needs is missing.
pub record IsGiven (config : Option PreparedConfig) (result : Option PreparedResult)
    (error : Option ℕ) : Type 0 where
  pub at : PreparedConfig
  pub config_given : config ≡ some at
  pub strings : (at.executable ≢ none) × (at.argv ≢ none) × (at.envp ≢ none)
  pub size : (0 < at.rows) × (0 < at.columns)
  pub places : (result ≢ none) × (error ≢ none)

-- A null pointer, or a terminal without rows or columns.
abbrev pub IsMissing : Option PreparedConfig → Option PreparedResult → Option ℕ → Type 0
IsMissing none result error = Unit {0}
IsMissing (some c) result error =
    (c.executable ≡ none)
    ⊎ (c.argv ≡ none)
    ⊎ (c.envp ≡ none)
    ⊎ (c.rows ≡ 0)
    ⊎ (c.columns ≡ 0)
    ⊎ (result ≡ none)
    ⊎ (error ≡ none)

-- An argument is missing: the process and the result are as they were, and EINVAL is written where
-- there is a place for it.
pub record IsRefused (config : Option PreparedConfig) (result : Option PreparedResult)
    (error : Option ℕ) (k : Kernel) (o : Spawned) : Type 0 where
  pub missing : IsMissing config result error
  pub refused : o.status ≡ invalid_argument
  pub same : (o.result ≡ result) × (o.kernel ≡ k)
  pub written : (error ≡ none) ⊎ (o.error_number ≡ some Errno.inval)

is_refused-IsMissing :
    (config : Option PreparedConfig) (result : Option PreparedResult) (error : Option ℕ)
    → is_refused config result error ≡ true
    → IsMissing config result error
is_refused-IsMissing none result error bad = tt
is_refused-IsMissing (some c) result error bad = ground arith

given : {A : Type 0} (o : Option A) → is_missing o ≡ false → o ≢ none
given o h = ground arith

is_refused-IsGiven :
    (config : Option PreparedConfig) (result : Option PreparedResult) (error : Option ℕ)
    → is_refused config result error ≡ false
    → IsGiven config result error
is_refused-IsGiven none result error good = absurd (ground arith)
is_refused-IsGiven (some c) result error good = record {
  at = c;
  config_given = refl;
  strings =
      (given c.executable (ground arith), given c.argv (ground arith), given c.envp (ground arith));
  size = (ground arith, ground arith);
  places = (given result (ground arith), given error (ground arith));
}

refused-IsRefused :
    (config : Option PreparedConfig) (result : Option PreparedResult) (error : Option ℕ)
    (k : Kernel)
    → is_refused config result error ≡ true
    → IsRefused config result error k (refused result error k)
refused-IsRefused config result none k bad = record {
  missing = is_refused-IsMissing config result none bad;
  refused = refl;
  same = (refl, refl);
  written = inl refl;
}
refused-IsRefused config result (some e) k bad = record {
  missing = is_refused-IsMissing config result (some e) bad;
  refused = refl;
  same = (refl, refl);
  written = inr refl;
}

wait_child-interrupted :
    (es : List ℕ) (pid : ℕ) (children : List ℕ)
    → AreInterruptions es
    → wait_child es pid children ≡ remove_child pid children
unfolding wait_child
wait_child-interrupted [] pid children h = refl
wait_child-interrupted (e ∷ es) pid children h =
    ground (arith, wait_child-interrupted es pid children)

module _ (a : Answers) (master r : ℕ) (read : Descriptor) (old : List Descriptor)
    (same : read.number ≡ r) (apart : (master == r) ≡ false) (new : has_number master old ≡ false)
    (k : Kernel) (pid : ℕ) (base : k.descriptors ≡ old) (off : has_number r old ≡ false)
    (fine : (read.close_on_exec ≡ true) × (2 < r)) (fresh : has_child pid k.children ≡ false)
    (calm : AreInterruptions a.waits) where
  finish_master-IsDone :
      (p : Prepared)
      → IsMasterAt master r read old p
      → IsStarted k (finish_master a r master pid k p)
        ⊎ IsUndone k (finish_master a r master pid k p)
  unfolding IsMasterAt finish_master
  finish_master-IsDone (prepared es) (d, n, c, b, t) = inl (record {
    pid = pid;
    master = d;
    read = read;
    succeeded = refl;
    no_error = refl;
    result = rw (n, same) refl;
    master_flags = (c, b);
    read_flags = (fine.0, ground arith);
    descriptors = t ∙ ap (λ ds. d ∷ read ∷ ds) (sym base);
    children = refl;
    killed = refl;
  })
  finish_master-IsDone (unprepared e es) m =
      let here : (m.entry.number == master) ≡ true = ground (arith, m.number) in
      let there : (read.number == master) ≡ false = ground arith in
      let at : (read.number == r) ≡ true = ground arith in
      let self : (pid == pid) ≡ true = ground arith in
      inr (record {
        failed = refl;
        result = refl;
        descriptors =
            rw
              (
                m.table,
                here,
                there,
                close_open-closed master old new,
                at,
                close_open-closed r old off,
              )
              (sym base);
        children =
            wait_child-interrupted a.waits pid (pid ∷ k.children) calm
            ∙ rw (self, remove_child-absent pid k.children fresh) refl;
      })

module _ (allocate : ℕ → List Descriptor → ℕ) (fair : Allocates allocate) (a : Answers) (k : Kernel)
    (fresh : IsNew a.fork k.children) (calm : AreInterruptions a.waits) where
  fork_child-IsDone :
      (r w : ℕ) (ds : List Descriptor) (f : ForkAnswer)
      → IsNew f k.children
      → IsReady k.descriptors r w ds
      → IsStarted k (fork_child allocate a r w ds f k)
        ⊎ IsUndone k (fork_child allocate a r w ds f k)
  unfolding fork_child
  fork_child-IsDone r w ds (fork_failed e) n ready = inr (record {
    failed = refl;
    result = refl;
    descriptors = close_both-eq r w ds k.descriptors ready.0;
    children = refl;
  })
  fork_child-IsDone r w ds (forked pid) n (p, hr, hw, cr, cw) =
      let master : ℕ = allocate 0 ds in
      let (mr, mw, mo) = apart_from_pair r w master ds k.descriptors p (fair.closed 0 ds) in
      rw (mw, close_write-eq r w ds k.descriptors p)
        (finish_master-IsDone a master r p.read k.descriptors p.read_number mr mo k pid refl
          p.read_new (cr, hr) n calm
          (prepare_master a master (fresh_descriptor master false ∷ p.read ∷ k.descriptors))
          (prepare_master-IsMasterAt a master r p.read k.descriptors p.read_number mr mo))

  spawn_piped-IsDone :
      (p : Progress)
      → IsAt IsReady k.descriptors p
      → IsStarted k (spawn_piped allocate a p k) ⊎ IsUndone k (spawn_piped allocate a p k)
  unfolding spawn_piped
  spawn_piped-IsDone (stopped r w e ds) p = inr (record {
    failed = refl;
    result = refl;
    descriptors = close_both-eq r w ds k.descriptors p;
    children = refl;
  })
  spawn_piped-IsDone (going r w ds) p = fork_child-IsDone r w ds a.fork fresh p

  spawn_opened-IsDone :
      (b : Answer)
      → IsStarted k (spawn_opened allocate a k b) ⊎ IsUndone k (spawn_opened allocate a k b)
  spawn_opened-IsDone (failed e) =
      inr (record { failed = refl; result = refl; descriptors = refl; children = refl })
  spawn_opened-IsDone done =
      spawn_piped-IsDone (prepare_pipe allocate a (piped allocate k.descriptors))
        (prepare_pipe-IsAt allocate fair a k.descriptors)

  -- Where new descriptors have closed numbers, a new child has a new number, and waitpid on it only
  -- ever fails by being interrupted: whichever of its calls fails, dpty_spawn_prepared leaves no
  -- descriptor open and no child unreaped that were not there before, and the result says that there
  -- is none; if it succeeds, the child runs and exactly the master, closed on exec and not blocking,
  -- and the read end of the pipe, closed on exec and above 2, are open besides, the two that it
  -- reports; and exactly with an argument missing it answers INVALID_ARGUMENT, and changes neither
  -- the process nor the result.
  pub dpty_spawn_prepared-IsDone :
      (config : Option PreparedConfig) (result : Option PreparedResult) (error : Option ℕ)
      → let o = dpty_spawn_prepared allocate a config result error k in
        (IsGiven config result error × (IsStarted k o ⊎ IsUndone k o))
        ⊎ IsRefused config result error k o
  unfolding dpty_spawn_prepared
  dpty_spawn_prepared-IsDone config result error =
      if_cases
        (λ o.
          (IsGiven config result error × (IsStarted k o ⊎ IsUndone k o))
          ⊎ IsRefused config result error k o)
        (is_refused config result error) (λ bad. inr (refused-IsRefused config result error k bad))
        (λ good. inl (is_refused-IsGiven config result error good, spawn_opened-IsDone a.pipe))
