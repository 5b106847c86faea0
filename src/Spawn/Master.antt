-- ===== src/Spawn/Master.antt =====
-- The master of the new terminal while it is prepared.
use dart_terminal.Base.{ℕ, ◌≡◌, refl, true, false, List, ◌∷◌, arith, ◌==◌}
use dart_terminal.Spawn.Table.{
  Descriptor, fresh_descriptor, Answer, done, failed, Answers, has_number,
  mark_close_on_exec-closed, mark_nonblocking-closed,
}
use dart_terminal.Spawn.{
  set_close_on_exec, set_flag, get_and_set_flag, Prepared, prepared, unprepared, set_nonblocking,
  get_and_set_nonblocking, after_master_mark, prepare_master,
}

-- The table while the master is prepared.
pub record IsMaster (master r : ℕ) (read : Descriptor) (ds old : List Descriptor) : Type 0 where
  pub entry : Descriptor
  pub number : entry.number ≡ master
  pub table : ds ≡ entry ∷ read ∷ old

-- The master is marked in the end, or one of the calls failed.
unfoldable pub IsMasterAt : ℕ → ℕ → Descriptor → List Descriptor → Prepared → Type 0
IsMasterAt master r read old (unprepared e es) = IsMaster master r read es old
IsMasterAt master r read old (prepared es) =
    (d : Descriptor) × (d.number ≡ master)
    × (d.close_on_exec ≡ true)
    × (d.nonblocking ≡ true)
    × (es ≡ d ∷ read ∷ old)

module _ (a : Answers) (master r : ℕ) (read : Descriptor) (old : List Descriptor)
    (same : read.number ≡ r) (apart : (master == r) ≡ false)
    (new : has_number master old ≡ false) where
  set_nonblocking-IsMasterAt :
      (b : Answer) (d : Descriptor)
      → d.number ≡ master
      → d.close_on_exec ≡ true
      → IsMasterAt master r read old (set_nonblocking b master (d ∷ read ∷ old))
  unfolding IsMasterAt
  set_nonblocking-IsMasterAt (failed e) d n c = record { entry = d; number = n; table = refl }
  set_nonblocking-IsMasterAt done d n c =
      let here : (d.number == master) ≡ true = ground arith in
      let there : (read.number == master) ≡ false = ground arith in
      (
        record d { nonblocking = true },
        n,
        c,
        refl,
        rw (here, there, mark_nonblocking-closed master old new) refl,
      )

  set_flag-IsMasterAt :
      (b : Answer)
      → IsMasterAt master r read old (
          after_master_mark a master
            (fresh_descriptor master false ∷ read ∷ old)
            (set_flag b master (fresh_descriptor master false ∷ read ∷ old)))
  unfolding IsMasterAt
  set_flag-IsMasterAt (failed e) = record {
    entry = fresh_descriptor master false;
    number = refl;
    table = refl;
  }
  set_flag-IsMasterAt done =
      let d : Descriptor = fresh_descriptor master true in
      let here : (master == master) ≡ true = ground arith in
      let there : (read.number == master) ≡ false = ground arith in
      rw (here, there, mark_close_on_exec-closed master old new)
        (elim a.get_status
          as (λ b.
            IsMasterAt master r read old (get_and_set_nonblocking a b master (d ∷ read ∷ old))) [
              | failed e ↦ record { entry = d; number = refl; table = refl }
              | done ↦ set_nonblocking-IsMasterAt a.set_status d refl refl
            ])

  pub prepare_master-IsMasterAt :
      IsMasterAt master r read old
        (prepare_master a master (fresh_descriptor master false ∷ read ∷ old))
  unfolding IsMasterAt prepare_master set_close_on_exec
  prepare_master-IsMasterAt =
      elim a.master_flags.get_flags
        as (λ b. IsMasterAt master r read old (
          after_master_mark a master (fresh_descriptor master false ∷ read ∷ old) (
            get_and_set_flag a.master_flags b master
              (fresh_descriptor master false ∷ read ∷ old)))) [
                | failed e ↦ record {
                  entry = fresh_descriptor master false;
                  number = refl;
                  table = refl;
                }
                | done ↦ set_flag-IsMasterAt a.master_flags.set_flags
              ]
