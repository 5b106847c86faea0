-- ===== src/Snapshot/Job/Opening.antt =====
-- What the first locked section of the snapshot of the foreground job leaves.
use dart_terminal.Base.{
  ◌<◌, ◌≡◌, refl, ◌≢◌, ◌⊎◌, Bool, true, false, not, ◌||◌, [], arith, ◌==◌, if_both, if_cases,
  length,
}
use dart_terminal.Session.{Session, is_running, is_finished}
use dart_terminal.Snapshot.Arguments.{no_arguments}
use dart_terminal.Snapshot.Os.{in_group, group_failed}
use dart_terminal.Snapshot.Job.{
  Disposition, available, Job, Answers, initialize_job, pid_of, has_terminal, Opened, concluded,
  observing, open_foreground, open_owning, open_job,
}

abbrev pub is_available : Disposition → Bool
is_available available = true
is_available _ = false

-- No member, no path and no argument.
pub record HasNoContent (j : Job) : Type 0 where
  pub members : j.scan.members ≡ []
  pub path : j.executable_path ≡ []
  pub arguments : j.arguments ≡ no_arguments

-- The groups that the first section observed, and the child.
pub record IsOpened (a : Answers) (s : Session) (j : Job) : Type 0 where
  pub running : is_running s.state ≡ true
  pub same_child : j.child_pid ≡ pid_of s
  pub owning : a.owning ≡ in_group j.owning_process_group
  pub foreground : a.foreground ≡ in_group j.foreground_process_group
  pub distinct : j.foreground_process_group ≢ j.owning_process_group

-- What the second section found unchanged.
pub record IsCurrent (a : Answers) (s : Session) (j : Job) : Type 0 where
  pub running : is_running s.state ≡ true
  pub same_child : j.child_pid ≡ pid_of s
  pub owning : a.owning_after ≡ in_group j.owning_process_group
  pub foreground : a.foreground_after ≡ in_group j.foreground_process_group

abbrev pub IsGuarded : Answers → Session → Session → Job → Type 0
IsGuarded a first second j =
    ((is_available j.disposition ≡ true)
      × (0 < length j.scan.members)
      × IsOpened a first j
      × IsCurrent a second j)
    ⊎ ((is_available j.disposition ≡ false) × HasNoContent j)

-- What is known after the first section.
abbrev pub OpenedWell : Answers → Session → Opened → Type 0
OpenedWell a s (concluded j) = (is_available j.disposition ≡ false) × HasNoContent j
OpenedWell a s (observing j) = IsOpened a s j × HasNoContent j

pub no_content :
    {j : Job}
    → j.scan.members ≡ []
    → j.executable_path ≡ []
    → j.arguments ≡ no_arguments
    → HasNoContent j
no_content m p g = record { members = m; path = p; arguments = g }

pub open_job-OpenedWell : (a : Answers) (s : Session) → OpenedWell a s (open_job a s)
unfolding open_job open_owning open_foreground
open_job-OpenedWell a s =
    if_cases (OpenedWell a s) (not (is_running s.state) || pid_of s == 0 || not (has_terminal s))
      (λ gone. (
        if_both (λ d. is_available d ≡ false) (is_finished s.state) refl refl,
        no_content refl refl refl,
      ))
      (λ here.
        elim a.owning
            as (λ r.
              a.owning ≡ r
              → OpenedWell a s (
                  open_owning r a.foreground (record initialize_job {
                    has_exited = is_finished s.state;
                    child_pid = pid_of s;
                  }))) [
                    | group_failed e ↦ λ q. (refl, no_content refl refl refl)
                    | in_group g ↦ λ q.
                        elim a.foreground
                            as (λ r.
                              a.foreground ≡ r
                              → OpenedWell a s (
                                  open_foreground g r (record initialize_job {
                                    has_exited = is_finished s.state;
                                    child_pid = pid_of s;
                                  }))) [
                                    | group_failed e ↦ λ p. (refl, no_content refl refl refl)
                                    | in_group f ↦ λ p.
                                        if_cases (OpenedWell a s) (f == g)
                                          (λ same. (refl, no_content refl refl refl))
                                          (λ other. (
                                            record {
                                              running = ground arith;
                                              same_child = refl;
                                              owning = q;
                                              foreground = p;
                                              distinct = ground arith;
                                            },
                                            no_content refl refl refl,
                                          ))
                                  ]
                          refl
                  ]
          refl)
