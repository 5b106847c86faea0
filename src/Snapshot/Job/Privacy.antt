-- ===== src/Snapshot/Job/Privacy.antt =====
-- When a snapshot of the foreground job has content.
use dart_terminal.Base.{
  ℕ, ◌≡◌, refl, sym, ap, ◌∙◌, inl, inr, true, false, ◌||◌, Option, some, List, [], ◌∷◌, map, arith,
  leb, ◌==◌, if_both, if_cases,
}
use dart_terminal.Status.{invalid_argument, set_error}
use dart_terminal.Config.{Checked, accepted, rejected}
use dart_terminal.Session.{Session, is_finished}
use dart_terminal.Snapshot.Arguments.{no_arguments}
use dart_terminal.Snapshot.Bytes.{strnlen}
use dart_terminal.Snapshot.Elapsed.{Timebase}
use dart_terminal.Snapshot.Os.{
  PathResult, path_bytes, path_failed, GroupAnswer, in_group, group_failed,
}
use dart_terminal.Snapshot.Members.{Process, scan_members, order_members}
use dart_terminal.Snapshot.Job.{
  Disposition, available, Job, Answers, clear_content, Opened, concluded, observing, open_job,
  store_path, describe_primary, observe_job, measure_member, measure_job, is_group, still_current,
  close_job, finish_job, is_compatible, job_size, get_foreground_job_snapshot, path_buffer_size,
  executable_path_capacity,
}
use dart_terminal.Snapshot.Job.Opening.{
  is_available, HasNoContent, IsOpened, IsGuarded, OpenedWell, no_content, open_job-OpenedWell,
}

-- Both are about one child and the same groups, and `k` has no content unless it has members.
record IsKept (j k : Job) : Type 0 where
  child : k.child_pid ≡ j.child_pid
  owning : k.owning_process_group ≡ j.owning_process_group
  foreground : k.foreground_process_group ≡ j.foreground_process_group
  content : k.scan.members ≡ [] → HasNoContent k

store_path-IsKept :
    (r : PathResult) (j k : Job)
    → k.child_pid ≡ j.child_pid
    → k.owning_process_group ≡ j.owning_process_group
    → k.foreground_process_group ≡ j.foreground_process_group
    → ((store_path r k).child_pid ≡ j.child_pid)
      × ((store_path r k).owning_process_group ≡ j.owning_process_group)
      × ((store_path r k).foreground_process_group ≡ j.foreground_process_group)
      × ((store_path r k).scan.members ≡ k.scan.members)
unfolding store_path
store_path-IsKept (path_failed e) j k c o f = (c, o, f, refl)
store_path-IsKept (path_bytes bytes) j k c o f =
    if_both
      (λ (r : Job).
        (r.child_pid ≡ j.child_pid)
        × (r.owning_process_group ≡ j.owning_process_group)
        × (r.foreground_process_group ≡ j.foreground_process_group)
        × (r.scan.members ≡ k.scan.members))
      (strnlen bytes == path_buffer_size || leb executable_path_capacity (strnlen bytes))
      (c, o, f, refl) (c, o, f, refl)

describe_primary-IsKept :
    (a : Answers) (ms : List Process) (j k : Job)
    → k.child_pid ≡ j.child_pid
    → k.owning_process_group ≡ j.owning_process_group
    → k.foreground_process_group ≡ j.foreground_process_group
    → (k.executable_path ≡ []) × (k.arguments ≡ no_arguments)
    → IsKept j (describe_primary a ms k)
unfolding describe_primary
describe_primary-IsKept a [] j k c o f e = record {
  child = c;
  owning = o;
  foreground = f;
  content = λ m. no_content m e.0 e.1;
}
describe_primary-IsKept a (m ∷ ms) j k c o f e =
    let n : Job = record k { primary_index = some 0; scan = record k.scan { members = m ∷ ms } } in
    let (c', o', f', same) = store_path-IsKept (a.path m.pid) j n c o f in
    record { child = c'; owning = o'; foreground = f'; content = λ none_. cc }

measured_empty :
    (t : Timebase) (now : ℕ) (ms : List Process) → map (measure_member t now) ms ≡ [] → ms ≡ []
measured_empty t now [] h = refl
measured_empty t now (m ∷ ms) h = cc

observed-IsKept :
    (a : Answers) (j : Job)
    → HasNoContent j
    → IsKept j (measure_job a.timebase a.now (observe_job a j))
unfolding measure_job observe_job
observed-IsKept a j h =
    let o = scan_members a.info a.usage j.foreground_process_group a.count a.allocated a.list in
    let k =
      describe_primary-IsKept a (order_members j.foreground_process_group o.members) j
        (record j { scan = o }) refl refl refl (h.path, h.arguments) in
    record {
      child = k.child;
      owning = k.owning;
      foreground = k.foreground;
      content = λ m.
          let c = k.content (measured_empty a.timebase a.now _ m) in
          no_content m c.path c.arguments;
    }

is_group-eq : (r : GroupAnswer) (g : ℕ) → is_group r g ≡ true → r ≡ in_group g
is_group-eq (group_failed e) g h = cc
is_group-eq (in_group f) g h = ap in_group (ground arith)

close_job-IsGuarded :
    (a : Answers) (first second : Session) (j k : Job)
    → IsOpened a first j
    → IsKept j k
    → IsGuarded a first second (close_job a second k)
unfolding close_job clear_content
close_job-IsGuarded a first second j k opened kept =
    if_cases (IsGuarded a first second) (still_current a second k)
      (λ same.
        elim k.scan.members
            as (λ ms.
              k.scan.members ≡ ms
              → IsGuarded a first second (record k {
                disposition = elim ms [ [] ↦ Disposition.unavailable | m ∷ rest ↦ available ];
              })) [
                | [] ↦ λ none_.
                    let c = kept.content none_ in
                    inr (refl, no_content c.members c.path c.arguments)
                | m ∷ ms ↦ λ some_. inl (
                  refl,
                  rw some_ (omega arith),
                  record {
                    running = opened.running;
                    same_child = kept.child ∙ opened.same_child;
                    owning = opened.owning ∙ ap in_group (sym kept.owning);
                    foreground = opened.foreground ∙ ap in_group (sym kept.foreground);
                    distinct = λ e. opened.distinct (sym kept.foreground ∙ e ∙ kept.owning);
                  },
                  record {
                    running = ground arith;
                    same_child = ground arith;
                    owning = is_group-eq a.owning_after k.owning_process_group (ground arith);
                    foreground =
                        is_group-eq a.foreground_after k.foreground_process_group (ground arith);
                  },
                )
              ]
          refl)
      (λ changed. inr (
        if_both (λ d. is_available d ≡ false) (is_finished second.state) refl refl,
        no_content refl refl refl,
      ))

finish_job-IsGuarded :
    (a : Answers) (first second : Session) (o : Opened)
    → OpenedWell a first o
    → IsGuarded a first second (finish_job a second o)
unfolding finish_job
finish_job-IsGuarded a first second (concluded j) w = inr w
finish_job-IsGuarded a first second (observing j) w =
    close_job-IsGuarded a first second j (measure_job a.timebase a.now (observe_job a j)) w.0
      (observed-IsKept a j w.1)

-- The answer to a compatible buffer, and to any other.
abbrev pub IsAnswered : Answers → Session → Session → Option (ℕ × ℕ) → Checked Job → Type 0
IsAnswered a first second buffer (accepted j) =
    (is_compatible job_size buffer ≡ true) × IsGuarded a first second j
IsAnswered a first second buffer (rejected e) =
    (is_compatible job_size buffer ≡ false) × (e.status ≡ invalid_argument)

-- Whatever happens while the snapshot is taken, a compatible buffer is filled. The snapshot is then
-- either available, with at least one member, and the session was running at both ends with one
-- child and with the same two distinct groups; or it is not available and names no process, no path
-- and no argument. Any other buffer is rejected.
pub get_foreground_job_snapshot-IsAnswered :
    (a : Answers) (first second : Session) (buffer : Option (ℕ × ℕ))
    → IsAnswered a first second buffer (get_foreground_job_snapshot a first second buffer)
unfolding get_foreground_job_snapshot set_error
get_foreground_job_snapshot-IsAnswered a first second buffer =
    if_cases (IsAnswered a first second buffer) (is_compatible job_size buffer)
      (λ fits. (
        fits,
        finish_job-IsGuarded a first second (open_job a first) (open_job-OpenedWell a first),
      ))
      (λ other. (other, refl))
