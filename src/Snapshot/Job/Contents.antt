-- ===== src/Snapshot/Job/Contents.antt =====
-- The counts and the sizes in a snapshot of the foreground job.
use dart_terminal.Base.{
  ℕ, ◌+◌, ◌≤◌, ◌<◌, ◌≡◌, refl, inl, inr, not, ◌||◌, Option, some, List, [], ◌∷◌, arith, leb, ◌==◌,
  if_both, if_cases, length, length-take,
}
use dart_terminal.Config.{Checked, accepted, rejected}
use dart_terminal.Session.{Session, is_running, is_finished}
use dart_terminal.Status.{invalid_argument, set_error}
use dart_terminal.Snapshot.Arguments.{Arguments, no_arguments}
use dart_terminal.Snapshot.Arguments.Bounds.{
  nothing-IsKept, IsWellformed, read_process_arguments-IsWellformed,
}
use dart_terminal.Snapshot.Bytes.{strnlen, strnlen-le}
use dart_terminal.Snapshot.Elapsed.{Timebase}
use dart_terminal.Snapshot.Os.{
  PathResult, path_bytes, path_failed, GroupAnswer, in_group, group_failed,
}
use dart_terminal.Snapshot.Members.{Process, Scan, process_limit, scan_members, order_members}
use dart_terminal.Snapshot.Members.Count.{length-order_members, length-map_members}
use dart_terminal.Snapshot.Members.Listing.{scan_members-IsListed}
use dart_terminal.Snapshot.Job.{
  Job, Answers, Opened, concluded, observing, pid_of, has_terminal, open_foreground, open_owning,
  open_job, store_path, describe_primary, observe_job, measure_member, measure_job, still_current,
  close_job, clear_content, finish_job, is_compatible, job_size, get_foreground_job_snapshot,
  executable_path_capacity, path_buffer_size, initialize_job,
}

-- The `n` members are within their bound and counted, the path fits with its terminator, and the
-- arguments are well-formed.
pub record HasSizes (n omitted total : ℕ) (path : List ℕ) (arguments : Arguments) : Type 0 where
  pub limited : n ≤ process_limit
  pub accounted : n + omitted ≡ total
  pub fits : length path < executable_path_capacity
  pub wellformed : IsWellformed arguments

abbrev pub IsConsistent : Job → Type 0
IsConsistent j =
    HasSizes (length j.scan.members) j.scan.omitted_member_count j.scan.total_member_count
      j.executable_path j.arguments

no_content-HasSizes : HasSizes 0 0 0 [] no_arguments
no_content-HasSizes = record {
  limited = omega arith;
  accounted = refl;
  fits = omega arith;
  wellformed = record {
    kept = nothing-IsKept 0 0 0;
    limited = omega arith;
    accounted = inr (refl, inl refl);
  };
}

abbrev OpenedConsistent : Opened → Type 0
OpenedConsistent (concluded j) = IsConsistent j
OpenedConsistent (observing j) = IsConsistent j

open_owning-OpenedConsistent :
    (r f : GroupAnswer) (j : Job) → IsConsistent j → OpenedConsistent (open_owning r f j)
unfolding open_owning open_foreground
open_owning-OpenedConsistent (group_failed e) f j k = k
open_owning-OpenedConsistent (in_group g) (group_failed e) j k = k
open_owning-OpenedConsistent (in_group g) (in_group f) j k = if_both OpenedConsistent (f == g) k k

open_job-OpenedConsistent : (a : Answers) (s : Session) → OpenedConsistent (open_job a s)
unfolding open_job
open_job-OpenedConsistent a s =
    if_both OpenedConsistent (not (is_running s.state) || pid_of s == 0 || not (has_terminal s))
      no_content-HasSizes
      (open_owning-OpenedConsistent a.owning a.foreground
        (record initialize_job { has_exited = is_finished s.state; child_pid = pid_of s })
        no_content-HasSizes)

-- A path is stored only if it fits.
store_path-fits :
    (r : PathResult) (j : Job)
    → length j.executable_path < executable_path_capacity
    → length (store_path r j).executable_path < executable_path_capacity
unfolding store_path
store_path-fits (path_failed e) j k = k
store_path-fits (path_bytes bytes) j k =
    if_cases (λ (o : Job). length o.executable_path < executable_path_capacity)
      (strnlen bytes == path_buffer_size || leb executable_path_capacity (strnlen bytes))
      (λ long. k) (λ short. ground (arith, length-take (strnlen bytes) bytes, strnlen-le bytes))

store_path-scan : (r : PathResult) (j : Job) → (store_path r j).scan ≡ j.scan
unfolding store_path
store_path-scan (path_failed e) j = refl
store_path-scan (path_bytes bytes) j =
    if_both (λ (o : Job). o.scan ≡ j.scan)
      (strnlen bytes == path_buffer_size || leb executable_path_capacity (strnlen bytes)) refl refl

describe_primary-IsConsistent :
    (a : Answers) (ms : List Process) (j : Job)
    → length ms ≡ length j.scan.members
    → IsConsistent j
    → IsConsistent (describe_primary a ms j)
unfolding describe_primary
describe_primary-IsConsistent a [] j n k = k
describe_primary-IsConsistent a (m ∷ ms) j n k =
    let o : Job = record j { primary_index = some 0; scan = record j.scan { members = m ∷ ms } } in
    let same = store_path-scan (a.path m.pid) o in
    record {
      limited = rw same (omega (arith, n, k.limited));
      accounted = rw same (omega (arith, n, k.accounted));
      fits = store_path-fits (a.path m.pid) o k.fits;
      wellformed = read_process_arguments-IsWellformed (a.size m.pid) (a.block m.pid);
    }

observe_job-IsConsistent : (a : Answers) (j : Job) → IsConsistent j → IsConsistent (observe_job a j)
unfolding observe_job
observe_job-IsConsistent a j k =
    let g : ℕ = j.foreground_process_group in
    let o : Scan = scan_members a.info a.usage g a.count a.allocated a.list in
    let found = scan_members-IsListed a.info a.usage g a.count a.allocated a.list in
    describe_primary-IsConsistent a (order_members g o.members) (record j { scan = o })
      (length-order_members g o.members)
      (record {
        limited = found.scanned.limited;
        accounted = found.accounted;
        fits = k.fits;
        wellformed = k.wellformed;
      })

measure_job-IsConsistent :
    (t : Timebase) (now : ℕ) (j : Job) → IsConsistent j → IsConsistent (measure_job t now j)
unfolding measure_job
measure_job-IsConsistent t now j k =
    let n = length-map_members (measure_member t now) j.scan.members in
    record {
      limited = omega (arith, n, k.limited);
      accounted = omega (arith, n, k.accounted);
      fits = k.fits;
      wellformed = k.wellformed;
    }

close_job-IsConsistent :
    (a : Answers) (s : Session) (j : Job) → IsConsistent j → IsConsistent (close_job a s j)
unfolding close_job clear_content
close_job-IsConsistent a s j k = if_both IsConsistent (still_current a s j) k no_content-HasSizes

finish_job-IsConsistent :
    (a : Answers) (s : Session) (o : Opened) → OpenedConsistent o → IsConsistent (finish_job a s o)
unfolding finish_job
finish_job-IsConsistent a s (concluded j) k = k
finish_job-IsConsistent a s (observing j) k =
    close_job-IsConsistent a s (measure_job a.timebase a.now (observe_job a j))
      (measure_job-IsConsistent a.timebase a.now (observe_job a j) (observe_job-IsConsistent a j k))

-- A filled snapshot is consistent.
abbrev pub IsFilled : Checked Job → Type 0
IsFilled (accepted j) = IsConsistent j
IsFilled (rejected e) = e.status ≡ invalid_argument

-- Whatever the system answers and the session does, a snapshot that is filled has at most 32
-- members, which make up the total with the omitted ones, a path that fits its buffer with its
-- terminator, and well-formed arguments.
pub get_foreground_job_snapshot-IsFilled :
    (a : Answers) (first second : Session) (buffer : Option (ℕ × ℕ))
    → IsFilled (get_foreground_job_snapshot a first second buffer)
unfolding get_foreground_job_snapshot set_error
get_foreground_job_snapshot-IsFilled a first second buffer =
    if_both IsFilled (is_compatible job_size buffer)
      (finish_job-IsConsistent a second (open_job a first) (open_job-OpenedConsistent a first)) refl
