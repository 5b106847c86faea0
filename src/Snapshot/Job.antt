-- ===== src/Snapshot/Job.antt =====
-- GetForegroundJobSnapshot of class Session, packages/dart_pty_macos/native/PtySession.cc, with the
-- helpers that prepare and clear the snapshot. Between its two locked sections the session changes
-- freely: the two are given apart. The faults that a build with DPTY_TESTING injects are left out.
pub mod Opening
pub mod Privacy
pub mod Contents
use dart_terminal.Base.{
  ℕ, Bool, true, false, not, ◌&&◌, ◌||◌, Option, none, some, List, [], ◌∷◌, map, ltb, leb, ◌==◌,
  if◌then◌else◌, take,
}
use dart_terminal.Errno
use dart_terminal.Status.{invalid_argument, set_error}
use dart_terminal.Config.{Checked, accepted, rejected, abi_version_number}
use dart_terminal.Session.{Session, is_running, is_finished}
use dart_terminal.Snapshot.Arguments.{
  Arguments, no_arguments, error_or, SizeResult, BlockResult, read_process_arguments,
}
use dart_terminal.Snapshot.Bytes.{strnlen}
use dart_terminal.Snapshot.Elapsed.{Timebase, absolute_delta}
use dart_terminal.Snapshot.Os.{
  CountResult, ListResult, InfoResult, UsageResult, PathResult, path_bytes, path_failed,
  GroupAnswer, in_group, group_failed,
}
use dart_terminal.Snapshot.Members.{Process, Scan, no_scan, scan_members, order_members}

-- DptyForegroundJobDisposition.
pub data Disposition : Type 0 where
  available not_distinct unavailable stale exited : Disposition

-- DptyForegroundJobSnapshotV1. The counts of the members and `observation_error` stand in `scan`, the
-- lengths of the lists are `member_count` and `executable_path_length`, and the index -1 is `none`.
pub record Job : Type 0 where
  pub disposition : Disposition
  pub child_pid : ℕ
  pub owning_process_group : ℕ
  pub foreground_process_group : ℕ
  pub sampled_absolute_time : ℕ
  pub job_elapsed_microseconds : ℕ
  pub primary_index : Option ℕ
  pub executable_path_error : ℕ
  pub has_exited : Bool
  pub scan : Scan
  pub executable_path : List ℕ
  pub arguments : Arguments

-- What the system answers in the course of one snapshot, in the order of the questions; asked again
-- about one process, it answers the same.
pub record Answers : Type 0 where
  pub owning : GroupAnswer
  pub foreground : GroupAnswer
  pub count : CountResult
  pub allocated : Bool
  pub list : ListResult
  pub info : ℕ → InfoResult
  pub usage : ℕ → UsageResult
  pub path : ℕ → PathResult
  pub size : ℕ → SizeResult
  pub block : ℕ → BlockResult
  pub now : ℕ
  pub timebase : Timebase
  pub owning_after : GroupAnswer
  pub foreground_after : GroupAnswer

-- sizeof(DptyForegroundJobSnapshotV1) on LP64, DPTY_FOREGROUND_EXECUTABLE_PATH_CAPACITY, and
-- PROC_PIDPATHINFO_MAXSIZE of <libproc.h>.
abbrev pub job_size : ℕ
job_size = 92296

abbrev pub executable_path_capacity : ℕ
executable_path_capacity = 16385

abbrev pub path_buffer_size : ℕ
path_buffer_size = 4096

abbrev pub initialize_job : Job
initialize_job = record {
  disposition = unavailable;
  child_pid = 0;
  owning_process_group = 0;
  foreground_process_group = 0;
  sampled_absolute_time = 0;
  job_elapsed_microseconds = 0;
  primary_index = none;
  executable_path_error = 0;
  has_exited = false;
  scan = no_scan;
  executable_path = [];
  arguments = no_arguments;
}

abbrev pub with_observation_error : ℕ → Job → Job
with_observation_error e j = record j { scan = record j.scan { observation_error = e } }

-- ClearForegroundJobContent: the error of the observation stays.
unfoldable pub clear_content : Job → Job
clear_content j = record j {
  sampled_absolute_time = 0;
  job_elapsed_microseconds = 0;
  primary_index = none;
  executable_path_error = 0;
  scan = record no_scan { observation_error = j.scan.observation_error };
  executable_path = [];
  arguments = no_arguments;
}

-- A process number of the session, or 0.
abbrev pub pid_of : Session → ℕ
pid_of s = elim s.child_pid [ none ↦ 0 | some pid ↦ pid ]

abbrev pub has_terminal : Session → Bool
has_terminal s = elim s.master_fd [ none ↦ false | some fd ↦ true ]

-- After the first locked section: the snapshot is concluded, or the job is to be observed.
pub data Opened : Type 0 where
  concluded : Job → Opened
  observing : Job → Opened

unfoldable pub open_foreground : ℕ → GroupAnswer → Job → Opened
open_foreground owning (group_failed e) j =
    concluded (with_observation_error (error_or Errno.notty e) j)
open_foreground owning (in_group g) j =
    let k = record j { owning_process_group = owning; foreground_process_group = g } in
    if g == owning then concluded (record k { disposition = not_distinct }) else observing k

unfoldable pub open_owning : GroupAnswer → GroupAnswer → Job → Opened
unfolding open_foreground
open_owning (group_failed e) foreground j =
    concluded (with_observation_error (error_or Errno.srch e) j)
open_owning (in_group g) foreground j = open_foreground g foreground j

unfoldable pub open_job : Answers → Session → Opened
unfolding open_owning
open_job a s =
    let exit = is_finished s.state in
    let j = record initialize_job { has_exited = exit; child_pid = pid_of s } in
    if not (is_running s.state) || pid_of s == 0 || not (has_terminal s)
    then concluded (
        with_observation_error Errno.nxio
          (record j { disposition = if exit then exited else unavailable }))
    else open_owning a.owning a.foreground j

unfoldable pub store_path : PathResult → Job → Job
store_path (path_failed e) j = record j { executable_path_error = error_or Errno.io e }
store_path (path_bytes bytes) j =
    if strnlen bytes == path_buffer_size || leb executable_path_capacity (strnlen bytes)
    then record j { executable_path_error = Errno.nametoolong }
    else record j { executable_path = take (strnlen bytes) bytes }

-- The path and the arguments of the first member.
unfoldable pub describe_primary : Answers → List Process → Job → Job
unfolding store_path
describe_primary a [] j = j
describe_primary a (m ∷ ms) j =
    let k =
      store_path (a.path m.pid)
        (record j { primary_index = some 0; scan = record j.scan { members = m ∷ ms } }) in
    record k { arguments = read_process_arguments (a.size m.pid) (a.block m.pid) no_arguments }

unfoldable pub observe_job : Answers → Job → Job
unfolding describe_primary
observe_job a j =
    let g = j.foreground_process_group in
    let o = scan_members a.info a.usage g a.count a.allocated a.list in
    describe_primary a (order_members g o.members) (record j { scan = o })

unfoldable pub measure_member : Timebase → ℕ → Process → Process
measure_member t now m =
    if m.start_absolute_time == 0 then m else elim (absolute_delta t m.start_absolute_time now) [
      | none ↦ record m {
        elapsed_microseconds = 0;
        resource_usage_error = Errno.range;
        start_absolute_time = 0;
      }
      | some elapsed ↦ record m { elapsed_microseconds = elapsed }
    ]

-- `earliest_start`, of the members as they have been measured.
unfoldable pub earliest_start : ℕ → List Process → ℕ
earliest_start earliest [] = earliest
earliest_start earliest (m ∷ ms) =
    earliest_start
      (if m.start_absolute_time == 0
        then earliest
        else if earliest == 0 || ltb m.start_absolute_time earliest
        then m.start_absolute_time
        else earliest)
      ms

abbrev pub elapsed_or_zero : Option ℕ → ℕ
elapsed_or_zero none = 0
elapsed_or_zero (some elapsed) = elapsed

unfoldable pub measure_job : Timebase → ℕ → Job → Job
unfolding measure_member earliest_start
measure_job t now j =
    let ms = map (measure_member t now) j.scan.members in
    let earliest = earliest_start 0 ms in
    record j {
      sampled_absolute_time = now;
      scan = record j.scan { members = ms };
      job_elapsed_microseconds =
          if earliest == 0 then 0 else elapsed_or_zero (absolute_delta t earliest now);
    }

abbrev pub is_group : GroupAnswer → ℕ → Bool
is_group (group_failed e) g = false
is_group (in_group h) g = h == g

-- Whether the second locked section finds what the first one found.
abbrev pub still_current : Answers → Session → Job → Bool
still_current a s j =
    is_running s.state
    && ((pid_of s == j.child_pid)
        && (not (pid_of s == 0)
            && (is_group a.owning_after j.owning_process_group
                && (has_terminal s && is_group a.foreground_after j.foreground_process_group))))

unfoldable pub close_job : Answers → Session → Job → Job
unfolding clear_content
close_job a s j =
    if still_current a s j
    then record j { disposition = elim j.scan.members [ [] ↦ unavailable | m ∷ ms ↦ available ] }
    else let exit = is_finished s.state in
      with_observation_error (if exit then Errno.nxio else Errno.stale) (record (clear_content j) {
        has_exited = exit;
        disposition = if exit then exited else stale;
      })

unfoldable pub finish_job : Answers → Session → Opened → Job
unfolding observe_job measure_job close_job
finish_job a s (concluded j) = j
finish_job a s (observing j) = close_job a s (measure_job a.timebase a.now (observe_job a j))

-- The caller's structure: its `struct_size` and `abi_version`, or a null pointer.
abbrev pub is_compatible : ℕ → Option (ℕ × ℕ) → Bool
is_compatible needed none = false
is_compatible needed (some (size, version)) = leb needed size && (version == abi_version_number)

-- `first` and `second` are the session at the two locked sections.
unfoldable pub get_foreground_job_snapshot :
    Answers → Session → Session → Option (ℕ × ℕ) → Checked Job
unfolding open_job finish_job set_error
get_foreground_job_snapshot a first second buffer =
    if is_compatible job_size buffer
    then accepted (finish_job a second (open_job a first))
    else rejected (
        set_error invalid_argument Errno.inval "PTY foreground job snapshot buffer is incompatible")
