-- ===== src/Snapshot/Process.antt =====
-- GetProcessSnapshot and GetWorkingDirectorySnapshot of class Session,
-- packages/dart_pty_macos/native/PtySession.cc. Each takes the mutex once.
use dart_terminal.Base.{
  ℕ, ◌<◌, ◌≡◌, refl, ◌⊎◌, inl, inr, Bool, true, false, not, ◌||◌, Option, List, [], arith, leb,
  ◌==◌, if◌then◌else◌, Bool-cases, if_cases, length, take, length-take,
}
use dart_terminal.Errno
use dart_terminal.Status.{invalid_argument, set_error}
use dart_terminal.Config.{Checked, accepted, rejected}
use dart_terminal.Session.{Session, is_running, is_finished}
use dart_terminal.Snapshot.Arguments.{error_or}
use dart_terminal.Snapshot.Bytes.{strnlen, HasNoNul, strnlen-le, take-HasNoNul}
use dart_terminal.Snapshot.Os.{
  GroupAnswer, in_group, group_failed, PathResult, path_bytes, path_failed,
}
use dart_terminal.Snapshot.Job.{pid_of, has_terminal, is_compatible}

-- sizeof of the two structures on LP64, DPTY_WORKING_DIRECTORY_CAPACITY, and sizeof of vip_path of
-- <sys/proc_info.h>.
abbrev pub process_snapshot_size : ℕ
process_snapshot_size = 64

abbrev pub working_directory_snapshot_size : ℕ
working_directory_snapshot_size = 4136

abbrev pub working_directory_capacity : ℕ
working_directory_capacity = 4096

abbrev pub vnode_path_size : ℕ
vnode_path_size = 1024

-- tcgetattr: whether ECHO is set, or errno as it is left.
pub data AttributesResult : Type 0 where
  attributes : (echo : Bool) → AttributesResult
  attributes_failed : ℕ → AttributesResult

-- DptyProcessSnapshotV1.
pub record ProcessSnapshot : Type 0 where
  pub child_pid : ℕ
  pub child_process_group : ℕ
  pub foreground_process_group : ℕ
  pub child_process_group_error : ℕ
  pub foreground_process_group_error : ℕ
  pub has_exited : Bool
  pub terminal_echo_enabled : Bool
  pub terminal_attributes_error : ℕ

abbrev pub put_child_group : GroupAnswer → ProcessSnapshot → ProcessSnapshot
put_child_group (in_group g) o = record o { child_process_group = g }
put_child_group (group_failed e) o = record o { child_process_group_error = error_or Errno.srch e }

abbrev pub put_foreground_group : GroupAnswer → ProcessSnapshot → ProcessSnapshot
put_foreground_group (in_group g) o = record o { foreground_process_group = g }
put_foreground_group (group_failed e) o = record o {
  foreground_process_group_error = error_or Errno.notty e;
}

abbrev pub put_terminal_attributes : AttributesResult → ProcessSnapshot → ProcessSnapshot
put_terminal_attributes (attributes echo) o = record o { terminal_echo_enabled = echo }
put_terminal_attributes (attributes_failed e) o = record o {
  terminal_attributes_error = error_or Errno.notty e;
}

unfoldable pub observe_process :
    GroupAnswer → GroupAnswer → AttributesResult → Session → ProcessSnapshot
observe_process child foreground terminal s =
    let o : ProcessSnapshot = record {
      child_pid = pid_of s;
      child_process_group = 0;
      foreground_process_group = 0;
      child_process_group_error = 0;
      foreground_process_group_error = 0;
      has_exited = is_finished s.state;
      terminal_echo_enabled = false;
      terminal_attributes_error = 0;
    } in
    if pid_of s == 0 || not (has_terminal s) || not (is_running s.state)
    then record o {
      child_process_group_error = Errno.nxio;
      foreground_process_group_error = Errno.nxio;
      terminal_attributes_error = Errno.nxio;
    }
    else put_terminal_attributes terminal
        (put_foreground_group foreground (put_child_group child o))

unfoldable pub get_process_snapshot :
    GroupAnswer
    → GroupAnswer
    → AttributesResult
    → Session
    → Option (ℕ × ℕ)
    → Checked ProcessSnapshot
unfolding observe_process set_error
get_process_snapshot child foreground terminal s buffer =
    if is_compatible process_snapshot_size buffer
    then accepted (observe_process child foreground terminal s)
    else rejected
        (set_error invalid_argument Errno.inval "PTY process snapshot buffer is incompatible")

-- DptyWorkingDirectorySnapshotV1. `path` is without the terminating NUL: `path_length` is its length.
pub record WorkingDirectorySnapshot : Type 0 where
  pub child_pid : ℕ
  pub system_error : ℕ
  pub has_exited : Bool
  pub path : List ℕ

-- proc_pidinfo PROC_PIDVNODEPATHINFO: the bytes of vip_path, or errno as it is left with a size other
-- than that of the structure.
unfoldable pub store_directory : PathResult → WorkingDirectorySnapshot → WorkingDirectorySnapshot
store_directory (path_failed e) o = record o { system_error = error_or Errno.io e }
store_directory (path_bytes bytes) o =
    let size = strnlen bytes in
    if size == 0
    then record o { system_error = Errno.noent }
    else if leb vnode_path_size size || leb working_directory_capacity size
    then record o { system_error = Errno.nametoolong }
    else record o { path = take size bytes }

unfoldable pub observe_directory : PathResult → Session → WorkingDirectorySnapshot
unfolding store_directory
observe_directory answer s =
    let o : WorkingDirectorySnapshot = record {
      child_pid = pid_of s;
      system_error = 0;
      has_exited = is_finished s.state;
      path = [];
    } in
    if pid_of s == 0 || not (is_running s.state)
    then record o { system_error = Errno.nxio }
    else store_directory answer o

unfoldable pub get_working_directory_snapshot :
    PathResult → Session → Option (ℕ × ℕ) → Checked WorkingDirectorySnapshot
unfolding observe_directory set_error
get_working_directory_snapshot answer s buffer =
    if is_compatible working_directory_snapshot_size buffer
    then accepted (observe_directory answer s)
    else rejected (
        set_error invalid_argument Errno.inval
          "PTY working directory snapshot buffer is incompatible")

-- Either an error is set and the path is empty, or none is and the path, not empty and with no NUL,
-- fits the structure with its terminator.
pub record IsDirectory (o : WorkingDirectorySnapshot) : Type 0 where
  pub explained :
      ((0 < o.system_error) × (o.path ≡ []))
      ⊎ ((o.system_error ≡ 0)
          × (0 < length o.path)
          × (length o.path < working_directory_capacity)
          × HasNoNul o.path)

store_directory-IsDirectory :
    (answer : PathResult) (o : WorkingDirectorySnapshot)
    → o.system_error ≡ 0
    → o.path ≡ []
    → IsDirectory (store_directory answer o)
unfolding store_directory
store_directory-IsDirectory (path_failed e) o z p = record { explained = inl (ground arith, p) }
store_directory-IsDirectory (path_bytes bytes) o z p =
    if_cases IsDirectory (strnlen bytes == 0) (λ empty. record { explained = inl (omega arith, p) })
      (λ some_.
        if_cases IsDirectory
          (leb vnode_path_size (strnlen bytes) || leb working_directory_capacity (strnlen bytes))
          (λ long. record { explained = inl (omega arith, p) })
          (λ fits.
            let n = length-take (strnlen bytes) bytes in
            let m = strnlen-le bytes in
            record {
              explained = inr (
                z,
                ground (arith, n, m),
                ground (arith, n, m),
                take-HasNoNul (strnlen bytes) bytes (omega arith),
              );
            }))

-- Whatever the system answers, the snapshot of the working directory of any session has an error
-- and no path, or a path that is a C string of the structure's size, and no error; it has an error
-- whenever the session is not running.
pub observe_directory-IsDirectory :
    (answer : PathResult) (s : Session)
    → IsDirectory (observe_directory answer s)
      × ((is_running s.state ≡ true) ⊎ (0 < (observe_directory answer s).system_error))
unfolding observe_directory
observe_directory-IsDirectory answer s = (
  if_cases IsDirectory (pid_of s == 0 || not (is_running s.state))
      (λ gone. record { explained = inl (omega arith, refl) })
      (λ here. store_directory-IsDirectory answer _ refl refl),
  elim (Bool-cases (is_running s.state)) [ inl runs ↦ inl runs | inr stopped ↦ inr (ground arith) ],
)
