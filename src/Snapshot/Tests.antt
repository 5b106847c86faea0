-- ===== src/Snapshot/Tests.antt =====
-- Small snapshots, and the theorems at them.
use dart_terminal.Base.{
  ℕ, ◌*◌, ◌<◌, ◌≡◌, refl, ◌⊎◌, true, some, List, [], ◌∷◌, arith, ◌==◌, if◌then◌else◌, length,
}
use dart_terminal.Session.{Session, new_session, running, is_running}
use dart_terminal.Session.Samples.{config}
use dart_terminal.Snapshot.Arguments.{no_arguments, required, copied, read_process_arguments}
use dart_terminal.Snapshot.Arguments.Bounds.{IsWellformed, read_process_arguments-IsWellformed}
use dart_terminal.Snapshot.Arguments.Strings.{render_strings}
use dart_terminal.Snapshot.Arguments.RoundTrip.{
  render_block, kept_whole, read_process_arguments-render_block, read_process_arguments_leaks,
}
use dart_terminal.Snapshot.Bytes.{HasNoNul}
use dart_terminal.Snapshot.Elapsed.{absolute_delta, absolute_delta_exact}
use dart_terminal.Snapshot.Os.{
  counted, listed, InfoResult, information, no_information, UsageResult, used, path_bytes, in_group,
}
use dart_terminal.Snapshot.Members.{Process, scan_members, order_members}
use dart_terminal.Snapshot.Members.Listing.{IsListed, scan_members-IsListed}
use dart_terminal.Snapshot.Members.Primary.{IsReported, order_members-IsReported}
use dart_terminal.Snapshot.Job.{Answers, get_foreground_job_snapshot}
use dart_terminal.Snapshot.Job.Contents.{IsFilled, get_foreground_job_snapshot-IsFilled}
use dart_terminal.Snapshot.Job.Privacy.{IsAnswered, get_foreground_job_snapshot-IsAnswered}
use dart_terminal.Snapshot.Process.{IsDirectory, observe_directory, observe_directory-IsDirectory}

-- `vi a` with one variable, and the same with an empty first argument.
abbrev vi : List ℕ
vi = b'v' ∷ b'i' ∷ []

abbrev file : List ℕ
file = b'a' ∷ []

abbrev variable : List ℕ
variable = b'X' ∷ b'=' ∷ b'1' ∷ []

abbrev block : List ℕ
block = render_block (vi ∷ file ∷ []) (b'/' ∷ vi) 2 (render_strings (variable ∷ []))

read_process_arguments-IsWellformed_example :
    IsWellformed (read_process_arguments (required (length block)) (copied block) no_arguments)
read_process_arguments-IsWellformed_example =
    read_process_arguments-IsWellformed (required (length block)) (copied block)

vi-HasNoNul : HasNoNul vi
vi-HasNoNul = (omega arith, (omega arith, tt))

file-HasNoNul : HasNoNul file
file-HasNoNul = (omega arith, tt)

variable-HasNoNul : HasNoNul variable
variable-HasNoNul = (omega arith, (omega arith, (omega arith, tt)))

read_process_arguments-render_block_example :
    read_process_arguments (required (length block)) (copied block) no_arguments
    ≡ kept_whole (vi ∷ file ∷ [])
read_process_arguments-render_block_example =
    read_process_arguments-render_block (vi ∷ file ∷ []) (b'/' ∷ vi)
      (render_strings (variable ∷ [])) 2 (omega arith)
      ((vi-HasNoNul, omega arith), ((file-HasNoNul, omega arith), tt)) (omega arith)
      (omega arith, vi-HasNoNul) (omega arith) (omega arith) (omega arith)

abbrev hidden : List ℕ
hidden = render_block ([] ∷ file ∷ []) (b'/' ∷ vi) 2 (render_strings (variable ∷ []))

read_process_arguments_leaks_example :
    read_process_arguments (required (length hidden)) (copied hidden) no_arguments
    ≡ kept_whole (file ∷ variable ∷ [])
read_process_arguments_leaks_example =
    read_process_arguments_leaks (file ∷ []) variable [] (b'/' ∷ vi) 2
      ((file-HasNoNul, omega arith), ((variable-HasNoNul, omega arith), tt)) (omega arith)
      (omega arith, vi-HasNoNul) (omega arith) (omega arith) (omega arith)

-- 24000 ticks of 125/3 ns are a millisecond.
absolute_delta_exact_example : absolute_delta (some (125, 3)) 1000 25000 ≡ some 1000
absolute_delta_exact_example =
    absolute_delta_exact 125 3 1000 25000 (omega arith) (omega arith) (omega arith) (omega arith)
      (omega arith) (omega arith) (omega arith)

-- Group 20 has the processes 20, 21 and 22, of which 22 has left it.
abbrev info : ℕ → InfoResult
info pid = if pid == 22 then no_information else information 20 5 6 vi file

abbrev usage : ℕ → UsageResult
usage pid = used (pid * 100) 0

scan_members-IsListed_example :
    IsListed info 20 (scan_members info usage 20 (counted 3) true (listed (21 ∷ 22 ∷ 20 ∷ [])))
scan_members-IsListed_example =
    scan_members-IsListed info usage 20 (counted 3) true (listed (21 ∷ 22 ∷ 20 ∷ []))

abbrev process : ℕ → ℕ → Process
process pid start = record {
  pid = pid;
  start_time_seconds = 5;
  start_time_microseconds = 6;
  start_absolute_time = start;
  elapsed_microseconds = 0;
  name_length = 2;
  information_error = 0;
  resource_usage_error = 0;
  name = vi;
}

abbrev group_members : List Process
group_members = process 23 0 ∷ process 22 900 ∷ process 20 400 ∷ process 21 700 ∷ []

order_members-IsReported_example : IsReported 20 group_members (order_members 20 group_members)
order_members-IsReported_example = order_members-IsReported 20 group_members

ordered :
    order_members 20 group_members
    ≡ process 20 400 ∷ process 21 700 ∷ process 22 900 ∷ process 23 0 ∷ []
unfolding order_members
ordered = refl

-- A shell whose foreground job is group 20.
abbrev shell : Session
shell = record (new_session config) { state = running; master_fd = some 7; child_pid = some 10 }

abbrev answers : Answers
answers = record {
  owning = in_group 10;
  foreground = in_group 20;
  count = counted 3;
  allocated = true;
  list = listed (21 ∷ 22 ∷ 20 ∷ []);
  info = info;
  usage = usage;
  path = λ pid. path_bytes (b'/' ∷ vi);
  size = λ pid. required (length block);
  block = λ pid. copied block;
  now = 5000;
  timebase = some (125, 3);
  owning_after = in_group 10;
  foreground_after = in_group 20;
}

get_foreground_job_snapshot-IsAnswered_example :
    IsAnswered answers shell shell
      (some (92296, 8))
      (get_foreground_job_snapshot answers shell shell (some (92296, 8)))
get_foreground_job_snapshot-IsAnswered_example =
    get_foreground_job_snapshot-IsAnswered answers shell shell (some (92296, 8))

get_foreground_job_snapshot-IsFilled_example :
    IsFilled (get_foreground_job_snapshot answers shell shell (some (92296, 8)))
get_foreground_job_snapshot-IsFilled_example =
    get_foreground_job_snapshot-IsFilled answers shell shell (some (92296, 8))

abbrev slash_t : List ℕ
slash_t = b'/' ∷ b't' ∷ 0 ∷ 0 ∷ []

observe_directory-IsDirectory_example :
    IsDirectory (observe_directory (path_bytes slash_t) shell)
    × ((is_running shell.state ≡ true)
        ⊎ (0 < (observe_directory (path_bytes slash_t) shell).system_error))
observe_directory-IsDirectory_example = observe_directory-IsDirectory (path_bytes slash_t) shell
