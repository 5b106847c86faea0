-- ===== src/Snapshot/Os.antt =====
-- What the system answers while the foreground job is observed.
use dart_terminal.Base.{ℕ, List}

-- proc_listpgrppids: how many there are, or errno as it is left; and the numbers themselves. 0 stands
-- for any number that is not above 0.
pub data CountResult : Type 0 where
  counted : ℕ → CountResult
  count_failed : ℕ → CountResult

pub data ListResult : Type 0 where
  listed : List ℕ → ListResult
  list_failed : ℕ → ListResult

-- proc_pidinfo PROC_PIDTBSDINFO: the process group, the start in seconds and microseconds, and the
-- bytes of pbi_name and pbi_comm; or a size other than that of the structure.
pub data InfoResult : Type 0 where
  information : (group seconds microseconds : ℕ) (name comm : List ℕ) → InfoResult
  no_information : InfoResult

-- proc_pid_rusage: ri_proc_start_abstime with errno as it is left, or that errno alone.
pub data UsageResult : Type 0 where
  used : (start e : ℕ) → UsageResult
  usage_failed : ℕ → UsageResult

-- proc_pidpath: the bytes of the buffer, or errno as it is left.
pub data PathResult : Type 0 where
  path_bytes : List ℕ → PathResult
  path_failed : ℕ → PathResult

-- getpgid and tcgetpgrp: a number above 0, or errno as it is left.
pub data GroupAnswer : Type 0 where
  in_group : ℕ → GroupAnswer
  group_failed : ℕ → GroupAnswer
