-- ===== src/Snapshot/Members.antt =====
-- The members of the foreground process group, in GetForegroundJobSnapshot of
-- packages/dart_pty_macos/native/PtySession.cc.
pub mod Described
pub mod Listing
pub mod Order
pub mod Primary
pub mod Count
use dart_terminal.Base.{
  ℕ, zero, suc, ◌+◌, ◌-◌, ◌*◌, ◌%◌, ◌^◌, min, max, Bool, false, not, ◌&&◌, ◌||◌, Option, none, some,
  List, [], ◌∷◌, ◌++◌, ltb, leb, ◌==◌, if◌then◌else◌, length, get_elem?, set, take,
}
use dart_terminal.Errno
use dart_terminal.Reactor.Filters.{same_bool}
use dart_terminal.Snapshot.Arguments.{error_or}
use dart_terminal.Snapshot.Bytes.{strnlen}
use dart_terminal.Snapshot.Os.{
  CountResult, counted, count_failed, ListResult, listed, list_failed, InfoResult, information,
  no_information, UsageResult, used, usage_failed,
}

-- DPTY_FOREGROUND_PROCESS_LIMIT, DPTY_FOREGROUND_PROCESS_NAME_CAPACITY and
-- kMaximumForegroundProcessScan.
abbrev pub process_limit : ℕ
process_limit = 32

abbrev pub name_capacity : ℕ
name_capacity = 257

abbrev pub maximum_scan : ℕ
maximum_scan = 64 * 1024

-- DptyForegroundProcessV1. Of `name` the first `name_length` bytes.
pub record Process : Type 0 where
  pub pid : ℕ
  pub start_time_seconds : ℕ
  pub start_time_microseconds : ℕ
  pub start_absolute_time : ℕ
  pub elapsed_microseconds : ℕ
  pub name_length : ℕ
  pub information_error : ℕ
  pub resource_usage_error : ℕ
  pub name : List ℕ

-- The fields of the snapshot that the scan writes; `member_count` is the length of `members`.
pub record Scan : Type 0 where
  pub members : List Process
  pub member_issue_count : ℕ
  pub total_member_count : ℕ
  pub omitted_member_count : ℕ
  pub observation_error : ℕ

abbrev pub no_scan : Scan
no_scan = record {
  members = [];
  member_issue_count = 0;
  total_member_count = 0;
  omitted_member_count = 0;
  observation_error = 0;
}

abbrev pub has_pid : ℕ → List Process → Bool
has_pid pid [] = false
has_pid pid (m ∷ ms) = (m.pid == pid) || has_pid pid ms

-- pbi_name, or pbi_comm where it is empty.
abbrev pub shown_name : List ℕ → List ℕ → List ℕ
shown_name [] comm = comm
shown_name (b ∷ bs) comm = if b == 0 then comm else b ∷ bs

unfoldable pub with_usage : UsageResult → Process → Process
with_usage (used start e) m =
    if start == 0
    then record m { resource_usage_error = error_or Errno.io e }
    else record m { start_absolute_time = start }
with_usage (usage_failed e) m = record m { resource_usage_error = error_or Errno.io e }

unfoldable pub describe : ℕ → ℕ → ℕ → List ℕ → List ℕ → UsageResult → Process
unfolding with_usage
describe pid seconds microseconds name comm usage =
    let text = shown_name name comm in
    let size = min (strnlen text) (name_capacity - 1) in
    with_usage usage (record {
      pid = pid;
      start_time_seconds = seconds;
      start_time_microseconds = microseconds % 2 ^ 32;
      start_absolute_time = 0;
      elapsed_microseconds = 0;
      name_length = size;
      information_error = 0;
      resource_usage_error = 0;
      name = take size text;
    })

abbrev pub issue : Scan → Scan
issue o = record o { member_issue_count = o.member_issue_count + 1 }

unfoldable pub add_described : ℕ → ℕ → InfoResult → UsageResult → Scan → Scan
unfolding describe
add_described group pid no_information usage o = issue o
add_described group pid (information g seconds microseconds name comm) usage o =
    if g == group
    then record o { members = o.members ++ describe pid seconds microseconds name comm usage ∷ [] }
    else issue o

-- What is counted after the loop.
unfoldable pub count_members : Scan → Scan
count_members o =
    let seen = length o.members + o.member_issue_count in
    let total = if ltb o.total_member_count seen then seen else o.total_member_count in
    record o {
      total_member_count = total;
      omitted_member_count = total - length o.members;
      observation_error = if length o.members == 0 then Errno.srch else o.observation_error;
    }

module _ (info : ℕ → InfoResult) (usage : ℕ → UsageResult) (group : ℕ) where
  -- `append_member`.
  unfoldable pub append_member : ℕ → Scan → Scan
  unfolding add_described
  append_member pid o =
      if pid == 0 || leb process_limit (length o.members)
      then o
      else if has_pid pid o.members
      then o
      else add_described group pid (info pid) (usage pid) o

  -- The loop over the listed numbers.
  unfoldable pub append_members : List ℕ → Scan → Scan
  unfolding append_member
  append_members [] o = o
  append_members (pid ∷ pids) o =
      append_members pids (if pid == group then o else append_member pid o)

  unfoldable pub scan_listed : ℕ → ListResult → Scan → Scan
  unfolding append_members count_members
  scan_listed capacity (list_failed e) o = record o { observation_error = error_or Errno.io e }
  scan_listed capacity (listed pids) o =
      if length pids == capacity
      then record o { observation_error = Errno.overflow }
      else count_members (
          append_members pids
            (append_member group (record o { total_member_count = length pids % 2 ^ 32 })))

  -- `allocated` is whether there was memory for the list.
  unfoldable pub scan_members : CountResult → Bool → ListResult → Scan
  unfolding scan_listed
  scan_members (count_failed e) allocated list = record no_scan {
    observation_error = error_or Errno.io e;
  }
  scan_members (counted hint) allocated list =
      if ltb (maximum_scan - process_limit) hint
      then record no_scan { observation_error = Errno.toobig }
      else if not allocated
      then record no_scan { observation_error = Errno.nomem }
      else scan_listed (max (process_limit + 1) (hint + process_limit)) list no_scan

abbrev pub has_start : Process → Bool
has_start m = not (m.start_absolute_time == 0)

-- The order of members: those with a start first, the earlier first, then by number.
abbrev pub before : Process → Process → Bool
before a b =
    if not (same_bool (has_start a) (has_start b))
    then has_start a
    else if not (a.start_absolute_time == b.start_absolute_time)
    then ltb a.start_absolute_time b.start_absolute_time
    else ltb a.pid b.pid

-- The test of the loop that chooses, as it is written there.
abbrev pub chosen_before : Process → Process → Bool
chosen_before c m =
    (has_start c && not (has_start m))
    || (has_start c && (has_start m && ltb c.start_absolute_time m.start_absolute_time))
    || ((c.start_absolute_time == m.start_absolute_time) && ltb c.pid m.pid)

-- The loop that chooses the primary member: its index, and the member chosen so far.
unfoldable pub choose_primary : ℕ → ℕ → ℕ → Process → List Process → ℕ
choose_primary group index primary selected [] = primary
choose_primary group index primary selected (c ∷ cs) =
    let next = choose_primary group (index + 1) index c cs in
    let same = choose_primary group (index + 1) primary selected cs in
    if c.pid == group then index else if chosen_before c selected then next else same

-- `std::swap(members[0], members[primary])`.
unfoldable pub swap_first : Process → List Process → ℕ → Option Process → List Process
swap_first m ms i none = m ∷ ms
swap_first m ms i (some c) = c ∷ set ms i m

abbrev pub bring_first : ℕ → Process → List Process → List Process
bring_first zero m ms = m ∷ ms
bring_first (suc i) m ms = swap_first m ms i (get_elem? ms i)

-- `std::sort` by `before`; no two members have one number, so the order is determined.
unfoldable pub insert_member : Process → List Process → List Process
insert_member m [] = m ∷ []
insert_member m (c ∷ cs) =
    let rest = insert_member m cs in if before c m then c ∷ rest else m ∷ c ∷ cs

unfoldable pub sort_members : List Process → List Process
unfolding insert_member
sort_members [] = []
sort_members (m ∷ ms) = insert_member m (sort_members ms)

abbrev pub sort_rest : List Process → List Process
sort_rest [] = []
sort_rest (m ∷ ms) = m ∷ sort_members ms

unfoldable pub order_members : ℕ → List Process → List Process
unfolding choose_primary swap_first sort_members
order_members group [] = []
order_members group (m ∷ ms) =
    let moved = bring_first (choose_primary group 0 0 m (m ∷ ms)) m ms in
    if ltb 2 (length moved) then sort_rest moved else moved
