-- ===== src/Api.antt =====
-- The functions dpty_* that packages/dart_pty_macos/native/PtySession.cc exports, over the registry
-- and the sessions it shares. A `shared_ptr` is the number of its session in the list of all that
-- were made; one thread calls, and the calls of others come between its own.
pub mod Sound
pub mod Create
pub mod Calls
pub mod Requests
pub mod Destroy
pub mod Runs
mod Tests
use dart_terminal.Base.{
  ℕ, String, Bool, true, false, Option, none, some, List, [], ◌∷◌, ◌++◌, ◌==◌, if◌then◌else◌,
  length, get_elem?, set,
}
use dart_terminal.Errno
use dart_terminal.Event.{Effect}
use dart_terminal.Status.{
  Status, ok, invalid_argument, invalid_handle, wrong_state, system_error, LastError, set_error,
  clear_error,
}
use dart_terminal.Config.{
  ConfigV1, OwnedConfig, Checked, accepted, rejected, copy_config, abi_version_number,
}
use dart_terminal.Registry.{Registry, insert, lookup, remove}
use dart_terminal.Session.{Session, new_session, set_handle}
use dart_terminal.Session.Calls.{
  Reply, Call, starts, writes_bytes, acknowledges, resizes_to, sends, closes_within, forces,
  perform, can_destroy, Stats, get_stats,
}
use dart_terminal.Snapshot.Os.{GroupAnswer, PathResult}
use dart_terminal.Snapshot.Process.{
  AttributesResult, ProcessSnapshot, get_process_snapshot, WorkingDirectorySnapshot,
  get_working_directory_snapshot,
}
use dart_terminal.Snapshot.Job.{Answers, Job, is_compatible, get_foreground_job_snapshot}

-- `g_registry`, the sessions by number, and the thread's `g_last_error`.
pub record Library : Type 0 where
  pub registry : Registry ℕ
  pub sessions : List Session
  pub last_error : LastError

-- What a call returns: its status, the handle and the request number it wrote, 0 where it wrote
-- none, and the effects of the session.
pub record Outcome : Type 0 where
  pub status : Status
  pub handle : ℕ
  pub request_id : ℕ
  pub effects : List Effect
  pub library : Library

abbrev pub with_error : LastError → Library → Outcome
with_error e l = record {
  status = e.status;
  handle = 0;
  request_id = 0;
  effects = [];
  library = record l { last_error = e };
}

abbrev pub fail : Status → ℕ → String → Library → Outcome
fail status number message l = with_error (set_error status number message) l

unfoldable pub dpty_abi_version : ℕ
dpty_abi_version = abi_version_number

-- LookupSession, without the error: a number that the registry holds has its session.
unfoldable pub session_at : Library → Option ℕ → Option Session
session_at l none = none
session_at l (some i) = get_elem? l.sessions i

unfoldable pub find_session : Library → ℕ → Option Session
unfolding session_at
find_session l h = session_at l (lookup l.registry h)

unfoldable pub lookup_failed : Library → Outcome
unfolding set_error
lookup_failed l = fail invalid_handle 0 "PTY session handle is stale or invalid" l

-- Insertion of the new session under its number, and `SetHandle`.
unfoldable pub register : Session → Library → ℕ × Registry ℕ → Outcome
unfolding set_error clear_error
register s l (h, r) =
    if h == 0
    then fail system_error Errno.nomem "PTY session registry is exhausted"
        (record l { registry = r })
    else record {
      status = ok;
      handle = h;
      request_id = 0;
      effects = [];
      library = record l {
        registry = r;
        sessions = l.sessions ++ set_handle h s ∷ [];
        last_error = clear_error;
      };
    }

unfoldable pub create_copied : Bool → Library → Checked OwnedConfig → Outcome
unfolding register
create_copied allocated l (rejected e) = with_error e l
create_copied allocated l (accepted config) =
    if allocated
    then register (new_session config) l (insert (length l.sessions) l.registry)
    else fail system_error Errno.nomem "could not allocate PTY session" l

-- `output` is whether the pointer for the handle is not null, `allocated` whether memory is found
-- for the session and its slot.
unfoldable pub dpty_session_create : Option ConfigV1 → Bool → Bool → Library → Outcome
unfolding create_copied
dpty_session_create config output allocated l =
    if output
    then create_copied allocated l (copy_config config)
    else fail invalid_argument Errno.inval "PTY output session pointer is null" l

-- A method of the session behind `h`, on the one object that all holders of its pointer share.
unfoldable pub call_at : Call → Library → Option ℕ → Option Session → Outcome
unfolding lookup_failed
call_at c l (some i) (some s) =
    let r = perform c s in
    record {
      status = r.error.status;
      handle = 0;
      request_id = r.request_id;
      effects = r.effects;
      library = record l { sessions = set l.sessions i r.session; last_error = r.error };
    }
call_at c l i s = lookup_failed l

unfoldable pub call : Call → ℕ → Library → Outcome
unfolding call_at find_session
call c h l = call_at c l (lookup l.registry h) (find_session l h)

unfoldable pub dpty_session_start : ℕ → Bool → Library → Outcome
unfolding call
dpty_session_start h spawned l = call (starts spawned) h l

unfoldable pub dpty_session_write : ℕ → Option (List ℕ) → Library → Outcome
unfolding call
dpty_session_write h bytes l = call (writes_bytes bytes false) h l

unfoldable pub dpty_session_write_tracked : ℕ → Option (List ℕ) → Bool → Library → Outcome
unfolding call
dpty_session_write_tracked h bytes output l =
    if output
    then call (writes_bytes bytes true) h l
    else fail invalid_argument Errno.inval "tracked PTY write output request ID is null" l

unfoldable pub dpty_session_ack_output : ℕ → ℕ → ℕ → Library → Outcome
unfolding call
dpty_session_ack_output h sequence size l = call (acknowledges sequence size) h l

unfoldable pub dpty_session_resize : ℕ → ℕ → ℕ → Library → Outcome
unfolding call
dpty_session_resize h rows columns l = call (resizes_to rows columns) h l

unfoldable pub dpty_session_send_signal : ℕ → ℕ → Library → Outcome
unfolding call
dpty_session_send_signal h signal l = call (sends signal) h l

unfoldable pub dpty_session_close : ℕ → ℕ → Library → Outcome
unfolding call
dpty_session_close h grace l = call (closes_within grace) h l

unfoldable pub dpty_session_force_close : ℕ → Library → Outcome
unfolding call
dpty_session_force_close h l = call forces h l

-- What an observing call returns, with the structure where it filled one.
pub record Observed (A : Type 0) : Type 0 where
  pub outcome : Outcome
  pub output : Option A

unfoldable pub observed : {A : Type 0} → Library → Checked A → Observed A
unfolding clear_error
observed l (accepted a) = record { outcome = with_error clear_error l; output = some a }
observed l (rejected e) = record { outcome = with_error e l; output = none }

unfoldable pub observe :
    {A : Type 0} → (Session → Checked A) → Library → Option Session → Observed A
unfolding observed lookup_failed
observe f l none = record { outcome = lookup_failed l; output = none }
observe f l (some s) = observed l (f s)

-- sizeof(DptySessionStatsV1) on LP64.
abbrev pub stats_size : ℕ
stats_size = 88

unfoldable pub get_stats_checked : Option (ℕ × ℕ) → Session → Checked Stats
unfolding set_error
get_stats_checked buffer s =
    if is_compatible stats_size buffer
    then accepted (get_stats s)
    else rejected (set_error invalid_argument Errno.inval "PTY stats buffer is incompatible")

unfoldable pub dpty_session_get_stats : ℕ → Option (ℕ × ℕ) → Library → Observed Stats
unfolding observe get_stats_checked find_session
dpty_session_get_stats h buffer l = observe (get_stats_checked buffer) l (find_session l h)

unfoldable pub dpty_session_get_process_snapshot :
    GroupAnswer
    → GroupAnswer
    → AttributesResult
    → ℕ
    → Option (ℕ × ℕ)
    → Library
    → Observed ProcessSnapshot
unfolding observe find_session get_process_snapshot
dpty_session_get_process_snapshot child foreground terminal h buffer l =
    observe (λ s. get_process_snapshot child foreground terminal s buffer) l (find_session l h)

unfoldable pub dpty_session_get_working_directory_snapshot :
    PathResult → ℕ → Option (ℕ × ℕ) → Library → Observed WorkingDirectorySnapshot
unfolding observe find_session get_working_directory_snapshot
dpty_session_get_working_directory_snapshot answer h buffer l =
    observe (λ s. get_working_directory_snapshot answer s buffer) l (find_session l h)

-- `later` is the session as the second locked section finds it.
unfoldable pub dpty_session_get_foreground_job_snapshot :
    Answers → (Session → Session) → ℕ → Option (ℕ × ℕ) → Library → Observed Job
unfolding observe find_session get_foreground_job_snapshot
dpty_session_get_foreground_job_snapshot a later h buffer l =
    observe (λ s. get_foreground_job_snapshot a s (later s) buffer) l (find_session l h)

-- After `Remove`: the thread of the removed session is joined, which changes none of its fields.
unfoldable pub destroyed : Library → Option ℕ × Registry ℕ → Outcome
unfolding set_error clear_error
destroyed l (none, r) =
    fail invalid_handle 0 "PTY session handle became stale" (record l { registry = r })
destroyed l (some i, r) = with_error clear_error (record l { registry = r })

unfoldable pub destroy_found : ℕ → Library → Option Session → Outcome
unfolding lookup_failed destroyed set_error
destroy_found h l none = lookup_failed l
destroy_found h l (some s) =
    if can_destroy s
    then destroyed l (remove h l.registry)
    else fail wrong_state 0 "PTY session has not finished or has unacknowledged output" l

unfoldable pub dpty_session_destroy : ℕ → Library → Outcome
unfolding destroy_found find_session
dpty_session_destroy h l = destroy_found h l (find_session l h)

-- `output` is whether the pointer is not null; the error is not cleared.
unfoldable pub dpty_get_last_error : Bool → Library → Status × Option LastError
dpty_get_last_error output l = if output then (ok, some l.last_error) else (invalid_argument, none)

unfoldable pub dpty_debug_live_session_count : Library → ℕ
dpty_debug_live_session_count l = l.registry.live_count
