-- ===== src/Api/Tests.antt =====
-- Two shells behind their handles, and the theorems at them.
use dart_terminal.Base.{ℕ, ◌+◌, ◌*◌, ◌^◌, ◌≡◌, refl, true, false, none, some, List, [], ◌∷◌, arith}
use dart_terminal.Status.{invalid_handle, ok}
use dart_terminal.Config.{CString, ConfigV1, OwnedConfig, copy_config, is_malformed, copy_fields}
use dart_terminal.Registry.{lookup, insert, remove}
use dart_terminal.Registry.Handle.{encode, decode}
use dart_terminal.Session.{Session, new_session, set_handle, finished}
use dart_terminal.Session.Calls.{starts, forces, perform, start, can_destroy}
use dart_terminal.Api.{
  Library, dpty_session_create, create_copied, register, call, call_at, find_session, session_at,
  dpty_session_destroy, destroy_found, destroyed,
}
use dart_terminal.Api.Sound.{IsSound}
use dart_terminal.Api.Create.{IsCreated, dpty_session_create-IsCreated}
use dart_terminal.Api.Requests.{to_resize, serve, IsServed, serve-IsServed}
use dart_terminal.Api.Destroy.{IsReleased, dpty_session_destroy-IsReleased}
use dart_terminal.Api.Runs.{
  Step, creates, calls, advances, step, run_steps, loaded, run_steps-IsSound-loaded,
}
use dart_terminal.Session.Invariant.{Inv}
use dart_terminal.Api.Runs.Within.{find_session-Inv}
use dart_terminal.Api.Runs.Stale.{call-run_steps_destroyed}

abbrev sh : CString
sh = b'/' ∷ b's' ∷ b'h' ∷ []

abbrev source : ConfigV1
source = record {
  struct_size = 136;
  abi_version = 8;
  executable = some sh;
  arguments = some (λ i. some sh);
  argument_count = 1;
  environment = some (λ i. some (b'A' ∷ b'=' ∷ []));
  environment_count = 1;
  working_directory = none;
  initial_rows = 24;
  initial_columns = 80;
  read_high_water_bytes = 4096;
  read_low_water_bytes = 1024;
  write_capacity_bytes = 512;
  has_callback = true;
  diagnostics_enabled = 0;
  read_batch_bytes = 0;
  read_batches_per_event_loop_turn = 2;
}

abbrev first : ℕ
first = 2 ^ 32 + 1

abbrev second : ℕ
second = 2 * 2 ^ 32 + 1

abbrev stop : Session → Session
stop s = record s { state = finished }

-- Two sessions are made, the first is started, and its reactor ends.
abbrev script : List Step
script =
    creates (some source) true true
    ∷ creates (some source) true true
    ∷ calls (starts true) first
    ∷ advances 0 stop (λ s. refl)
    ∷ []

abbrev library : Library
library = run_steps script loaded

library-IsSound : IsSound library
library-IsSound = run_steps-IsSound-loaded script (tt, (tt, (omega arith, (tt, tt))))

run_steps-IsSound-loaded_example : IsSound (run_steps script loaded)
run_steps-IsSound-loaded_example =
    run_steps-IsSound-loaded script (tt, (tt, (omega arith, (tt, tt))))

dpty_session_create-IsCreated_example :
    IsCreated (some source) library (dpty_session_create (some source) true true library)
dpty_session_create-IsCreated_example =
    dpty_session_create-IsCreated (some source) true true library library-IsSound

serve-IsServed_example :
    IsServed (to_resize 30 90) second library (serve (to_resize 30 90) second library)
serve-IsServed_example =
    serve-IsServed (to_resize 30 90) second library library-IsSound (omega arith)

dpty_session_destroy-IsReleased_example :
    IsReleased first library (dpty_session_destroy first library)
dpty_session_destroy-IsReleased_example =
    dpty_session_destroy-IsReleased first library library-IsSound (omega arith)

first_live : lookup library.registry first ≡ some 0
unfolding run_steps step loaded dpty_session_create create_copied register insert lookup copy_config
    is_malformed copy_fields call call_at find_session session_at decode encode
first_live = refl

first_destroyed : (dpty_session_destroy first library).status ≡ ok
unfolding run_steps step loaded dpty_session_create create_copied register insert lookup copy_config
    is_malformed copy_fields call call_at find_session session_at decode encode dpty_session_destroy
    destroy_found destroyed remove can_destroy perform start set_handle new_session
first_destroyed = refl

call-run_steps_destroyed_example :
    (call forces first (
      run_steps
        (creates (some source) true true ∷ [])
        (dpty_session_destroy first library).library)).status
    ≡ invalid_handle
call-run_steps_destroyed_example =
    call-run_steps_destroyed forces first 0 library (creates (some source) true true ∷ [])
      first_live first_destroyed (omega arith)

abbrev owned : OwnedConfig
owned = record {
  executable = sh;
  arguments = sh ∷ [];
  environment = (b'A' ∷ b'=' ∷ []) ∷ [];
  working_directory = none;
  rows = 24;
  columns = 80;
  read_high_water = 4096;
  read_low_water = 1024;
  read_batch = 65536;
  read_batches_per_event_loop_turn = 2;
  write_capacity = 512;
  diagnostics_enabled = false;
}

stop-Inv : (s : Session) → Inv s → Inv (stop s)
stop-Inv s v = record {
  usable = v.usable;
  flight = v.flight;
  flight_bound = v.flight_bound;
  flight_peak = v.flight_peak;
  numbered = v.numbered;
  queued = v.queued;
  offset = v.offset;
  filled = v.filled;
  capacity = v.capacity;
  peak = v.peak;
  drained = v.drained;
  forced = v.forced;
  started = v.started;
}

first_found :
    find_session (run_steps script loaded) first
    ≡ some (stop (start true (set_handle first (new_session owned))).session)
unfolding run_steps step loaded dpty_session_create create_copied register insert lookup copy_config
    is_malformed copy_fields call call_at find_session session_at decode encode perform start
    set_handle new_session
first_found = refl

find_session-Inv_example : Inv (stop (start true (set_handle first (new_session owned))).session)
find_session-Inv_example =
    find_session-Inv script first (stop (start true (set_handle first (new_session owned))).session)
      (tt, (tt, (tt, (stop-Inv, tt)))) first_found
