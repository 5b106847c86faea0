-- ===== src/Config.antt =====
-- DptySessionConfigV1 of packages/dart_pty_macos/native/dart_pty_macos.h, and OwnedConfig,
-- CopyString and CopyConfig of PtySession.cc. A C string is the list of its bytes before the NUL, a
-- null pointer is `none`, and an array is the function from its indices. The callback and its
-- context are opaque: only whether the callback is null is kept.
pub mod Bounds
pub mod Layout
mod Tests
use dart_terminal.Base.{
  ℕ, zero, suc, ◌+◌, ◌*◌, min, String, Bool, true, false, not, ◌&&◌, ◌||◌, Option, none, some, List,
  [], ◌∷◌, ltb, leb, ◌==◌, if◌then◌else◌, length, take,
}
use dart_terminal.Status.{LastError, invalid_argument, set_error}
use dart_terminal.Errno

abbrev pub CString : Type 0
CString = List ℕ

abbrev pub maximum_string_bytes : ℕ
maximum_string_bytes = 1024 * 1024

abbrev pub maximum_vector_entries : ℕ
maximum_vector_entries = 16 * 1024

abbrev pub maximum_queue_bytes : ℕ
maximum_queue_bytes = 64 * 1024 * 1024

abbrev pub default_read_batch_bytes : ℕ
default_read_batch_bytes = 64 * 1024

abbrev pub maximum_read_batches_per_turn : ℕ
maximum_read_batches_per_turn = 8

abbrev pub abi_version_number : ℕ
abi_version_number = 8

-- offsetof(read_batch_bytes), offsetof(read_batches_per_event_loop_turn) and sizeof, on LP64.
abbrev pub minimum_config_size : ℕ
minimum_config_size = 120

abbrev pub read_batch_config_size : ℕ
read_batch_config_size = 128

abbrev pub config_size : ℕ
config_size = 136

pub record ConfigV1 : Type 0 where
  pub struct_size : ℕ
  pub abi_version : ℕ
  pub executable : Option CString
  pub arguments : Option (ℕ → Option CString)
  pub argument_count : ℕ
  pub environment : Option (ℕ → Option CString)
  pub environment_count : ℕ
  pub working_directory : Option CString
  pub initial_rows : ℕ
  pub initial_columns : ℕ
  pub read_high_water_bytes : ℕ
  pub read_low_water_bytes : ℕ
  pub write_capacity_bytes : ℕ
  pub has_callback : Bool
  pub diagnostics_enabled : ℕ
  pub read_batch_bytes : ℕ
  pub read_batches_per_event_loop_turn : ℕ

pub record OwnedConfig : Type 0 where
  pub executable : CString
  pub arguments : List CString
  pub environment : List CString
  pub working_directory : Option CString
  pub rows : ℕ
  pub columns : ℕ
  pub read_high_water : ℕ
  pub read_low_water : ℕ
  pub read_batch : ℕ
  pub read_batches_per_event_loop_turn : ℕ
  pub write_capacity : ℕ
  pub diagnostics_enabled : Bool

-- `false` with the error that was set, or the value that was written to the target.
pub data Checked {ℓ} (A : Type ℓ) : Type ℓ where
  accepted : A → Checked A
  rejected : LastError → Checked A

infixl 5 ◌>>=◌
abbrev pub ◌>>=◌ {ℓ κ} : {A : Type ℓ} {B : Type κ} → Checked A → (A → Checked B) → Checked B
accepted a >>= f = f a
rejected e >>= f = rejected e

unfoldable pub invalid : {A : Type 0} → String → Checked A
unfolding set_error
invalid m = rejected (set_error invalid_argument Errno.inval m)

unfoldable pub copy_string : Option CString → String → Bool → Checked CString
unfolding invalid
copy_string none field allow_empty = invalid field
copy_string (some source) field allow_empty =
    let size = min (length source) (maximum_string_bytes + 1) in
    if ((not allow_empty) && (size == 0)) || ltb maximum_string_bytes size
    then invalid field
    else accepted (take size source)

-- `||` with a second test that is made only if the copy succeeded; either failure ends in `field`.
unfoldable pub copy_checked : Option CString → String → (CString → Bool) → String → Checked CString
unfolding copy_string invalid
copy_checked source field test message = elim (copy_string source field false) [
  | rejected e ↦ invalid message
  | accepted value ↦ if test value then accepted value else invalid message
]

abbrev pub front_is : ℕ → CString → Bool
front_is c [] = false
front_is c (x ∷ xs) = x == c

abbrev pub contains : ℕ → CString → Bool
contains c [] = false
contains c (x ∷ xs) = (x == c) || contains c xs

abbrev pub is_entry : CString → Bool
is_entry value = (not (front_is b'=' value)) && contains b'=' value

-- The entries `i`, `i + 1`, … of an array, `n` of them, each copied by `copy`.
unfoldable pub copy_entries :
    (Option CString → Checked CString) → (ℕ → Option CString) → ℕ → ℕ → Checked (List CString)
copy_entries copy source zero i = accepted []
copy_entries copy source (suc n) i = do
  value ← copy (source i)
  rest ← copy_entries copy source n (i + 1)
  accepted (value ∷ rest)

abbrev pub entries : Option (ℕ → Option CString) → ℕ → Option CString
entries none i = none
entries (some f) i = f i

abbrev pub is_null : {A : Type 0} → Option A → Bool
is_null none = true
is_null (some a) = false

unfoldable pub is_malformed : ConfigV1 → Bool
is_malformed source =
    ltb source.struct_size minimum_config_size
    || not (source.abi_version == abi_version_number)
    || not source.has_callback
    || is_null source.arguments
    || (source.argument_count == 0)
    || ltb maximum_vector_entries source.argument_count
    || ltb maximum_vector_entries source.environment_count
    || ((not (source.environment_count == 0)) && is_null source.environment)
    || (source.initial_rows == 0)
    || (source.initial_columns == 0)
    || (source.read_high_water_bytes == 0)
    || leb source.read_high_water_bytes source.read_low_water_bytes
    || ltb maximum_queue_bytes source.read_high_water_bytes
    || (source.write_capacity_bytes == 0)
    || ltb maximum_queue_bytes source.write_capacity_bytes
    || ltb 1 source.diagnostics_enabled
    || (leb read_batch_config_size source.struct_size
        && ltb default_read_batch_bytes source.read_batch_bytes)
    || (leb config_size source.struct_size
        && ltb maximum_read_batches_per_turn source.read_batches_per_event_loop_turn)

unfoldable pub copy_argument : Option CString → Checked CString
unfolding copy_string
copy_argument s = copy_string s "PTY argument is invalid" true

unfoldable pub copy_environment_entry : Option CString → Checked CString
unfolding copy_checked
copy_environment_entry s =
    copy_checked s "PTY environment entry is invalid" is_entry
      "PTY environment entry must be KEY=value"

unfoldable pub copy_working_directory : Option CString → Checked (Option CString)
unfolding copy_checked
copy_working_directory none = accepted none
copy_working_directory (some s) = do
  directory ←
      copy_checked (some s) "PTY working directory is invalid" (front_is b'/')
        "PTY working directory must be an absolute path"
  accepted (some directory)

unfoldable pub copy_sizes :
    ConfigV1 → CString → List CString → List CString → Option CString → OwnedConfig
copy_sizes source executable arguments environment directory = record {
  executable = executable;
  arguments = arguments;
  environment = environment;
  working_directory = directory;
  rows = source.initial_rows;
  columns = source.initial_columns;
  read_high_water = source.read_high_water_bytes;
  read_low_water = source.read_low_water_bytes;
  read_batch =
      if leb read_batch_config_size source.struct_size && not (source.read_batch_bytes == 0)
      then source.read_batch_bytes
      else default_read_batch_bytes;
  read_batches_per_event_loop_turn =
      if leb config_size source.struct_size then source.read_batches_per_event_loop_turn else 0;
  write_capacity = source.write_capacity_bytes;
  diagnostics_enabled = not (source.diagnostics_enabled == 0);
}

unfoldable pub copy_fields : ConfigV1 → Checked OwnedConfig
unfolding copy_checked copy_entries copy_argument copy_environment_entry copy_working_directory
    copy_sizes
copy_fields source = do
  executable ←
      copy_checked source.executable "PTY executable is invalid" (front_is b'/')
        "PTY executable must be an absolute path"
  arguments ← copy_entries copy_argument (entries source.arguments) source.argument_count 0
  environment ←
      copy_entries copy_environment_entry (entries source.environment) source.environment_count 0
  directory ← copy_working_directory source.working_directory
  accepted (copy_sizes source executable arguments environment directory)

-- A null `source` is `none`; the target is never null.
unfoldable pub copy_config : Option ConfigV1 → Checked OwnedConfig
unfolding is_malformed copy_fields invalid
copy_config none = invalid "PTY session configuration is invalid"
copy_config (some source) =
    if is_malformed source
    then invalid "PTY session configuration is invalid"
    else copy_fields source
