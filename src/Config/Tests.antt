-- ===== src/Config/Tests.antt =====
-- A shell's configuration, and the configuration theorems at it.
use dart_terminal.Base.{◌≡◌, refl, true, false, none, some, [], ◌∷◌, arith}
use dart_terminal.Config.{
  CString, ConfigV1, OwnedConfig, accepted, copy_config, is_malformed, copy_fields,
}
use dart_terminal.Config.Bounds.{
  IsUsable, IsLaunchable, RefusesWell, copy_config_sound, copy_config-refuses,
}
use dart_terminal.Config.Layout.{copy_config-oldest, copy_config-older}

abbrev sh : CString
sh = b'/' ∷ b's' ∷ b'h' ∷ []

abbrev source : ConfigV1
source = record {
  struct_size = 136;
  abi_version = 8;
  executable = some sh;
  arguments = some (λ i. some sh);
  argument_count = 1;
  environment = some (λ i. some (b'A' ∷ b'=' ∷ []));
  environment_count = 1;
  working_directory = none;
  initial_rows = 24;
  initial_columns = 80;
  read_high_water_bytes = 4096;
  read_low_water_bytes = 1024;
  write_capacity_bytes = 512;
  has_callback = true;
  diagnostics_enabled = 0;
  read_batch_bytes = 0;
  read_batches_per_event_loop_turn = 2;
}

abbrev owned : OwnedConfig
owned = record {
  executable = sh;
  arguments = sh ∷ [];
  environment = (b'A' ∷ b'=' ∷ []) ∷ [];
  working_directory = none;
  rows = 24;
  columns = 80;
  read_high_water = 4096;
  read_low_water = 1024;
  read_batch = 65536;
  read_batches_per_event_loop_turn = 2;
  write_capacity = 512;
  diagnostics_enabled = false;
}

source_accepted : copy_config (some source) ≡ accepted owned
unfolding copy_config is_malformed copy_fields
source_accepted = refl

copy_config_sound_example : IsUsable owned × IsLaunchable owned
copy_config_sound_example = copy_config_sound (some source) owned source_accepted

copy_config-refuses_example :
    RefusesWell (copy_config (some (record source { executable = some (b's' ∷ b'h' ∷ []) })))
copy_config-refuses_example =
    copy_config-refuses (some (record source { executable = some (b's' ∷ b'h' ∷ []) }))

copy_config-oldest_example :
    copy_config (
      some (record source {
        struct_size = 120;
        read_batch_bytes = 7;
        read_batches_per_event_loop_turn = 9;
      }))
    ≡ copy_config (some (record source { struct_size = 120 }))
copy_config-oldest_example =
    copy_config-oldest (record source { struct_size = 120 }) 7 9 (omega arith)

copy_config-older_example :
    copy_config (some (record source { struct_size = 128; read_batches_per_event_loop_turn = 9 }))
    ≡ copy_config (some (record source { struct_size = 128 }))
copy_config-older_example = copy_config-older (record source { struct_size = 128 }) 9 (omega arith)
