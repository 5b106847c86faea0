-- ===== src/Config/Layout.antt =====
-- Clients compiled against an older, shorter DptySessionConfigV1: the fields that their structure
-- does not have are never read.
use dart_terminal.Base.{ℕ, ◌<◌, ◌≡◌, false, some, arith, leb}
use dart_terminal.Config.{
  ConfigV1, copy_config, is_malformed, copy_fields, copy_sizes, read_batch_config_size, config_size,
}

-- A structure that ends before `read_batch_bytes` is copied to the same result whatever lies behind
-- it in memory.
pub copy_config-oldest :
    (s : ConfigV1) (x y : ℕ)
    → s.struct_size < read_batch_config_size
    → copy_config (some (record s { read_batch_bytes = x; read_batches_per_event_loop_turn = y }))
      ≡ copy_config (some s)
unfolding copy_config is_malformed copy_fields copy_sizes
copy_config-oldest s x y short =
    let a : leb read_batch_config_size s.struct_size ≡ false = ground arith in
    let b : leb config_size s.struct_size ≡ false = ground arith in simp (a, b)

-- A structure that ends before `read_batches_per_event_loop_turn` is copied to the same result
-- whatever lies there in memory.
pub copy_config-older :
    (s : ConfigV1) (y : ℕ)
    → s.struct_size < config_size
    → copy_config (some (record s { read_batches_per_event_loop_turn = y })) ≡ copy_config (some s)
unfolding copy_config is_malformed copy_fields copy_sizes
copy_config-older s y short = let b : leb config_size s.struct_size ≡ false = ground arith in simp b
