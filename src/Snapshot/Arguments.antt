-- ===== src/Snapshot/Arguments.antt =====
-- ReadProcessArguments of packages/dart_pty_macos/native/PtySession.cc: the arguments of a process
-- out of the block that sysctl KERN_PROCARGS2 fills.
pub mod Strings
pub mod Bounds
pub mod RoundTrip
use dart_terminal.Base.{
  ℕ, zero, suc, ◌+◌, ◌-◌, ◌*◌, ◌^◌, min, ◌||◌, List, [], ◌∷◌, ◌++◌, ltb, leb, ◌==◌, if◌then◌else◌,
  length, take, drop,
}
use dart_terminal.Errno
use dart_terminal.Snapshot.Bytes.{strnlen, skip_nul}

-- DPTY_FOREGROUND_ARGUMENT_BYTES_CAPACITY and its fellows of dart_pty_macos.h.
abbrev pub argument_bytes_capacity : ℕ
argument_bytes_capacity = 65536

abbrev pub argument_limit : ℕ
argument_limit = 128

abbrev pub single_argument_limit : ℕ
single_argument_limit = 16384

-- sysctl: the size that the block wants, or errno as it is left; and the bytes copied.
pub data SizeResult : Type 0 where
  required : ℕ → SizeResult
  size_failed : ℕ → SizeResult

pub data BlockResult : Type 0 where
  copied : List ℕ → BlockResult
  block_failed : ℕ → BlockResult

-- The fields of DptyForegroundJobSnapshotV1 that the function writes. Of `arguments` the first
-- `argument_bytes_length` bytes.
pub record Arguments : Type 0 where
  pub arguments_error : ℕ
  pub arguments_truncated : ℕ
  pub argument_count : ℕ
  pub total_argument_count : ℕ
  pub omitted_argument_count : ℕ
  pub argument_bytes_length : ℕ
  pub arguments : List ℕ

abbrev pub no_arguments : Arguments
no_arguments = record {
  arguments_error = 0;
  arguments_truncated = 0;
  argument_count = 0;
  total_argument_count = 0;
  omitted_argument_count = 0;
  argument_bytes_length = 0;
  arguments = [];
}

-- `errno == 0 ? fallback : errno`.
abbrev pub error_or : ℕ → ℕ → ℕ
error_or fallback e = if e == 0 then fallback else e

-- An `int` of the block, as a 32-bit pattern; little-endian.
unfoldable pub int_at : List ℕ → ℕ
int_at (a ∷ b ∷ c ∷ d ∷ rest) = a + 256 * b + 65536 * c + 16777216 * d
int_at _ = 0

-- One argument of `size` bytes is kept, cut to the limit of a single one.
unfoldable pub keep_argument : ℕ → List ℕ → Arguments → Arguments
keep_argument size rest o =
    let retained = min size single_argument_limit in
    record o {
      arguments_truncated = if retained == size then o.arguments_truncated else 1;
      argument_count = o.argument_count + 1;
      argument_bytes_length = o.argument_bytes_length + retained + 1;
      arguments = o.arguments ++ (take retained rest ++ 0 ∷ []);
    }

-- The loop, over the arguments still to be kept and the bytes from the cursor to the end.
unfoldable pub keep_arguments : ℕ → List ℕ → Arguments → Arguments
unfolding keep_argument
keep_arguments zero rest o = o
keep_arguments (suc n) rest o =
    let size = strnlen rest in
    let more = keep_arguments n (drop (size + 1) rest) (keep_argument size rest o) in
    if length rest == 0
    then record o { arguments_error = Errno.io }
    else if size == length rest
    then record o { arguments_error = Errno.io }
    else if ltb (argument_bytes_capacity - min size single_argument_limit - 1)
        o.argument_bytes_length
    then record o { arguments_truncated = 1 }
    else more

-- What is set after the loop.
unfoldable pub close_arguments : Arguments → Arguments
close_arguments o = record o {
  omitted_argument_count = o.total_argument_count - o.argument_count;
  arguments_truncated =
      if ltb o.argument_count o.total_argument_count then 1 else o.arguments_truncated;
}

unfoldable pub parse_arguments : ℕ → List ℕ → Arguments → Arguments
unfolding keep_arguments close_arguments
parse_arguments count rest o =
    let t = record o { total_argument_count = count } in
    let executable_length = strnlen rest in
    if executable_length == length rest
    then record t { arguments_error = Errno.io }
    else close_arguments
        (keep_arguments (min count argument_limit) (skip_nul (drop (executable_length + 1) rest)) t)

unfoldable pub parse_block : BlockResult → Arguments → Arguments
unfolding parse_arguments int_at
parse_block (block_failed e) o = record o { arguments_error = error_or Errno.io e }
parse_block (copied block) o =
    if ltb (length block) 4 || ltb argument_bytes_capacity (length block)
    then record o { arguments_error = Errno.io }
    else if leb (2 ^ 31) (int_at block)
    then record o { arguments_error = Errno.io }
    else parse_arguments (int_at block) (drop 4 block) o

-- The block is only asked for when its size fits.
unfoldable pub read_process_arguments : SizeResult → BlockResult → Arguments → Arguments
unfolding parse_block
read_process_arguments (size_failed e) block o = record o { arguments_error = error_or Errno.io e }
read_process_arguments (required n) block o =
    if ltb n 4
    then record o { arguments_error = Errno.io }
    else if ltb argument_bytes_capacity n
    then record o { arguments_error = Errno.toobig; arguments_truncated = 1 }
    else parse_block block o
