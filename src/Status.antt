-- ===== src/Status.antt =====
-- DptyStatus and DptyError of packages/dart_pty_macos/native/dart_pty_macos.h, and the thread's
-- last error, which SetError of PtySession.cc fills.
use dart_terminal.Base.{ℕ, String}

pub data Status : Type 0 where
  ok invalid_argument invalid_handle wrong_state backpressured system_error timed_out : Status

-- `g_last_error`. A null message is the empty one.
pub record LastError : Type 0 where
  pub status : Status
  pub error_number : ℕ
  pub message : String

unfoldable pub set_error : Status → ℕ → String → LastError
set_error s n m = record { status = s; error_number = n; message = m }

unfoldable pub clear_error : LastError
unfolding set_error
clear_error = set_error ok 0 ""
