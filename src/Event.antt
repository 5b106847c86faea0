-- ===== src/Event.antt =====
-- DptyEventType of packages/dart_pty_macos/native/dart_pty_macos.h, the callback's arguments, and
-- what a session does to the world around it.
pub mod Trace
use dart_terminal.Base.{ℕ, Bool, List, []}
use dart_terminal.Int.{ℤ}

pub data EventType : Type 0 where
  started output exit error write_enqueued write_dequeued write_completed write_error : EventType
  force_close_dequeued signal_delivery waitpid_result exit_published state_snapshot : EventType
  termios_snapshot process_exit_ready external_reap_observed : EventType

-- `data` is null, the empty list, for all but OUTPUT.
pub record Event : Type 0 where
  pub type : EventType
  pub sequence : ℕ
  pub bytes : List ℕ
  pub length : ℕ
  pub value1 : ℤ
  pub value2 : ℤ
  pub system_error : ℕ

-- A callback, a wake-up of the reactor, the reactor thread's creation, a change of a kqueue filter,
-- bytes that `write` took, a resize of the terminal, a signal sent to a process or a (negative)
-- process group, and a closed descriptor.
pub data Effect : Type 0 where
  emits : Event → Effect
  wakes : ℕ → Effect
  spawns : Effect
  read_filter write_filter : Bool → Effect
  took : List ℕ → Effect
  resizes : ℕ → ℕ → Effect
  signals : ℤ → ℕ → Effect
  closes : ℕ → Effect

abbrev pub plain : EventType → ℕ → ℕ → ℤ → ℤ → ℕ → Event
plain t sequence n v1 v2 e = record {
  type = t;
  sequence = sequence;
  bytes = [];
  length = n;
  value1 = v1;
  value2 = v2;
  system_error = e;
}
