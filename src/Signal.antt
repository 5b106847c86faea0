-- ===== src/Signal.antt =====
-- The signal numbers of the macOS headers that PtySession.cc names.
use dart_terminal.Base.{ℕ}

abbrev pub hup : ℕ
hup = 1

abbrev pub int : ℕ
int = 2

abbrev pub quit : ℕ
quit = 3

abbrev pub kill : ℕ
kill = 9

abbrev pub term : ℕ
term = 15

abbrev pub tstp : ℕ
tstp = 18
