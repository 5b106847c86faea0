-- ===== src/Errno.antt =====
-- The errno values of the macOS headers that PtySession.cc names; EWOULDBLOCK is EAGAIN there.
use dart_terminal.Base.{ℕ}

abbrev pub perm : ℕ
perm = 1

abbrev pub noent : ℕ
noent = 2

abbrev pub srch : ℕ
srch = 3

abbrev pub intr : ℕ
intr = 4

abbrev pub io : ℕ
io = 5

abbrev pub nxio : ℕ
nxio = 6

abbrev pub toobig : ℕ
toobig = 7

abbrev pub child : ℕ
child = 10

abbrev pub nomem : ℕ
nomem = 12

abbrev pub inval : ℕ
inval = 22

abbrev pub notty : ℕ
notty = 25

abbrev pub again : ℕ
again = 35

abbrev pub timedout : ℕ
timedout = 60

abbrev pub nametoolong : ℕ
nametoolong = 63

abbrev pub overflow : ℕ
overflow = 84

abbrev pub stale : ℕ
stale = 70

abbrev pub range : ℕ
range = 34
