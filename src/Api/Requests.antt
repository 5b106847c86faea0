-- ===== src/Api/Requests.antt =====
-- What each of the eight functions of the C interface that change a session does with its handle.
use dart_terminal.Base.{ℕ, ◌^◌, ◌<◌, ◌≡◌, refl, Bool, true, false, Option, List, []}
use dart_terminal.Status.{invalid_argument, set_error}
use dart_terminal.Session.{Session}
use dart_terminal.Session.Calls.{
  Reply, start, enqueue_write, acknowledge, resize, send_signal, close, force_close, perform,
  starts, writes_bytes, acknowledges, resizes_to, sends, closes_within, forces,
}
use dart_terminal.Api.{
  Library, Outcome, dpty_session_start, dpty_session_write, dpty_session_write_tracked,
  dpty_session_ack_output, dpty_session_resize, dpty_session_send_signal, dpty_session_close,
  dpty_session_force_close,
}
use dart_terminal.Api.Sound.{IsSound, same-IsSound}
use dart_terminal.Api.Calls.{IsCalled, call-IsCalled}

-- A call of one of the functions, without its handle. `output` is whether the pointer for the
-- request number is not null.
pub data Request : Type 0 where
  to_start : (spawned : Bool) → Request
  to_write : Option (List ℕ) → Request
  to_write_tracked : Option (List ℕ) → (output : Bool) → Request
  to_acknowledge : (sequence size : ℕ) → Request
  to_resize : (rows columns : ℕ) → Request
  to_signal : ℕ → Request
  to_close : (grace : ℕ) → Request
  to_force_close : Request

-- The function of the interface.
unfoldable pub serve : Request → ℕ → Library → Outcome
unfolding dpty_session_start dpty_session_write dpty_session_write_tracked dpty_session_ack_output
    dpty_session_resize dpty_session_send_signal dpty_session_close dpty_session_force_close
serve (to_start spawned) h l = dpty_session_start h spawned l
serve (to_write bytes) h l = dpty_session_write h bytes l
serve (to_write_tracked bytes output) h l = dpty_session_write_tracked h bytes output l
serve (to_acknowledge sequence size) h l = dpty_session_ack_output h sequence size l
serve (to_resize rows columns) h l = dpty_session_resize h rows columns l
serve (to_signal n) h l = dpty_session_send_signal h n l
serve (to_close grace) h l = dpty_session_close h grace l
serve to_force_close h l = dpty_session_force_close h l

-- The method that its documentation promises, on a session of its own.
unfoldable pub method : Request → Session → Reply
method (to_start spawned) s = start spawned s
method (to_write bytes) s = enqueue_write bytes false s
method (to_write_tracked bytes output) s = enqueue_write bytes true s
method (to_acknowledge sequence size) s = acknowledge sequence size s
method (to_resize rows columns) s = resize rows columns s
method (to_signal n) s = send_signal n s
method (to_close grace) s = close grace s
method to_force_close s = force_close s

-- The call is refused before any lookup: nothing but the error is changed.
pub record IsUnplaced (l : Library) (o : Outcome) : Type 0 where
  pub failed : o.status ≡ invalid_argument
  pub error : o.library.last_error.status ≡ invalid_argument
  pub silent : (o.request_id ≡ 0) × (o.handle ≡ 0) × (o.effects ≡ [])
  pub same : (o.library.registry ≡ l.registry) × (o.library.sessions ≡ l.sessions)

abbrev pub IsServed : Request → ℕ → Library → Outcome → Type 0
IsServed (to_write_tracked bytes false) h l o = IsSound o.library × IsUnplaced l o
IsServed q h l o = IsCalled (method q) h l o

-- On a sound library, each of the functions on a handle either reaches the one session behind it:
-- it answers with the status and the request number of that session's method and has its effects,
-- leaves its error as the last one, the handle then finds the session that the method leaves, and
-- every other handle what it found before; or the handle is not live, and it answers
-- INVALID_HANDLE. A tracked write without a place for the request number answers INVALID_ARGUMENT,
-- whatever the handle. In these last two cases nothing but the error is changed. The library stays
-- sound.
pub serve-IsServed :
    (q : Request) (h : ℕ) (l : Library) → IsSound l → h < 2 ^ 64 → IsServed q h l (serve q h l)
unfolding serve method perform set_error
serve-IsServed (to_start spawned) h l v hh = call-IsCalled (starts spawned) h l v hh
serve-IsServed (to_write bytes) h l v hh = call-IsCalled (writes_bytes bytes false) h l v hh
serve-IsServed (to_write_tracked bytes true) h l v hh =
    call-IsCalled (writes_bytes bytes true) h l v hh
serve-IsServed (to_write_tracked bytes false) h l v hh = (
  same-IsSound l _ v refl refl,
  record { failed = refl; error = refl; silent = (refl, refl, refl); same = (refl, refl) },
)
serve-IsServed (to_acknowledge sequence size) h l v hh =
    call-IsCalled (acknowledges sequence size) h l v hh
serve-IsServed (to_resize rows columns) h l v hh = call-IsCalled (resizes_to rows columns) h l v hh
serve-IsServed (to_signal n) h l v hh = call-IsCalled (sends n) h l v hh
serve-IsServed (to_close grace) h l v hh = call-IsCalled (closes_within grace) h l v hh
serve-IsServed to_force_close h l v hh = call-IsCalled forces h l v hh
