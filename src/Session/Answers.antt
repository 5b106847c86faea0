-- ===== src/Session/Answers.antt =====
-- How EnqueueWrite of packages/dart_pty_macos/native/PtySession.cc answers, by the byte queue that the
-- session's writes stand for.
use dart_terminal.Base.{
  ℕ, ◌+◌, ◌-◌, ◌≤◌, ◌<◌, ◌≡◌, refl, ap, subst, ◌≢◌, ◌↔◌, ◌⊎◌, inl, inr, Bool, true, false, ◌||◌,
  Option, none, some, List, [], ◌∷◌, arith, ltb, ◌==◌, Bool-cases, if_cases, length,
}
use dart_terminal.Status.{
  Status, ok, invalid_argument, invalid_handle, wrong_state, backpressured, system_error, timed_out,
  set_error, clear_error,
}
use dart_terminal.Session.{running, State, is_running, Session}
use dart_terminal.Session.Calls.{Reply, queue_write, enqueue_write, accepts_input}
use dart_terminal.Session.Invariant.{Inv}
use dart_terminal.Session.Bytes.{unwritten, length-unwritten}

-- The bytes of a write are there, and the session takes input.
pub record IsOpen (o : Option (List ℕ)) (s : Session) : Type 0 where
  pub bytes : List ℕ
  pub given : (o ≡ some bytes) × (0 < length bytes)
  pub taken : (s.state ≡ running) × (s.closing ≡ false) × (s.child_completed ≡ false)

-- Some bytes are there, and the session takes no input.
pub record IsShut (o : Option (List ℕ)) (s : Session) : Type 0 where
  pub given : (o ≢ none) × (o ≢ some [])
  pub shut : (s.state ≢ running) ⊎ (s.closing ≡ true) ⊎ (s.child_completed ≡ true)

-- When a write of `o` is answered with a status.
abbrev pub IsAnswered : Option (List ℕ) → Session → Status → Type 0
IsAnswered o s ok =
    (p : IsOpen o s) × (length (unwritten s) + length p.bytes ≤ s.config.write_capacity)
IsAnswered o s invalid_argument = (o ≡ none) ⊎ (o ≡ some [])
IsAnswered o s wrong_state = IsShut o s
IsAnswered o s backpressured =
    (p : IsOpen o s) × (s.config.write_capacity < length (unwritten s) + length p.bytes)
IsAnswered o s _ = ⊥

is_running-running : (a : State) → is_running a ≡ true → a ≡ running
is_running-running a h = ground arith

accepts_input-shut :
    (s : Session)
    → accepts_input s ≡ false
    → (s.state ≢ running) ⊎ (s.closing ≡ true) ⊎ (s.child_completed ≡ true)
accepts_input-shut s h = ground arith

queue_write-IsAnswered :
    (b : ℕ) (bs : List ℕ) (tracked : Bool) (s : Session)
    → Inv s
    → IsAnswered (some (b ∷ bs)) s (queue_write (b ∷ bs) tracked s).error.status
unfolding queue_write set_error clear_error
queue_write-IsAnswered b bs tracked s v =
    let n : length (unwritten s) ≡ s.write_queued_bytes = length-unwritten s v in
    let open_at : accepts_input s ≡ true → IsOpen (some (b ∷ bs)) s = λ h. record {
      bytes = b ∷ bs;
      given = (refl, omega arith);
      taken = (is_running-running s.state (ground arith), ground arith, ground arith);
    } in
    elim (Bool-cases (accepts_input s)) [
      | inr off ↦
          rw off (record { given = (ground arith, ground arith); shut = accepts_input-shut s off })
      | inl on ↦ rw on (
          if_cases (λ (r : Reply). IsAnswered (some (b ∷ bs)) s r.error.status)
            (ltb s.config.write_capacity (length (b ∷ bs))
              || ltb (s.config.write_capacity - length (b ∷ bs)) s.write_queued_bytes)
            (λ full. (open_at on, ground arith)) (λ room. (open_at on, ground arith)))
    ]

enqueue_write-answer :
    (o : Option (List ℕ)) (tracked : Bool) (s : Session)
    → Inv s
    → IsAnswered o s (enqueue_write o tracked s).error.status
unfolding enqueue_write set_error
enqueue_write-answer none tracked s v = inl refl
enqueue_write-answer (some []) tracked s v = inr refl
enqueue_write-answer (some (b ∷ bs)) tracked s v =
    let filled : (length (b ∷ bs) == 0) ≡ false = ground arith in
    rw filled (queue_write-IsAnswered b bs tracked s v)

-- No two of the statuses fit the same write.
IsOpen-IsShut : (o : Option (List ℕ)) (s : Session) → IsOpen o s → IsShut o s → ⊥
IsOpen-IsShut o s p q = elim q.shut [
  | inl off ↦ off p.taken.0
  | inr (inl closed) ↦ ground (arith, p.taken)
  | inr (inr over) ↦ ground (arith, p.taken)
]

IsOpen-given : (o : Option (List ℕ)) (s : Session) → IsOpen o s → (o ≡ none) ⊎ (o ≡ some []) → ⊥
IsOpen-given o s p h =
    let e : o ≡ some p.bytes = p.given.0 in let n : 0 < length p.bytes = p.given.1 in ground arith

IsShut-given : (o : Option (List ℕ)) (s : Session) → IsShut o s → (o ≡ none) ⊎ (o ≡ some []) → ⊥
IsShut-given o s q h = elim h [ inl e ↦ q.given.0 e | inr e ↦ q.given.1 e ]

within-beyond :
    (o : Option (List ℕ)) (s : Session) → IsAnswered o s ok → IsAnswered o s backpressured → ⊥
within-beyond o s (p, room) (q, full) =
    let e : o ≡ some p.bytes = p.given.0 in
    let f : o ≡ some q.bytes = q.given.0 in
    let same : p.bytes ≡ q.bytes = ground arith in
    let long : length p.bytes ≡ length q.bytes = ap length same in omega arith

ok_unique :
    (o : Option (List ℕ)) (s : Session) (b : Status) → IsAnswered o s ok → IsAnswered o s b → ok ≡ b
ok_unique o s ok h k = refl
ok_unique o s invalid_argument h k = absurd (IsOpen-given o s h.0 k)
ok_unique o s wrong_state h k = absurd (IsOpen-IsShut o s h.0 k)
ok_unique o s backpressured h k = absurd (within-beyond o s h k)
ok_unique o s invalid_handle h k = absurd k
ok_unique o s system_error h k = absurd k
ok_unique o s timed_out h k = absurd k

invalid_argument_unique :
    (o : Option (List ℕ)) (s : Session) (b : Status)
    → IsAnswered o s invalid_argument
    → IsAnswered o s b
    → invalid_argument ≡ b
invalid_argument_unique o s ok h k = absurd (IsOpen-given o s k.0 h)
invalid_argument_unique o s invalid_argument h k = refl
invalid_argument_unique o s wrong_state h k = absurd (IsShut-given o s k h)
invalid_argument_unique o s backpressured h k = absurd (IsOpen-given o s k.0 h)
invalid_argument_unique o s invalid_handle h k = absurd k
invalid_argument_unique o s system_error h k = absurd k
invalid_argument_unique o s timed_out h k = absurd k

wrong_state_unique :
    (o : Option (List ℕ)) (s : Session) (b : Status)
    → IsAnswered o s wrong_state
    → IsAnswered o s b
    → wrong_state ≡ b
wrong_state_unique o s ok h k = absurd (IsOpen-IsShut o s k.0 h)
wrong_state_unique o s invalid_argument h k = absurd (IsShut-given o s h k)
wrong_state_unique o s wrong_state h k = refl
wrong_state_unique o s backpressured h k = absurd (IsOpen-IsShut o s k.0 h)
wrong_state_unique o s invalid_handle h k = absurd k
wrong_state_unique o s system_error h k = absurd k
wrong_state_unique o s timed_out h k = absurd k

backpressured_unique :
    (o : Option (List ℕ)) (s : Session) (b : Status)
    → IsAnswered o s backpressured
    → IsAnswered o s b
    → backpressured ≡ b
backpressured_unique o s ok h k = absurd (within-beyond o s k h)
backpressured_unique o s invalid_argument h k = absurd (IsOpen-given o s h.0 k)
backpressured_unique o s wrong_state h k = absurd (IsOpen-IsShut o s h.0 k)
backpressured_unique o s backpressured h k = refl
backpressured_unique o s invalid_handle h k = absurd k
backpressured_unique o s system_error h k = absurd k
backpressured_unique o s timed_out h k = absurd k

IsAnswered-unique :
    (o : Option (List ℕ)) (s : Session) (a b : Status) → IsAnswered o s a → IsAnswered o s b → a ≡ b
IsAnswered-unique o s ok b h k = ok_unique o s b h k
IsAnswered-unique o s invalid_argument b h k = invalid_argument_unique o s b h k
IsAnswered-unique o s wrong_state b h k = wrong_state_unique o s b h k
IsAnswered-unique o s backpressured b h k = backpressured_unique o s b h k
IsAnswered-unique o s invalid_handle b h k = absurd h
IsAnswered-unique o s system_error b h k = absurd h
IsAnswered-unique o s timed_out b h k = absurd h

-- A write, tracked or not, is refused as invalid exactly if it has no bytes, by a null pointer or an
-- empty one; as out of state exactly if it has bytes and the session is not running, is closing or
-- its child has ended; as backpressured exactly if the session takes input and the unwritten bytes
-- and the new ones together exceed the capacity; and is accepted exactly if the session takes input
-- and they do not. It is never answered with another status.
pub enqueue_write-IsAnswered :
    (o : Option (List ℕ)) (tracked : Bool) (s : Session)
    → Inv s
    → (a : Status) → ((enqueue_write o tracked s).error.status ≡ a) ↔ IsAnswered o s a
enqueue_write-IsAnswered o tracked s v a =
    let b : Status = (enqueue_write o tracked s).error.status in
    let h : IsAnswered o s b = enqueue_write-answer o tracked s v in
    (λ e. subst (IsAnswered o s) e h, λ k. IsAnswered-unique o s b a h k)
