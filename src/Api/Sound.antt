-- ===== src/Api/Sound.antt =====
-- The registry and the shared sessions agree.
use dart_terminal.Base.{
  ℕ, ◌^◌, ◌<◌, ◌≡◌, refl, sym, ap, ◌∙◌, ◌⊎◌, inl, inr, Bool, Option, none, some, List, [], ◌∷◌,
  arith, Eq-cases, Option-cases, get_elem?, set, get_elem?-set_self, get_elem?-set_ne,
  lt-length_of_some,
}
use dart_terminal.Registry.{lookup}
use dart_terminal.Registry.Validity.{IsValid}
use dart_terminal.Session.{Session}
use dart_terminal.Session.Calls.{
  Call, starts, writes_bytes, acknowledges, resizes_to, sends, closes_within, forces, perform,
  start, enqueue_write, queue_write, push_write, acknowledge, acknowledge_front, pop_batch, resize,
  send_signal, close, force_close,
}
use mathlib.Core.Option.{some-injective}
use dart_terminal.Api.{Library, find_session, session_at}

-- Every 64-bit handle that the registry knows is that of one session, which carries it.
pub record IsSound (l : Library) : Type 0 where
  pub valid : IsValid l.registry
  pub named :
      (h i : ℕ)
      → h < 2 ^ 64
      → lookup l.registry h ≡ some i
      → (s : Session) × (get_elem? l.sessions i ≡ some s) × (s.handle ≡ h)

-- So no two handles share a session.
pub lookup_injective :
    (l : Library) (h k i : ℕ)
    → IsSound l
    → h < 2 ^ 64
    → k < 2 ^ 64
    → lookup l.registry h ≡ some i
    → lookup l.registry k ≡ some i
    → h ≡ k
lookup_injective l h k i v hh hk e f =
    let (s, at, own) = v.named h i hh e in
    let (t, bt, other) = v.named k i hk f in
    sym own ∙ ap (λ (s : Session). s.handle) (some-injective s t (sym at ∙ bt)) ∙ other

enqueue_write-handle :
    (o : Option (List ℕ)) (tracked : Bool) (s : Session)
    → (enqueue_write o tracked s).session.handle ≡ s.handle
unfolding enqueue_write queue_write push_write
enqueue_write-handle none tracked s = refl
enqueue_write-handle (some bytes) tracked s = ground arith

acknowledge_front-handle :
    (q n : ℕ) (s : Session) (bs : _) → (acknowledge_front q n bs s).session.handle ≡ s.handle
unfolding acknowledge_front pop_batch
acknowledge_front-handle q n s [] = refl
acknowledge_front-handle q n s (b ∷ bs) = ground arith

-- No call changes the handle that a session carries.
pub perform-handle : (c : Call) (s : Session) → (perform c s).session.handle ≡ s.handle
unfolding perform start acknowledge resize send_signal close force_close
perform-handle (starts b) s = ground arith
perform-handle (writes_bytes o tracked) s = enqueue_write-handle o tracked s
perform-handle (acknowledges q n) s = acknowledge_front-handle q n s s.outstanding
perform-handle (resizes_to r c) s = ground arith
perform-handle (sends n) s = ground arith
perform-handle (closes_within n) s = ground arith
perform-handle forces s = ground arith

-- Exchanging a session for one with its handle, as a step of its reactor does.
pub exchanged-IsSound :
    (l : Library) (i : ℕ) (s t : Session)
    → IsSound l
    → get_elem? l.sessions i ≡ some s
    → t.handle ≡ s.handle
    → IsSound (record l { sessions = set l.sessions i t })
exchanged-IsSound l i s t v at same = record {
  valid = v.valid;
  named = λ h j hh e. elim (Eq-cases i j) [
    | inl eq ↦
        let (u, ut, own) = v.named h j hh e in
        (
          t,
          ap (get_elem? (set l.sessions i t)) (sym eq)
              ∙ get_elem?-set_self l.sessions i t (lt-length_of_some l.sessions i s at),
          same
              ∙ ap (λ (w : Session). w.handle)
                  (some-injective s u (sym at ∙ ap (get_elem? l.sessions) eq ∙ ut))
              ∙ own,
        )
    | inr ne ↦
        let (u, ut, own) = v.named h j hh e in
        (u, get_elem?-set_ne l.sessions {i = i} {j = j} t (λ p. ground arith) ∙ ut, own)
  ];
}

pub find_session-live :
    (l : Library) (h : ℕ)
    → IsSound l
    → h < 2 ^ 64
    → ((lookup l.registry h ≡ none) × (find_session l h ≡ none))
      ⊎ ((i : ℕ) × (s : Session) × (lookup l.registry h ≡ some i)
          × (get_elem? l.sessions i ≡ some s)
          × (s.handle ≡ h)
          × (find_session l h ≡ some s))
unfolding find_session session_at
find_session-live l h v hh = elim (Option-cases (lookup l.registry h)) [
  | inl gone ↦ inl (gone, rw gone refl)
  | inr (i, e) ↦ let (s, at, own) = v.named h i hh e in inr (i, s, e, at, own, rw e at)
]

-- A library is as sound as its registry and its sessions.
pub same-IsSound :
    (l m : Library) → IsSound l → m.registry ≡ l.registry → m.sessions ≡ l.sessions → IsSound m
same-IsSound l m v r s = record {
  valid = rw r v.valid;
  named = λ h i hh e. rw s (v.named h i hh (ap (λ q. lookup q h) (sym r) ∙ e));
}
