-- ===== src/Api/Calls.antt =====
-- What the calls on one handle do to the sessions behind all handles.
use dart_terminal.Base.{
  ℕ, ◌^◌, ◌<◌, ◌≡◌, refl, ap, ◌∙◌, ◌≢◌, ◌⊎◌, inl, inr, none, some, [], arith, Eq-cases,
  Option-cases, get_elem?, set, get_elem?-set_self, get_elem?-set_ne, lt-length_of_some,
}
use dart_terminal.Status.{invalid_handle, set_error}
use dart_terminal.Registry.{lookup}
use dart_terminal.Session.{Session}
use dart_terminal.Session.Calls.{Reply, Call, perform}
use dart_terminal.Api.{Library, Outcome, session_at, find_session, lookup_failed, call_at, call}
use dart_terminal.Api.Sound.{
  IsSound, lookup_injective, perform-handle, exchanged-IsSound, find_session-live, same-IsSound,
}

-- The session behind `h` has answered with `f`: its reply is what the call reports and what it leaves
-- as the last error, its session is what the handle finds, and no other handle is touched.
pub record IsPerformed (f : Session → Reply) (h : ℕ) (l : Library) (s : Session) (o : Outcome)
    : Type 0 where
  pub live : find_session l h ≡ some s
  pub status : o.status ≡ (f s).error.status
  pub error : o.library.last_error ≡ (f s).error
  pub request : (o.request_id ≡ (f s).request_id) × (o.handle ≡ 0)
  pub effects : o.effects ≡ (f s).effects
  pub changed : find_session o.library h ≡ some (f s).session
  pub others : (k : ℕ) → k < 2 ^ 64 → k ≢ h → find_session o.library k ≡ find_session l k
  pub registered : o.library.registry ≡ l.registry

-- The handle is not live: the call fails, and changes nothing but the error.
pub record IsStale (h : ℕ) (l : Library) (o : Outcome) : Type 0 where
  pub gone : find_session l h ≡ none
  pub failed : o.status ≡ invalid_handle
  pub error : o.library.last_error.status ≡ invalid_handle
  pub silent : (o.request_id ≡ 0) × (o.handle ≡ 0) × (o.effects ≡ [])
  pub same : (o.library.registry ≡ l.registry) × (o.library.sessions ≡ l.sessions)

abbrev pub IsCalled : (Session → Reply) → ℕ → Library → Outcome → Type 0
IsCalled f h l o = IsSound o.library × (((s : Session) × IsPerformed f h l s o) ⊎ IsStale h l o)

pub lookup_failed-IsStale :
    (h : ℕ) (l : Library) → find_session l h ≡ none → IsStale h l (lookup_failed l)
unfolding lookup_failed set_error
lookup_failed-IsStale h l lost = record {
  gone = lost;
  failed = refl;
  error = refl;
  silent = (refl, refl, refl);
  same = (refl, refl);
}

-- Another handle finds what it found when session `i` is exchanged.
exchanged_others :
    (l : Library) (h k i : ℕ) (t : Session)
    → IsSound l
    → h < 2 ^ 64
    → k < 2 ^ 64
    → lookup l.registry h ≡ some i
    → k ≢ h
    → session_at (record l { sessions = set l.sessions i t }) (lookup l.registry k)
      ≡ find_session l k
unfolding find_session session_at
exchanged_others l h k i t v hh hk e ne = elim (Option-cases (lookup l.registry k)) [
  | inl gone ↦ rw gone refl
  | inr (j, f) ↦ rw f (elim (Eq-cases i j) [
    | inl same ↦ absurd (ne (lookup_injective l k h j v hk hh f (e ∙ ap some same)))
    | inr other ↦ get_elem?-set_ne l.sessions {i = i} {j = j} t (λ p. ground arith)
  ])
]

call_at-IsCalled :
    (c : Call) (h i : ℕ) (s : Session) (l : Library)
    → IsSound l
    → h < 2 ^ 64
    → lookup l.registry h ≡ some i
    → get_elem? l.sessions i ≡ some s
    → find_session l h ≡ some s
    → IsCalled (perform c) h l (call_at c l (some i) (some s))
unfolding call_at find_session session_at
call_at-IsCalled c h i s l v hh e at live =
    let t : Session = (perform c s).session in
    (
      same-IsSound (record l { sessions = set l.sessions i t }) _
          (exchanged-IsSound l i s t v at (perform-handle c s)) refl refl,
      inl (
        s,
        record {
          live = live;
          status = refl;
          error = refl;
          request = (refl, refl);
          registered = refl;
          effects = refl;
          changed = rw e (get_elem?-set_self l.sessions i t (lt-length_of_some l.sessions i s at));
          others = λ k hk ne. exchanged_others l h k i t v hh hk e ne;
        },
      ),
    )

-- A call on a handle reaches the one session behind it and no other, or the handle is not live.
pub call-IsCalled :
    (c : Call) (h : ℕ) (l : Library)
    → IsSound l
    → h < 2 ^ 64
    → IsCalled (perform c) h l (call c h l)
unfolding call call_at session_at
call-IsCalled c h l v hh = elim (find_session-live l h v hh) [
  | inl (gone, lost) ↦ rw gone (same-IsSound l _ v refl refl, inr (lookup_failed-IsStale h l lost))
  | inr (i, s, e, at, own, live) ↦ rw (e, at) (call_at-IsCalled c h i s l v hh e at live)
]
