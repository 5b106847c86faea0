-- ===== src/Api/Destroy.antt =====
-- What dpty_session_destroy does.
use dart_terminal.Base.{
  ℕ, ◌^◌, ◌<◌, ◌≡◌, refl, sym, ap, ◌∙◌, ◌≢◌, ◌⊎◌, inl, inr, true, false, Option, none, some, [],
  arith, ◌==◌, if◌then◌else◌, if_cases,
}
use dart_terminal.Status.{ok, wrong_state, set_error, clear_error}
use mathlib.Core.Option.{none-ne-some}
use dart_terminal.Registry.{Registry, lookup, remove}
use dart_terminal.Registry.Validity.{remove-IsValid}
use dart_terminal.Registry.Lookup.{lookup-remove}
use dart_terminal.Session.{Session, finished}
use dart_terminal.Session.Calls.{can_destroy}
use dart_terminal.Api.{
  Library, Outcome, session_at, find_session, lookup_failed, destroyed, destroy_found,
  dpty_session_destroy,
}
use dart_terminal.Api.Sound.{IsSound, find_session-live, same-IsSound}
use dart_terminal.Api.Calls.{IsStale, lookup_failed-IsStale}

-- The handle is given up, and no other handle notices.
pub record IsDestroyed (h : ℕ) (l : Library) (s : Session) (o : Outcome) : Type 0 where
  pub live : find_session l h ≡ some s
  pub ready : (s.state ≡ finished) × (s.outstanding ≡ [])
  pub succeeded : o.status ≡ ok
  pub gone : find_session o.library h ≡ none
  pub others : (k : ℕ) → k < 2 ^ 64 → k ≢ h → find_session o.library k ≡ find_session l k

-- The session has not finished, or has output that the client did not acknowledge.
pub record IsBusy (h : ℕ) (l : Library) (s : Session) (o : Outcome) : Type 0 where
  pub live : find_session l h ≡ some s
  pub busy : (s.state ≢ finished) ⊎ (s.outstanding ≢ [])
  pub failed : o.status ≡ wrong_state
  pub same : (o.library.registry ≡ l.registry) × (o.library.sessions ≡ l.sessions)

abbrev pub IsReleased : ℕ → Library → Outcome → Type 0
IsReleased h l o =
    IsSound o.library
    × (((s : Session) × IsDestroyed h l s o) ⊎ ((s : Session) × IsBusy h l s o) ⊎ IsStale h l o)

removed-IsSound :
    (h : ℕ) (l : Library)
    → IsSound l
    → h < 2 ^ 64
    → IsSound (record l { registry = (remove h l.registry).1 })
removed-IsSound h l v hh = record {
  valid = remove-IsValid h l.registry v.valid;
  named = λ k i hk e. v.named k i hk (ground (arith, (lookup-remove h k l.registry hh hk).1));
}

can_destroy-ready :
    (s : Session) → can_destroy s ≡ true → (s.state ≡ finished) × (s.outstanding ≡ [])
unfolding can_destroy
can_destroy-ready s h = (ground arith, ground arith)

can_destroy-busy :
    (s : Session) → can_destroy s ≡ false → (s.state ≢ finished) ⊎ (s.outstanding ≢ [])
unfolding can_destroy
can_destroy-busy s h = ground arith

destroyed-IsReleased :
    (h i : ℕ) (s : Session) (l : Library) (r : Option ℕ × Registry ℕ)
    → remove h l.registry ≡ r
    → lookup l.registry h ≡ some i
    → find_session l h ≡ some s
    → can_destroy s ≡ true
    → h < 2 ^ 64
    → IsSound l
    → IsReleased h l (destroyed l r)
unfolding destroyed set_error clear_error find_session session_at
destroyed-IsReleased h i s l (none, r) e live found ready hh v =
    absurd (none-ne-some i (sym (ap (λ p. p.0) e) ∙ (lookup-remove h h l.registry hh hh).0 ∙ live))
destroyed-IsReleased h i s l (some j, r) e live found ready hh v =
    let q : (remove h l.registry).1 ≡ r = ap (λ p. p.1) e in
    let rest : (k : ℕ) → k < 2 ^ 64 → lookup r k ≡ (if h == k then none else lookup l.registry k) =
      λ k hk. ap (λ r. lookup r k) (sym q) ∙ (lookup-remove h k l.registry hh hk).1 in
    (
      same-IsSound (record l { registry = (remove h l.registry).1 }) _ (removed-IsSound h l v hh)
          (sym q) refl,
      inl (
        s,
        record {
          live = found;
          ready = can_destroy-ready s ready;
          succeeded = refl;
          gone = let z : lookup r h ≡ none = rest h hh ∙ ground arith in ap (session_at l) z;
          others = λ k hk ne.
              let z : lookup r k ≡ lookup l.registry k = rest k hk ∙ ground arith in
              ap (session_at l) z;
        },
      ),
    )

-- On a sound library, destruction of a live handle answers OK exactly when its session has finished
-- and all its output is acknowledged: the handle is then not live, and every other handle finds
-- what it found. Otherwise it answers WRONG_STATE, or INVALID_HANDLE for a handle that is not live,
-- and nothing but the error is changed. The library stays sound.
pub dpty_session_destroy-IsReleased :
    (h : ℕ) (l : Library) → IsSound l → h < 2 ^ 64 → IsReleased h l (dpty_session_destroy h l)
unfolding dpty_session_destroy destroy_found lookup_failed set_error
dpty_session_destroy-IsReleased h l v hh = elim (find_session-live l h v hh) [
  | inl (gone, lost) ↦
      rw lost (same-IsSound l _ v refl refl, inr (inr (lookup_failed-IsStale h l lost)))
  | inr (i, s, e, at, own, live) ↦ rw live (
      if_cases (IsReleased h l) (can_destroy s)
        (λ ready. destroyed-IsReleased h i s l (remove h l.registry) refl e live ready hh v)
        (λ busy. (
          same-IsSound l _ v refl refl,
          inr (
              inl (
                s,
                record {
                  live = live;
                  busy = can_destroy-busy s busy;
                  failed = refl;
                  same = (refl, refl);
                },
              )),
        )))
]
