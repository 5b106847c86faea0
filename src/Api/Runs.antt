-- ===== src/Api/Runs.antt =====
-- Sequences of calls, with steps of the reactors between them.
pub mod Stale
pub mod Within
use dart_terminal.Base.{
  ℕ, suc, ◌^◌, ◌<◌, ◌≡◌, refl, sym, ◌∙◌, Bool, Option, none, some, List, [], ◌∷◌, get_elem?, set,
}
use dart_terminal.Status.{clear_error}
use dart_terminal.Config.{ConfigV1}
use dart_terminal.Registry.{empty}
use dart_terminal.Registry.Validity.{empty-IsValid}
use dart_terminal.Registry.Lookup.{lookup-empty}
use dart_terminal.Session.{Session}
use dart_terminal.Session.Calls.{Call}
use mathlib.Core.Option.{none-ne-some}
use dart_terminal.Api.{Library, dpty_session_create, call, dpty_session_destroy}
use dart_terminal.Api.Sound.{IsSound, exchanged-IsSound}
use dart_terminal.Api.Create.{dpty_session_create-IsCreated}
use dart_terminal.Api.Calls.{call-IsCalled}
use dart_terminal.Api.Destroy.{dpty_session_destroy-IsReleased}

-- A call, or a step of the reactor of session `i`: it changes the session in any way but its
-- handle, which `SetHandle` alone writes.
pub data Step : Type 0 where
  creates : Option ConfigV1 → Bool → Bool → Step
  calls : Call → ℕ → Step
  destroys : ℕ → Step
  advances : ℕ → (f : Session → Session) → ((s : Session) → (f s).handle ≡ s.handle) → Step

abbrev pub advance_session : ℕ → (Session → Session) → Library → Option Session → Library
advance_session i f l none = l
advance_session i f l (some s) = record l { sessions = set l.sessions i (f s) }

unfoldable pub step : Step → Library → Library
unfolding dpty_session_create call dpty_session_destroy
step (creates config output allocated) l = (dpty_session_create config output allocated l).library
step (calls c h) l = (call c h l).library
step (destroys h) l = (dpty_session_destroy h l).library
step (advances i f p) l = advance_session i f l (get_elem? l.sessions i)

unfoldable pub run_steps : List Step → Library → Library
unfolding step
run_steps [] l = l
run_steps (s ∷ ss) l = run_steps ss (step s l)

-- The library when it is loaded.
unfoldable pub loaded : Library
unfolding clear_error
loaded = record { registry = empty; sessions = []; last_error = clear_error }

-- A handle is a 64-bit number.
abbrev pub InRange : Step → Type 0
InRange (creates config output allocated) = Unit {0}
InRange (calls c h) = h < 2 ^ 64
InRange (destroys h) = h < 2 ^ 64
InRange (advances i f p) = Unit {0}

abbrev pub AreInRange : List Step → Type 0
AreInRange [] = Unit {0}
AreInRange (s ∷ ss) = InRange s × AreInRange ss

abbrev pub destructions : List Step → ℕ
destructions [] = 0
destructions (creates config output allocated ∷ ss) = destructions ss
destructions (calls c h ∷ ss) = destructions ss
destructions (destroys h ∷ ss) = suc (destructions ss)
destructions (advances i f p ∷ ss) = destructions ss

advance_session-IsSound :
    (i : ℕ) (f : Session → Session) (l : Library) (o : Option Session)
    → ((s : Session) → (f s).handle ≡ s.handle)
    → get_elem? l.sessions i ≡ o
    → IsSound l
    → IsSound (advance_session i f l o)
advance_session-IsSound i f l none p e v = v
advance_session-IsSound i f l (some s) p e v = exchanged-IsSound l i s (f s) v e (p s)

step-IsSound : (s : Step) (l : Library) → InRange s → IsSound l → IsSound (step s l)
unfolding step
step-IsSound (creates config output allocated) l r v =
    (dpty_session_create-IsCreated config output allocated l v).0
step-IsSound (calls c h) l r v = (call-IsCalled c h l v r).0
step-IsSound (destroys h) l r v = (dpty_session_destroy-IsReleased h l v r).0
step-IsSound (advances i f p) l r v =
    advance_session-IsSound i f l (get_elem? l.sessions i) p refl v

run_steps-IsSound :
    (ss : List Step) (l : Library) → AreInRange ss → IsSound l → IsSound (run_steps ss l)
unfolding run_steps
run_steps-IsSound [] l r v = v
run_steps-IsSound (s ∷ ss) l r v = run_steps-IsSound ss (step s l) r.1 (step-IsSound s l r.0 v)

loaded-IsSound : IsSound loaded
unfolding loaded
loaded-IsSound = record {
  valid = empty-IsValid;
  named = λ h i hh e. absurd (none-ne-some i (sym (lookup-empty h) ∙ e));
}

-- From the moment the library is loaded, whatever is called and however the sessions run, the
-- registry stays well-formed, and every handle that it knows is that of exactly one session, which
-- carries it.
pub run_steps-IsSound-loaded : (ss : List Step) → AreInRange ss → IsSound (run_steps ss loaded)
run_steps-IsSound-loaded ss r = run_steps-IsSound ss loaded r loaded-IsSound
