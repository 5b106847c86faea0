-- ===== src/Api/Runs/Within.antt =====
-- The sessions of the library keep their bounds.
use dart_terminal.Base.{
  ℕ, zero, suc, ◌≡◌, refl, sym, subst, Bool, true, false, Option, none, some, List, [], ◌∷◌, ◌++◌,
  ◌==◌, if_both, length, get_elem?, set,
}
use dart_terminal.Config.{ConfigV1, OwnedConfig, Checked, accepted, rejected, copy_config}
use dart_terminal.Config.Bounds.{copy_config_sound}
use dart_terminal.Registry.{Registry, insert, lookup, remove}
use dart_terminal.Session.{Session, new_session, set_handle}
use dart_terminal.Session.Calls.{Call, perform, can_destroy}
use dart_terminal.Session.Invariant.{Inv, new_session-Inv}
use dart_terminal.Session.Preserve.{perform-Inv}
use mathlib.Core.Option.{some-injective}
use dart_terminal.Api.{
  Library, Outcome, session_at, find_session, lookup_failed, register, create_copied,
  dpty_session_create, call_at, call, destroyed, destroy_found, dpty_session_destroy,
}
use dart_terminal.Api.Runs.{
  Step, creates, calls, destroys, advances, advance_session, step, run_steps, loaded,
}

-- Every session has the invariant.
abbrev pub AllInv : List Session → Type 0
AllInv [] = Unit {0}
AllInv (s ∷ ss) = Inv s × AllInv ss

-- A step of a reactor keeps the invariant.
abbrev pub IsGentle : Step → Type 0
IsGentle (creates config output allocated) = Unit {0}
IsGentle (calls c h) = Unit {0}
IsGentle (destroys h) = Unit {0}
IsGentle (advances i f p) = (s : Session) → Inv s → Inv (f s)

abbrev pub AreGentle : List Step → Type 0
AreGentle [] = Unit {0}
AreGentle (s ∷ ss) = IsGentle s × AreGentle ss

AllInv-set : (ss : List Session) (i : ℕ) (s : Session) → AllInv ss → Inv s → AllInv (set ss i s)
AllInv-set [] i s all v = tt
AllInv-set (t ∷ ss) zero s all v = (v, all.1)
AllInv-set (t ∷ ss) (suc i) s all v = (all.0, AllInv-set ss i s all.1 v)

AllInv-append : (ss : List Session) (s : Session) → AllInv ss → Inv s → AllInv (ss ++ s ∷ [])
AllInv-append [] s all v = (v, tt)
AllInv-append (t ∷ ss) s all v = (all.0, AllInv-append ss s all.1 v)

get_elem?-Inv :
    (ss : List Session) (i : ℕ) (s : Session) → AllInv ss → get_elem? ss i ≡ some s → Inv s
get_elem?-Inv [] i s all e = cc
get_elem?-Inv (t ∷ ss) zero s all e = subst Inv (some-injective t s e) all.0
get_elem?-Inv (t ∷ ss) (suc i) s all e = get_elem?-Inv ss i s all.1 e

-- A session under a handle has the invariant.
found-Inv :
    (l : Library) (o : Option ℕ) (s : Session) → AllInv l.sessions → session_at l o ≡ some s → Inv s
unfolding session_at
found-Inv l none s all e = cc
found-Inv l (some i) s all e = get_elem?-Inv l.sessions i s all e

set_handle-Inv : (h : ℕ) (s : Session) → Inv s → Inv (set_handle h s)
unfolding set_handle
set_handle-Inv h s v = record {
  usable = v.usable;
  flight = v.flight;
  flight_bound = v.flight_bound;
  flight_peak = v.flight_peak;
  numbered = v.numbered;
  queued = v.queued;
  offset = v.offset;
  filled = v.filled;
  capacity = v.capacity;
  peak = v.peak;
  drained = v.drained;
  forced = v.forced;
  started = v.started;
}

register-AllInv :
    (s : Session) (l : Library) (r : ℕ × Registry ℕ)
    → AllInv l.sessions
    → Inv s
    → AllInv (register s l r).library.sessions
unfolding register
register-AllInv s l (h, r) all v =
    if_both (λ (o : Outcome). AllInv o.library.sessions) (h == 0) all
      (AllInv-append l.sessions (set_handle h s) all (set_handle-Inv h s v))

create_copied-AllInv :
    (config : Option ConfigV1) (allocated : Bool) (l : Library) (r : Checked OwnedConfig)
    → copy_config config ≡ r
    → AllInv l.sessions
    → AllInv (create_copied allocated l r).library.sessions
unfolding create_copied
create_copied-AllInv config allocated l (rejected e) p all = all
create_copied-AllInv config false l (accepted c) p all = all
create_copied-AllInv config true l (accepted c) p all =
    register-AllInv (new_session c) l (insert (length l.sessions) l.registry) all
      (new_session-Inv c (copy_config_sound config c p).0)

create-AllInv :
    (config : Option ConfigV1) (output allocated : Bool) (l : Library)
    → AllInv l.sessions
    → AllInv (dpty_session_create config output allocated l).library.sessions
unfolding dpty_session_create
create-AllInv config false allocated l all = all
create-AllInv config true allocated l all =
    create_copied-AllInv config allocated l (copy_config config) refl all

call_at-AllInv :
    (c : Call) (l : Library) (i : Option ℕ) (s : Option Session)
    → session_at l i ≡ s
    → AllInv l.sessions
    → AllInv (call_at c l i s).library.sessions
unfolding call_at lookup_failed
call_at-AllInv c l none s e all = all
call_at-AllInv c l (some i) none e all = all
call_at-AllInv c l (some i) (some s) e all =
    AllInv-set l.sessions i (perform c s).session all
      (perform-Inv c s (found-Inv l (some i) s all e))

destroyed-sessions :
    (l : Library) (r : Option ℕ × Registry ℕ) → (destroyed l r).library.sessions ≡ l.sessions
unfolding destroyed
destroyed-sessions l (none, r) = refl
destroyed-sessions l (some i, r) = refl

destroy_found-sessions :
    (h : ℕ) (l : Library) (s : Option Session) → (destroy_found h l s).library.sessions ≡ l.sessions
unfolding destroy_found lookup_failed
destroy_found-sessions h l none = refl
destroy_found-sessions h l (some s) =
    if_both (λ (o : Outcome). o.library.sessions ≡ l.sessions) (can_destroy s)
      (destroyed-sessions l (remove h l.registry)) refl

advance_session-AllInv :
    (i : ℕ) (f : Session → Session) (l : Library) (s : Option Session)
    → get_elem? l.sessions i ≡ s
    → ((t : Session) → Inv t → Inv (f t))
    → AllInv l.sessions
    → AllInv (advance_session i f l s).sessions
advance_session-AllInv i f l none e k all = all
advance_session-AllInv i f l (some s) e k all =
    AllInv-set l.sessions i (f s) all (k s (get_elem?-Inv l.sessions i s all e))

step-AllInv : (s : Step) (l : Library) → IsGentle s → AllInv l.sessions → AllInv (step s l).sessions
unfolding step call dpty_session_destroy find_session
step-AllInv (creates config output allocated) l k all = create-AllInv config output allocated l all
step-AllInv (calls c h) l k all =
    call_at-AllInv c l (lookup l.registry h) (find_session l h) refl all
step-AllInv (destroys h) l k all =
    subst AllInv (sym (destroy_found-sessions h l (find_session l h))) all
step-AllInv (advances i f p) l k all =
    advance_session-AllInv i f l (get_elem? l.sessions i) refl k all

run_steps-AllInv :
    (ss : List Step) (l : Library)
    → AreGentle ss
    → AllInv l.sessions
    → AllInv (run_steps ss l).sessions
unfolding run_steps
run_steps-AllInv [] l k all = all
run_steps-AllInv (s ∷ ss) l k all = run_steps-AllInv ss (step s l) k.1 (step-AllInv s l k.0 all)

-- From the moment the library is loaded, whatever is called with whatever configuration, and
-- however the sessions run as long as the steps of the reactors keep the session's invariant: the
-- session behind every handle has that invariant.
pub find_session-Inv :
    (ss : List Step) (h : ℕ) (s : Session)
    → AreGentle ss
    → find_session (run_steps ss loaded) h ≡ some s
    → Inv s
unfolding find_session loaded
find_session-Inv ss h s k e =
    let l : Library = run_steps ss loaded in
    found-Inv l (lookup l.registry h) s (run_steps-AllInv ss loaded k tt) e
