-- ===== src/Api/Runs/Stale.antt =====
-- Handles of destroyed sessions stay dead.
use dart_terminal.Base.{
  ℕ, ◌+◌, ◌≤◌, ◌<◌, ◌≡◌, refl, sym, ap, ◌∙◌, subst, inl, inr, Bool, true, false, Option, none, some,
  List, [], ◌∷◌, ◌++◌, arith, ◌==◌, Bool-cases, if_both, length, get_elem?,
}
use dart_terminal.Status.{ok, invalid_handle, wrong_state, set_error}
use dart_terminal.Config.{ConfigV1, accepted, rejected, copy_config}
use dart_terminal.Registry.{Registry, insert, lookup, remove}
use dart_terminal.Registry.Handle.{max_u32}
use dart_terminal.Registry.Stale.{Op, inserts, removes, run, removals, lookup-run_removed, apply}
use dart_terminal.Session.{Session, new_session}
use dart_terminal.Session.Calls.{Call, can_destroy}
use dart_terminal.Api.{
  Library, Outcome, session_at, find_session, lookup_failed, register, create_copied,
  dpty_session_create, call_at, call, destroyed, destroy_found, dpty_session_destroy,
}
use dart_terminal.Api.Runs.{
  Step, creates, calls, destroys, advances, advance_session, step, run_steps, destructions,
}

-- What a step did to the registry.
abbrev Replayed : Library → Library → ℕ → Type 0
Replayed l m n = (os : List (Op ℕ)) × (m.registry ≡ run os l.registry) × (removals os ≤ n)

register-Replayed :
    (s : Session) (l : Library) (n : ℕ) → Replayed l (register s l (insert n l.registry)).library 0
unfolding register
register-Replayed s l n =
    let replay : Replayed l (record l { registry = (insert n l.registry).1 }) 0 =
      (inserts n ∷ [], unfold run apply in refl, omega arith) in
    if_both (λ (o : Outcome). Replayed l o.library 0) ((insert n l.registry).0 == 0) replay replay

create-Replayed :
    (config : Option ConfigV1) (output allocated : Bool) (l : Library)
    → Replayed l (dpty_session_create config output allocated l).library 0
unfolding dpty_session_create create_copied run
create-Replayed config false allocated l = ([], refl, omega arith)
create-Replayed config true allocated l =
    elim (copy_config config) as (λ r. Replayed l (create_copied allocated l r).library 0) [
      | rejected e ↦ ([], refl, omega arith)
      | accepted c ↦
          elim allocated as (λ b. Replayed l (create_copied b l (accepted c)).library 0) [
            | true ↦ register-Replayed (new_session c) l (length l.sessions)
            | false ↦ ([], refl, omega arith)
          ]
    ]

call_at-Replayed :
    (c : Call) (l : Library) (i : Option ℕ) (s : Option Session)
    → Replayed l (call_at c l i s).library 0
unfolding call_at lookup_failed run
call_at-Replayed c l none s = ([], refl, omega arith)
call_at-Replayed c l (some i) none = ([], refl, omega arith)
call_at-Replayed c l (some i) (some s) = ([], refl, omega arith)

destroyed-Replayed :
    (h : ℕ) (l : Library) (r : Option ℕ × Registry ℕ)
    → remove h l.registry ≡ r
    → Replayed l (destroyed l r).library 1
unfolding destroyed run apply
destroyed-Replayed h l (none, r) e = (removes h ∷ [], ap (λ p. p.1) (sym e), omega arith)
destroyed-Replayed h l (some i, r) e = (removes h ∷ [], ap (λ p. p.1) (sym e), omega arith)

destroy_found-Replayed :
    (h : ℕ) (l : Library) (s : Option Session) → Replayed l (destroy_found h l s).library 1
unfolding destroy_found lookup_failed run
destroy_found-Replayed h l none = ([], refl, omega arith)
destroy_found-Replayed h l (some s) =
    if_both (λ (o : Outcome). Replayed l o.library 1) (can_destroy s)
      (destroyed-Replayed h l (remove h l.registry) refl) ([], refl, omega arith)

advance_session-Replayed :
    (i : ℕ) (f : Session → Session) (l : Library) (s : Option Session)
    → Replayed l (advance_session i f l s) 0
unfolding run
advance_session-Replayed i f l none = ([], refl, omega arith)
advance_session-Replayed i f l (some s) = ([], refl, omega arith)

run-append : (os ps : List (Op ℕ)) (r : Registry ℕ) → run (os ++ ps) r ≡ run ps (run os r)
unfolding run
run-append [] ps r = refl
run-append (o ∷ os) ps r = run-append os ps (apply o r)

removals-append : (os ps : List (Op ℕ)) → removals (os ++ ps) ≡ removals os + removals ps
removals-append [] ps = omega arith
removals-append (inserts a ∷ os) ps = removals-append os ps
removals-append (removes h ∷ os) ps = omega (arith, removals-append os ps)

Replayed-trans :
    (l m n : Library) (a b : ℕ) → Replayed l m a → Replayed m n b → Replayed l n (a + b)
Replayed-trans l m n a b (os, p, u) (ps, q, w) = (
  os ++ ps,
  q ∙ ap (run ps) p ∙ sym (run-append os ps l.registry),
  omega (arith, removals-append os ps),
)

step-Replayed : (s : Step) (l : Library) → Replayed l (step s l) (destructions (s ∷ []))
unfolding step call dpty_session_destroy
step-Replayed (creates config output allocated) l = create-Replayed config output allocated l
step-Replayed (calls c h) l = call_at-Replayed c l (lookup l.registry h) (find_session l h)
step-Replayed (destroys h) l = destroy_found-Replayed h l (find_session l h)
step-Replayed (advances i f p) l = advance_session-Replayed i f l (get_elem? l.sessions i)

destructions-cons :
    (s : Step) (ss : List Step) → destructions (s ∷ []) + destructions ss ≡ destructions (s ∷ ss)
destructions-cons (creates config output allocated) ss = omega arith
destructions-cons (calls c h) ss = omega arith
destructions-cons (destroys h) ss = omega arith
destructions-cons (advances i f p) ss = omega arith

-- The calls use the registry as a client of its two operations, and remove no more than they
-- destroy.
run_steps-Replayed : (ss : List Step) (l : Library) → Replayed l (run_steps ss l) (destructions ss)
unfolding run_steps run
run_steps-Replayed [] l = ([], refl, omega arith)
run_steps-Replayed (s ∷ ss) l =
    subst (Replayed l (run_steps ss (step s l))) (destructions-cons s ss) (
      Replayed-trans l (step s l) (run_steps ss (step s l)) (destructions (s ∷ []))
        (destructions ss) (step-Replayed s l) (run_steps-Replayed ss (step s l)))

destroyed-registry :
    (l : Library) (r : Option ℕ × Registry ℕ) → (destroyed l r).library.registry ≡ r.1
unfolding destroyed
destroyed-registry l (none, r) = refl
destroyed-registry l (some i, r) = refl

-- Only a removal is answered by OK.
destroy_found-registry :
    (h : ℕ) (l : Library) (s : Option Session)
    → (destroy_found h l s).status ≡ ok
    → (destroy_found h l s).library.registry ≡ (remove h l.registry).1
unfolding destroy_found lookup_failed set_error
destroy_found-registry h l none done = cc
destroy_found-registry h l (some s) done = elim (Bool-cases (can_destroy s)) [
  | inl ready ↦ rw ready (destroyed-registry l (remove h l.registry))
  | inr busy ↦ let wrong : wrong_state ≡ ok = rw busy at done in cc
]

call-gone :
    (c : Call) (h : ℕ) (l : Library)
    → lookup l.registry h ≡ none
    → (call c h l).status ≡ invalid_handle
unfolding call call_at session_at lookup_failed set_error
call-gone c h l gone = rw gone refl

-- Once destroying a live handle has answered OK, every call on it answers INVALID_HANDLE, whatever
-- is called and however the sessions run in between, as long as that destroys fewer than 2^32 - 2
-- further sessions.
pub call-run_steps_destroyed :
    (c : Call) (h i : ℕ) (l : Library) (ss : List Step)
    → lookup l.registry h ≡ some i
    → (dpty_session_destroy h l).status ≡ ok
    → destructions ss + 1 < max_u32
    → (call c h (run_steps ss (dpty_session_destroy h l).library)).status ≡ invalid_handle
unfolding dpty_session_destroy
call-run_steps_destroyed c h i l ss live done few =
    let m : Library = (dpty_session_destroy h l).library in
    let (os, same, removed) = run_steps-Replayed ss m in
    let gone : lookup (run os (remove h l.registry).1) h ≡ none =
      lookup-run_removed h i l.registry os live (omega arith) in
    call-gone c h (run_steps ss m) (
      ap (λ r. lookup r h) (same ∙ ap (run os) (destroy_found-registry h l (find_session l h) done))
      ∙ gone)
