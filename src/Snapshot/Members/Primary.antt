-- ===== src/Snapshot/Members/Primary.antt =====
-- The member that is reported first.
use dart_terminal.Base.{
  ℕ, zero, suc, ◌+◌, ◌≡◌, refl, ap, ◌∙◌, ◌⊎◌, inl, inr, Bool, true, false, some, List, [], ◌∷◌,
  arith, ltb, ◌==◌, if◌then◌else◌, if_cases, length, get_elem?, set,
}
use dart_terminal.Snapshot.Members.{
  Process, before, choose_primary, swap_first, bring_first, order_members,
}
use dart_terminal.Snapshot.Members.Order.{
  All, IsOrdered, before_trans, before_asym, chosen_before-before, sort_members-IsOrdered,
  sort_members-perm,
}
use mathlib.Core.Option.{some-injective}
use mathlib.Core.List.{Perm}
use mathlib.Core.List.Perm

if_lifted :
    {A B C : Type 0} (f : A → C) (g : B → C) (b : Bool) {x y : A} {u v : B}
    → f x ≡ g u
    → f y ≡ g v
    → f (if b then x else y) ≡ g (if b then u else v)
if_lifted f g true p q = p
if_lifted f g false p q = q

-- The member the loop chooses, with no index.
unfoldable chosen : ℕ → Process → List Process → Process
chosen group selected [] = selected
chosen group selected (c ∷ cs) =
    let next = chosen group c cs in
    let same = chosen group selected cs in
    if c.pid == group then c else if before c selected then next else same

get_elem?-choose_primary :
    (group index primary : ℕ) (selected : Process) (cs all : List Process)
    → get_elem? all primary ≡ some selected
    → ((j : ℕ) → get_elem? all (j + index) ≡ get_elem? cs j)
    → get_elem? all (choose_primary group index primary selected cs)
      ≡ some (chosen group selected cs)
unfolding choose_primary chosen
get_elem?-choose_primary group index primary selected [] all h at = h
get_elem?-choose_primary group index primary selected (c ∷ cs) all h at =
    let here : get_elem? all index ≡ some c = ap (get_elem? all) (omega arith) ∙ at 0 in
    let step : (j : ℕ) → get_elem? all (j + (index + 1)) ≡ get_elem? cs j =
      λ j. ap (get_elem? all) (omega arith) ∙ at (suc j) in
    rw (chosen_before-before c selected) (
      if_lifted (get_elem? all) some (c.pid == group) here (
        if_lifted (get_elem? all) some (before c selected)
          (get_elem?-choose_primary group (index + 1) index c cs all here step)
          (get_elem?-choose_primary group (index + 1) primary selected cs all h step)))

-- `p` leads the group, or no member does and none comes before it.
abbrev pub IsPrimary : ℕ → List Process → Process → Type 0
IsPrimary group ms p =
    (p.pid ≡ group) ⊎ (All (λ c. ((c.pid == group) ≡ false) × (before c p ≡ false)) ms)

before_self : (m : Process) → before m m ≡ false
before_self m = ground arith

-- Each member looked at, with the first one, against the choice `r`.
abbrev IsChoice : ℕ → Process → List Process → Process → Type 0
IsChoice group selected cs r =
    (r.pid ≡ group)
    ⊎ (All (λ c. ((c.pid == group) ≡ false) × (before c r ≡ false)) cs
        × (before selected r ≡ false))

chosen-IsChoice :
    (group : ℕ) (selected : Process) (cs : List Process)
    → IsChoice group selected cs (chosen group selected cs)
unfolding chosen
chosen-IsChoice group selected [] = inr (tt, before_self selected)
chosen-IsChoice group selected (c ∷ cs) =
    if_cases (IsChoice group selected (c ∷ cs)) (c.pid == group) (λ leads. inl (ground arith))
      (λ other.
        if_cases (IsChoice group selected (c ∷ cs)) (before c selected)
          (λ earlier. elim (chosen-IsChoice group c cs) [
            | inl e ↦ inl e
            | inr (all, first) ↦ inr (
              ((other, first), all),
              before_trans (chosen group c cs) c selected first (before_asym c selected earlier),
            )
          ])
          (λ later. elim (chosen-IsChoice group selected cs) [
            | inl e ↦ inl e
            | inr (all, first) ↦ inr (
              ((other, before_trans (chosen group selected cs) selected c first later), all),
              first,
            )
          ]))

-- An element moved to the front in exchange for the first one.
set-perm :
    (m c : Process) (ms : List Process) (i : ℕ)
    → get_elem? ms i ≡ some c
    → Perm (c ∷ set ms i m) (m ∷ ms)
set-perm m c [] i h = cc
set-perm m c (d ∷ ds) zero h = rw (some-injective d c h) (Perm.swap m c ds)
set-perm m c (d ∷ ds) (suc i) h =
    Perm.trans (Perm.swap d c (set ds i m))
      (Perm.trans (Perm.cons d (set-perm m c ds i h)) (Perm.swap m d ds))

-- The first of the members once ordered, and the rest.
abbrev pub IsReported : ℕ → List Process → List Process → Type 0
IsReported group ms [] = ms ≡ []
IsReported group ms (p ∷ rest) = Perm (p ∷ rest) ms × IsPrimary group ms p × IsOrdered rest

brought-first :
    (i : ℕ) (m p : Process) (ms : List Process)
    → get_elem? (m ∷ ms) i ≡ some p
    → (rest : List Process) × (bring_first i m ms ≡ p ∷ rest) × Perm (p ∷ rest) (m ∷ ms)
unfolding swap_first
brought-first zero m p ms h =
    (ms, ap (λ q. q ∷ ms) (some-injective m p h), rw (some-injective m p h) (Perm.refl (p ∷ ms)))
brought-first (suc i) m p ms h = (set ms i m, rw h refl, set-perm m p ms i h)

few-IsOrdered :
    (p : Process) (rest : List Process) → ltb 2 (length (p ∷ rest)) ≡ false → IsOrdered rest
few-IsOrdered p [] few = tt
few-IsOrdered p (a ∷ []) few = (tt, tt)
few-IsOrdered p (a ∷ b ∷ rest) few = ground arith

-- Whatever the scan found is reported once each: first the leader of the group or, when no member
-- leads it, a member before which no other comes; then the others in order.
pub order_members-IsReported :
    (group : ℕ) (ms : List Process) → IsReported group ms (order_members group ms)
unfolding order_members
order_members-IsReported group [] = refl
order_members-IsReported group (m ∷ ms) =
    let p : Process = chosen group m (m ∷ ms) in
    let at : get_elem? (m ∷ ms) (choose_primary group 0 0 m (m ∷ ms)) ≡ some p =
      get_elem?-choose_primary group 0 0 m (m ∷ ms) (m ∷ ms) refl
        (λ j. ap (get_elem? (m ∷ ms)) (omega arith)) in
    let (rest, moved, same) = brought-first (choose_primary group 0 0 m (m ∷ ms)) m p ms at in
    let primary : IsPrimary group (m ∷ ms) p = elim (chosen-IsChoice group m (m ∷ ms)) [
      | inl e ↦ inl e
      | inr (all, first) ↦ inr all
    ] in
    rw moved (
      if_cases (IsReported group (m ∷ ms)) (ltb 2 (length (p ∷ rest)))
        (λ many. (
          Perm.trans (Perm.cons p (sort_members-perm rest)) same,
          primary,
          sort_members-IsOrdered rest,
        ))
        (λ few. (same, primary, few-IsOrdered p rest few)))
