-- ===== src/Snapshot/Members/Order.antt =====
-- The order in which the members are reported.
use dart_terminal.Base.{◌≡◌, inl, inr, true, false, List, [], ◌∷◌, arith, Bool-cases, if_both}
use dart_terminal.Snapshot.Members.{Process, before, chosen_before, insert_member, sort_members}
use mathlib.Core.List.{Perm}
use mathlib.Core.List.Perm

abbrev pub All : (Process → Type 0) → List Process → Type 0
All P [] = Unit {0}
All P (m ∷ ms) = P m × All P ms

-- No later member comes before an earlier one.
abbrev pub IsOrdered : List Process → Type 0
IsOrdered [] = Unit {0}
IsOrdered (m ∷ ms) = All (λ c. before c m ≡ false) ms × IsOrdered ms

-- Both tests are the same order.
pub chosen_before-before : (c m : Process) → chosen_before c m ≡ before c m
chosen_before-before c m = ground arith

pub before_trans : (a b c : Process) → before b a ≡ false → before c b ≡ false → before c a ≡ false
before_trans a b c p q = ground arith

pub before_asym : (a b : Process) → before a b ≡ true → before b a ≡ false
before_asym a b p = ground arith

pub All-trans :
    (m c : Process) (cs : List Process)
    → before c m ≡ false
    → All (λ d. before d c ≡ false) cs
    → All (λ d. before d m ≡ false) cs
All-trans m c [] p h = tt
All-trans m c (d ∷ ds) p h = (before_trans m c d p h.0, All-trans m c ds p h.1)

All-insert_member :
    (P : Process → Type 0) (m : Process) (cs : List Process)
    → P m
    → All P cs
    → All P (insert_member m cs)
unfolding insert_member
All-insert_member P m [] p h = (p, tt)
All-insert_member P m (c ∷ cs) p h =
    if_both (All P) (before c m) (h.0, All-insert_member P m cs p h.1) (p, h)

insert_member-IsOrdered :
    (m : Process) (cs : List Process) → IsOrdered cs → IsOrdered (insert_member m cs)
unfolding insert_member
insert_member-IsOrdered m [] o = (tt, tt)
insert_member-IsOrdered m (c ∷ cs) o = elim (Bool-cases (before c m)) [
  | inl later ↦ rw later (
    All-insert_member (λ d. before d c ≡ false) m cs (before_asym c m later) o.0,
    insert_member-IsOrdered m cs o.1,
  )
  | inr first ↦ rw first ((first, All-trans m c cs first o.0), o)
]

pub sort_members-IsOrdered : (ms : List Process) → IsOrdered (sort_members ms)
unfolding sort_members
sort_members-IsOrdered [] = tt
sort_members-IsOrdered (m ∷ ms) =
    insert_member-IsOrdered m (sort_members ms) (sort_members-IsOrdered ms)

insert_member-perm : (m : Process) (cs : List Process) → Perm (insert_member m cs) (m ∷ cs)
unfolding insert_member
insert_member-perm m [] = Perm.refl (m ∷ [])
insert_member-perm m (c ∷ cs) =
    if_both (λ xs. Perm xs (m ∷ c ∷ cs)) (before c m)
      (Perm.trans (Perm.cons c (insert_member-perm m cs)) (Perm.swap m c cs))
      (Perm.refl (m ∷ c ∷ cs))

pub sort_members-perm : (ms : List Process) → Perm (sort_members ms) ms
unfolding sort_members
sort_members-perm [] = Perm.refl []
sort_members-perm (m ∷ ms) =
    Perm.trans (insert_member-perm m (sort_members ms)) (Perm.cons m (sort_members-perm ms))
