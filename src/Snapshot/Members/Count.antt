-- ===== src/Snapshot/Members/Count.antt =====
-- Ordering the members loses none.
use dart_terminal.Base.{
  ℕ, zero, suc, ◌≡◌, refl, ap, ◌∙◌, Option, none, some, List, [], ◌∷◌, map, ltb, if_both, length,
  get_elem?, length-set,
}
use dart_terminal.Snapshot.Members.{
  Process, before, choose_primary, swap_first, bring_first, insert_member, sort_members, sort_rest,
  order_members,
}

length-insert_member :
    (m : Process) (cs : List Process) → length (insert_member m cs) ≡ suc (length cs)
unfolding insert_member
length-insert_member m [] = refl
length-insert_member m (c ∷ cs) =
    if_both (λ (ms : List Process). length ms ≡ suc (suc (length cs))) (before c m)
      (ap suc (length-insert_member m cs)) refl

length-sort_members : (ms : List Process) → length (sort_members ms) ≡ length ms
unfolding sort_members
length-sort_members [] = refl
length-sort_members (m ∷ ms) =
    length-insert_member m (sort_members ms) ∙ ap suc (length-sort_members ms)

length-swap_first :
    (m : Process) (ms : List Process) (i : ℕ) (o : Option Process)
    → length (swap_first m ms i o) ≡ suc (length ms)
unfolding swap_first
length-swap_first m ms i none = refl
length-swap_first m ms i (some c) = ap suc (length-set ms i m)

length-bring_first :
    (i : ℕ) (m : Process) (ms : List Process) → length (bring_first i m ms) ≡ suc (length ms)
length-bring_first zero m ms = refl
length-bring_first (suc i) m ms = length-swap_first m ms i (get_elem? ms i)

length-sort_rest : (ms : List Process) → length (sort_rest ms) ≡ length ms
length-sort_rest [] = refl
length-sort_rest (m ∷ ms) = ap suc (length-sort_members ms)

pub length-order_members :
    (group : ℕ) (ms : List Process) → length (order_members group ms) ≡ length ms
unfolding order_members
length-order_members group [] = refl
length-order_members group (m ∷ ms) =
    let moved : List Process = bring_first (choose_primary group 0 0 m (m ∷ ms)) m ms in
    let same = length-bring_first (choose_primary group 0 0 m (m ∷ ms)) m ms in
    if_both (λ (out : List Process). length out ≡ suc (length ms)) (ltb 2 (length moved))
      (length-sort_rest moved ∙ same) same

pub length-map_members : (f : Process → Process) (ms : List Process) → length (map f ms) ≡ length ms
length-map_members f [] = refl
length-map_members f (m ∷ ms) = ap suc (length-map_members f ms)
