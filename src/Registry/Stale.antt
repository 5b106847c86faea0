-- ===== src/Registry/Stale.antt =====
-- Handles of removed sessions stay dead while their slot is used again.
use dart_terminal.Base.{
  ℕ, zero, suc, ◌+◌, ◌-◌, ◌%◌, ◌^◌, ◌≤◌, ◌<◌, ◌≡◌, refl, sym, ◌∙◌, subst, ◌≢◌, ◌⊎◌, inl, inr,
  Option, none, some, List, [], ◌∷◌, ◌++◌, arith, leb, ◌==◌, if◌then◌else◌, Eq-cases, Bool-cases,
  length, get_elem?, set, get_elem?-append_end, lt-length_of_some,
}
use dart_terminal.Registry.Handle.{decode, max_u32, decode_bounds}
use dart_terminal.Registry.Slots.{Slot, fresh_slot}
use dart_terminal.Registry.Validity.{IsValid, insert-IsValid, remove-IsValid}
use dart_terminal.Registry.{
  Registry, occupy, insert_fresh, insert_at, insert, lookup, find, session_of, next_generation,
  release, remove_found, remove_at, remove,
}

-- A client's calls on the registry.
pub data Op (A : Type 0) : Type 0 where
  inserts : A → Op A
  removes : ℕ → Op A

module _ {A : Type 0} where
  unfoldable pub apply : Op A → Registry A → Registry A
  apply (inserts a) r = (insert a r).1
  apply (removes h) r = (remove h r).1

  unfoldable pub run : List (Op A) → Registry A → Registry A
  unfolding apply
  run [] r = r
  run (o ∷ os) r = run os (apply o r)

  abbrev pub removals : List (Op A) → ℕ
  removals [] = 0
  removals (inserts a ∷ os) = removals os
  removals (removes h ∷ os) = suc (removals os)

  apply-IsValid : (o : Op A) (r : Registry A) → IsValid r → IsValid (apply o r)
  unfolding apply
  apply-IsValid (inserts a) r v = insert-IsValid a r v
  apply-IsValid (removes h) r v = remove-IsValid h r v

  -- Any sequence of insertions and removals keeps a registry well-formed.
  pub run-IsValid : (os : List (Op A)) (r : Registry A) → IsValid r → IsValid (run os r)
  unfolding run
  run-IsValid [] r v = v
  run-IsValid (o ∷ os) r v = run-IsValid os (apply o r) (apply-IsValid o r v)

  -- The generation of slot `i`, 0 beyond the table.
  generation_at : List (Slot A) → ℕ → ℕ
  generation_at [] i = 0
  generation_at (s ∷ ss) zero = s.generation
  generation_at (s ∷ ss) (suc i) = generation_at ss i

  generation_at-set :
      (ss : List (Slot A)) (i j : ℕ) (t : Slot A)
      → j < length ss
      → generation_at (set ss j t) i ≡ (if i == j then t.generation else generation_at ss i)
  unfolding generation_at
  generation_at-set [] i j t h = absurd (omega arith)
  generation_at-set (s ∷ ss) zero zero t h = ground arith
  generation_at-set (s ∷ ss) zero (suc j) t h = ground arith
  generation_at-set (s ∷ ss) (suc i) zero t h = ground arith
  generation_at-set (s ∷ ss) (suc i) (suc j) t h =
      ground (arith, generation_at-set ss i j t (omega arith))

  generation_at-append :
      (ss ts : List (Slot A)) (i : ℕ)
      → 0 < generation_at ss i
      → generation_at (ss ++ ts) i ≡ generation_at ss i
  unfolding generation_at
  generation_at-append [] ts i h = absurd (omega arith)
  generation_at-append (s ∷ ss) ts zero h = refl
  generation_at-append (s ∷ ss) ts (suc i) h = generation_at-append ss ts i h

  generation_at-some :
      (ss : List (Slot A)) (i : ℕ) (s : Slot A)
      → get_elem? ss i ≡ some s
      → generation_at ss i ≡ s.generation
  unfolding generation_at
  generation_at-some [] i s e = cc
  generation_at-some (t ∷ ss) zero s e = ground arith
  generation_at-some (t ∷ ss) (suc i) s e = generation_at-some ss i s e

  -- A handle resolves only under the current generation of its slot.
  find_other :
      (ss : List (Slot A)) (i g : ℕ) → generation_at ss i ≢ g → find ss (some (i, g)) ≡ none
  unfolding find session_of generation_at
  find_other [] i g ne = refl
  find_other (s ∷ ss) zero g ne = ground arith
  find_other (s ∷ ss) (suc i) g ne = find_other ss i g ne

  occupy-generation :
      (a : A) (i j : ℕ) (r : Registry A) (o : Option (Slot A))
      → get_elem? r.slots j ≡ o
      → generation_at (occupy a j r o).1.slots i ≡ generation_at r.slots i
  unfolding occupy
  occupy-generation a i j r none e = refl
  occupy-generation a i j r (some s) e =
      generation_at-set r.slots i j (record s { session = some a })
        (lt-length_of_some r.slots j s e)
      ∙ elim (Eq-cases i j) [
        | inl same ↦ rw same (ground (arith, generation_at-some r.slots j s e))
        | inr ne ↦ rw ne refl
      ]

  insert-generation :
      (a : A) (i : ℕ) (r : Registry A) (is : List ℕ)
      → 0 < generation_at r.slots i
      → generation_at (insert_at a r is).1.slots i ≡ generation_at r.slots i
  unfolding insert_at insert_fresh
  insert-generation a i r [] h = elim (Bool-cases (leb max_u32 (length r.slots))) [
    | inl full ↦ rw full refl
    | inr room ↦ rw room (
        occupy-generation a i (length r.slots) (record r { slots = r.slots ++ fresh_slot ∷ [] })
          (some fresh_slot) (get_elem?-append_end r.slots fresh_slot (length r.slots) refl)
        ∙ generation_at-append r.slots (fresh_slot ∷ []) i h)
  ]
  insert-generation a i r (j ∷ rest) h =
      occupy-generation a i j (record r { free_indices = rest }) (get_elem? r.slots j) refl

-- Generation `g'` comes between one and `n` steps after generation `g`, round the cycle of the
-- nonzero 32-bit numbers.
abbrev After : ℕ → ℕ → ℕ → Type 0
After g n g' = (d : ℕ) × (0 < d) × (d ≤ n) × (g' ≡ (g - 1 + d) % max_u32 + 1)

After-next : (g n g' : ℕ) → 0 < g → g < 2 ^ 32 → After g n g' → After g (suc n) (next_generation g')
unfolding next_generation
After-next g n g' p q (d, d0, dn, e) = (suc d, omega arith, omega arith, ground arith)

After-ne : (g n g' : ℕ) → 0 < g → g < 2 ^ 32 → n < max_u32 → After g n g' → g' ≢ g
After-ne g n g' p q h (d, d0, dn, e) = omega arith

After-pos : (g n k : ℕ) → After g n k → 0 < k
After-pos g n k (d, d0, dn, e) = omega arith

After-mono : (g m n k : ℕ) → m ≤ n → After g m k → After g n k
After-mono g m n k h (d, d0, dn, e) = (d, d0, omega arith, e)

module _ {A : Type 0} where
  session_of_generation :
      (g : ℕ) (ss : List (Slot A)) (j : ℕ) (a : A)
      → session_of g (get_elem? ss j) ≡ some a
      → (j < length ss) × (generation_at ss j ≡ g)
  unfolding session_of generation_at
  session_of_generation g [] j a e = cc
  session_of_generation g (s ∷ ss) zero a e = (omega arith, ground arith)
  session_of_generation g (s ∷ ss) (suc j) a e =
      let (p, q) = session_of_generation g ss j a e in (omega (arith, p), q)

  remove_found-generation :
      (i j g : ℕ) (r : Registry A) (c : Option A)
      → session_of g (get_elem? r.slots j) ≡ c
      → let after = generation_at (remove_found j g r c).1.slots i in
        let before = generation_at r.slots i in (after ≡ before) ⊎ (after ≡ next_generation before)
  unfolding remove_found release
  remove_found-generation i j g r none e = inl refl
  remove_found-generation i j g r (some a) e =
      let (inside, same) = session_of_generation g r.slots j a e in
      let new : Slot A = record { generation = next_generation g; session = none } in
      elim (Eq-cases i j) [
        | inl eq ↦ inr (generation_at-set r.slots i j new inside ∙ rw eq (ground arith))
        | inr ne ↦ inl (generation_at-set r.slots i j new inside ∙ rw ne refl)
      ]

  remove-generation :
      (i : ℕ) (r : Registry A) (o : Option (ℕ × ℕ))
      → let after = generation_at (remove_at r o).1.slots i in
        let before = generation_at r.slots i in (after ≡ before) ⊎ (after ≡ next_generation before)
  unfolding remove_at
  remove-generation i r none = inl refl
  remove-generation i r (some (j, g)) =
      remove_found-generation i j g r (session_of g (get_elem? r.slots j)) refl

  After-run :
      (i g n : ℕ) (os : List (Op A)) (r : Registry A)
      → 0 < g
      → g < 2 ^ 32
      → After g n (generation_at r.slots i)
      → After g (n + removals os) (generation_at (run os r).slots i)
  unfolding run apply insert remove
  After-run i g n [] r p q now = After-mono g n (n + 0) _ (omega arith) now
  After-run i g n (inserts a ∷ os) r p q now =
      After-run i g n os (insert a r).1 p q
        (subst (After g n) (sym (insert-generation a i r r.free_indices (After-pos g n _ now))) now)
  After-run i g n (removes h ∷ os) r p q now =
      After-mono g (suc n + removals os) (n + suc (removals os)) _ (omega arith) (
        After-run i g (suc n) os (remove h r).1 p q (elim (remove-generation i r (decode h)) [
          | inl same ↦
              subst (After g (suc n)) (sym same) (After-mono g n (suc n) _ (omega arith) now)
          | inr next ↦ subst (After g (suc n)) (sym next) (After-next g n _ p q now)
        ]))

  removed-After :
      (i g : ℕ) (a : A) (r : Registry A)
      → 0 < g
      → g < 2 ^ 32
      → session_of g (get_elem? r.slots i) ≡ some a
      → After g 1 (generation_at (remove_at r (some (i, g))).1.slots i)
  unfolding remove_at remove_found release next_generation
  removed-After i g a r p q e =
      let (inside, same) = session_of_generation g r.slots i a e in
      let new : Slot A = record { generation = next_generation g; session = none } in
      let at : generation_at (set r.slots i new) i ≡ next_generation g =
        generation_at-set r.slots i i new inside ∙ ground arith in
      rw e (1, omega arith, omega arith, ground (arith, at))

  stale_parts :
      (h : ℕ) (o : Option (ℕ × ℕ)) (a : A) (r : Registry A) (os : List (Op A))
      → decode h ≡ o
      → find r.slots o ≡ some a
      → removals os + 1 < max_u32
      → find (run os (remove_at r o).1).slots o ≡ none
  unfolding find
  stale_parts h none a r os d e few = cc
  stale_parts h (some (i, g)) a r os d e few =
      let (_, p, q) = decode_bounds h i g d in
      find_other (run os (remove_at r (some (i, g))).1).slots i g (
        After-ne g (1 + removals os) _ p q (omega arith)
          (After-run i g 1 os (remove_at r (some (i, g))).1 p q (removed-After i g a r p q e)))

  -- Once a live handle is removed it resolves to no session again, whatever is inserted and
  -- removed afterwards, as long as fewer than 2^32 - 2 further removals are made.
  pub lookup-run_removed :
      (h : ℕ) (a : A) (r : Registry A) (os : List (Op A))
      → lookup r h ≡ some a
      → removals os + 1 < max_u32
      → lookup (run os (remove h r).1) h ≡ none
  unfolding lookup remove
  lookup-run_removed h a r os e few = stale_parts h (decode h) a r os refl e few
