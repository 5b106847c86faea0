-- ===== src/Registry/Validity.antt =====
-- The registry's well-formedness, kept by insertion and removal.
use dart_terminal.Base.{
  ℕ, zero, suc, ◌+◌, ◌^◌, ◌≤◌, ◌<◌, ◌≡◌, refl, ap, subst, inl, inr, true, false, Option, none, some,
  List, [], ◌∷◌, ◌++◌, arith, leb, ◌==◌, Bool-cases, length, get_elem?, set, length-append,
  length-set, get_elem?-append_end, lt-length_of_some,
}
use dart_terminal.Registry.Handle.{max_u32, decode}
use dart_terminal.Registry.Slots.{
  Slot, fresh_slot, is_some, occupied, Generations, vacant, Free, has, occupied-append,
  occupied-le-length, Generations-append, Generations-set, generation_bounds, occupied-set_full,
  occupied-set_vacant, vacant_slot, not_vacant, vacant-set_self, Free-set, Free-append, not-Free,
}
use dart_terminal.Registry.{
  Registry, empty, occupy, insert_fresh, insert_at, insert, session_of, next_generation, release,
  remove_found, remove_at, remove,
}

pub record IsValid {A : Type 0} (r : Registry A) : Type 0 where
  pub generations : Generations r.slots
  pub free : Free r.slots r.free_indices
  pub counted : r.live_count ≡ occupied r.slots
  pub listed : length r.free_indices + occupied r.slots ≡ length r.slots
  pub bounded : length r.slots ≤ max_u32

pub empty-IsValid : {A : Type 0} → IsValid (empty {A = A})
empty-IsValid = record {
  generations = tt;
  free = tt;
  counted = refl;
  listed = omega arith;
  bounded = omega arith;
}

next_generation_bounds : (g : ℕ) → (0 < next_generation g) × (next_generation g < 2 ^ 32)
unfolding next_generation
next_generation_bounds g = ground arith

module _ {A : Type 0} where
  vacant-append_end :
      (ss : List (Slot A)) (i : ℕ) → i ≡ length ss → vacant (ss ++ fresh_slot ∷ []) i ≡ true
  vacant-append_end [] zero e = refl
  vacant-append_end [] (suc i) e = absurd (omega arith)
  vacant-append_end (s ∷ ss) zero e = absurd (omega arith)
  vacant-append_end (s ∷ ss) (suc i) e = vacant-append_end ss i (omega arith)

  not_vacant_end : (ss : List (Slot A)) (i : ℕ) → length ss ≤ i → vacant ss i ≡ false
  not_vacant_end [] i h = refl
  not_vacant_end (s ∷ ss) zero h = absurd (omega arith)
  not_vacant_end (s ∷ ss) (suc i) h = not_vacant_end ss i (omega arith)

  -- Filling the vacant slot `i` of a registry that is valid but for `i`, off the free list.
  occupy-IsValid :
      (a : A) (i : ℕ) (s : Slot A) (r : Registry A)
      → get_elem? r.slots i ≡ some s
      → vacant r.slots i ≡ true
      → has i r.free_indices ≡ false
      → Generations r.slots
      → Free r.slots r.free_indices
      → r.live_count ≡ occupied r.slots
      → length r.free_indices + 1 + occupied r.slots ≡ length r.slots
      → length r.slots ≤ max_u32
      → IsValid (occupy a i r (some s)).1
  unfolding occupy
  occupy-IsValid a i s r at v off gens free counted listed bounded =
      let t : Slot A = record s { session = some a } in
      let n : occupied (set r.slots i t) ≡ occupied r.slots + 1 =
        occupied-set_full r.slots i t v refl in
      let (g0, gm) = generation_bounds r.slots i s gens at in
      record {
        generations = Generations-set r.slots i t gens g0 gm;
        free = Free-set r.slots r.free_indices i t free off;
        counted = omega (arith, n, occupied-le-length r.slots);
        listed = omega (arith, n, length-set r.slots i t);
        bounded = omega (arith, length-set r.slots i t);
      }

  insert_fresh-IsValid : (a : A) (r : Registry A) → IsValid r → IsValid (insert_fresh a r).1
  unfolding insert_fresh
  insert_fresh-IsValid a r v = elim (Bool-cases (leb max_u32 (length r.slots))) [
    | inl full ↦ rw full v
    | inr room ↦ rw room (
        let ss : List (Slot A) = r.slots ++ fresh_slot ∷ [] in
        occupy-IsValid a (length r.slots) fresh_slot (record r { slots = ss })
          (get_elem?-append_end r.slots fresh_slot (length r.slots) refl)
          (vacant-append_end r.slots (length r.slots) refl)
          (not-Free r.slots r.free_indices (length r.slots) v.free
            (not_vacant_end r.slots (length r.slots) (omega arith)))
          (Generations-append r.slots v.generations)
          (Free-append r.slots (fresh_slot ∷ []) r.free_indices v.free)
          (omega (arith, v.counted, occupied-append r.slots (fresh_slot ∷ [])))
          (omega (
            arith,
            v.listed,
            occupied-append r.slots (fresh_slot ∷ []),
            length-append r.slots (fresh_slot ∷ []),
          ))
          (ground (arith, length-append r.slots (fresh_slot ∷ []))))
  ]

  insert_at-IsValid :
      (a : A) (r : Registry A) (is : List ℕ)
      → r.free_indices ≡ is
      → IsValid r
      → IsValid (insert_at a r is).1
  unfolding insert_at
  insert_at-IsValid a r [] e v = insert_fresh-IsValid a r v
  insert_at-IsValid a r (i ∷ rest) e v =
      let f : Free r.slots (i ∷ rest) = subst (Free r.slots) e v.free in
      let (s, at, _) = vacant_slot r.slots i f.0 in
      rw at (
        occupy-IsValid a i s (record r { free_indices = rest }) at f.0 f.1 v.generations f.2
          v.counted (omega (arith, v.listed, ap length e)) v.bounded)

  -- Insertion keeps the registry well-formed, whether it finds room or not.
  pub insert-IsValid : (a : A) (r : Registry A) → IsValid r → IsValid (insert a r).1
  unfolding insert
  insert-IsValid a r v = insert_at-IsValid a r r.free_indices refl v

  release-IsValid :
      (i g : ℕ) (s : Slot A) (r : Registry A)
      → get_elem? r.slots i ≡ some s
      → is_some s.session ≡ true
      → IsValid r
      → IsValid (release i g r)
  unfolding release
  release-IsValid i g s r at full v =
      let t : Slot A = record { generation = next_generation g; session = none } in
      let n : occupied (set r.slots i t) + 1 ≡ occupied r.slots =
        occupied-set_vacant r.slots i s t at full refl in
      let off : has i r.free_indices ≡ false =
        not-Free r.slots r.free_indices i v.free (not_vacant r.slots i s at full) in
      record {
        generations =
            Generations-set r.slots i t v.generations (next_generation_bounds g).0
              (next_generation_bounds g).1;
        free = (
          vacant-set_self r.slots i t (lt-length_of_some r.slots i s at) refl,
          off,
          Free-set r.slots r.free_indices i t v.free off,
        );
        counted = omega (arith, v.counted, v.bounded, occupied-le-length r.slots);
        listed = omega (arith, v.listed, length-set r.slots i t);
        bounded = omega (arith, v.bounded, length-set r.slots i t);
      }

  remove_found-IsValid :
      (i g : ℕ) (r : Registry A) (o : Option (Slot A))
      → get_elem? r.slots i ≡ o
      → IsValid r
      → IsValid (remove_found i g r (session_of g o)).1
  unfolding remove_found session_of
  remove_found-IsValid i g r none e v = v
  remove_found-IsValid i g r (some s) e v = elim (Bool-cases (s.generation == g)) [
    | inl same ↦ rw same (filled s.session refl)
    | inr other ↦ rw other v
  ]
    where
      filled : (o : Option A) → s.session ≡ o → IsValid (remove_found i g r o).1
      filled none p = v
      filled (some a) p = release-IsValid i g s r e (ground arith) v

  remove_at-IsValid : (r : Registry A) (o : Option (ℕ × ℕ)) → IsValid r → IsValid (remove_at r o).1
  unfolding remove_at
  remove_at-IsValid r none v = v
  remove_at-IsValid r (some (i, g)) v = remove_found-IsValid i g r (get_elem? r.slots i) refl v

  -- Removal keeps the registry well-formed, for any number given as a handle.
  pub remove-IsValid : (h : ℕ) (r : Registry A) → IsValid r → IsValid (remove h r).1
  unfolding remove
  remove-IsValid h r v = remove_at-IsValid r (decode h) v
