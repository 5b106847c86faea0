-- ===== src/Registry/Lookup.antt =====
-- The registry as a partial map from handles to sessions: insertion adds one entry under a handle
-- that was not live, removal deletes one, and no other handle notices.
use dart_terminal.Base.{
  ℕ, zero, suc, ◌^◌, ◌≤◌, ◌<◌, ◌≡◌, refl, sym, ap, ◌∙◌, subst, ◌≢◌, ◌⊎◌, inl, inr, Bool, true,
  false, ◌&&◌, Option, none, some, List, [], ◌∷◌, ◌++◌, arith, leb, ◌==◌, if◌then◌else◌, Eq-cases,
  Bool-cases, length, get_elem?, set, length-append, get_elem?-set_self, get_elem?-set_ne,
  get_elem?-append_end, lt-length_of_some,
}
use dart_terminal.Registry.Handle.{
  encode, decode, max_u32, decode-encode, encode-decode, decode_bounds,
}
use dart_terminal.Registry.Slots.{
  Slot, fresh_slot, Free, Generations-append, Generations, generation_bounds, vacant_slot,
}
use dart_terminal.Registry.Validity.{IsValid}
use dart_terminal.Registry.{
  Registry, empty, occupy, insert_fresh, insert_at, insert, lookup, session_of, find, remove_found,
  next_generation, release, remove_at, remove,
}

encode-lt : (i g : ℕ) → i < max_u32 → g < 2 ^ 32 → encode i g < 2 ^ 64
unfolding encode
encode-lt i g p q = omega arith

encode-ne_zero : (i g : ℕ) → encode i g ≢ 0
unfolding encode
encode-ne_zero i g = omega arith

-- Whether a decoded handle names generation `g` of slot `i`.
names : ℕ → ℕ → Option (ℕ × ℕ) → Bool
names i g none = false
names i g (some (j, k)) = (i == j) && (g == k)

names-decode :
    (i g h : ℕ)
    → i < max_u32
    → 0 < g
    → g < 2 ^ 32
    → h < 2 ^ 64
    → (o : Option (ℕ × ℕ)) → decode h ≡ o
    → names i g o ≡ (encode i g == h)
unfolding names
names-decode i g h p q u hh none e = elim (Eq-cases (encode i g) h) [
  | inl same ↦ cc (ap decode same, decode-encode i g p q u)
  | inr ne ↦ rw ne
]
names-decode i g h p q u hh (some (j, k)) e = elim (Eq-cases (encode i g) h) [
  | inl same ↦ ground (arith, ap decode same, decode-encode i g p q u)
  | inr ne ↦ ground (arith, encode-decode h j k hh e)
]

module _ {A : Type 0} where
  -- Reading one slot of a table in which slot `i` was replaced.
  session_of-set :
      (ss : List (Slot A)) (i j g : ℕ) (t : Slot A)
      → i < length ss
      → session_of g (get_elem? (set ss i t) j)
        ≡ (if i == j then session_of g (some t) else session_of g (get_elem? ss j))
  session_of-set ss i j g t h = elim (Eq-cases i j) [
    | inl e ↦ rw (← e) (rw (get_elem?-set_self ss i t h) (ground arith))
    | inr ne ↦ rw (ne, get_elem?-set_ne ss {i = i} {j = j} t (λ e. ground arith)) refl
  ]

  -- Filling a vacant slot adds one entry.
  find-fill :
      (ss : List (Slot A)) (i : ℕ) (s : Slot A) (a : A) (o : Option (ℕ × ℕ))
      → get_elem? ss i ≡ some s
      → s.session ≡ none
      → find (set ss i (record s { session = some a })) o
        ≡ (if names i s.generation o then some a else find ss o)
  unfolding find names
  find-fill ss i s a none at gone = refl
  find-fill ss i s a (some (j, g)) at gone =
      let t : Slot A = record s { session = some a } in
      rw (session_of-set ss i j g t (lt-length_of_some ss i s at)) (elim (Eq-cases i j) [
        | inl e ↦ rw (← e, at) (unfold session_of in ground arith)
        | inr ne ↦ rw ne
      ])

  -- Vacating a slot, under a new generation, deletes one.
  find-vacate :
      (ss : List (Slot A)) (i n : ℕ) (s : Slot A) (o : Option (ℕ × ℕ))
      → get_elem? ss i ≡ some s
      → find (set ss i (record { generation = n; session = none })) o
        ≡ (if names i s.generation o then none else find ss o)
  unfolding find names
  find-vacate ss i n s none at = refl
  find-vacate ss i n s (some (j, g)) at =
      let t : Slot A = record { generation = n; session = none } in
      rw (session_of-set ss i j g t (lt-length_of_some ss i s at)) (elim (Eq-cases i j) [
        | inl e ↦ rw (← e, at) (unfold session_of in ground arith)
        | inr ne ↦ rw ne
      ])

  -- A new slot at the end holds no entry.
  find-append :
      (ss : List (Slot A)) (o : Option (ℕ × ℕ)) → find (ss ++ fresh_slot ∷ []) o ≡ find ss o
  unfolding find session_of
  find-append ss none = refl
  find-append [] (some (zero, g)) = ground arith
  find-append [] (some (suc j, g)) = refl
  find-append (s ∷ ss) (some (zero, g)) = refl
  find-append (s ∷ ss) (some (suc j, g)) = find-append ss (some (j, g))

  find_gone :
      (ss : List (Slot A)) (i : ℕ) (s : Slot A) (o : Option (ℕ × ℕ))
      → get_elem? ss i ≡ some s
      → s.session ≡ none
      → names i s.generation o ≡ true
      → find ss o ≡ none
  unfolding find names session_of
  find_gone ss i s none at gone e = refl
  find_gone ss i s (some (j, g)) at gone e = elim (Eq-cases i j) [
    | inl same ↦ rw (← same, at) (ground arith)
    | inr ne ↦ ground arith
  ]

  -- What an insertion did: it took slot `i`, vacant under generation `g`, or found no room.
  abbrev pub Inserted : A → Registry A → ℕ × Registry A → Type 0
  Inserted a r (h, r') =
      ((h ≡ 0) × (r' ≡ r) × (r.live_count ≡ max_u32))
      ⊎ ((h < 2 ^ 64)
          × (h ≢ 0)
          × (lookup r h ≡ none)
          × ((k : ℕ) → k < 2 ^ 64 → lookup r' k ≡ (if h == k then some a else lookup r k)))

  occupy-Inserted :
      (a : A) (i : ℕ) (s : Slot A) (q r : Registry A)
      → get_elem? q.slots i ≡ some s
      → s.session ≡ none
      → Generations q.slots
      → length q.slots ≤ max_u32
      → ((o : Option (ℕ × ℕ)) → find q.slots o ≡ find r.slots o)
      → Inserted a r (occupy a i q (some s))
  unfolding occupy lookup
  occupy-Inserted a i s q r at gone gens room same =
      let inside : i < max_u32 = omega (arith, lt-length_of_some q.slots i s at) in
      let (g0, gm) = generation_bounds q.slots i s gens at in
      let h : ℕ = encode i s.generation in
      let hh : h < 2 ^ 64 = encode-lt i s.generation inside gm in
      inr (
        hh,
        encode-ne_zero i s.generation,
        sym (same (decode h))
            ∙ find_gone q.slots i s (decode h) at gone
                (names-decode i s.generation h inside g0 gm hh (decode h) refl ∙ ground arith),
        λ k hk.
            rw (find-fill q.slots i s a (decode k) at gone, same (decode k))
              (rw (names-decode i s.generation k inside g0 gm hk (decode k) refl) refl),
      )

  insert_at-Inserted :
      (a : A) (r : Registry A) (is : List ℕ)
      → r.free_indices ≡ is
      → IsValid r
      → Inserted a r (insert_at a r is)
  unfolding insert_at insert_fresh
  insert_at-Inserted a r [] e v = elim (Bool-cases (leb max_u32 (length r.slots))) [
    | inl full ↦ rw full (inl (refl, refl, ground (arith, v.listed, ap length e)))
    | inr room ↦ rw room (
        occupy-Inserted a (length r.slots) fresh_slot
          (record r { slots = r.slots ++ fresh_slot ∷ [] }) r
          (get_elem?-append_end r.slots fresh_slot (length r.slots) refl) refl
          (Generations-append r.slots v.generations)
          (ground (arith, length-append r.slots (fresh_slot ∷ []))) (find-append r.slots))
  ]
  insert_at-Inserted a r (i ∷ rest) e v =
      let f : Free r.slots (i ∷ rest) = subst (Free r.slots) e v.free in
      let (s, at, gone) = vacant_slot r.slots i f.0 in
      rw at (
        occupy-Inserted a i s (record r { free_indices = rest }) r at gone v.generations v.bounded
          (λ o. refl))

  -- On a well-formed registry an insertion either finds all 2^32 - 1 slots live, changes nothing
  -- and returns the handle 0, or returns a nonzero 64-bit handle that was not live, under which
  -- the session is then found, while every other handle finds what it found before.
  pub lookup-insert : (a : A) (r : Registry A) → IsValid r → Inserted a r (insert a r)
  unfolding insert
  lookup-insert a r v = insert_at-Inserted a r r.free_indices refl v

  -- A handle that names nothing can be struck out without a change.
  find_absent :
      (ss : List (Slot A)) (i g : ℕ) (o : Option (ℕ × ℕ))
      → session_of g (get_elem? ss i) ≡ none
      → find ss o ≡ (if names i g o then none else find ss o)
  unfolding find names
  find_absent ss i g none e = refl
  find_absent ss i g (some (j, k)) e = elim (Eq-cases i j) [
    | inl same ↦ elim (Eq-cases g k) [
      | inl eq ↦ rw (← same, ← eq) (ground arith)
      | inr ne ↦ rw ne (ground arith)
    ]
    | inr ne ↦ rw ne refl
  ]

  session_of-some :
      (g : ℕ) (t : Option (Slot A)) (a : A)
      → session_of g t ≡ some a
      → (s : Slot A) × (t ≡ some s) × (s.generation ≡ g)
  unfolding session_of
  session_of-some g none a e = cc
  session_of-some g (some s) a e = (s, refl, ground arith)

  remove_found-find :
      (i g : ℕ) (r : Registry A) (c : Option A) (o : Option (ℕ × ℕ))
      → session_of g (get_elem? r.slots i) ≡ c
      → find (remove_found i g r c).1.slots o ≡ (if names i g o then none else find r.slots o)
  unfolding remove_found release
  remove_found-find i g r none o e = find_absent r.slots i g o e
  remove_found-find i g r (some a) o e =
      let (s, at, same) = session_of-some g (get_elem? r.slots i) a e in
      subst
        (λ k.
          find (set r.slots i (record { generation = next_generation g; session = none })) o
          ≡ (if names i k o then none else find r.slots o))
        same (find-vacate r.slots i (next_generation g) s o at)

  remove_found-fst : (i g : ℕ) (r : Registry A) (o : Option A) → (remove_found i g r o).0 ≡ o
  unfolding remove_found
  remove_found-fst i g r none = refl
  remove_found-fst i g r (some a) = refl

  remove_at-lookup :
      (h k : ℕ) (r : Registry A) (o : Option (ℕ × ℕ))
      → decode h ≡ o
      → h < 2 ^ 64
      → k < 2 ^ 64
      → ((remove_at r o).0 ≡ find r.slots o)
        × (find (remove_at r o).1.slots (decode k)
            ≡ (if h == k then none else find r.slots (decode k)))
  unfolding remove_at find
  remove_at-lookup h k r none e hh hk = (
    refl,
    elim (Eq-cases h k) [ inl same ↦ ground (arith, ap decode same) | inr ne ↦ rw ne refl ],
  )
  remove_at-lookup h k r (some (i, g)) e hh hk =
      let (p, q, u) = decode_bounds h i g e in
      (
        remove_found-fst i g r (session_of g (get_elem? r.slots i)),
        remove_found-find i g r (session_of g (get_elem? r.slots i)) (decode k) refl
            ∙ ap (λ b. if b then none else find r.slots (decode k))
                (names-decode i g k p q u hk (decode k) refl
                  ∙ ap (λ n. n == k) (encode-decode h i g hh e)),
      )

  -- Removing a 64-bit handle returns the session that a lookup finds under it, if any; afterwards
  -- that handle finds nothing and every other 64-bit handle finds what it found before.
  pub lookup-remove :
      (h k : ℕ) (r : Registry A)
      → h < 2 ^ 64
      → k < 2 ^ 64
      → ((remove h r).0 ≡ lookup r h)
        × (lookup (remove h r).1 k ≡ (if h == k then none else lookup r k))
  unfolding remove lookup
  lookup-remove h k r hh hk = remove_at-lookup h k r (decode h) refl hh hk

-- The empty registry knows no handle.
pub lookup-empty : {A : Type 0} (h : ℕ) → lookup (empty {A = A}) h ≡ none
unfolding lookup find session_of
lookup-empty {A} h = elim (decode h) as (λ o. find {A = A} [] o ≡ none) [
  | none ↦ refl
  | some (i, g) ↦ refl
]
