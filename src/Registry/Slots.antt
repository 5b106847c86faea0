-- ===== src/Registry/Slots.antt =====
-- SessionRegistry::Slot, and what the table of slots is measured by.
use dart_terminal.Base.{
  ℕ, zero, suc, ◌+◌, ◌^◌, ◌≤◌, ◌<◌, ◌≡◌, refl, ap, ◌∙◌, inl, inr, Bool, true, false, ◌||◌, Option,
  none, some, List, [], ◌∷◌, ◌++◌, arith, ◌==◌, if◌then◌else◌, Eq-cases, length, get_elem?, set,
}

pub record Slot (A : Type 0) : Type 0 where
  pub generation : ℕ
  pub session : Option A

abbrev pub fresh_slot : {A : Type 0} → Slot A
fresh_slot = record { generation = 1; session = none }

abbrev pub is_some : {A : Type 0} → Option A → Bool
is_some none = false
is_some (some a) = true

module _ {A : Type 0} where
  abbrev pub occupied : List (Slot A) → ℕ
  occupied [] = 0
  occupied (s ∷ ss) = (if is_some s.session then 1 else 0) + occupied ss

  -- Generations are nonzero 32-bit numbers.
  abbrev pub Generations : List (Slot A) → Type 0
  Generations [] = Unit {0}
  Generations (s ∷ ss) = (0 < s.generation) × (s.generation < 2 ^ 32) × Generations ss

  abbrev pub vacant : List (Slot A) → ℕ → Bool
  vacant [] i = false
  vacant (s ∷ ss) zero = if is_some s.session then false else true
  vacant (s ∷ ss) (suc i) = vacant ss i

abbrev pub has : ℕ → List ℕ → Bool
has i [] = false
has i (j ∷ js) = (i == j) || has i js

-- The free list names vacant slots, each once.
abbrev pub Free : {A : Type 0} → List (Slot A) → List ℕ → Type 0
Free ss [] = Unit {0}
Free ss (i ∷ is) = (vacant ss i ≡ true) × (has i is ≡ false) × Free ss is

module _ {A : Type 0} where
  pub occupied-append : (ss ts : List (Slot A)) → occupied (ss ++ ts) ≡ occupied ss + occupied ts
  occupied-append [] ts = omega arith
  occupied-append (s ∷ ss) ts = omega (arith, occupied-append ss ts)

  pub occupied-le-length : (ss : List (Slot A)) → occupied ss ≤ length ss
  occupied-le-length [] = omega arith
  occupied-le-length (s ∷ ss) = ground (arith, occupied-le-length ss)

  pub Generations-append :
      (ss : List (Slot A)) → Generations ss → Generations (ss ++ fresh_slot ∷ [])
  Generations-append [] g = (omega arith, omega arith, tt)
  Generations-append (s ∷ ss) g = (g.0, g.1, Generations-append ss g.2)

  pub Generations-set :
      (ss : List (Slot A)) (i : ℕ) (t : Slot A)
      → Generations ss
      → 0 < t.generation
      → t.generation < 2 ^ 32
      → Generations (set ss i t)
  Generations-set [] i t g p q = tt
  Generations-set (s ∷ ss) zero t g p q = (p, q, g.2)
  Generations-set (s ∷ ss) (suc i) t g p q = (g.0, g.1, Generations-set ss i t g.2 p q)

  pub generation_bounds :
      (ss : List (Slot A)) (i : ℕ) (s : Slot A)
      → Generations ss
      → get_elem? ss i ≡ some s
      → (0 < s.generation) × (s.generation < 2 ^ 32)
  generation_bounds [] i s g e = cc
  generation_bounds (t ∷ ss) zero s g e = ground arith
  generation_bounds (t ∷ ss) (suc i) s g e = generation_bounds ss i s g.2 e

  pub occupied-set_full :
      (ss : List (Slot A)) (i : ℕ) (t : Slot A)
      → vacant ss i ≡ true
      → is_some t.session ≡ true
      → occupied (set ss i t) ≡ occupied ss + 1
  occupied-set_full [] i t v f = cc
  occupied-set_full (s ∷ ss) zero t v f = ground arith
  occupied-set_full (s ∷ ss) (suc i) t v f = omega (arith, occupied-set_full ss i t v f)

  pub occupied-set_vacant :
      (ss : List (Slot A)) (i : ℕ) (s t : Slot A)
      → get_elem? ss i ≡ some s
      → is_some s.session ≡ true
      → t.session ≡ none
      → occupied (set ss i t) + 1 ≡ occupied ss
  occupied-set_vacant [] i s t e f v = cc
  occupied-set_vacant (x ∷ ss) zero s t e f v = ground arith
  occupied-set_vacant (x ∷ ss) (suc i) s t e f v = omega (arith, occupied-set_vacant ss i s t e f v)

  pub vacant_slot :
      (ss : List (Slot A)) (i : ℕ)
      → vacant ss i ≡ true
      → (s : Slot A) × (get_elem? ss i ≡ some s) × (s.session ≡ none)
  vacant_slot [] i v = cc
  vacant_slot (s ∷ ss) zero v = (s, ground arith, ground arith)
  vacant_slot (s ∷ ss) (suc i) v = vacant_slot ss i v

  pub not_vacant :
      (ss : List (Slot A)) (i : ℕ) (s : Slot A)
      → get_elem? ss i ≡ some s
      → is_some s.session ≡ true
      → vacant ss i ≡ false
  not_vacant [] i s e f = cc
  not_vacant (x ∷ ss) zero s e f = ground arith
  not_vacant (x ∷ ss) (suc i) s e f = not_vacant ss i s e f

  pub vacant-set_ne :
      (ss : List (Slot A)) (i j : ℕ) (t : Slot A)
      → (i == j) ≡ false
      → vacant (set ss j t) i ≡ vacant ss i
  vacant-set_ne [] i j t h = refl
  vacant-set_ne (s ∷ ss) zero zero t h = ground arith
  vacant-set_ne (s ∷ ss) zero (suc j) t h = refl
  vacant-set_ne (s ∷ ss) (suc i) zero t h = refl
  vacant-set_ne (s ∷ ss) (suc i) (suc j) t h = vacant-set_ne ss i j t (ground arith)

  pub vacant-set_self :
      (ss : List (Slot A)) (i : ℕ) (t : Slot A)
      → i < length ss
      → t.session ≡ none
      → vacant (set ss i t) i ≡ true
  vacant-set_self [] i t h e = absurd (omega arith)
  vacant-set_self (s ∷ ss) zero t h e = ground arith
  vacant-set_self (s ∷ ss) (suc i) t h e = vacant-set_self ss i t (omega arith) e

  pub vacant-append :
      (ss ts : List (Slot A)) (i : ℕ) → vacant ss i ≡ true → vacant (ss ++ ts) i ≡ true
  vacant-append [] ts i h = cc
  vacant-append (s ∷ ss) ts zero h = h
  vacant-append (s ∷ ss) ts (suc i) h = vacant-append ss ts i h

  -- A slot outside the free list can change without touching it.
  pub Free-set :
      (ss : List (Slot A)) (is : List ℕ) (j : ℕ) (t : Slot A)
      → Free ss is
      → has j is ≡ false
      → Free (set ss j t) is
  Free-set ss [] j t f h = tt
  Free-set ss (i ∷ is) j t f h =
      (vacant-set_ne ss i j t (ground arith) ∙ f.0, f.1, Free-set ss is j t f.2 (ground arith))

  pub Free-append : (ss ts : List (Slot A)) (is : List ℕ) → Free ss is → Free (ss ++ ts) is
  Free-append ss ts [] f = tt
  Free-append ss ts (i ∷ is) f = (vacant-append ss ts i f.0, f.1, Free-append ss ts is f.2)

  pub not-Free :
      (ss : List (Slot A)) (is : List ℕ) (i : ℕ)
      → Free ss is
      → vacant ss i ≡ false
      → has i is ≡ false
  not-Free ss [] i f v = refl
  not-Free ss (j ∷ is) i f v = elim (Eq-cases i j) [
    | inl e ↦ cc (ap (vacant ss) e)
    | inr ne ↦ rw ne (not-Free ss is i f.2 v)
  ]
