-- ===== src/Snapshot/Bytes.antt =====
-- C strings in the buffers that the system fills: strnlen and what follows a terminator.
use dart_terminal.Base.{
  ℕ, zero, suc, ◌≤◌, ◌<◌, ◌≡◌, refl, inl, inr, List, [], ◌∷◌, ◌++◌, arith, ◌==◌, if◌then◌else◌,
  Bool-cases, length, take,
}

-- The bytes before the first NUL, at most all of them.
abbrev pub strnlen : List ℕ → ℕ
strnlen [] = 0
strnlen (b ∷ bs) = if b == 0 then 0 else suc (strnlen bs)

-- `while (cursor < end && *cursor == '\0') ++cursor`.
abbrev pub skip_nul : List ℕ → List ℕ
skip_nul [] = []
skip_nul (b ∷ bs) = let rest = skip_nul bs in if b == 0 then rest else b ∷ bs

abbrev pub HasNoNul : List ℕ → Type 0
HasNoNul [] = Unit {0}
HasNoNul (b ∷ bs) = (0 < b) × HasNoNul bs

pub strnlen-le : (bs : List ℕ) → strnlen bs ≤ length bs
strnlen-le [] = omega arith
strnlen-le (b ∷ bs) = ground (arith, strnlen-le bs)

-- A string and its terminator are found again.
pub strnlen-append : (bs rest : List ℕ) → HasNoNul bs → strnlen (bs ++ 0 ∷ rest) ≡ length bs
strnlen-append [] rest h = refl
strnlen-append (b ∷ bs) rest h = ground (arith, strnlen-append bs rest h.1)

pub take-HasNoNul : (n : ℕ) (bs : List ℕ) → n ≤ strnlen bs → HasNoNul (take n bs)
take-HasNoNul zero bs h = tt
take-HasNoNul (suc n) [] h = tt
take-HasNoNul (suc n) (b ∷ bs) h = elim (Bool-cases (b == 0)) [
  | inl end ↦ absurd (ground arith)
  | inr more ↦ (ground arith, take-HasNoNul n bs (ground arith))
]

-- How many terminators there are.
