-- ===== src/Int.antt =====
-- The signed numbers that events carry: `negsuc n` is -(n + 1).
use dart_terminal.Base.{ℕ, zero, suc}

pub data ℤ : Type 0 where
  pos : ℕ → ℤ
  negsuc : ℕ → ℤ

abbrev pub minus_one : ℤ
minus_one = negsuc 0

abbrev pub neg : ℕ → ℤ
neg zero = pos 0
neg (suc n) = negsuc n
