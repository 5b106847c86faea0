-- ===== src/Snapshot/Elapsed.antt =====
-- AbsoluteDeltaMicroseconds of packages/dart_pty_macos/native/PtySession.cc: the time between two
-- readings of mach_absolute_time, in microseconds.
use dart_terminal.Base.{
  ℕ, ◌+◌, ◌-◌, ◌*◌, ◌/◌, ◌%◌, ◌^◌, ◌≤◌, ◌<◌, ◌≡◌, refl, sym, ap, ◌∙◌, false, ◌||◌, Option, none,
  some, arith, ltb, ◌==◌, if◌then◌else◌,
}
use native.Mathlib.Nat.{mul-add-div_right, div-add-mod', le-div_iff_mul-le, mul-le-mul, mod-lt}

-- mach_timebase_info: numerator and denominator, 32 bits each, or a failure.
abbrev pub Timebase : Type 0
Timebase = Option (ℕ × ℕ)

-- Nanoseconds of `delta` ticks, in 64 bits.
unfoldable pub nanoseconds : ℕ → ℕ → ℕ → ℕ
nanoseconds delta numer denom =
    (delta / denom * numer + ((delta % denom * numer) % 2 ^ 64) / denom) % 2 ^ 64

unfoldable pub scaled_delta : ℕ → ℕ → ℕ → Option ℕ
unfolding nanoseconds
scaled_delta delta numer denom =
    if numer == 0 || denom == 0
    then none
    else if ltb ((2 ^ 64 - 1) / numer) (delta / denom)
    then none
    else some (nanoseconds delta numer denom / 1000)

-- `none` where `*available` is set to false.
unfoldable pub absolute_delta : Timebase → ℕ → ℕ → Option ℕ
unfolding scaled_delta
absolute_delta timebase start end = if start == 0 || ltb end start then none else elim timebase [
  | none ↦ none
  | some (numer, denom) ↦ scaled_delta (end - start) numer denom
]

-- Whole and remaining periods are scaled apart.
divided :
    (delta numer denom : ℕ)
    → 0 < denom
    → delta * numer / denom ≡ delta / denom * numer + delta % denom * numer / denom
divided delta numer denom d =
    let q : ℕ = delta / denom in
    let r : ℕ = delta % denom in
    let parts : delta * numer ≡ (q * numer) * denom + r * numer =
      ap (λ (x : ℕ). x * numer) (sym (div-add-mod' delta denom)) ∙ grind arith in
    ap (λ (x : ℕ). x / denom) parts ∙ mul-add-div_right d (q * numer) (r * numer)

nanoseconds-eq :
    (delta numer denom : ℕ)
    → 0 < denom
    → numer < 2 ^ 32
    → denom < 2 ^ 32
    → delta * numer / denom < 2 ^ 64
    → nanoseconds delta numer denom ≡ delta * numer / denom
unfolding nanoseconds
nanoseconds-eq delta numer denom d n32 d32 fits =
    let e = divided delta numer denom d in
    let small : delta % denom * numer ≤ (2 ^ 32 - 1) * (2 ^ 32 - 1) =
      mul-le-mul {n₁ = delta % denom} {m₁ = numer} {n₂ = 2 ^ 32 - 1} {m₂ = 2 ^ 32 - 1}
        (omega (arith, mod-lt delta d)) (omega arith) in
    let cut : (delta % denom * numer) % 2 ^ 64 ≡ delta % denom * numer = omega arith in
    rw cut (omega (arith, e))

-- Between a nonzero start and a later end the microseconds are exactly those that the timebase
-- gives, rounded down, whenever the nanoseconds fit 64 bits.
pub absolute_delta_exact :
    (numer denom start end : ℕ)
    → 0 < start
    → start ≤ end
    → 0 < numer
    → numer < 2 ^ 32
    → 0 < denom
    → denom < 2 ^ 32
    → (end - start) * numer / denom < 2 ^ 64
    → absolute_delta (some (numer, denom)) start end ≡ some ((end - start) * numer / denom / 1000)
unfolding absolute_delta
absolute_delta_exact numer denom start end s le n n32 d d32 fits =
    let delta : ℕ = end - start in
    let e = divided delta numer denom d in
    let room : delta / denom ≤ (2 ^ 64 - 1) / numer =
      (le-div_iff_mul-le {x = delta / denom} {y = 2 ^ 64 - 1} n).1 (omega (arith, e)) in
    let a : (start == 0 || ltb end start) ≡ false = ground arith in
    let b : (numer == 0 || denom == 0) ≡ false = ground arith in
    let c : ltb ((2 ^ 64 - 1) / numer) (delta / denom) ≡ false = ground arith in
    rw (a, b, c, nanoseconds-eq delta numer denom d n32 d32 fits) refl
