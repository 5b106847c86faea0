-- ===== src/Registry/Handle.antt =====
-- SessionRegistry::Encode and Decode: a handle packs a slot's generation over its index plus one.
use dart_terminal.Base.{
  ℕ, ◌+◌, ◌-◌, ◌*◌, ◌/◌, ◌%◌, ◌^◌, ◌<◌, ◌≡◌, ◌||◌, Option, none, some, arith, ◌==◌, if◌then◌else◌,
}

abbrev pub max_u32 : ℕ
max_u32 = 2 ^ 32 - 1

-- The shifted generation and the index share no bit, since `index + 1` is below 2^32 in a table of
-- at most 2^32 - 1 slots: `|` is `+`.
unfoldable pub encode : ℕ → ℕ → ℕ
encode index generation = generation * 2 ^ 32 + (index + 1)

decode_parts : ℕ → ℕ → Option (ℕ × ℕ)
decode_parts i g = if (i == 0) || (g == 0) then none else some (i - 1, g)

unfoldable pub decode : ℕ → Option (ℕ × ℕ)
unfolding decode_parts
decode h = decode_parts (h % 2 ^ 32) ((h / 2 ^ 32) % 2 ^ 32)

-- Decoding a handle gives back the index and the generation that it was made of, whenever the
-- index fits the table and the generation is a nonzero 32-bit number.
pub decode-encode : (i g : ℕ) → i < max_u32 → 0 < g → g < 2 ^ 32 → decode (encode i g) ≡ some (i, g)
unfolding decode encode
decode-encode i g hi g0 hg = ground arith

-- A 64-bit handle that decodes is the encoding of what it decodes to.
pub encode-decode : (h i g : ℕ) → h < 2 ^ 64 → decode h ≡ some (i, g) → encode i g ≡ h
unfolding decode encode
encode-decode h i g hh e = ground arith

pub decode_bounds : (h i g : ℕ) → decode h ≡ some (i, g) → (i < max_u32) × (0 < g) × (g < 2 ^ 32)
unfolding decode
decode_bounds h i g e = ground arith
