-- ===== src/Snapshot/Arguments/Bounds.antt =====
-- Whatever sysctl answers, ReadProcessArguments stays within its buffers and counts what it keeps.
use dart_terminal.Base.{
  ℕ, zero, suc, ◌+◌, ◌-◌, ◌^◌, ◌≤◌, ◌<◌, min, ◌≡◌, refl, sym, ap, ◌∙◌, ◌⊎◌, inl, inr, ◌||◌, List,
  [], ◌∷◌, ◌++◌, arith, ltb, leb, ◌==◌, Bool-cases, if_both, if_cases, length, take, drop,
  length-append, length-take,
}
use dart_terminal.Errno
use dart_terminal.Snapshot.Bytes.{strnlen, skip_nul, strnlen-le, take-HasNoNul}
use dart_terminal.Snapshot.Arguments.Strings.{
  render_strings, AreArguments, render_strings-append, AreArguments-append, length-append_one,
}
use dart_terminal.Snapshot.Arguments.{
  Arguments, error_or, no_arguments, SizeResult, required, size_failed, BlockResult, copied,
  block_failed, argument_limit, argument_bytes_capacity, single_argument_limit, keep_argument,
  keep_arguments, close_arguments, parse_arguments, parse_block, read_process_arguments, int_at,
}

-- The kept bytes fit the buffer, and are the counted strings, one after another, each without NULs,
-- within its limit and with its NUL.
pub record IsKept (o : Arguments) : Type 0 where
  pub measured : o.argument_bytes_length ≡ length o.arguments
  pub fits : length o.arguments ≤ argument_bytes_capacity
  pub strings : List (List ℕ)
  pub rendered : o.arguments ≡ render_strings strings
  pub counted : length strings ≡ o.argument_count
  pub proper : AreArguments strings

keep_argument-IsKept :
    (rest : List ℕ) (o : Arguments)
    → o.argument_bytes_length + min (strnlen rest) single_argument_limit + 1
      ≤ argument_bytes_capacity
    → IsKept o
    → IsKept (keep_argument (strnlen rest) rest o)
unfolding keep_argument
keep_argument-IsKept rest o room k =
    let n : ℕ = min (strnlen rest) single_argument_limit in
    let a : List ℕ = take n rest in
    let kept : List ℕ = a ++ 0 ∷ [] in
    let size : length a ≡ n = omega (arith, length-take n rest, strnlen-le rest) in
    let m : length kept ≡ n + 1 = omega (arith, length-append a (0 ∷ [])) in
    record {
      measured = omega (arith, length-append o.arguments kept, k.measured);
      fits = omega (arith, length-append o.arguments kept, k.measured);
      strings = k.strings ++ a ∷ [];
      rendered = ap (λ bs. bs ++ kept) k.rendered ∙ sym (render_strings-append k.strings (a ∷ []));
      counted = omega (arith, length-append_one k.strings a, k.counted);
      proper =
          AreArguments-append k.strings (a ∷ []) k.proper
            ((take-HasNoNul n rest (omega arith), omega arith), tt);
    }

pub nothing-IsKept :
    (e total truncated : ℕ)
    → IsKept (record no_arguments {
      arguments_error = e;
      total_argument_count = total;
      arguments_truncated = truncated;
    })
nothing-IsKept e total truncated = record {
  measured = refl;
  fits = omega arith;
  strings = [];
  rendered = refl;
  counted = refl;
  proper = tt;
}

-- What is kept does not depend on the other fields.
same-IsKept :
    (o : Arguments) (e truncated omitted : ℕ)
    → IsKept o
    → IsKept (record o {
      arguments_error = e;
      arguments_truncated = truncated;
      omitted_argument_count = omitted;
    })
same-IsKept o e truncated omitted k = record {
  measured = k.measured;
  fits = k.fits;
  strings = k.strings;
  rendered = k.rendered;
  counted = k.counted;
  proper = k.proper;
}

keep_arguments-IsKept :
    (n : ℕ) (rest : List ℕ) (o : Arguments) → IsKept o → IsKept (keep_arguments n rest o)
unfolding keep_arguments
keep_arguments-IsKept zero rest o k = k
keep_arguments-IsKept (suc n) rest o k =
    let size : ℕ = strnlen rest in
    let failed : IsKept (record o { arguments_error = Errno.io }) =
      same-IsKept o Errno.io o.arguments_truncated o.omitted_argument_count k in
    if_both IsKept (length rest == 0) failed (
      if_both IsKept (size == length rest) failed (
        if_cases IsKept
          (ltb (argument_bytes_capacity - min size single_argument_limit - 1)
            o.argument_bytes_length)
          (λ full. same-IsKept o o.arguments_error 1 o.omitted_argument_count k)
          (λ room.
            keep_arguments-IsKept n (drop (size + 1) rest) (keep_argument size rest o)
              (keep_argument-IsKept rest o (ground arith) k))))

-- At most `n` more arguments are counted, and their total stays.
keep_arguments-count :
    (n : ℕ) (rest : List ℕ) (o : Arguments)
    → ((keep_arguments n rest o).argument_count ≤ o.argument_count + n)
      × ((keep_arguments n rest o).total_argument_count ≡ o.total_argument_count)
unfolding keep_arguments keep_argument
keep_arguments-count zero rest o = (omega arith, refl)
keep_arguments-count (suc n) rest o = ground (
  arith,
  keep_arguments-count n (drop (strnlen rest + 1) rest) (keep_argument (strnlen rest) rest o),
)

-- What a caller can rely on.
pub record IsWellformed (o : Arguments) : Type 0 where
  pub kept : IsKept o
  pub limited : o.argument_count ≤ argument_limit
  pub accounted :
      ((0 < o.arguments_error) × (o.argument_count ≡ 0))
      ⊎ ((o.argument_count + o.omitted_argument_count ≡ o.total_argument_count)
          × ((o.omitted_argument_count ≡ 0) ⊎ (o.arguments_truncated ≡ 1)))

closed-IsWellformed :
    (n : ℕ) (rest : List ℕ) (o : Arguments)
    → IsKept o
    → o.argument_count ≡ 0
    → n ≤ argument_limit
    → n ≤ o.total_argument_count
    → IsWellformed (close_arguments (keep_arguments n rest o))
unfolding close_arguments
closed-IsWellformed n rest o k none_ few fits =
    let t : Arguments = keep_arguments n rest o in
    let kept : IsKept t = keep_arguments-IsKept n rest o k in
    let (c, e) = keep_arguments-count n rest o in
    record {
      kept = same-IsKept t t.arguments_error _ _ kept;
      limited = omega arith;
      accounted = elim (Bool-cases (ltb t.argument_count t.total_argument_count)) [
        | inl short ↦ rw short (inr (ground arith, inr refl))
        | inr whole ↦ rw whole (inr (ground arith, inl (ground arith)))
      ];
    }

failed-IsWellformed :
    (e total truncated : ℕ)
    → 0 < e
    → IsWellformed (record no_arguments {
      arguments_error = e;
      total_argument_count = total;
      arguments_truncated = truncated;
    })
failed-IsWellformed e total truncated h = record {
  kept = nothing-IsKept e total truncated;
  limited = omega arith;
  accounted = inl (h, refl);
}

parse_arguments-IsWellformed :
    (count : ℕ) (rest : List ℕ) → IsWellformed (parse_arguments count rest no_arguments)
unfolding parse_arguments
parse_arguments-IsWellformed count rest = elim (Bool-cases (strnlen rest == length rest)) [
  | inl end ↦ rw end (failed-IsWellformed 5 count 0 (omega arith))
  | inr more ↦ rw more (
      closed-IsWellformed (min count argument_limit) (skip_nul (drop (strnlen rest + 1) rest))
        (record no_arguments { total_argument_count = count }) (nothing-IsKept 0 count 0) refl
        (omega arith) (omega arith))
]

parse_block-IsWellformed : (b : BlockResult) → IsWellformed (parse_block b no_arguments)
unfolding parse_block
parse_block-IsWellformed (block_failed e) =
    failed-IsWellformed (error_or Errno.io e) 0 0 (ground arith)
parse_block-IsWellformed (copied block) =
    if_both IsWellformed (ltb (length block) 4 || ltb argument_bytes_capacity (length block))
      (failed-IsWellformed Errno.io 0 0 (omega arith))
      (if_both IsWellformed (leb (2 ^ 31) (int_at block))
        (failed-IsWellformed Errno.io 0 0 (omega arith))
        (parse_arguments-IsWellformed (int_at block) (drop 4 block)))

-- Whatever sysctl answers, the kept bytes fit their buffer and are exactly the counted strings, at
-- most 128, one after another, each without NULs, within 16384 bytes and terminated; and unless
-- reading failed before the first one, the kept and the omitted ones add up to the total, and any
-- omission is marked as truncation.
pub read_process_arguments-IsWellformed :
    (size : SizeResult) (block : BlockResult)
    → IsWellformed (read_process_arguments size block no_arguments)
unfolding read_process_arguments
read_process_arguments-IsWellformed (size_failed e) block =
    failed-IsWellformed (error_or Errno.io e) 0 0 (ground arith)
read_process_arguments-IsWellformed (required n) block =
    if_both IsWellformed (ltb n 4) (failed-IsWellformed Errno.io 0 0 (omega arith)) (
      if_both IsWellformed (ltb argument_bytes_capacity n)
        (failed-IsWellformed Errno.toobig 0 1 (omega arith)) (parse_block-IsWellformed block))
