-- ===== src/Snapshot/Arguments/RoundTrip.antt =====
-- The block that KERN_PROCARGS2 documents, and what ReadProcessArguments makes of it.
use dart_terminal.Base.{
  ℕ, zero, suc, ◌+◌, ◌-◌, ◌/◌, ◌%◌, ◌^◌, ◌≤◌, ◌<◌, min, ◌≡◌, refl, sym, ap, ◌∙◌, true, false, List,
  [], ◌∷◌, ◌++◌, arith, ltb, leb, ◌==◌, length, take, drop, length-append, take-length_append,
  drop-length_append_cons,
}
use dart_terminal.Snapshot.Bytes.{strnlen, skip_nul, HasNoNul, strnlen-append}
use dart_terminal.Snapshot.Arguments.{
  Arguments, no_arguments, required, copied, argument_limit, argument_bytes_capacity,
  single_argument_limit, keep_argument, keep_arguments, close_arguments, parse_arguments,
  read_process_arguments, int_at,
}
use dart_terminal.Snapshot.Arguments.Strings.{render_strings, AreArguments, render_strings-append}
use mathlib.Core.List.{append_assoc, append-nil}

abbrev pub render_int : ℕ → List ℕ
render_int n = n % 256 ∷ (n / 256) % 256 ∷ (n / 65536) % 256 ∷ (n / 16777216) % 256 ∷ []

abbrev pub nuls : ℕ → List ℕ
nuls zero = []
nuls (suc n) = 0 ∷ nuls n

-- The number of arguments, the executable's path, padding, the arguments, and what comes after them.
abbrev pub render_block : List (List ℕ) → List ℕ → ℕ → List ℕ → List ℕ
render_block arguments executable padding after =
    render_int (length arguments)
    ++ (executable ++ 0 ∷ (nuls padding ++ (render_strings arguments ++ after)))

abbrev pub StartsFilled : List (List ℕ) → Type 0
StartsFilled [] = Unit {0}
StartsFilled (a ∷ as_) = 0 < length a

-- One round of the loop.
keep_arguments_one :
    (a rest : List ℕ) (n : ℕ) (o : Arguments)
    → HasNoNul a
    → length a ≤ single_argument_limit
    → o.argument_bytes_length + length a + 1 ≤ argument_bytes_capacity
    → keep_arguments (suc n) (a ++ 0 ∷ rest) o
      ≡ keep_arguments n rest (record o {
        argument_count = o.argument_count + 1;
        argument_bytes_length = o.argument_bytes_length + length a + 1;
        arguments = o.arguments ++ (a ++ 0 ∷ []);
      })
unfolding keep_arguments keep_argument
keep_arguments_one a rest n o h small room =
    let all : List ℕ = a ++ 0 ∷ rest in
    let size : strnlen all ≡ length a = strnlen-append a rest h in
    let whole : length all ≡ length a + suc (length rest) = length-append a (0 ∷ rest) in
    let filled : (length all == 0) ≡ false = ground arith in
    let ended : (length a == length all) ≡ false = ground arith in
    let cut : min (length a) single_argument_limit ≡ length a = omega arith in
    let fits : ltb (argument_bytes_capacity - length a - 1) o.argument_bytes_length ≡ false =
      ground arith in
    let same : (length a == length a) ≡ true = ground arith in
    let kept : take (length a) all ≡ a = take-length_append a (0 ∷ rest) in
    let next : drop (length a + 1) all ≡ rest = drop-length_append_cons a 0 rest in
    rw (filled, size, ended, cut, fits, same, kept, next) refl

keep_arguments-render :
    (shown : List (List ℕ)) (after : List ℕ) (o : Arguments)
    → AreArguments shown
    → o.argument_bytes_length + length (render_strings shown) ≤ argument_bytes_capacity
    → keep_arguments (length shown) (render_strings shown ++ after) o ≡ record o {
      argument_count = o.argument_count + length shown;
      argument_bytes_length = o.argument_bytes_length + length (render_strings shown);
      arguments = o.arguments ++ render_strings shown;
    }
unfolding keep_arguments
keep_arguments-render [] after o h room = ground (arith, append-nil o.arguments)
keep_arguments-render (a ∷ as_) after o h room =
    let rest : List ℕ = render_strings as_ ++ after in
    let whole : length (render_strings (a ∷ as_)) ≡ length a + suc (length (render_strings as_)) =
      length-append a (0 ∷ render_strings as_) in
    let joined : (o.arguments ++ (a ++ 0 ∷ [])) ++ render_strings as_
        ≡ o.arguments ++ render_strings (a ∷ as_) =
      append_assoc o.arguments (a ++ 0 ∷ []) (render_strings as_)
      ∙ ap (λ bs. o.arguments ++ bs) (append_assoc a (0 ∷ []) (render_strings as_)) in
    let t : Arguments = record o {
      argument_count = o.argument_count + 1;
      argument_bytes_length = o.argument_bytes_length + length a + 1;
      arguments = o.arguments ++ (a ++ 0 ∷ []);
    } in
    ap (λ bs. keep_arguments (suc (length as_)) bs o)
      (append_assoc a (0 ∷ render_strings as_) after)
    ∙ keep_arguments_one a rest (length as_) o h.0.0 h.0.1 (omega (arith, whole))
    ∙ keep_arguments-render as_ after t h.1 (omega (arith, whole))
    ∙ ground (arith, whole, joined)

skip_nul-nuls : (n : ℕ) (rest : List ℕ) → skip_nul (nuls n ++ rest) ≡ skip_nul rest
skip_nul-nuls zero rest = refl
skip_nul-nuls (suc n) rest = skip_nul-nuls n rest

skip_nul-render :
    (shown : List (List ℕ)) (after : List ℕ)
    → 0 < length shown
    → AreArguments shown
    → StartsFilled shown
    → skip_nul (render_strings shown ++ after) ≡ render_strings shown ++ after
skip_nul-render [] after some_ h f = absurd (omega arith)
skip_nul-render ([] ∷ as_) after some_ h f = absurd (omega arith)
skip_nul-render ((b ∷ bs) ∷ as_) after some_ h f = ground arith

-- All of `shown` was kept.
abbrev pub kept_whole : List (List ℕ) → Arguments
kept_whole shown = record {
  arguments_error = 0;
  arguments_truncated = 0;
  argument_count = length shown;
  total_argument_count = length shown;
  omitted_argument_count = 0;
  argument_bytes_length = length (render_strings shown);
  arguments = render_strings shown;
}

parse_arguments-render :
    (shown : List (List ℕ)) (executable after : List ℕ) (padding : ℕ)
    → 0 < length shown
    → AreArguments shown
    → StartsFilled shown
    → HasNoNul executable
    → length shown ≤ argument_limit
    → length (render_strings shown) ≤ argument_bytes_capacity
    → parse_arguments
        (length shown)
        (executable ++ 0 ∷ (nuls padding ++ (render_strings shown ++ after)))
        no_arguments
      ≡ kept_whole shown
unfolding parse_arguments close_arguments
parse_arguments-render shown executable after padding some_ h f x few room =
    let rest : List ℕ = nuls padding ++ (render_strings shown ++ after) in
    let all : List ℕ = executable ++ 0 ∷ rest in
    let size : strnlen all ≡ length executable = strnlen-append executable rest x in
    let whole : length all ≡ length executable + suc (length rest) =
      length-append executable (0 ∷ rest) in
    let ended : (length executable == length all) ≡ false = ground arith in
    let limit : min (length shown) argument_limit ≡ length shown = omega arith in
    let skipped : skip_nul (drop (length executable + 1) all) ≡ render_strings shown ++ after =
      ap skip_nul (drop-length_append_cons executable 0 rest)
      ∙ skip_nul-nuls padding (render_strings shown ++ after)
      ∙ skip_nul-render shown after some_ h f in
    let o : Arguments = record no_arguments { total_argument_count = length shown } in
    rw (size, ended, limit, skipped)
      (rw (keep_arguments-render shown after o h (omega arith)) (ground arith))

-- What is behind the number of arguments.
read_rest :
    (n : ℕ) (rest : List ℕ)
    → n ≤ argument_limit
    → length (render_int n ++ rest) ≤ argument_bytes_capacity
    → read_process_arguments
        (required (length (render_int n ++ rest)))
        (copied (render_int n ++ rest))
        no_arguments
      ≡ parse_arguments n rest no_arguments
unfolding read_process_arguments int_at
read_rest n rest few room =
    let value : int_at (render_int n ++ rest) ≡ n = omega arith in
    let all : List ℕ = render_int n ++ rest in
    let long : ltb (length all) 4 ≡ false = ground arith in
    let short : ltb argument_bytes_capacity (length all) ≡ false = ground arith in
    let positive : leb (2 ^ 31) n ≡ false = ground arith in rw (long, short, value, positive) refl

-- The arguments of a process are read back from the block that the kernel makes of them: up to 128
-- arguments without NULs, each within 16384 bytes and the first not empty, with any path, padding
-- and environment around them, in a block that fits the buffer. Nothing is omitted or truncated,
-- and nothing of the environment is kept.
pub read_process_arguments-render_block :
    (shown : List (List ℕ)) (executable environment : List ℕ) (padding : ℕ)
    → 0 < length shown
    → AreArguments shown
    → StartsFilled shown
    → HasNoNul executable
    → length shown ≤ argument_limit
    → length (render_strings shown) ≤ argument_bytes_capacity
    → length (render_block shown executable padding environment) ≤ argument_bytes_capacity
    → read_process_arguments
        (required (length (render_block shown executable padding environment)))
        (copied (render_block shown executable padding environment))
        no_arguments
      ≡ kept_whole shown
read_process_arguments-render_block shown executable environment padding some_ h f x few room fits =
    read_rest (length shown)
      (executable ++ 0 ∷ (nuls padding ++ (render_strings shown ++ environment))) few fits
    ∙ parse_arguments-render shown executable environment padding some_ h f x few room

nuls_more : (n : ℕ) (rest : List ℕ) → nuls n ++ 0 ∷ rest ≡ nuls (suc n) ++ rest
nuls_more zero rest = refl
nuls_more (suc n) rest = ap (λ bs. 0 ∷ bs) (nuls_more n rest)

-- An empty first argument is taken for padding: the other arguments are kept in its place, and
-- after them the first string of the environment, which is no argument.
pub read_process_arguments_leaks :
    (others : List (List ℕ)) (variable : List ℕ) (environment : List (List ℕ))
    → (executable : List ℕ) (padding : ℕ) → AreArguments (others ++ variable ∷ [])
    → StartsFilled (others ++ variable ∷ [])
    → HasNoNul executable
    → length others + 1 ≤ argument_limit
    → length (render_strings (others ++ variable ∷ [])) ≤ argument_bytes_capacity
    → length
        (render_block ([] ∷ others) executable padding (render_strings (variable ∷ environment)))
      ≤ argument_bytes_capacity
    → read_process_arguments
        (required (
          length (
            render_block
              ([] ∷ others)
              executable
              padding
              (render_strings (variable ∷ environment)))))
        (copied
          (render_block ([] ∷ others) executable padding (render_strings (variable ∷ environment))))
        no_arguments
      ≡ kept_whole (others ++ variable ∷ [])
read_process_arguments_leaks others variable environment executable padding h f x few room fits =
    let shown : List (List ℕ) = others ++ variable ∷ [] in
    let n : length shown ≡ suc (length others) =
      omega (arith, length-append {A = List ℕ} others (variable ∷ [])) in
    let after : List ℕ = render_strings environment in
    let moved : render_strings others ++ render_strings (variable ∷ environment)
        ≡ render_strings shown ++ after =
      sym (render_strings-append others (variable ∷ environment))
      ∙ ap render_strings (sym (append_assoc others (variable ∷ []) environment))
      ∙ render_strings-append shown environment in
    let block : nuls padding
          ++ (render_strings ([] ∷ others) ++ render_strings (variable ∷ environment))
        ≡ nuls (suc padding) ++ (render_strings shown ++ after) =
      nuls_more padding (render_strings others ++ render_strings (variable ∷ environment))
      ∙ ap (λ bs. nuls (suc padding) ++ bs) moved in
    read_rest (suc (length others))
      (executable
        ++ 0
          ∷ (nuls padding
              ++ (render_strings ([] ∷ others) ++ render_strings (variable ∷ environment))))
      (omega arith) fits
    ∙ ap (λ bs. parse_arguments (suc (length others)) (executable ++ 0 ∷ bs) no_arguments) block
    ∙ ap
        (λ k.
          parse_arguments k
            (executable ++ 0 ∷ (nuls (suc padding) ++ (render_strings shown ++ after)))
            no_arguments)
        (sym n)
    ∙ parse_arguments-render shown executable after (suc padding) (omega arith) h f x (omega arith)
        room
