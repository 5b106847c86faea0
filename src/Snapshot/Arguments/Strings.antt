-- ===== src/Snapshot/Arguments/Strings.antt =====
-- Arguments in a row, each with its NUL, as ReadProcessArguments keeps them.
use dart_terminal.Base.{
  ℕ, ◌+◌, ◌≤◌, ◌≡◌, refl, sym, ap, ◌∙◌, List, [], ◌∷◌, ◌++◌, arith, length, length-append,
}
use dart_terminal.Snapshot.Bytes.{HasNoNul}
use dart_terminal.Snapshot.Arguments.{single_argument_limit}
use mathlib.Core.List.{append_assoc}

abbrev pub render_strings : List (List ℕ) → List ℕ
render_strings [] = []
render_strings (a ∷ as_) = a ++ 0 ∷ render_strings as_

-- Strings that C can hold, none above the limit of a single argument.
abbrev pub AreArguments : List (List ℕ) → Type 0
AreArguments [] = Unit {0}
AreArguments (a ∷ as_) = (HasNoNul a × (length a ≤ single_argument_limit)) × AreArguments as_

pub render_strings-append :
    (xs ys : List (List ℕ)) → render_strings (xs ++ ys) ≡ render_strings xs ++ render_strings ys
render_strings-append [] ys = refl
render_strings-append (x ∷ xs) ys =
    ap (λ bs. x ++ 0 ∷ bs) (render_strings-append xs ys)
    ∙ sym (append_assoc x (0 ∷ render_strings xs) (render_strings ys))

pub AreArguments-append :
    (xs ys : List (List ℕ)) → AreArguments xs → AreArguments ys → AreArguments (xs ++ ys)
AreArguments-append [] ys h k = k
AreArguments-append (x ∷ xs) ys h k = (h.0, AreArguments-append xs ys h.1 k)

pub length-append_one : (xs : List (List ℕ)) (x : List ℕ) → length (xs ++ x ∷ []) ≡ length xs + 1
length-append_one xs x = omega (arith, length-append {A = List ℕ} xs (x ∷ []))
