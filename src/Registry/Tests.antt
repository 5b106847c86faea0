-- ===== src/Registry/Tests.antt =====
-- Runs of the registry, and its theorems at concrete tables.
use dart_terminal.Base.{ℕ, ◌+◌, ◌*◌, ◌^◌, ◌≡◌, refl, none, some, List, [], ◌∷◌, arith}
use dart_terminal.Registry.Handle.{encode, decode, decode-encode, encode-decode}
use dart_terminal.Registry.Validity.{IsValid, empty-IsValid}
use dart_terminal.Registry.Lookup.{Inserted, lookup-insert, lookup-remove}
use dart_terminal.Registry.Stale.{Op, inserts, removes, run, run-IsValid, lookup-run_removed}
use dart_terminal.Registry.{Registry, empty, insert, lookup, remove}

-- Sessions 7 and 8, of which the first has been destroyed.
script : List (Op ℕ)
script = inserts 7 ∷ inserts 8 ∷ removes (2 ^ 32 + 1) ∷ []

two_sessions : Registry ℕ
unfolding run insert remove
two_sessions = run script empty

abbrev first : ℕ
first = 2 ^ 32 + 1

abbrev second : ℕ
second = 2 ^ 32 + 2

first_is_stale : lookup two_sessions first ≡ none
unfolding two_sessions lookup decode script
first_is_stale = refl

second_is_live : lookup two_sessions second ≡ some 8
unfolding two_sessions lookup decode script
second_is_live = refl

-- The slot of the first session is used again under generation 2.
reused : (insert 9 two_sessions).0 ≡ 2 * 2 ^ 32 + 1
unfolding two_sessions insert encode script decode
reused = refl

decode-encode_example : decode (encode 4 9) ≡ some (4, 9)
decode-encode_example = decode-encode 4 9 (omega arith) (omega arith) (omega arith)

encode-decode_example : encode 1 1 ≡ second
unfolding decode
encode-decode_example = encode-decode second 1 1 (omega arith) refl

run-IsValid_example : IsValid (run script empty)
run-IsValid_example = run-IsValid script empty empty-IsValid

lookup-insert_example : Inserted 9 (run script empty) (insert 9 (run script empty))
lookup-insert_example = lookup-insert 9 (run script empty) (run-IsValid script empty empty-IsValid)

lookup-remove_example :
    ((remove second two_sessions).0 ≡ some 8) × (lookup (remove second two_sessions).1 first ≡ none)
unfolding two_sessions lookup decode script
lookup-remove_example = lookup-remove second first two_sessions (omega arith) (omega arith)

lookup-run_removed_example :
    lookup (run (inserts 9 ∷ inserts 10 ∷ removes first ∷ []) (remove second two_sessions).1) second
    ≡ none
lookup-run_removed_example =
    lookup-run_removed second 8 two_sessions (inserts 9 ∷ inserts 10 ∷ removes first ∷ [])
      second_is_live (omega arith)
