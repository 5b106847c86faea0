-- ===== src/Event/Trace.antt =====
-- What a trace of effects says of the byte streams: the bytes that the terminal took, and the bytes
-- that were delivered in OUTPUT events.
use dart_terminal.Base.{
  ℕ, ◌≡◌, refl, sym, Bool, true, false, not, ◌&&◌, List, [], ◌∷◌, ◌++◌, arith, if◌then◌else◌,
}
use dart_terminal.Event.{EventType, output, Effect, emits, took}
use mathlib.Core.List.{append_assoc}

abbrev pub is_output : EventType → Bool
is_output output = true
is_output _ = false

abbrev pub taken_by : Effect → List ℕ
taken_by (took bytes) = bytes
taken_by _ = []

abbrev pub output_of : Effect → List ℕ
output_of (emits e) = if is_output e.type then e.bytes else []
output_of _ = []

abbrev pub taken : List Effect → List ℕ
taken [] = []
taken (e ∷ es) = taken_by e ++ taken es

abbrev pub outputs : List Effect → List ℕ
outputs [] = []
outputs (e ∷ es) = output_of e ++ outputs es

-- Whether an effect touches neither stream.
abbrev pub is_quiet : Effect → Bool
is_quiet (emits e) = not (is_output e.type)
is_quiet (took bytes) = false
is_quiet _ = true

abbrev pub is_silent : List Effect → Bool
is_silent [] = true
is_silent (e ∷ es) = is_quiet e && is_silent es

pub taken-append : (es fs : List Effect) → taken (es ++ fs) ≡ taken es ++ taken fs
taken-append [] fs = refl
taken-append (e ∷ es) fs =
    rw (taken-append es fs) (sym (append_assoc (taken_by e) (taken es) (taken fs)))

pub outputs-append : (es fs : List Effect) → outputs (es ++ fs) ≡ outputs es ++ outputs fs
outputs-append [] fs = refl
outputs-append (e ∷ es) fs =
    rw (outputs-append es fs) (sym (append_assoc (output_of e) (outputs es) (outputs fs)))

quiet_effect : (e : Effect) → is_quiet e ≡ true → (taken_by e ≡ []) × (output_of e ≡ [])
quiet_effect (emits e) h = ground arith
quiet_effect (took bytes) h = cc
quiet_effect _ h = (refl, refl)

pub silent_streams : (es : List Effect) → is_silent es ≡ true → (taken es ≡ []) × (outputs es ≡ [])
silent_streams [] h = (refl, refl)
silent_streams (e ∷ es) h = ground (arith, quiet_effect e, silent_streams es)
