-- ===== src/Snapshot/Members/Described.antt =====
-- How the scan describes a member.
use dart_terminal.Base.{
  ℕ, ◌-◌, ◌<◌, min, ◌≡◌, refl, ◌⊎◌, inl, inr, false, List, [], ◌∷◌, ◌++◌, arith, ◌==◌, if_both,
  if_cases, length, length-take,
}
use dart_terminal.Snapshot.Bytes.{strnlen, strnlen-le}
use dart_terminal.Snapshot.Os.{InfoResult, information, UsageResult, used, usage_failed}
use dart_terminal.Snapshot.Members.{
  Process, name_capacity, has_pid, shown_name, with_usage, describe,
}

-- What the system says of the process puts it in the group.
abbrev pub IsMember : (ℕ → InfoResult) → ℕ → ℕ → Type 0
IsMember info group pid =
    (seconds : ℕ) × (microseconds : ℕ) × (name : List ℕ) × (comm : List ℕ) × (info pid
      ≡ information group seconds microseconds name comm)

-- One process as it is described: of the group asked for, with a number above 0, a name that fits,
-- and a start unless an error says why there is none.
pub record IsDescribed (info : ℕ → InfoResult) (group : ℕ) (m : Process) : Type 0 where
  pub live : 0 < m.pid
  pub member : IsMember info group m.pid
  pub named : (length m.name ≡ m.name_length) × (m.name_length < name_capacity)
  pub started : (0 < m.start_absolute_time) ⊎ (0 < m.resource_usage_error)

-- Every one of them is described, and no two have one number.
abbrev pub AreDistinct : (ℕ → InfoResult) → ℕ → List Process → Type 0
AreDistinct info group [] = Unit {0}
AreDistinct info group (m ∷ ms) =
    IsDescribed info group m × (has_pid m.pid ms ≡ false) × AreDistinct info group ms

pub describe-pid :
    (pid seconds microseconds : ℕ) (name comm : List ℕ) (u : UsageResult)
    → (describe pid seconds microseconds name comm u).pid ≡ pid
unfolding describe with_usage
describe-pid pid seconds microseconds name comm (used start e) =
    if_both (λ (m : Process). m.pid ≡ pid) (start == 0) refl refl
describe-pid pid seconds microseconds name comm (usage_failed e) = refl

pub has_pid-append :
    (pid : ℕ) (cs : List Process) (m : Process)
    → has_pid pid cs ≡ false
    → (m.pid == pid) ≡ false
    → has_pid pid (cs ++ m ∷ []) ≡ false
has_pid-append pid [] m h n = ground arith
has_pid-append pid (c ∷ cs) m h n = ground (arith, has_pid-append pid cs m)

module _ (info : ℕ → InfoResult) (group : ℕ) where
  with_usage-IsDescribed :
      (u : UsageResult) (m : Process)
      → 0 < m.pid
      → IsMember info group m.pid
      → (length m.name ≡ m.name_length) × (m.name_length < name_capacity)
      → IsDescribed info group (with_usage u m)
  unfolding with_usage
  with_usage-IsDescribed (used start e) m p i n =
      if_cases (IsDescribed info group) (start == 0)
        (λ z. record { live = p; member = i; named = n; started = inr (ground arith) })
        (λ z. record { live = p; member = i; named = n; started = inl (ground arith) })
  with_usage-IsDescribed (usage_failed e) m p i n = record {
    live = p;
    member = i;
    named = n;
    started = inr (ground arith);
  }

  pub describe-IsDescribed :
      (pid seconds microseconds : ℕ) (name comm : List ℕ) (u : UsageResult)
      → 0 < pid
      → IsMember info group pid
      → IsDescribed info group (describe pid seconds microseconds name comm u)
  unfolding describe
  describe-IsDescribed pid seconds microseconds name comm u p i =
      let text : List ℕ = shown_name name comm in
      with_usage-IsDescribed u _ p i (
        omega (arith, strnlen-le text, length-take (min (strnlen text) (name_capacity - 1)) text),
        omega arith,
      )

  pub AreDistinct-append :
      (ms : List Process) (m : Process)
      → AreDistinct info group ms
      → IsDescribed info group m
      → has_pid m.pid ms ≡ false
      → AreDistinct info group (ms ++ m ∷ [])
  AreDistinct-append [] m d i new = (i, refl, tt)
  AreDistinct-append (c ∷ cs) m d i new = (
    d.0,
    has_pid-append c.pid cs m d.1 (ground arith),
    AreDistinct-append cs m d.2 i (ground arith),
  )
