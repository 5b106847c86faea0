-- ===== src/Registry.antt =====
-- SessionRegistry of packages/dart_pty_macos/native/PtySession.cc: the table that hands out
-- generation-tagged session handles. A `std::deque` of slots is a list, a `std::vector` used as a
-- stack is a list whose head is the back, and a null `shared_ptr` is `none`.
pub mod Handle
pub mod Slots
pub mod Validity
pub mod Lookup
pub mod Stale
mod Tests
use dart_terminal.Base.{
  ℕ, ◌+◌, ◌-◌, ◌%◌, ◌^◌, Option, none, some, List, [], ◌∷◌, ◌++◌, leb, ◌==◌, if◌then◌else◌, length,
  get_elem?, set,
}
use Handle.{encode, decode, max_u32}
use Slots.{Slot, fresh_slot}

pub record Registry (A : Type 0) : Type 0 where
  pub slots : List (Slot A)
  pub free_indices : List ℕ
  pub live_count : ℕ

abbrev pub empty : {A : Type 0} → Registry A
empty = record { slots = []; free_indices = []; live_count = 0 }

-- `++slot.generation`, which skips 0 when the 32 bits wrap.
next_generation : ℕ → ℕ
next_generation g = let n = (g + 1) % 2 ^ 32 in if n == 0 then 1 else n

module _ {A : Type 0} where
  -- `slot.session = session; ++live_count_; return Encode(index, slot.generation)`.
  occupy : A → ℕ → Registry A → Option (Slot A) → ℕ × Registry A
  occupy a i r none = (0, r)
  occupy a i r (some s) = (
    encode i s.generation,
    record r {
      slots = set r.slots i (record s { session = some a });
      live_count = (r.live_count + 1) % 2 ^ 64;
    },
  )

  insert_fresh : A → Registry A → ℕ × Registry A
  unfolding occupy
  insert_fresh a r =
      if leb max_u32 (length r.slots)
      then (0, r)
      else occupy a (length r.slots) (record r { slots = r.slots ++ fresh_slot ∷ [] })
          (some fresh_slot)

  insert_at : A → Registry A → List ℕ → ℕ × Registry A
  unfolding occupy insert_fresh
  insert_at a r [] = insert_fresh a r
  insert_at a r (i ∷ rest) = occupy a i (record r { free_indices = rest }) (get_elem? r.slots i)

  -- 0 is the handle of no session: the registry is full.
  unfoldable pub insert : A → Registry A → ℕ × Registry A
  unfolding insert_at
  insert a r = insert_at a r r.free_indices

  session_of : ℕ → Option (Slot A) → Option A
  session_of g none = none
  session_of g (some s) = if s.generation == g then s.session else none

  find : List (Slot A) → Option (ℕ × ℕ) → Option A
  unfolding session_of
  find ss none = none
  find ss (some (i, g)) = session_of g (get_elem? ss i)

  unfoldable pub lookup : Registry A → ℕ → Option A
  unfolding find
  lookup r h = find r.slots (decode h)

  release : ℕ → ℕ → Registry A → Registry A
  unfolding next_generation
  release i g r = record r {
    slots = set r.slots i (record { generation = next_generation g; session = none });
    free_indices = i ∷ r.free_indices;
    live_count = (r.live_count + 2 ^ 64 - 1) % 2 ^ 64;
  }

  remove_found : ℕ → ℕ → Registry A → Option A → Option A × Registry A
  unfolding release
  remove_found i g r none = (none, r)
  remove_found i g r (some a) = (some a, release i g r)

  remove_at : Registry A → Option (ℕ × ℕ) → Option A × Registry A
  unfolding session_of remove_found
  remove_at r none = (none, r)
  remove_at r (some (i, g)) = remove_found i g r (session_of g (get_elem? r.slots i))

  unfoldable pub remove : ℕ → Registry A → Option A × Registry A
  unfolding remove_at
  remove h r = remove_at r (decode h)
