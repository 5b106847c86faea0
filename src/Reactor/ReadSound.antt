-- ===== src/Reactor/ReadSound.antt =====
-- ReadAvailable keeps the world sound: every byte that `read` returns is delivered once and in
-- order, and no more than the high mark is ever in flight.
use dart_terminal.Base.{
  ℕ, zero, suc, ◌+◌, ◌≤◌, ◌≡◌, refl, inl, inr, Bool, true, false, not, ◌&&◌, ◌||◌, Option, none,
  some, List, [], ◌∷◌, arith, ◌==◌, if◌then◌else◌, Bool-cases, length,
}
use dart_terminal.Config.{maximum_read_batches_per_turn}
use dart_terminal.Session.{Session}
use dart_terminal.Reactor.Os.{Os, IsDocumented}
use dart_terminal.Reactor.Keeps.{
  Keeps, answer_all-Keeps, Keeps-bind, Keeps-if, Keeps-sets, Keeps-gets, Keeps-skip,
  Keeps-wake_reactor,
}
use dart_terminal.Reactor.Diagnostics.{has_master}
use dart_terminal.Reactor.Filters.{set_read_enabled}
use dart_terminal.Reactor.Reading.{
  claim, push_batch, clear_retry, request_retry, reach_end, collect, end_of_terminal, deliver,
  read_batch, read_loop, read_available,
}
use dart_terminal.Reactor.Sound.{
  IsSound, IsStable, IsSound-IsRobust, Nothing, Nothing-IsStable, Sound, Sound-IsRobust,
  minor-Sound,
}
use dart_terminal.Reactor.Sections.{minor_rules}
use dart_terminal.Reactor.World.{
  World, Act, Done, gets, locked, ◌>>=◌, skip, sets, answer_all, wake_reactor,
}
use dart_terminal.Reactor.Collect.{
  Claimed, Claimed-IsStable, switch_read-Claimed, set_read_enabled-Keeps, collect-Collected,
  push_batch-Sound, emit-Sound,
}

Sound-weaken :
    {Q : Session → Type 0} {bytes : List ℕ} {w : World}
    → IsSound Q bytes w
    → IsSound Nothing bytes w
Sound-weaken h = record {
  inv = h.inv;
  extra = tt;
  split = h.split;
  delivered = h.delivered;
  live = h.live;
}

module _ (os : Os) where
  -- Taking the mutex, from one account of the world to another.
  locked-Sound :
      {A : Type 0} {Q R : Session → Type 0} {bytes : List ℕ} (f : Session → A × Session)
      → IsStable Q
      → ((v : World) → IsSound Q bytes v → IsSound R bytes (record v { session = (f v.session).1 }))
      → (w : World) → IsSound Q bytes w
      → IsSound R bytes (locked os f w).1
  unfolding locked
  locked-Sound f st k w h =
      let rob = IsSound-IsRobust st in
      k _ (
        answer_all-Keeps rob (os.others w.locks) (record w { locks = w.locks + 1 })
          (rob.locks (w.locks + 1) w h))

  deliver-Sound :
      (bytes : List ℕ) (ended : Bool) (next : Act Done) (w : World)
      → Keeps Sound next
      → IsSound (Claimed (length bytes)) bytes w
      → Sound (deliver os bytes ended next w).1
  unfolding deliver ◌>>=◌
  deliver-Sound bytes ended next w k h =
      let pushed = locked os (push_batch bytes) w in
      let h1 : IsSound Nothing bytes pushed.1 =
        locked-Sound (push_batch bytes) (Claimed-IsStable (length bytes)) (push_batch-Sound bytes) w
          h in
      let quieted : Act Done = if pushed.0.1 then set_read_enabled os false else skip in
      let h2 : IsSound Nothing bytes (quieted pushed.1).1 =
        (Keeps-if pushed.0.1 (set_read_enabled os false) skip
            (set_read_enabled-Keeps os Nothing-IsStable (λ b s q. q) false) Keeps-skip).at
          pushed.1 h1 in
      let h3 = emit-Sound pushed.0.0 bytes (quieted pushed.1).1 h2 in
      (Keeps-if (pushed.0.1 || ended) skip next Keeps-skip k).at _ h3

  Claimed-le :
      {n : ℕ} {bytes : List ℕ} {w : World} (m : ℕ)
      → m ≤ n
      → IsSound (Claimed n) bytes w
      → IsSound (Claimed m) bytes w
  Claimed-le m le h = record {
    inv = h.inv;
    extra = omega (arith, h.extra);
    split = h.split;
    delivered = h.delivered;
    live = h.live;
  }

  end_of_terminal-Keeps :
      (n : ℕ) {bytes : List ℕ} → Keeps (IsSound (Claimed n) bytes) (end_of_terminal os)
  unfolding end_of_terminal
  end_of_terminal-Keeps n =
      Keeps-bind _ _
        (Keeps-sets reach_end
          (minor-Sound reach_end (search minor_rules) (unfold reach_end in λ s q. q)))
        λ _. set_read_enabled-Keeps os (Claimed-IsStable n) (switch_read-Claimed n) false

  -- A batch without bytes: nothing was read.
  nothing-read :
      {Q : Session → Type 0} {w : World} (bytes : List ℕ)
      → (length bytes == 0) ≡ true
      → IsSound Q bytes w
      → Sound w
  nothing-read [] e h = Sound-weaken h
  nothing-read (x ∷ xs) e h = absurd (ground arith)

  read_batch-Sound :
      (doc : IsDocumented os) (size : ℕ) (next : Act Done) (w : World)
      → Keeps Sound next
      → IsSound (Claimed size) [] w
      → Sound (read_batch os size next w).1
  unfolding read_batch ◌>>=◌ skip
  read_batch-Sound doc size next w k h =
      let r = collect os maximum_read_batches_per_turn size [] w in
      let (h1, room) =
        collect-Collected os doc (Claimed-IsStable size) maximum_read_batches_per_turn size [] w h
          (omega arith) in
      let closing : Act Done = if r.0.1 then end_of_terminal os else skip in
      let h2 : IsSound (Claimed size) r.0.0 (closing r.1).1 =
        (Keeps-if r.0.1 (end_of_terminal os) skip (end_of_terminal-Keeps size) Keeps-skip).at r.1
          h1 in
      elim (Bool-cases (length r.0.0 == 0)) [
        | inl empty ↦ rw empty (nothing-read r.0.0 empty h2)
        | inr filled ↦
            rw filled (deliver-Sound r.0.0 r.0.1 next _ k (Claimed-le (length r.0.0) room h2))
      ]

  -- The section that claims room.
  claim-Sound :
      (w : World)
      → Sound w
      → (n : ℕ) → (claim w.session).0 ≡ some n
      → IsSound (Claimed n) [] (record w { session = (claim w.session).1 })
  claim-Sound w h n e =
      let m = minor-Sound (λ s. (claim s).1) (search minor_rules) (λ s q. q) w h in
      record {
        inv = m.inv;
        extra = unfold claim in (ground arith);
        split = m.split;
        delivered = m.delivered;
        live = m.live;
      }

module _ (os : Os) (doc : IsDocumented os) where
  after_claim :
      (batches : ℕ) (v : World) (o : Option ℕ)
      → (claim v.session).0 ≡ o
      → Sound v
      → Keeps Sound (read_loop os batches)
      → Sound
          ((elim o as (λ x. Act Done) [
            | none ↦ set_read_enabled os false
            | some size ↦ read_batch os size (read_loop os batches)
          ])
            (record v { session = (claim v.session).1 })).1
  after_claim batches v none e h k =
      (set_read_enabled-Keeps os Nothing-IsStable (λ b s q. q) false).at _
        (minor-Sound (λ s. (claim s).1) (search minor_rules) (λ s q. q) v h)
  after_claim batches v (some n) e h k =
      read_batch-Sound os doc n (read_loop os batches) _ k (claim-Sound os v h n e)

  read_loop-Keeps : (batches : ℕ) → Keeps Sound (read_loop os batches)
  unfolding read_loop ◌>>=◌
  read_loop-Keeps zero =
      Keeps-bind (sets request_retry) (λ _. wake_reactor)
        (Keeps-sets request_retry (minor-Sound request_retry (search minor_rules) (λ s q. q)))
        λ _. Keeps-wake_reactor Sound-IsRobust
  read_loop-Keeps (suc batches) = record {
    at = λ w h.
        let v = answer_all (os.others w.locks) (record w { locks = w.locks + 1 }) in
        after_claim batches v (claim v.session).0 refl
          (answer_all-Keeps Sound-IsRobust (os.others w.locks) (record w { locks = w.locks + 1 })
            (Sound-IsRobust.locks (w.locks + 1) w h))
          (read_loop-Keeps batches);
  }

  pub read_available-Keeps : Keeps Sound (read_available os)
  unfolding read_available
  read_available-Keeps =
      let turn : Bool → Act Done =
        λ open_. if open_ then read_loop os maximum_read_batches_per_turn else skip in
      let open_now : Session → Bool = λ s. has_master s && not s.master_eof in
      Keeps-bind (sets clear_retry) (λ _. gets open_now >>= turn)
        (Keeps-sets clear_retry (minor-Sound clear_retry (search minor_rules) (λ s q. q)))
        λ _. Keeps-bind (gets open_now) turn (Keeps-gets open_now) λ open_.
          Keeps-if open_ (read_loop os maximum_read_batches_per_turn) skip
            (read_loop-Keeps maximum_read_batches_per_turn) Keeps-skip
