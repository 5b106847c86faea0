-- ===== src/Reactor/Exit.antt =====
-- When EventLoop publishes the end of the child.
use dart_terminal.Base.{
  ◌+◌, ◌≡◌, refl, ap, ◌∙◌, inl, inr, Bool, true, not, ◌&&◌, ◌||◌, List, [], ◌∷◌, arith, ltb,
  if◌then◌else◌, Bool-cases,
}
use dart_terminal.Session.{OutputBatch, Session}
use dart_terminal.Session.Calls.{is_empty}
use dart_terminal.Session.Invariant.{Inv, flight_total}
use dart_terminal.Reactor.Os.{Os, IsDocumented}
use dart_terminal.Reactor.Keeps.{answer_all-Keeps}
use dart_terminal.Reactor.ReadSound.{read_available-Keeps}
use dart_terminal.Reactor.Reading.{read_available}
use dart_terminal.Reactor.Reaping.{finish_exit}
use dart_terminal.Reactor.Running.{drain, output_state}
use dart_terminal.Reactor.Sound.{Sound, Sound-IsRobust}
use dart_terminal.Reactor.World.{World, Act, Done, gets, locked, ◌>>=◌, ◌>>◌, skip, answer_all}

-- Read what is left, and publish EXIT if the terminal has ended and all its output is acknowledged.
unfoldable pub drain_when_done : Os → Act Done
unfolding read_available finish_exit
drain_when_done os = do
  read_available os
  acknowledged ← locked os (λ s. (is_empty s.outstanding, s))
  ended ← gets (λ s. s.master_eof)
  if ended && acknowledged then finish_exit os else skip

-- With nothing outstanding there is room for more.
room_when_empty :
    (ended : Bool) (bs : List OutputBatch) (s : Session)
    → s.outstanding ≡ bs
    → Inv s
    → ((ended || not (ltb s.read_in_flight_bytes s.config.read_high_water)) && is_empty bs)
      ≡ (ended && is_empty bs)
room_when_empty ended [] s e v =
    let none_ : s.read_in_flight_bytes ≡ 0 = v.flight ∙ ap flight_total e in
    let room : ltb s.read_in_flight_bytes s.config.read_high_water ≡ true =
      ground (arith, v.usable.high_water) in
    rw room (elim (Bool-cases ended) [ inl over ↦ rw over refl | inr open_ ↦ rw open_ refl ])
room_when_empty ended (b ∷ bs) s e v = elim (Bool-cases ended) [
  | inl over ↦ rw over refl
  | inr open_ ↦ ground arith
]

-- In a sound world the end of the child is published exactly when the terminal has ended and every
-- batch of output is acknowledged: EventLoop's other condition, that no room is left below the high
-- mark, never publishes it.
pub drain-drain_when_done :
    (os : Os) → IsDocumented os → (w : World) → Sound w → drain os w ≡ drain_when_done os w
unfolding drain drain_when_done output_state ◌>>=◌ locked
drain-drain_when_done os doc w h =
    let u : World = (read_available os w).1 in
    let x : World = record u { locks = u.locks + 1 } in
    let v : World = answer_all (os.others u.locks) x in
    let hv : Sound v =
      answer_all-Keeps Sound-IsRobust (os.others u.locks) x
        (Sound-IsRobust.locks (u.locks + 1) u ((read_available-Keeps os doc).at w h)) in
    ap (λ b. (if b then finish_exit os else skip) v)
      (room_when_empty v.session.master_eof v.session.outstanding v.session refl hv.inv)
