-- ===== src/Reactor/WriteSound.antt =====
-- FlushWrites keeps the world sound: the terminal is given the accepted bytes in order, each once.
use dart_terminal.Base.{
  ℕ, zero, suc, ◌+◌, ◌≤◌, ◌<◌, ◌≡◌, refl, sym, ap, ◌∙◌, subst, inl, inr, Bool, true, false, not,
  ◌&&◌, some, List, [], ◌∷◌, ◌++◌, arith, leb, ◌==◌, if◌then◌else◌, Bool-cases, length, take, drop,
  take-append-drop, drop-take_append,
}
use dart_terminal.Errno
use dart_terminal.Event.{Effect, took, write_filter}
use dart_terminal.Event.Trace.{taken, outputs, taken-append, outputs-append}
use dart_terminal.Session.{PendingWrite, Session}
use dart_terminal.Reactor.Os.{Os, IsDocumented, WriteResult, wrote, write_failed}
use dart_terminal.Reactor.Filters.{switch_write, set_write_enabled}
use dart_terminal.Reactor.Keeps.{
  Keeps, IsRobust, keeps_rules, answer_all-Keeps, Keeps-bind, Keeps-if, Keeps-sets, Keeps-gets,
  Keeps-skip, Keeps-wake_reactor, Keeps-tell, locked_from,
}
use dart_terminal.Reactor.Queue.{
  Heads, Heads-IsStable, observed-Inv, observed-unwritten, advance-Inv, advance-unwritten,
  advance-completed, Heads-unwritten, Heads-open,
}
use dart_terminal.Reactor.Quiet.{announce-Keeps, complete-Keeps}
use dart_terminal.Reactor.Sound.{
  Account, IsSound, Account-IsRobust, IsSound-IsRobust, Sound, Sound-IsRobust, minor-Sound,
  Account-Moves,
}
use dart_terminal.Reactor.Sections.{switch_write-IsMinor}
use dart_terminal.Reactor.Diagnostics.{has_master}
use dart_terminal.Reactor.World.{
  World, Act, Done, gets, locked, ◌>>=◌, skip, sets, tell, transfer, wake_reactor, answer_all,
  answer,
}
use dart_terminal.Reactor.Writing.{
  Front, front_of, peek_front, consume, announce, answered, attempt, written, write_blocked,
  flush_loop, flush_writes, maximum_write_batches_per_turn, maximum_write_bytes_per_turn,
}
use mathlib.Core.List.{append_assoc, append-nil}

pub set_write_enabled-Keeps : (b : Bool) → Keeps Sound (set_write_enabled b)
unfolding set_write_enabled
set_write_enabled-Keeps b = Keeps-bind _ _ (Keeps-gets _) λ needed.
    Keeps-if (not needed) skip _ Keeps-skip (
      Keeps-bind (sets (switch_write b)) (λ _. tell (write_filter b ∷ []))
        (Keeps-sets (switch_write b)
          (minor-Sound (switch_write b) (switch_write-IsMinor b) (λ s q. q)))
        λ _. Keeps-tell Sound-IsRobust (write_filter b ∷ []) refl)

-- The terminal takes `n` bytes of the front request, which are still in the queue.
took-Account :
    (left : List ℕ) (n : ℕ) (w : World)
    → IsSound (Heads left) [] w
    → Account
        (Heads left)
        []
        (take n left)
        (record w { trace = w.trace ++ took (take n left) ∷ [] })
took-Account left n w h =
    let (rest, e, now) = h.split in
    let (more, q) = Heads-unwritten left w.session h.inv h.extra in
    let all : rest ≡ left ++ more = now (Heads-open left w.session h.inv h.extra) ∙ q in
    let es : List Effect = took (take n left) ∷ [] in
    let cut : take n left ++ (drop n left ++ more) ≡ left ++ more =
      sym (append_assoc (take n left) (drop n left) more)
      ∙ ap (λ bs. bs ++ more) (take-append-drop n left) in
    record {
      inv = h.inv;
      extra = h.extra;
      split = (
        drop n left ++ more,
        ap (λ bs. bs ++ (drop n left ++ more)) (taken-append w.trace es)
            ∙ append_assoc (taken w.trace) (take n left ++ []) (drop n left ++ more)
            ∙ ap (λ bs. taken w.trace ++ (bs ++ (drop n left ++ more))) (append-nil (take n left))
            ∙ ap (λ bs. taken w.trace ++ bs) (cut ∙ sym all)
            ∙ e,
        λ open_. cut ∙ sym q,
      );
      delivered =
          ap (λ bs. bs ++ []) (outputs-append w.trace es ∙ append-nil (outputs w.trace))
          ∙ h.delivered;
      live = h.live;
    }

-- They leave the queue.
consume-Sound :
    (left : List ℕ) (n : ℕ)
    → 0 < n
    → n ≤ length left
    → (w : World) → Account (Heads left) [] (take n left) w
    → Sound (record w { session = (consume n w.session).1 })
unfolding consume
consume-Sound left n some_ fits w h =
    let (rest, e, now) = h.split in
    let s : Session = w.session in
    record {
      inv = advance-Inv left n some_ fits s.writes s refl h.extra h.inv;
      extra = tt;
      split = (
        rest,
        e,
        λ open_.
            sym (drop-take_append n left rest fits)
            ∙ ap (drop n) (now (sym (advance-completed n s.writes s) ∙ open_))
            ∙ sym (advance-unwritten left n some_ fits s.writes s refl h.extra h.inv),
      );
      delivered = h.delivered;
      live = h.live;
    }

Heads-forget : {left : List ℕ} {w : World} → IsSound (Heads left) [] w → Sound w
Heads-forget h = record {
  inv = h.inv;
  extra = tt;
  split = h.split;
  delivered = h.delivered;
  live = h.live;
}

module _ (os : Os) (doc : IsDocumented os) where
  written-Sound :
      (f : Front) (n total : ℕ) (next : Act Done) (w : World)
      → 0 < n
      → n ≤ length f.remaining
      → Keeps Sound next
      → IsSound (Heads f.remaining) [] w
      → Sound (written os f n total next w).1
  unfolding written ◌>>=◌ tell
  written-Sound f n total next w some_ fits k h =
      let left : List ℕ = f.remaining in
      let told : World = record w { trace = w.trace ++ took (take n left) ∷ [] } in
      let rob = Account-IsRobust {undelivered = []} {sent = take n left} (Heads-IsStable left) in
      let gone = locked os (consume n) told in
      let h1 : Sound gone.1 =
        locked_from Sound os (consume n) rob (consume-Sound left n some_ fits) told
          (took-Account left n w h) in
      let h2 = (complete-Keeps os doc Sound-IsRobust gone.0).at gone.1 h1 in
      (Keeps-if (leb maximum_write_bytes_per_turn (total + n)) wake_reactor next
          (Keeps-wake_reactor Sound-IsRobust) k).at
        _ h2

  write_blocked-Keeps : (e : ℕ) (f : Front) → Keeps Sound (write_blocked os e f)
  unfolding write_blocked
  write_blocked-Keeps e f =
      let rob = Sound-IsRobust in search (keeps_rules, set_write_enabled-Keeps)

  answered-Sound :
      (f : Front) (total : ℕ) (more : ℕ → Act Done) (again : Act Done) (k : ℕ) (r : WriteResult)
      → (w : World) → os.write k f.remaining ≡ r
      → ((n : ℕ) → Keeps Sound (more n))
      → (r ≡ write_failed Errno.intr → Sound w → Sound (again w).1)
      → IsSound (Heads f.remaining) [] w
      → Sound (answered os f total more again r w).1
  unfolding answered skip
  answered-Sound f total more again k (wrote n) w e km ka h = elim (Bool-cases (n == 0)) [
    | inl none_ ↦ rw none_ (Heads-forget h)
    | inr some_ ↦
        let p : 0 < n = ground arith in
        rw some_ (written-Sound f n total (more n) w p (doc.write_fits k n f.remaining e) (km n) h)
  ]
  answered-Sound f total more again k (write_failed n) w e km ka h =
      elim (Bool-cases (n == Errno.intr)) [
        | inl interrupted ↦
            let q : n ≡ Errno.intr = ground arith in
            rw interrupted (ka (ap write_failed q) (Heads-forget h))
        | inr over ↦ rw over ((write_blocked-Keeps n f).at w (Heads-forget h))
      ]

  -- Nothing of a robust property's rules transfers bytes.
  transfers-IsRobust : (k : ℕ) → IsRobust (λ w. w.transfers ≡ k)
  transfers-IsRobust k = record {
    calls = λ c w h. unfold answer in h;
    errno = λ n w h. h;
    locks = λ n w h. h;
    queries = λ n w h. h;
    silent = λ es w q h. h;
  }

  attempt-Sound :
      (f : Front) (total : ℕ) (more : ℕ → Act Done) (again : Act Done) (w : World)
      → ((n : ℕ) → Keeps Sound (more n))
      → ((u : World) → os.streak u.transfers < os.streak w.transfers → Sound u → Sound (again u).1)
      → IsSound (Heads f.remaining) [] w
      → Sound (attempt os total more again (some f) w).1
  unfolding attempt ◌>>=◌ transfer
  attempt-Sound f total more again w km ka h =
      let rob = IsSound-IsRobust {undelivered = []} (Heads-IsStable f.remaining) in
      let a : World = (announce os f w).1 in
      let same : a.transfers ≡ w.transfers =
        (announce-Keeps os doc (transfers-IsRobust w.transfers) f).at w refl in
      let h1 : IsSound (Heads f.remaining) [] a = (announce-Keeps os doc rob f).at w h in
      let v : World = record a { transfers = a.transfers + 1 } in
      answered-Sound f total more again a.transfers (os.write a.transfers f.remaining) v refl km
        (λ e. ka v (
          subst (λ k. os.streak (a.transfers + 1) < os.streak k) same
            (doc.write_settles a.transfers f.remaining e)))
        (Account-Moves (a.transfers + 1) a h1)

  -- What the first section finds.
  found-Sound :
      (total : ℕ) (more : ℕ → Act Done) (again : Act Done) (v : World) (ws : List PendingWrite)
      → v.session.writes ≡ ws
      → ((n : ℕ) → Keeps Sound (more n))
      → ((u : World) → os.streak u.transfers < os.streak v.transfers → Sound u → Sound (again u).1)
      → Sound v
      → Sound
          (attempt os total more again
            (front_of v.session ws).0
            (record v { session = (front_of v.session ws).1 })).1
  unfolding front_of attempt
  found-Sound total more again v [] e km ka h = (set_write_enabled-Keeps false).at v h
  found-Sound total more again v (p ∷ ws) e km ka h =
      let s : Session = v.session in
      let b : Bool = if p.diagnostic && not p.dequeue_observed then true else p.dequeue_observed in
      let (rest, a, now) = h.split in
      let seen : IsSound (Heads (drop s.write_offset p.bytes)) []
          (record v { session = record s { writes = record p { dequeue_observed = b } ∷ ws } }) =
        record {
          inv = observed-Inv b p ws s e h.inv;
          extra = refl;
          split = (rest, a, λ open_. now open_ ∙ sym (observed-unwritten b p ws s e));
          delivered = h.delivered;
          live = h.live;
        } in
      attempt-Sound _ total more again _ km ka seen

  flush_loop-Sound :
      (batches fuel total : ℕ) (w : World)
      → os.streak w.transfers < fuel
      → Sound w
      → Sound (flush_loop os batches fuel total w).1
  unfolding flush_loop peek_front ◌>>=◌ locked
  flush_loop-Sound zero fuel total w few h = (Keeps-wake_reactor Sound-IsRobust).at w h
  flush_loop-Sound (suc batches) zero total w few h = elim few [ ]
  flush_loop-Sound (suc batches) (suc fuel) total w few h =
      let u : World = record w { locks = w.locks + 1 } in
      let v : World = answer_all (os.others w.locks) u in
      let h1 : Sound v =
        answer_all-Keeps Sound-IsRobust (os.others w.locks) u
          (Sound-IsRobust.locks (w.locks + 1) w h) in
      let same : v.transfers ≡ w.transfers =
        answer_all-Keeps (transfers-IsRobust w.transfers) (os.others w.locks) u refl in
      found-Sound total (λ n. flush_loop os batches (suc os.patience) (total + n))
        (flush_loop os (suc batches) fuel total) v v.session.writes refl
        (λ n. record {
          at = λ x.
              flush_loop-Sound batches (suc os.patience) (total + n) x
                (omega (arith, doc.streak_bound x.transfers));
        })
        (λ x less. flush_loop-Sound (suc batches) fuel total x (
          let k : os.streak x.transfers < os.streak w.transfers =
            subst (λ m. os.streak x.transfers < os.streak m) same less in
          omega arith))
        h1

  pub flush_writes-Keeps : Keeps Sound (flush_writes os)
  unfolding flush_writes
  flush_writes-Keeps =
      let open_now : Session → Bool = λ s. has_master s && not s.child_completed in
      let turn : Act Done = flush_loop os maximum_write_batches_per_turn (suc os.patience) 0 in
      Keeps-bind (gets open_now) (λ open_. if open_ then turn else skip) (Keeps-gets open_now)
        λ open_.
          Keeps-if open_ turn skip
            (record {
              at = λ x.
                  flush_loop-Sound maximum_write_batches_per_turn (suc os.patience) 0 x
                    (omega (arith, doc.streak_bound x.transfers));
            })
            Keeps-skip

  -- Over a documented system, FlushWrites keeps a sound world sound, whatever the system answers and
  -- other threads call meanwhile: the bytes that the terminal has taken are a prefix of those that
  -- were accepted, while the child has not ended the queue holds exactly the others, the session's
  -- invariant holds, and no loop runs out of fuel.
  pub flush_writes-Sound : (w : World) → Sound w → Sound (flush_writes os w).1
  flush_writes-Sound w h = flush_writes-Keeps.at w h
