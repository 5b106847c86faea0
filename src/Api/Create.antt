-- ===== src/Api/Create.antt =====
-- What dpty_session_create does.
use dart_terminal.Base.{
  ℕ, ◌^◌, ◌<◌, ◌≡◌, refl, ap, ◌∙◌, ◌≢◌, ◌⊎◌, inl, inr, Bool, true, false, Option, none, some, List,
  [], ◌∷◌, ◌++◌, arith, ◌==◌, if◌then◌else◌, Eq-cases, Option-cases, length, get_elem?-append_lt,
  get_elem?-append_end, lt-length_of_some,
}
use dart_terminal.Status.{Status, ok, set_error, clear_error}
use dart_terminal.Config.{ConfigV1, OwnedConfig, Checked, accepted, rejected, copy_config}
use dart_terminal.Config.Bounds.{RefusesWell, copy_config-refuses}
use dart_terminal.Registry.{Registry, insert, lookup}
use dart_terminal.Registry.Validity.{IsValid, insert-IsValid}
use dart_terminal.Registry.Lookup.{Inserted, lookup-insert}
use dart_terminal.Session.{Session, new_session, set_handle}
use dart_terminal.Api.{
  Library, Outcome, session_at, find_session, register, create_copied, dpty_session_create,
}
use dart_terminal.Api.Sound.{IsSound, same-IsSound}

abbrev pub is_ok : Status → Bool
is_ok ok = true
is_ok _ = false

-- A new session of the configuration `c` is under a handle that was not live; no other handle notices.
pub record IsRegistered (l : Library) (c : OwnedConfig) (o : Outcome) : Type 0 where
  pub succeeded : o.status ≡ ok
  pub bounded : o.handle < 2 ^ 64
  pub nonzero : o.handle ≢ 0
  pub fresh : find_session l o.handle ≡ none
  pub stored : find_session o.library o.handle ≡ some (set_handle o.handle (new_session c))
  pub others : (k : ℕ) → k < 2 ^ 64 → k ≢ o.handle → find_session o.library k ≡ find_session l k

-- Nothing but the error is changed.
pub record IsRefused (l : Library) (o : Outcome) : Type 0 where
  pub failed : is_ok o.status ≡ false
  pub reported : o.library.last_error.status ≡ o.status
  pub none_made : o.handle ≡ 0
  pub same : (o.library.registry ≡ l.registry) × (o.library.sessions ≡ l.sessions)

module _ (l : Library) (s : Session) (v : IsSound l) where
  registered-IsSound :
      (h : ℕ) (r : Registry ℕ)
      → IsValid r
      → ((k : ℕ)
          → k < 2 ^ 64
          → lookup r k ≡ (if h == k then some (length l.sessions) else lookup l.registry k))
      → IsSound (record l {
        registry = r;
        sessions = l.sessions ++ set_handle h s ∷ [];
        last_error = clear_error;
      })
  unfolding set_handle
  registered-IsSound h r w found = record {
    valid = w;
    named = λ k i hk e. elim (Eq-cases h k) [
      | inl eq ↦ (
        set_handle h s,
        get_elem?-append_end l.sessions (set_handle h s) i (ground (arith, found k hk)),
        eq,
      )
      | inr ne ↦
          let (t, at, own) = v.named k i hk (ground (arith, found k hk)) in
          (
            t,
            get_elem?-append_lt l.sessions (set_handle h s ∷ []) i
                  (lt-length_of_some l.sessions i t at)
                ∙ at,
            own,
          )
    ];
  }

  registered_found :
      (h k : ℕ) (r : Registry ℕ)
      → ((k : ℕ)
          → k < 2 ^ 64
          → lookup r k ≡ (if h == k then some (length l.sessions) else lookup l.registry k))
      → k < 2 ^ 64
      → find_session
          (record l {
            registry = r;
            sessions = l.sessions ++ set_handle h s ∷ [];
            last_error = clear_error;
          })
          k
        ≡ (if h == k then some (set_handle h s) else find_session l k)
  unfolding find_session session_at
  registered_found h k r found hk =
      let m : List Session = l.sessions ++ set_handle h s ∷ [] in
      elim (Eq-cases h k) [
        | inl eq ↦
            let e : lookup r k ≡ some (length l.sessions) = found k hk ∙ ground arith in
            let same : (h == k) ≡ true = ground arith in
            rw (e, same) (get_elem?-append_end l.sessions (set_handle h s) (length l.sessions) refl)
        | inr ne ↦
            let e : lookup r k ≡ lookup l.registry k = found k hk ∙ ground arith in
            rw (e, ne)
              (elim (Option-cases (lookup l.registry k)) [
                | inl gone ↦ rw gone refl
                | inr (i, live) ↦
                    let (t, at, own) = v.named k i hk live in
                    rw live (
                      get_elem?-append_lt l.sessions (set_handle h s ∷ []) i
                        (lt-length_of_some l.sessions i t at))
              ])
      ]

-- What dpty_session_create promises.
abbrev pub IsCreated : Option ConfigV1 → Library → Outcome → Type 0
IsCreated config l o =
    IsSound o.library
    × (((c : OwnedConfig) × (copy_config config ≡ accepted c) × IsRegistered l c o) ⊎ IsRefused l o)

register-IsCreated :
    (config : Option ConfigV1) (c : OwnedConfig) (l : Library) (i : ℕ × Registry ℕ)
    → copy_config config ≡ accepted c
    → IsSound l
    → IsValid i.1
    → Inserted (length l.sessions) l.registry i
    → IsCreated config l (register (new_session c) l i)
unfolding register set_error clear_error find_session session_at
register-IsCreated config c l (h, r) e v w (inl (z, same, full)) = rw z (
  same-IsSound l _ v same refl,
  inr (record { failed = refl; reported = refl; none_made = refl; same = (same, refl) }),
)
register-IsCreated config c l (h, r) e v w (inr (hh, nz, fresh, found)) =
    let other : (h == 0) ≡ false = ground arith in
    rw other (
      registered-IsSound l (new_session c) v h r w found,
      inl (
        c,
        e,
        record {
          succeeded = refl;
          bounded = hh;
          nonzero = nz;
          fresh = ap (session_at l) fresh;
          stored = registered_found l (new_session c) v h h r found hh ∙ ground arith;
          others = λ k hk ne. registered_found l (new_session c) v h k r found hk ∙ ground arith;
        },
      ),
    )

create_copied-IsCreated :
    (config : Option ConfigV1) (allocated : Bool) (l : Library) (r : Checked OwnedConfig)
    → copy_config config ≡ r
    → RefusesWell r
    → IsSound l
    → IsCreated config l (create_copied allocated l r)
unfolding create_copied set_error
create_copied-IsCreated config allocated l (rejected x) e bad v = (
  same-IsSound l _ v refl refl,
  inr (record { failed = ap is_ok bad.0; reported = refl; none_made = refl; same = (refl, refl) }),
)
create_copied-IsCreated config true l (accepted c) e good v =
    register-IsCreated config c l (insert (length l.sessions) l.registry) e v
      (insert-IsValid (length l.sessions) l.registry v.valid)
      (lookup-insert (length l.sessions) l.registry v.valid)
create_copied-IsCreated config false l (accepted c) e good v = (
  same-IsSound l _ v refl refl,
  inr (record { failed = refl; reported = refl; none_made = refl; same = (refl, refl) }),
)

-- On a sound library, creation either answers OK with a nonzero handle that was not live, under
-- which there is then a new session of the checked configuration while every other handle finds
-- what it found; or it answers an error, which is also the last error, with the handle 0 and with
-- nothing else changed. The library stays sound.
pub dpty_session_create-IsCreated :
    (config : Option ConfigV1) (output allocated : Bool) (l : Library)
    → IsSound l
    → IsCreated config l (dpty_session_create config output allocated l)
unfolding dpty_session_create set_error
dpty_session_create-IsCreated config true allocated l v =
    create_copied-IsCreated config allocated l (copy_config config) refl
      (copy_config-refuses config) v
dpty_session_create-IsCreated config false allocated l v = (
  same-IsSound l _ v refl refl,
  inr (record { failed = refl; reported = refl; none_made = refl; same = (refl, refl) }),
)
