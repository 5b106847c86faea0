-- ===== src/Config/Bounds.antt =====
-- What an accepted configuration guarantees, and how every other one is refused.
use dart_terminal.Base.{
  ℕ, zero, suc, ◌+◌, ◌≤◌, ◌<◌, min, String, ◌≡◌, refl, ap, subst, inl, inr, Bool, true, false,
  Option, none, some, List, [], ◌∷◌, arith, Bool-cases, length, take,
}
use dart_terminal.Errno
use dart_terminal.Status.{LastError, invalid_argument, set_error}
use dart_terminal.Config.{
  CString, ConfigV1, OwnedConfig, Checked, accepted, rejected, ◌>>=◌, maximum_string_bytes,
  maximum_vector_entries, maximum_queue_bytes, default_read_batch_bytes,
  maximum_read_batches_per_turn, invalid, copy_string, copy_checked, front_is, is_entry,
  copy_entries, entries, is_malformed, copy_argument, copy_environment_entry,
  copy_working_directory, copy_sizes, copy_fields, copy_config,
}

abbrev All : (CString → Type 0) → List CString → Type 0
All P [] = Unit {0}
All P (x ∷ xs) = P x × All P xs

abbrev OptionAll : (CString → Type 0) → Option CString → Type 0
OptionAll P none = Unit {0}
OptionAll P (some x) = P x

-- What the reactor relies on.
pub record IsUsable (c : OwnedConfig) : Type 0 where
  pub rows : 0 < c.rows
  pub columns : 0 < c.columns
  pub high_water : (0 < c.read_high_water) × (c.read_high_water ≤ maximum_queue_bytes)
  pub low_water : c.read_low_water < c.read_high_water
  pub batch : (0 < c.read_batch) × (c.read_batch ≤ default_read_batch_bytes)
  pub turns : c.read_batches_per_event_loop_turn ≤ maximum_read_batches_per_turn
  pub capacity : (0 < c.write_capacity) × (c.write_capacity ≤ maximum_queue_bytes)

abbrev pub IsAbsolute : CString → Type 0
IsAbsolute s = (front_is b'/' s ≡ true) × (length s ≤ maximum_string_bytes)

abbrev pub IsEntry : CString → Type 0
IsEntry s = (is_entry s ≡ true) × (length s ≤ maximum_string_bytes)

-- What the child process is started with.
pub record IsLaunchable (c : OwnedConfig) : Type 0 where
  pub executable : IsAbsolute c.executable
  pub arguments : All (λ s. length s ≤ maximum_string_bytes) c.arguments
  pub argument_count : (0 < length c.arguments) × (length c.arguments ≤ maximum_vector_entries)
  pub environment : All IsEntry c.environment
  pub environment_count : length c.environment ≤ maximum_vector_entries
  pub directory : OptionAll IsAbsolute c.working_directory

record IsWellformed (s : ConfigV1) : Type 0 where
  arguments : (0 < s.argument_count) × (s.argument_count ≤ maximum_vector_entries)
  environment : s.environment_count ≤ maximum_vector_entries
  size : (0 < s.initial_rows) × (0 < s.initial_columns)
  high_water : (0 < s.read_high_water_bytes) × (s.read_high_water_bytes ≤ maximum_queue_bytes)
  low_water : s.read_low_water_bytes < s.read_high_water_bytes
  capacity : (0 < s.write_capacity_bytes) × (s.write_capacity_bytes ≤ maximum_queue_bytes)
  batch : 128 ≤ s.struct_size → s.read_batch_bytes ≤ default_read_batch_bytes
  turns : 136 ≤ s.struct_size → s.read_batches_per_event_loop_turn ≤ maximum_read_batches_per_turn

malformed_cases : (s : ConfigV1) → is_malformed s ≡ false → IsWellformed s
unfolding is_malformed
malformed_cases s h = ground arith

bind-eq_accepted {ℓ κ} :
    {A : Type ℓ} {B : Type κ} (m : Checked A) (f : A → Checked B) {b : B}
    → (m >>= f) ≡ accepted b
    → (a : A) × (m ≡ accepted a) × (f a ≡ accepted b)
bind-eq_accepted (accepted a) f h = (a, refl, h)
bind-eq_accepted (rejected e) f h = cc

take_all {ℓ} : {A : Type ℓ} (n : ℕ) (xs : List A) → length xs ≤ n → take n xs ≡ xs
take_all zero [] h = refl
take_all zero (x ∷ xs) h = absurd (omega arith)
take_all (suc n) [] h = refl
take_all (suc n) (x ∷ xs) h = ap (◌∷◌ x) (take_all n xs (omega arith))

copy_string-length :
    (s : Option CString) (field : String) (b : Bool) (v : CString)
    → copy_string s field b ≡ accepted v
    → (s ≡ some v) × (length v ≤ maximum_string_bytes)
unfolding copy_string invalid
copy_string-length none field b v h = cc
copy_string-length (some s) field b v h =
    let n : length s ≤ maximum_string_bytes = ground arith in
    let e : take (min (length s) (maximum_string_bytes + 1)) s ≡ s =
      take_all (min (length s) (maximum_string_bytes + 1)) s (omega arith) in
    ground (arith, e)

copy_checked-test :
    (s : Option CString) (field message : String) (test : CString → Bool) (v : CString)
    → copy_checked s field test message ≡ accepted v
    → (test v ≡ true) × (length v ≤ maximum_string_bytes)
unfolding copy_checked invalid
copy_checked-test s field message test v h = ground (arith, copy_string-length s field false v)

copy_entries-All :
    (P : CString → Type 0) (copy : Option CString → Checked CString) (f : ℕ → Option CString)
    → ((s : Option CString) (v : CString) → copy s ≡ accepted v → P v)
    → (n i : ℕ) (vs : List CString) → copy_entries copy f n i ≡ accepted vs
    → All P vs × (length vs ≡ n)
unfolding copy_entries
copy_entries-All P copy f sound zero i [] h = (tt, refl)
copy_entries-All P copy f sound zero i (v ∷ vs) h = cc
copy_entries-All P copy f sound (suc n) i vs h =
    let (v, e, h') = bind-eq_accepted (copy (f i)) _ h in
    let (rest, e', h'') = bind-eq_accepted (copy_entries copy f n (i + 1)) _ h' in
    let (a, l) = copy_entries-All P copy f sound n (i + 1) rest e' in
    let same : v ∷ rest ≡ vs = cc in
    subst (λ us. All P us × (length us ≡ suc n)) same ((sound (f i) v e, a), ap suc l)

copy_sizes-IsUsable :
    (s : ConfigV1) (e : CString) (args env : List CString) (d : Option CString)
    → IsWellformed s
    → IsUsable (copy_sizes s e args env d)
unfolding copy_sizes
copy_sizes-IsUsable s e args env d w = ground arith

copy_working_directory-IsAbsolute :
    (s d : Option CString) → copy_working_directory s ≡ accepted d → OptionAll IsAbsolute d
unfolding copy_working_directory
copy_working_directory-IsAbsolute none none h = tt
copy_working_directory-IsAbsolute none (some d) h = cc
copy_working_directory-IsAbsolute (some s) d h =
    let (v, e, h') = bind-eq_accepted (copy_checked (some s) _ (front_is b'/') _) _ h in
    let same : some v ≡ d = cc in
    subst (OptionAll IsAbsolute) same (copy_checked-test (some s) _ _ (front_is b'/') v e)

copy_fields_sound :
    (s : ConfigV1) (c : OwnedConfig)
    → IsWellformed s
    → copy_fields s ≡ accepted c
    → IsUsable c × IsLaunchable c
unfolding copy_fields
copy_fields_sound s c w h =
    let (e, he, h1) = bind-eq_accepted (copy_checked s.executable _ _ _) _ h in
    let (args, hargs, h2) =
      bind-eq_accepted (copy_entries copy_argument (entries s.arguments) s.argument_count 0) _ h1 in
    let (env, henv, h3) =
      bind-eq_accepted
        (copy_entries copy_environment_entry (entries s.environment) s.environment_count 0) _ h2 in
    let (d, hd, h4) = bind-eq_accepted (copy_working_directory s.working_directory) _ h3 in
    let same : copy_sizes s e args env d ≡ c = cc in
    let (a, na) =
      copy_entries-All (λ v. length v ≤ maximum_string_bytes) copy_argument (entries s.arguments)
        (unfold copy_argument in λ t v p. (copy_string-length t _ true v p).1) s.argument_count 0
        args hargs in
    let (b, nb) =
      copy_entries-All IsEntry copy_environment_entry (entries s.environment)
        (unfold copy_environment_entry in λ t v p. copy_checked-test t _ _ is_entry v p)
        s.environment_count 0 env henv in
    subst (λ k. IsUsable k × IsLaunchable k) same
      (
        copy_sizes-IsUsable s e args env d w,
        unfold copy_sizes in
            record {
              executable = copy_checked-test s.executable _ _ (front_is b'/') e he;
              arguments = a;
              argument_count = omega (arith, na, w.arguments);
              environment = b;
              environment_count = omega (arith, nb, w.environment);
              directory = copy_working_directory-IsAbsolute s.working_directory d hd;
            },
      )

-- Every accepted configuration is one that the reactor can use and the child can be started with:
-- nonzero sizes, queues within 64 MiB with the low mark below the high one, batches of 1 to 64 KiB,
-- at most 8 batches a turn, an absolute executable and working directory, 1 to 16384 arguments,
-- at most 16384 environment entries of the form KEY=value, and no string above 1 MiB.
pub copy_config_sound :
    (s : Option ConfigV1) (c : OwnedConfig)
    → copy_config s ≡ accepted c
    → IsUsable c × IsLaunchable c
unfolding copy_config invalid
copy_config_sound none c h = cc
copy_config_sound (some s) c h = elim (Bool-cases (is_malformed s)) [
  | inl bad ↦ ground arith
  | inr good ↦ copy_fields_sound s c (malformed_cases s good) (rw good at h)
]

-- The refusal of a bad argument, with EINVAL.
abbrev pub IsInvalid : LastError → Type 0
IsInvalid e = (e.status ≡ invalid_argument) × (e.error_number ≡ Errno.inval)

abbrev pub RefusesWell : {A : Type 0} → Checked A → Type 0
RefusesWell (accepted a) = Unit {0}
RefusesWell (rejected e) = IsInvalid e

copy_string-refuses :
    (s : Option CString) (field : String) (b : Bool) → RefusesWell (copy_string s field b)
unfolding copy_string invalid set_error
copy_string-refuses none field b = (refl, refl)
copy_string-refuses (some s) field b = ground arith

copy_checked-refuses :
    (s : Option CString) (field message : String) (test : CString → Bool)
    → RefusesWell (copy_checked s field test message)
unfolding copy_checked invalid set_error
copy_checked-refuses s field message test = ground arith

bind-refuses :
    {A B : Type 0} (m : Checked A) (f : A → Checked B)
    → RefusesWell m
    → ((a : A) → RefusesWell (f a))
    → RefusesWell (m >>= f)
bind-refuses (accepted a) f h k = k a
bind-refuses (rejected e) f h k = h

copy_entries-refuses :
    (copy : Option CString → Checked CString) (f : ℕ → Option CString)
    → ((s : Option CString) → RefusesWell (copy s))
    → (n i : ℕ) → RefusesWell (copy_entries copy f n i)
unfolding copy_entries
copy_entries-refuses copy f r zero i = tt
copy_entries-refuses copy f r (suc n) i = bind-refuses (copy (f i)) _ (r (f i)) λ v.
    bind-refuses (copy_entries copy f n (i + 1)) _ (copy_entries-refuses copy f r n (i + 1))
      λ rest. tt

copy_working_directory-refuses : (d : Option CString) → RefusesWell (copy_working_directory d)
unfolding copy_working_directory
copy_working_directory-refuses none = tt
copy_working_directory-refuses (some s) =
    bind-refuses (copy_checked (some s) _ _ _) _ (copy_checked-refuses (some s) _ _ _) λ d. tt

-- Every configuration that is not accepted is refused as an invalid argument with EINVAL.
pub copy_config-refuses : (s : Option ConfigV1) → RefusesWell (copy_config s)
unfolding copy_config invalid set_error
copy_config-refuses none = (refl, refl)
copy_config-refuses (some s) = elim (Bool-cases (is_malformed s)) [
  | inl bad ↦ rw bad (refl, refl)
  | inr good ↦ rw good (fields)
]
  where
    fields : RefusesWell (copy_fields s)
    fields =
        unfold copy_fields copy_argument copy_environment_entry in
        bind-refuses (copy_checked s.executable _ _ _) _ (copy_checked-refuses s.executable _ _ _)
          λ e.
            bind-refuses (copy_entries copy_argument (entries s.arguments) s.argument_count 0) _
              (copy_entries-refuses copy_argument (entries s.arguments)
                (λ t. copy_string-refuses t _ true) s.argument_count 0)
              λ args.
                bind-refuses
                  (copy_entries copy_environment_entry (entries s.environment) s.environment_count
                    0)
                  _
                  (copy_entries-refuses copy_environment_entry (entries s.environment)
                    (λ t. copy_checked-refuses t _ _ is_entry) s.environment_count 0)
                  λ env.
                    bind-refuses (copy_working_directory s.working_directory) _
                      (copy_working_directory-refuses s.working_directory) λ d. tt
