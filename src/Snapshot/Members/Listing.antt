-- ===== src/Snapshot/Members/Listing.antt =====
-- The members that the scan finds.
use dart_terminal.Base.{
  ℕ, ◌+◌, ◌-◌, ◌%◌, ◌^◌, ◌≤◌, ◌<◌, max, ◌≡◌, refl, ap, ◌∙◌, ◌⊎◌, inr, Bool, false, not, ◌||◌, List,
  [], ◌∷◌, arith, ltb, leb, ◌==◌, if_both, if_cases, length, length-append,
}
use dart_terminal.Errno
use dart_terminal.Snapshot.Arguments.{error_or}
use dart_terminal.Snapshot.Os.{
  CountResult, counted, count_failed, ListResult, listed, list_failed, InfoResult, information,
  no_information, UsageResult,
}
use dart_terminal.Snapshot.Members.{
  Scan, no_scan, process_limit, maximum_scan, has_pid, describe, add_described, append_member,
  append_members, count_members, scan_listed, scan_members,
}
use dart_terminal.Snapshot.Members.Described.{
  IsMember, AreDistinct, describe-pid, describe-IsDescribed, AreDistinct-append,
}

-- What the scan keeps at every step.
pub record IsScanned (info : ℕ → InfoResult) (group : ℕ) (o : Scan) : Type 0 where
  pub distinct : AreDistinct info group o.members
  pub limited : length o.members ≤ process_limit

started-IsScanned :
    (info : ℕ → InfoResult) (group n : ℕ)
    → IsScanned info group (record no_scan { total_member_count = n })
started-IsScanned info group n = record { distinct = tt; limited = omega arith }

module _ (info : ℕ → InfoResult) (usage : ℕ → UsageResult) (group : ℕ) where
  add_described-IsScanned :
      (pid : ℕ) (r : InfoResult) (o : Scan)
      → info pid ≡ r
      → 0 < pid
      → length o.members < process_limit
      → has_pid pid o.members ≡ false
      → IsScanned info group o
      → IsScanned info group (add_described group pid r (usage pid) o)
  unfolding add_described
  add_described-IsScanned pid no_information o e p room new k = record {
    distinct = k.distinct;
    limited = k.limited;
  }
  add_described-IsScanned pid (information g seconds microseconds name comm) o e p room new k =
      if_cases (IsScanned info group) (g == group)
        (λ same.
          let i : IsMember info group pid = (
            seconds,
            microseconds,
            name,
            comm,
            e ∙ ap (λ h. information h seconds microseconds name comm) (ground arith),
          ) in
          record {
            distinct =
                AreDistinct-append info group o.members
                  (describe pid seconds microseconds name comm (usage pid)) k.distinct
                  (describe-IsDescribed info group pid seconds microseconds name comm (usage pid) p
                    i)
                  (rw (describe-pid pid seconds microseconds name comm (usage pid)) new);
            limited = omega (
              arith,
              length-append o.members
                  (describe pid seconds microseconds name comm (usage pid) ∷ []),
            );
          })
        (λ other. record { distinct = k.distinct; limited = k.limited })

  append_member-IsScanned :
      (pid : ℕ) (o : Scan)
      → IsScanned info group o
      → IsScanned info group (append_member info usage group pid o)
  unfolding append_member
  append_member-IsScanned pid o k =
      if_cases (IsScanned info group) (pid == 0 || leb process_limit (length o.members)) (λ full. k)
        (λ room.
          if_cases (IsScanned info group) (has_pid pid o.members) (λ there. k)
            (λ new.
              add_described-IsScanned pid (info pid) o refl (ground arith) (ground arith) new k))

  append_members-IsScanned :
      (pids : List ℕ) (o : Scan)
      → IsScanned info group o
      → IsScanned info group (append_members info usage group pids o)
  unfolding append_members
  append_members-IsScanned [] o k = k
  append_members-IsScanned (pid ∷ pids) o k =
      append_members-IsScanned pids _
        (if_both (IsScanned info group) (pid == group) k (append_member-IsScanned pid o k))

-- What a caller can rely on.
pub record IsListed (info : ℕ → InfoResult) (group : ℕ) (o : Scan) : Type 0 where
  pub scanned : IsScanned info group o
  pub accounted : length o.members + o.omitted_member_count ≡ o.total_member_count
  pub enough : length o.members + o.member_issue_count ≤ o.total_member_count
  pub explained : (0 < length o.members) ⊎ (0 < o.observation_error)

module _ (info : ℕ → InfoResult) (usage : ℕ → UsageResult) (group : ℕ) where
  failed-IsListed : (e : ℕ) → 0 < e → IsListed info group (record no_scan { observation_error = e })
  failed-IsListed e h = record {
    scanned = record { distinct = tt; limited = omega arith };
    accounted = refl;
    enough = omega arith;
    explained = inr h;
  }

  count_members-IsListed :
      (o : Scan) → IsScanned info group o → IsListed info group (count_members o)
  unfolding count_members
  count_members-IsListed o k = record {
    scanned = record { distinct = k.distinct; limited = k.limited };
    accounted = ground arith;
    enough = ground arith;
    explained = ground arith;
  }

  scan_listed-IsListed :
      (capacity : ℕ) (l : ListResult)
      → IsListed info group (scan_listed info usage group capacity l no_scan)
  unfolding scan_listed
  scan_listed-IsListed capacity (list_failed e) =
      failed-IsListed (error_or Errno.io e) (ground arith)
  scan_listed-IsListed capacity (listed pids) =
      if_both (IsListed info group) (length pids == capacity)
        (failed-IsListed Errno.overflow (omega arith))
        (count_members-IsListed _ (
          append_members-IsScanned info usage group pids _ (
            append_member-IsScanned info usage group group _
              (started-IsScanned info group (length pids % 2 ^ 32)))))

  -- Whatever the system answers, the members found are at most 32 processes of the group, each once,
  -- each with a name that fits and a start or an error; with the omitted ones they make up the
  -- total, which also covers those that could not be read; and when none is found an error says why.
  pub scan_members-IsListed :
      (count : CountResult) (allocated : Bool) (l : ListResult)
      → IsListed info group (scan_members info usage group count allocated l)
  unfolding scan_members
  scan_members-IsListed (count_failed e) allocated l =
      failed-IsListed (error_or Errno.io e) (ground arith)
  scan_members-IsListed (counted hint) allocated l =
      if_both (IsListed info group) (ltb (maximum_scan - process_limit) hint)
        (failed-IsListed Errno.toobig (omega arith))
        (if_both (IsListed info group) (not allocated) (failed-IsListed Errno.nomem (omega arith))
          (scan_listed-IsListed (max (process_limit + 1) (hint + process_limit)) l))
