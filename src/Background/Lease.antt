-- ===== src/Background/Lease.antt =====
-- The lease keeps two monitors from running at once.
use healthgrid.Prelude.{
  ℕ, ◌+◌, ◌≤◌, ◌<◌, String, Bool, true, false, not, ◌||◌, leb, leb→le, some, List, [], ◌∷◌, map,
  All, is_blank, string_eq, ◌==◌, ◌≡◌, refl, arith, Bool-cases, inl, inr, eq_iff, sym, ap,
}
use healthgrid.Results.{Result, ok, raise, ◌>>=◌}
use healthgrid.Models.Reports.{MonitorLease}
use healthgrid.Background.{take_lease, acquire_monitor_lease, is_taken, lease_seconds}

-- One call of `acquire_monitor_lease` by some process, with the interval that the settings have
-- then.
pub record Attempt : Type 0 where
  pub owner_id : String
  pub at : ℕ
  pub interval : ℕ

abbrev lease_of : MonitorLease → Result (Bool × MonitorLease) → MonitorLease
lease_of otherwise (ok (acquired, lease)) = lease
lease_of otherwise (raise e) = otherwise

-- The answers to a sequence of calls, and the lease after them.
unfoldable pub attempts : List Attempt → MonitorLease → Result (List Bool × MonitorLease)
attempts [] lease = ok ([], lease)
attempts (a ∷ calls) lease = do
  (acquired, lease') ← acquire_monitor_lease a.owner_id a.at a.interval lease
  (rest, last) ← attempts calls lease'
  ok (acquired ∷ rest, last)

-- The process holds the lease until `until` or longer.
pub record Holds (owner : String) (until : ℕ) (lease : MonitorLease) : Type 0 where
  pub owned : lease.owner_id ≡ owner
  pub end : ℕ
  pub ends : lease.lease_until ≡ some end
  pub late : until ≤ end

module _ (owner : String) (until : ℕ) where
  -- A call before the end of the lease; a renewal by the owner does not shorten it.
  pub record IsDuring (a : Attempt) : Type 0 where
    pub before : a.at < until
    pub renews : (not (owner == a.owner_id) || leb until (a.at + lease_seconds a.interval)) ≡ true

  is_taken-other :
      (a : Attempt) (lease : MonitorLease)
      → is_blank owner ≡ false
      → Holds owner until lease
      → a.at < until
      → (owner == a.owner_id) ≡ false
      → is_taken a.owner_id a.at lease ≡ ok true
  unfolding is_taken
  is_taken-other a lease named h before other = ground (arith, h.owned, h.ends, h.late)

  is_taken-owner :
      (a : Attempt) (lease : MonitorLease)
      → is_blank owner ≡ false
      → Holds owner until lease
      → (owner == a.owner_id) ≡ true
      → is_taken a.owner_id a.at lease ≡ ok false
  unfolding is_taken
  is_taken-owner a lease named h same = ground (arith, h.owned)

  -- A call during a lease: an owner's call renews the lease, another's is refused.
  acquire-during :
      (a : Attempt) (lease : MonitorLease)
      → is_blank owner ≡ false
      → Holds owner until lease
      → IsDuring a
      → (lease' : MonitorLease) × (acquire_monitor_lease a.owner_id a.at a.interval lease
          ≡ ok (owner == a.owner_id, lease'))
        × Holds owner until lease'
  unfolding acquire_monitor_lease is_taken
  acquire-during a lease named h during = elim (Bool-cases (owner == a.owner_id)) [
    | inl same ↦ (
      record { owner_id = a.owner_id; lease_until = some (a.at + lease_seconds a.interval) },
      rw same (allow (is_taken a.owner_id a.at lease) (is_taken-owner a lease named h same)),
      record {
        owned = sym ((eq_iff owner a.owner_id).0 same);
        end = a.at + lease_seconds a.interval;
        ends = refl;
        late = leb→le until (a.at + lease_seconds a.interval) (rw same at during.renews);
      },
    )
    | inr other ↦ (
      lease,
      rw other (
          refuse (is_taken a.owner_id a.at lease)
            (is_taken-other a lease named h during.before other)),
      h,
    )
  ]
    where
      refuse :
          (t : Result Bool)
          → t ≡ ok true
          → take_lease a.owner_id (a.at + lease_seconds a.interval) lease t ≡ ok (false, lease)
      refuse t e = rw e refl

      allow :
          (t : Result Bool)
          → t ≡ ok false
          → take_lease a.owner_id (a.at + lease_seconds a.interval) lease t
            ≡ ok (
              true,
              record {
                owner_id = a.owner_id;
                lease_until = some (a.at + lease_seconds a.interval);
              },
            )
      allow t e = rw e refl

  -- Mutual exclusion: while a process holds the lease, every call of another process before the
  -- lease ends is refused, whatever the number and order of the calls, whatever interval each of
  -- them reads, and however often the owner renews in between, as long as no renewal reads an
  -- interval so much shorter that it moves the end forward; and the owner's own calls succeed.
  pub attempts-exclusive :
      (calls : List Attempt) (lease : MonitorLease)
      → is_blank owner ≡ false
      → Holds owner until lease
      → All IsDuring calls
      → (last : MonitorLease) × (attempts calls lease
          ≡ ok (map (λ a. owner == a.owner_id) calls, last))
        × Holds owner until last
  unfolding attempts
  attempts-exclusive [] lease named h _ = (lease, refl, h)
  attempts-exclusive (a ∷ calls) lease named h (during, rest) =
      let (lease', e, h') = acquire-during a lease named h during in
      let (last, es, held) = attempts-exclusive calls lease' named h' rest in
      (last, rw (e, es) refl, held)

-- A successful call gives its caller the lease for `lease_seconds`.
pub acquire-Holds :
    (owner : String) (now interval : ℕ) (lease lease' : MonitorLease)
    → acquire_monitor_lease owner now interval lease ≡ ok (true, lease')
    → Holds owner (now + lease_seconds interval) lease'
unfolding acquire_monitor_lease
acquire-Holds owner now interval lease lease' e = taken (is_taken owner now lease) e
  where
    taken :
        (t : Result Bool)
        → take_lease owner (now + lease_seconds interval) lease t ≡ ok (true, lease')
        → Holds owner (now + lease_seconds interval) lease'
    taken (ok true) e = cc
    taken (raise x) e = cc
    taken (ok false) e =
        let same = ap (lease_of lease) e in
        record {
          owned = ap (λ l. l.owner_id) (sym same);
          end = now + lease_seconds interval;
          ends = ap (λ l. l.lease_until) (sym same);
          late = omega arith;
        }
