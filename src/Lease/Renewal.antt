-- ===== src/Lease/Renewal.antt =====
-- How long a lease lasts, and who can keep it (crates/tule-core/src/run.rs, `RootLease::renew`).
use tule.Base.{
  ◌+◌, ◌<◌, ◌≡◌, ◌≢◌, refl, ◌⊎◌, Result, ok, err, Text, List, [], ◌∷◌, ℤ, pos, pos_part, IsI64,
  ◌<ℤ◌, ◌≤ℤ◌, ◌+ℤ◌, add_i64, add_i64_exact, arith,
}
use tule.Lease.{RootLease, LeaseError, wrong_owner, expired, root_lease_ttl_ms, renew}

-- A renewal succeeds exactly for the owner of a lease that has not expired; it sets the expiry to one
-- TTL from now. Otherwise the lease stays as it was.
pub renew_lem :
    (lease : RootLease) (owner : Text) (now : ℤ)
    → ((lease.owner_process_instance ≡ owner)
        × (now <ℤ lease.expires_at_unix_ms)
        × ((renew lease owner now).1 ≡ ok tt)
        × ((renew lease owner now).0
            ≡ record lease { expires_at_unix_ms = add_i64 now (pos root_lease_ttl_ms) }))
      ⊎ ((lease.owner_process_instance ≢ owner)
          × (renew lease owner now ≡ (lease, err wrong_owner)))
      ⊎ ((lease.expires_at_unix_ms ≤ℤ now) × (renew lease owner now ≡ (lease, err expired)))
unfolding renew
renew_lem lease owner now = ground arith

-- The owner renews at each of the times, and the result is the first error, or success.
pub renew_all : RootLease → Text → List ℤ → RootLease × Result LeaseError (Unit {0})
renew_all lease owner [] = (lease, ok tt)
renew_all lease owner (t ∷ ts) =
    let rest = renew_all (renew lease owner t).0 owner ts in
    elim (renew lease owner t).1 [ ok _ ↦ rest | err e ↦ ((renew lease owner t).0, err e) ]

-- Each time comes after the one before by less than the TTL, in the range of i64.
abbrev pub InTime : ℤ → List ℤ → Type 0
InTime last [] = Unit
InTime last (t ∷ ts) =
    (t <ℤ last +ℤ pos root_lease_ttl_ms)
    × IsI64 t
    × (pos_part t + root_lease_ttl_ms < 9223372036854775808)
    × InTime t ts

renew_once :
    (lease : RootLease) (owner : Text) (last t : ℤ)
    → lease.owner_process_instance ≡ owner
    → lease.expires_at_unix_ms ≡ last +ℤ pos root_lease_ttl_ms
    → t <ℤ last +ℤ pos root_lease_ttl_ms
    → IsI64 t
    → pos_part t + root_lease_ttl_ms < 9223372036854775808
    → ((renew lease owner t).1 ≡ ok tt)
      × ((renew lease owner t).0.owner_process_instance ≡ owner)
      × ((renew lease owner t).0.expires_at_unix_ms ≡ t +ℤ pos root_lease_ttl_ms)
unfolding renew
renew_once lease owner last t o e h i b = ground (arith, add_i64_exact t root_lease_ttl_ms i b)

-- The owner of a lease that lasts one TTL from a time on, and that renews it each time within the TTL,
-- never loses it. The times and the expiries are in the range of i64.
pub renew_all_ok :
    (lease : RootLease) (owner : Text) (last : ℤ) (ts : List ℤ)
    → lease.owner_process_instance ≡ owner
    → lease.expires_at_unix_ms ≡ last +ℤ pos root_lease_ttl_ms
    → InTime last ts
    → (renew_all lease owner ts).1 ≡ ok tt
unfolding renew_all
renew_all_ok lease owner last [] o e h = refl
renew_all_ok lease owner last (t ∷ ts) o e h =
    let (done, o', e') = renew_once lease owner last t o e h.0 h.1 h.2 in
    rw (done, renew_all) (renew_all_ok (renew lease owner t).0 owner t ts o' e' h.3)
