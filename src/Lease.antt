-- ===== src/Lease.antt =====
-- The exclusive lease on a run root: crates/tule-core/src/run.rs, `RootLease`. A method on `&mut self`
-- returns the lease after the call with its result.
pub mod Renewal
use tule.Base.{
  ℕ, Bool, true, false, not, Option, none, some, Result, ok, err, ◌>>=◌, Text, bytes, ◌!=◌, text_eq,
  ℤ, pos, add_i64, leb_ℤ, if◌then◌else◌,
}
use tule.Ids.{HarnessRunId, RootLeaseId, InvalidRunId, UuidCrate, parse_id}

abbrev pub root_lease_ttl_ms : ℕ
root_lease_ttl_ms = 30000

abbrev pub root_lease_renew_interval_ms : ℕ
root_lease_renew_interval_ms = 10000

pub record RootLease : Type 0 where
  pub id : RootLeaseId
  pub run_id : HarnessRunId
  pub owner_process_instance : Text
  pub acquired_at_unix_ms : ℤ
  pub expires_at_unix_ms : ℤ
  pub renew_interval_ms : ℤ

pub data LeaseError : Type 0 where
  wrong_owner expired prior_owner_alive unsettled_effects : LeaseError

unfoldable pub acquire : RootLeaseId → HarnessRunId → Text → ℤ → RootLease
acquire id run_id owner now_unix_ms = record {
  id = id;
  run_id = run_id;
  owner_process_instance = owner;
  acquired_at_unix_ms = now_unix_ms;
  expires_at_unix_ms = add_i64 now_unix_ms (pos root_lease_ttl_ms);
  renew_interval_ms = pos root_lease_renew_interval_ms;
}

unfoldable pub from_stored_parts : UuidCrate → Text → RootLease → Result InvalidRunId RootLease
unfolding parse_id
from_stored_parts u id_text parts = do
  id ← parse_id u (bytes "root lease ID") id_text
  ok (record parts { id = id })

abbrev pub is_expired : RootLease → ℤ → Bool
is_expired lease now_unix_ms = leb_ℤ lease.expires_at_unix_ms now_unix_ms

-- A lease that has not expired at the time of the new one.
abbrev pub is_held : Option RootLease → ℤ → Bool
is_held none now = false
is_held (some existing) now = not (is_expired existing now)

unfoldable pub renew : RootLease → Text → ℤ → RootLease × Result LeaseError (Unit {0})
renew lease owner now_unix_ms =
    if lease.owner_process_instance != owner
    then (lease, err wrong_owner)
    else if leb_ℤ lease.expires_at_unix_ms now_unix_ms
    then (lease, err expired)
    else (record lease { expires_at_unix_ms = add_i64 now_unix_ms (pos root_lease_ttl_ms) }, ok tt)

unfoldable pub authorize_takeover : RootLease → Bool → Bool → Result LeaseError (Unit {0})
authorize_takeover lease prior_owner_confirmed_gone unsettled_effects_reconciled =
    if not prior_owner_confirmed_gone
    then err prior_owner_alive
    else if not unsettled_effects_reconciled
    then err unsettled_effects
    else ok tt
