-- ===== src/Clock.antt =====
-- The clock of the records: `ProjectTimeError` of crates/tule-core/src/project.rs, and `unix_now_ms`,
-- which project.rs, agent.rs, agent_source.rs and artifact.rs each have a copy of. What the system
-- clock gives is an argument, in nanoseconds from the Unix epoch on.
use tule.Base.{ℕ, ◌+◌, ◌/◌, ◌^◌, Result, ok, err, ℤ, pos, negsuc, ltb, if◌then◌else◌}

pub data ProjectTimeError : Type 0 where
  -- By how many nanoseconds the clock is before the epoch.
  before_unix_epoch : ℕ → ProjectTimeError
  out_of_range : ProjectTimeError

-- `SystemTime::now`.
abbrev pub SystemTime : Type 0
SystemTime = ℤ

unfoldable pub unix_now_ms : SystemTime → Result ProjectTimeError ℤ
unix_now_ms (negsuc n) = err (before_unix_epoch (n + 1))
unix_now_ms (pos n) =
    if ltb (n / 1000000) (2 ^ 63) then ok (pos (n / 1000000)) else err out_of_range
