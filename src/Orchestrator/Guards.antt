-- ===== src/Orchestrator/Guards.antt =====
-- core/orchestrator-guards.ts. A difference of two times that is compared with a limit is written as
-- a sum on the other side, since it may be negative. A comparison with `NaN` is false.
use ninthwave.Prelude.{
  ℕ, ◌+◌, Bool, true, false, ◌&&◌, not, Option, none, some, ltb, leb, str_eq, ◌==◌,
}
use ninthwave.Orchestrator.Actions.{Stamp, at, malformed}
use ninthwave.Orchestrator.Item.{Nullable, undefined, null, stamp}

-- `now - new Date(ts).getTime() > limit`.
abbrev pub older : Stamp → ℕ → ℕ → Bool
older (at t) now limit = ltb (t + limit) now
older (malformed s) now limit = false

unfoldable pub is_ci_fail_trustworthy : Option Stamp → ℕ → ℕ → Bool
is_ci_fail_trustworthy none now grace_ms = true
is_ci_fail_trustworthy (some (at t)) now grace_ms = leb (t + grace_ms) now
is_ci_fail_trustworthy (some (malformed s)) now grace_ms = false

unfoldable pub is_heartbeat_active : Option Stamp → ℕ → ℕ → Bool
is_heartbeat_active none now timeout_ms = false
is_heartbeat_active (some (at t)) now timeout_ms = ltb now (t + timeout_ms)
is_heartbeat_active (some (malformed s)) now timeout_ms = false

unfoldable pub is_event_fresher_than : Option Stamp → Stamp → Bool
is_event_fresher_than (some (at event)) (at base) = ltb base event
is_event_fresher_than _ _ = false

abbrev pub same_stamp : Stamp → Stamp → Bool
same_stamp (at t) (at u) = t == u
same_stamp (malformed s) (malformed t) = str_eq s t
same_stamp _ _ = false

abbrev pub same : Nullable → Nullable → Bool
same undefined undefined = true
same null null = true
same (stamp s) (stamp t) = same_stamp s t
same _ _ = false

unfoldable pub should_renotify_ci_failure : Nullable → Nullable → Bool
should_renotify_ci_failure last_commit_time ci_failure_notified_at =
    not (same last_commit_time ci_failure_notified_at)

unfoldable pub is_activity_timed_out : Stamp → ℕ → ℕ → Bool
is_activity_timed_out baseline now timeout_ms = older baseline now timeout_ms

unfoldable pub is_launch_timed_out : Stamp → ℕ → ℕ → Bool
is_launch_timed_out baseline now timeout_ms = older baseline now timeout_ms

-- With no heartbeat the source compares with 0, which is no later than any notification. With a
-- heartbeat that has no time, `hbMs > notifyMs` is false.
unfoldable pub is_ci_fix_ack_timed_out : Stamp → Option Stamp → ℕ → ℕ → Bool
is_ci_fix_ack_timed_out (malformed s) heartbeat now timeout_ms = false
is_ci_fix_ack_timed_out (at notify) (some (at hb)) now timeout_ms =
    not (ltb notify hb) && ltb (notify + timeout_ms) now
is_ci_fix_ack_timed_out (at notify) _ now timeout_ms = ltb (notify + timeout_ms) now

unfoldable pub is_merge_ci_grace_period_expired : Stamp → ℕ → ℕ → Bool
is_merge_ci_grace_period_expired last_transition now grace_ms = older last_transition now grace_ms

unfoldable pub is_rebase_stale : Option Stamp → ℕ → ℕ → Bool
is_rebase_stale (some (at nudge)) now stale_ms = leb (nudge + stale_ms) now
is_rebase_stale _ now stale_ms = true
