-- ===== src/State/Counters.antt =====
-- state.go: the saturating arithmetic of the counters and of the deadlines.
use repost_go.Prelude.Int.{ℤ, pos, ◌+ℤ◌, ◌-ℤ◌, IsInt64, sat64}
use repost_go.Prelude.{ℕ, ◌+◌, ◌≤◌, ◌≡◌, arith, min}
use repost_go.State.{saturating_add, add_nanos_saturated, maximum_diagnostic_counter}

-- A counter within its cap takes a non-negative delta as the smaller of the exact sum and the cap.
pub saturating_add_exact :
    (counter delta : ℕ)
    → counter ≤ maximum_diagnostic_counter
    → saturating_add counter (pos delta) ≡ min (counter + delta) maximum_diagnostic_counter
unfolding saturating_add
saturating_add_exact counter delta h = ground arith

-- For int64 arguments the sum is the exact one, clamped to the int64 range.
pub add_nanos_saturated_clamps :
    (value delta : ℤ)
    → IsInt64 value
    → IsInt64 delta
    → add_nanos_saturated value delta ≡ sat64 (value +ℤ delta)
unfolding add_nanos_saturated sat64 ◌+ℤ◌ ◌-ℤ◌
add_nanos_saturated_clamps value delta v d = ground arith
