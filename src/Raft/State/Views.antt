-- ===== src/Raft/State/Views.antt =====
-- The comparison of two uint64 counters by `(int)(a - b)` in the heartbeat handlers.
use neoha.Raft.State.{int_diff, Sign, negative, zero_sign, positive, ℕ}
use neoha.Common.{◌<◌, ◌≡◌, if◌then◌else◌, ◌-◌, ◌==◌, ltb, ◌^◌, arith, ◌+◌, ◌⊎◌, ◌≤◌}

-- What the sign of the wrapped difference says of two uint64 values.
abbrev pub Reading : ℕ → ℕ → Sign → Type 0
Reading a b zero_sign = a ≡ b
Reading a b positive = ((b < a) × (a - b < 2 ^ 63)) ⊎ ((a < b) × (2 ^ 63 < b - a))
Reading a b negative = ((a < b) × (b - a ≤ 2 ^ 63)) ⊎ ((b < a) × (2 ^ 63 ≤ a - b))

-- The sign of the difference of two uint64 counters, as the code reads it: zero only for equal
-- ones; positive for a larger first one that is less than 2 ^ 63 above, or a smaller one that is
-- more than 2 ^ 63 below; negative otherwise.
pub int_diff-Reading : (a b : ℕ) → a < 2 ^ 64 → b < 2 ^ 64 → Reading a b (int_diff a b)
unfolding int_diff
int_diff-Reading a b ha hb = ground arith

-- The sign is that of the difference while the two values are less than 2 ^ 63 apart.
abbrev pub sign_of : ℕ → ℕ → Sign
sign_of a b = if a == b then zero_sign else if ltb b a then positive else negative

pub int_diff_near :
    (a b : ℕ)
    → a < 2 ^ 64
    → b < 2 ^ 64
    → a < b + 2 ^ 63
    → b < a + 2 ^ 63
    → int_diff a b ≡ sign_of a b
int_diff_near a b ha hb h k = ground (arith, int_diff-Reading a b)
