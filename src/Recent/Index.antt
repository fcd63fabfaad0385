-- ===== src/Recent/Index.antt =====
-- core/recent.go: the index of the i-th newest entry of the ring.
use angie_guardian.Prelude.{ℕ, ◌+◌, ◌-◌, ◌%◌, ◌≤◌, ◌<◌, ◌≡◌, arith, leb, if◌then◌else◌}

wrap_under : (x n : ℕ) → x < n → (x + n) % n ≡ x
wrap_under x n h = grind arith

within : (x n : ℕ) → x < n → x % n ≡ x
within x n h = grind arith

-- `(next - i + len) % len` for an i of at most the length.
pub back_index :
    (next i n : ℕ)
    → next < n
    → i ≤ n
    → (next + n - i) % n ≡ (if leb i next then next - i else next + n - i)
back_index next i n h k = ground (arith, wrap_under (next - i) n, within (next + n - i) n)
