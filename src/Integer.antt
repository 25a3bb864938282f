-- ===== src/Integer.antt =====
-- Signed integers: `int64` sizes and positions and `time.Duration` lengths, which may be negative.
use api_calixio.Prelude.{ℕ, zero, suc, ◌+◌, ◌-◌, Bool, true, false, leb}

-- `negsuc n` is -(n + 1).
pub data ℤ : Type 0 where
  pos : ℕ → ℤ
  negsuc : ℕ → ℤ

-- `n > 0`
abbrev pub is_pos : ℤ → Bool
is_pos (pos zero) = false
is_pos (pos (suc n)) = true
is_pos (negsuc n) = false

-- `a <= b` against a bound that is not negative
abbrev pub at_most : ℤ → ℕ → Bool
at_most (pos n) b = leb n b
at_most (negsuc n) b = true

-- `t.Add(d)`; a time before the origin is the origin.
abbrev pub add_duration : ℕ → ℤ → ℕ
add_duration t (pos d) = t + d
add_duration t (negsuc d) = t - suc d
