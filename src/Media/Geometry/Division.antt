-- ===== src/Media/Geometry/Division.antt =====
-- Division rounded up, by a divisor that is not fixed.
use wbf_matrix_client.Common.{ℕ, ◌+◌, ◌*◌, ◌≤◌, ◌<◌, arith}
use native.Mathlib.Nat.{div-add-mod', mod-lt}
use wbf_matrix_client.Media.Geometry.{div_ceil}

-- The last chunk begins inside the file and ends at its end or behind.
pub div_ceil_bounds : (a b : ℕ) → 0 < b → (a ≤ div_ceil a b * b) × (div_ceil a b * b < a + b)
unfolding div_ceil
div_ceil_bounds a b h = grind (arith, div-add-mod' a b, mod-lt a h)

-- A chunk is one of the count exactly if it begins inside the file.
pub lt-div_ceil : (i a b : ℕ) → 0 < b → i < div_ceil a b → i * b < a
lt-div_ceil i a b hb h = grind (arith, div_ceil_bounds a b hb)

pub div_ceil-le : (i a b : ℕ) → 0 < b → div_ceil a b ≤ i → a ≤ i * b
div_ceil-le i a b hb h = grind (arith, div_ceil_bounds a b hb)
