-- ===== src/Common/Bits.antt =====
-- `|` and `&` on words as arithmetic: a value placed above `k` bits, a mask of `k` ones, and a
-- check of all bytes by evaluation.
use Prim.Native.Nat.{
  ℕ, zero, suc, ◌+◌, ◌-◌, ◌*◌, ◌/◌, ◌%◌, ◌^◌, ◌≤◌, ◌<◌, min, max, bit_and, bit_or, digits,
  bit_and-bitwise, bit_or-bitwise,
}
use mathlib.Core.Path.{◌≡◌, refl, ap, ◌∙◌}
use mathlib.Core.Bool.{Bool, true, ◌&&◌}
use native.Mathlib.Nat.{pow-suc}
use native.Mathlib.Decide.{dec_lt}
use native.Mathlib.Omega.{arith}

-- Whether a test holds of every number below a bound, by evaluation.
unfoldable pub holds_below : (ℕ → Bool) → ℕ → Bool
holds_below test zero = true
holds_below test (suc bound) = holds_below test bound && test bound

pub holds_below_lem :
    (test : ℕ → Bool) (bound : ℕ)
    → holds_below test bound ≡ true
    → (i : ℕ) → i < bound
    → test i ≡ true
unfolding holds_below
holds_below_lem test zero all i below = absurd (omega arith)
holds_below_lem test (suc bound) all i below = elim (dec_lt i bound) [
  | yes earlier ↦
      let rest : holds_below test bound ≡ true = ground arith in
      holds_below_lem test bound rest i earlier
  | no last ↦
      let top : test bound ≡ true = ground arith in
      let e : i ≡ bound = omega arith in ap test e ∙ top
]

doubled : (k h : ℕ) → h * 2 ^ suc k ≡ 2 * (h * 2 ^ k)
doubled k h = omega (arith, ap (λ (t : ℕ). h * t) (pow-suc 2 k))

-- The meaning of `|`, one binary digit a step: a value above `k` bits and one below them do not
-- meet, whatever steps `n` are left.
or_digits : (n k h v a : ℕ) → a ≡ h * 2 ^ k → v < 2 ^ k → a ≤ n → digits (λ b. b) max n a v ≡ a + v
or_digits zero k h v zero e lt le = omega arith
or_digits zero k h v (suc a) e lt le = absurd (omega arith)
or_digits (suc n) k h v zero e lt le = omega arith
or_digits (suc n) zero h v (suc a) e lt le =
    omega (
      arith,
      or_digits n 0 (suc a / 2) (v / 2) (suc a / 2) (omega arith) (omega arith) (omega arith),
    )
or_digits (suc n) (suc k) h v (suc a) e lt le =
    let e' : suc a ≡ 2 * (h * 2 ^ k) = omega (arith, doubled k h) in
    omega (
      arith,
      e',
      or_digits n k h (v / 2) (suc a / 2) (omega (arith, e')) (omega (arith, pow-suc 2 k))
          (omega arith),
    )

-- `h << k | v` adds where the value fits below the shift.
pub bit_or_above : (k h v : ℕ) → v < 2 ^ k → bit_or (h * 2 ^ k) v ≡ h * 2 ^ k + v
bit_or_above k h v lt =
    bit_or-bitwise (h * 2 ^ k) v ∙ or_digits (h * 2 ^ k) k h v (h * 2 ^ k) refl lt (omega arith)

-- The meaning of `&` with a mask of `k` ones.
and_digits :
    (n k h v a : ℕ)
    → a ≡ h * 2 ^ k + v
    → v < 2 ^ k
    → a ≤ n
    → digits (λ b. zero) min n a (2 ^ k - 1) ≡ v
and_digits zero k h v zero e lt le = omega arith
and_digits zero k h v (suc a) e lt le = absurd (omega arith)
and_digits (suc n) k h v zero e lt le = omega arith
and_digits (suc n) zero h v (suc a) e lt le =
    omega
      (arith, and_digits n 0 (suc a / 2) 0 (suc a / 2) (omega arith) (omega arith) (omega arith))
and_digits (suc n) (suc k) h v (suc a) e lt le =
    let e' : suc a ≡ 2 * (h * 2 ^ k) + v = omega (arith, doubled k h) in
    let mask : (2 ^ suc k - 1) / 2 ≡ 2 ^ k - 1 = omega (arith, pow-suc 2 k) in
    let odd : (2 ^ suc k - 1) % 2 ≡ 1 = omega (arith, pow-suc 2 k) in
    rw (mask, odd)
      (omega (
        arith,
        e',
        and_digits n k h (v / 2) (suc a / 2) (omega (arith, e')) (omega (arith, pow-suc 2 k))
            (omega arith),
      ))

-- A mask of `k` ones keeps the low `k` bits.
pub bit_and_below : (k h v : ℕ) → v < 2 ^ k → bit_and (h * 2 ^ k + v) (2 ^ k - 1) ≡ v
bit_and_below k h v lt =
    bit_and-bitwise (h * 2 ^ k + v) (2 ^ k - 1)
    ∙ and_digits (h * 2 ^ k + v) k h v (h * 2 ^ k + v) refl lt (omega arith)
