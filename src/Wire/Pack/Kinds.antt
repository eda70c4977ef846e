-- ===== src/Wire/Pack/Kinds.antt =====
-- The bytes of the kinds and the flags of crates/wbf-wire/src/pack.rs.
use wbf_matrix_client.Common.{
  ℕ, ◌≡◌, ◌<◌, ◌↔◌, ◌==◌, leb, ltb, bit_and, true, some, refl, arith, if◌then◌else◌,
}
use wbf_matrix_client.Common.Bits.{holds_below, holds_below_lem}
use wbf_matrix_client.Wire.Pack.{Kind, control, to_byte, from_byte, reserved}

-- Every kind is read back from its byte.
pub from_byte-to_byte : (k : Kind) → from_byte (to_byte k) ≡ some k
unfolding from_byte to_byte
from_byte-to_byte control = refl
from_byte-to_byte k = refl

-- A byte that is read as a kind is the byte of that kind.
pub from_byte-eq_some : (b : ℕ) (k : Kind) → from_byte b ≡ some k → b ≡ to_byte k
unfolding from_byte to_byte
from_byte-eq_some b k h = ground arith

pub to_byte-lt : (k : Kind) → to_byte k < 256
unfolding to_byte
to_byte-lt control = omega arith
to_byte-lt k = omega arith

-- The reserved bits of a byte are clear exactly below 32.
flags_table : holds_below (λ f. if bit_and f reserved == 0 then ltb f 32 else leb 32 f) 256 ≡ true
unfolding holds_below
flags_table = refl

pub reserved_iff : (f : ℕ) → f < 256 → (bit_and f reserved ≡ 0) ↔ (f < 32)
reserved_iff f h =
    let t = holds_below_lem _ 256 flags_table f h in (λ e. ground arith, λ e. ground arith)
