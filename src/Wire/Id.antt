-- ===== src/Wire/Id.antt =====
-- crates/wbf-wire/src/pack.rs, module `id`: a type byte above a value of 56 bits, in a `u64`.
use wbf_matrix_client.Common.{
  ℕ, ◌+◌, ◌-◌, ◌*◌, ◌/◌, ◌%◌, ◌^◌, ◌≤◌, ◌<◌, ◌≡◌, ◌⊎◌, inl, inr, ap, ◌∙◌, arith, bit_and, bit_or,
  Option, none, some, ltb, if◌then◌else◌,
}
use native.Mathlib.Decide.{dec_lt}
use wbf_matrix_client.Common.Bits.{bit_or_above, bit_and_below}

abbrev pub none_type : ℕ
none_type = 0x00

abbrev pub session_type : ℕ
session_type = 0x01

abbrev pub g_seq_type : ℕ
g_seq_type = 0x02

abbrev pub upload_type : ℕ
upload_type = 0x03

abbrev pub max_value : ℕ
max_value = 2 ^ 56 - 1

-- `(id_type as u64) << 56`.
abbrev above : ℕ → ℕ
above id_type = id_type * 2 ^ 56 % 2 ^ 64

unfoldable pub compose : ℕ → ℕ → Option ℕ
compose id_type value = if ltb max_value value then none else some (bit_or (above id_type) value)

unfoldable pub compose_masked : ℕ → ℕ → ℕ
compose_masked id_type value = bit_or (above id_type) (bit_and value max_value)

-- `(id >> 56) as u8`.
unfoldable pub type_of : ℕ → ℕ
type_of id = id / 2 ^ 56 % 256

unfoldable pub value_of : ℕ → ℕ
value_of id = bit_and id max_value

value_of-mod : (id : ℕ) → value_of id ≡ id % 2 ^ 56
unfolding value_of
value_of-mod id =
    let split : id ≡ id / 2 ^ 56 * 2 ^ 56 + id % 2 ^ 56 = omega arith in
    ap (λ i. bit_and i max_value) split ∙ bit_and_below 56 (id / 2 ^ 56) (id % 2 ^ 56) (omega arith)

above_or :
    (id_type value : ℕ)
    → id_type < 256
    → value < 2 ^ 56
    → bit_or (above id_type) value ≡ id_type * 2 ^ 56 + value
above_or id_type value ht hv =
    let exact : above id_type ≡ id_type * 2 ^ 56 = omega arith in
    ap (λ h. bit_or h value) exact ∙ bit_or_above 56 id_type value hv

-- For a type of one byte, a composed id is a `u64` that splits back into its type and its value;
-- `compose` refuses exactly the values of more than 56 bits.
pub compose_splits :
    (id_type value : ℕ)
    → id_type < 256
    → ((value < 2 ^ 56)
        × ((id : ℕ) × (compose id_type value ≡ some id)
            × (id < 2 ^ 64)
            × (type_of id ≡ id_type)
            × (value_of id ≡ value)))
      ⊎ ((2 ^ 56 ≤ value) × (compose id_type value ≡ none))
unfolding compose type_of
compose_splits id_type value ht = elim (dec_lt value (2 ^ 56)) [
  | yes fits ↦ inl (
    fits,
    (
      id_type * 2 ^ 56 + value,
      ground (arith, above_or id_type value),
      omega arith,
      omega arith,
      omega (arith, value_of-mod (id_type * 2 ^ 56 + value)),
    ),
  )
  | no large ↦ inr (omega arith, ground arith)
]

-- Every `u64` is the id that `compose` gives for its type and its value.
pub compose-split : (id : ℕ) → id < 2 ^ 64 → compose (type_of id) (value_of id) ≡ some id
unfolding compose type_of
compose-split id h =
    let value : value_of id ≡ id % 2 ^ 56 = value_of-mod id in
    ground (arith, value, above_or (id / 2 ^ 56 % 256) (value_of id))

-- For a type of one byte, `compose_masked` is what `compose` gives for the value modulo 2 ^ 56,
-- which is never refused.
pub compose_masked-compose :
    (id_type value : ℕ)
    → id_type < 256
    → compose id_type (value % 2 ^ 56) ≡ some (compose_masked id_type value)
unfolding compose compose_masked
compose_masked-compose id_type value ht =
    let low : bit_and value max_value ≡ value % 2 ^ 56 = (unfold value_of in value_of-mod value) in
    ground (arith, low)
