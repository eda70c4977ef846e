-- ===== src/Common/Bytes.antt =====
-- Unsigned integers as bytes: `to_le_bytes`, `to_be_bytes` and their inverses, and the reads of
-- such a number at an offset.
use native.Mathlib.Nat.{pow-suc}
use mathlib.Core.List.{reverse-reverse}
use wbf_matrix_client.Common.Tests.{leb, if◌then◌else◌}
use wbf_matrix_client.Common.Lists.{
  length, take, drop, All, length-append, length-reverse, All-append, All-take, All-drop,
  length-take, length-drop, take-append, drop-append, take-append-drop, drop-drop, take-append_le,
  drop-append_le,
}
use mathlib.Core.Bool.{◌&&◌}
use Prim.Native.Nat.{ℕ, zero, suc, ◌+◌, ◌*◌, ◌/◌, ◌%◌, ◌^◌, ◌≤◌, ◌<◌}
use mathlib.Core.Path.{◌≡◌, refl, sym, ap, ap₂, subst, ◌∙◌}
use mathlib.Core.Option.{Option, none, some}
use mathlib.Core.List.{List, [], ◌∷◌, ◌++◌, reverse, reverse-cons}
use native.Mathlib.Omega.{arith}

abbrev pub Bytes : Type 0
Bytes = List ℕ

abbrev pub IsByte : ℕ → Type 0
IsByte b = b < 256

abbrev pub AreBytes : Bytes → Type 0
AreBytes bs = All IsByte bs

-- The `k` bytes of a number, lowest first.
unfoldable pub to_le_bytes : ℕ → ℕ → Bytes
to_le_bytes zero n = []
to_le_bytes (suc k) n = (n % 256) ∷ to_le_bytes k (n / 256)

unfoldable pub from_le_bytes : Bytes → ℕ
from_le_bytes [] = 0
from_le_bytes (b ∷ bs) = b + 256 * from_le_bytes bs

unfoldable pub to_be_bytes : ℕ → ℕ → Bytes
unfolding to_le_bytes
to_be_bytes k n = reverse (to_le_bytes k n)

unfoldable pub from_be_bytes : Bytes → ℕ
unfolding from_le_bytes
from_be_bytes bs = from_le_bytes (reverse bs)

pub length-to_le_bytes : (k n : ℕ) → length (to_le_bytes k n) ≡ k
unfolding to_le_bytes
length-to_le_bytes zero n = refl
length-to_le_bytes (suc k) n = ap suc (length-to_le_bytes k (n / 256))

pub to_le_bytes-AreBytes : (k n : ℕ) → AreBytes (to_le_bytes k n)
unfolding to_le_bytes
to_le_bytes-AreBytes zero n = tt
to_le_bytes-AreBytes (suc k) n = (omega arith, to_le_bytes-AreBytes k (n / 256))

pow_256_suc : (k : ℕ) → 256 ^ suc k ≡ 256 * 256 ^ k
pow_256_suc k = omega (arith, pow-suc 256 k)

pub from_le_bytes-to_le_bytes : (k n : ℕ) → n < 256 ^ k → from_le_bytes (to_le_bytes k n) ≡ n
unfolding to_le_bytes from_le_bytes
from_le_bytes-to_le_bytes zero n h = omega arith
from_le_bytes-to_le_bytes (suc k) n h =
    omega (arith, from_le_bytes-to_le_bytes k (n / 256) (omega (arith, pow_256_suc k)))

pub from_le_bytes-lt : (bs : Bytes) → AreBytes bs → from_le_bytes bs < 256 ^ length bs
unfolding from_le_bytes
from_le_bytes-lt [] h = omega arith
from_le_bytes-lt (b ∷ bs) h = omega (arith, from_le_bytes-lt bs h.1, pow_256_suc (length bs), h.0)

pub to_le_bytes-from_le_bytes :
    (bs : Bytes) → AreBytes bs → to_le_bytes (length bs) (from_le_bytes bs) ≡ bs
unfolding to_le_bytes from_le_bytes
to_le_bytes-from_le_bytes [] h = refl
to_le_bytes-from_le_bytes (b ∷ bs) h =
    let low : (b + 256 * from_le_bytes bs) % 256 ≡ b = omega (arith, h.0) in
    let high : (b + 256 * from_le_bytes bs) / 256 ≡ from_le_bytes bs = omega (arith, h.0) in
    rw (low, high) (ap (λ t. b ∷ t) (to_le_bytes-from_le_bytes bs h.1))

reverse-AreBytes : (bs : Bytes) → AreBytes bs → AreBytes (reverse bs)
reverse-AreBytes [] h = tt
reverse-AreBytes (b ∷ bs) h =
    rw reverse-cons (All-append IsByte (reverse bs) (b ∷ []) (reverse-AreBytes bs h.1) (h.0, tt))

pub length-to_be_bytes : (k n : ℕ) → length (to_be_bytes k n) ≡ k
unfolding to_be_bytes
length-to_be_bytes k n = length-reverse (to_le_bytes k n) ∙ length-to_le_bytes k n

pub to_be_bytes-AreBytes : (k n : ℕ) → AreBytes (to_be_bytes k n)
unfolding to_be_bytes
to_be_bytes-AreBytes k n = reverse-AreBytes (to_le_bytes k n) (to_le_bytes-AreBytes k n)

pub from_be_bytes-to_be_bytes : (k n : ℕ) → n < 256 ^ k → from_be_bytes (to_be_bytes k n) ≡ n
unfolding to_be_bytes from_be_bytes
from_be_bytes-to_be_bytes k n h = rw reverse-reverse (from_le_bytes-to_le_bytes k n h)

pub from_be_bytes-lt : (bs : Bytes) → AreBytes bs → from_be_bytes bs < 256 ^ length bs
unfolding from_be_bytes
from_be_bytes-lt bs h =
    subst (λ k. from_le_bytes (reverse bs) < 256 ^ k) (length-reverse bs)
      (from_le_bytes-lt (reverse bs) (reverse-AreBytes bs h))

pub to_be_bytes-from_be_bytes :
    (bs : Bytes) → AreBytes bs → to_be_bytes (length bs) (from_be_bytes bs) ≡ bs
unfolding to_be_bytes from_be_bytes
to_be_bytes-from_be_bytes bs h =
    ap reverse (
      ap (λ k. to_le_bytes k (from_le_bytes (reverse bs))) (sym (length-reverse bs))
      ∙ to_le_bytes-from_le_bytes (reverse bs) (reverse-AreBytes bs h))
    ∙ reverse-reverse bs

-- `bytes.get(at..)?.first_chunk::<K>()` read as a big-endian number.
unfoldable pub read_be : ℕ → Bytes → ℕ → Option ℕ
read_be k bs at =
    let rest = drop at bs in
    if leb at (length bs) && leb k (length rest) then some (from_be_bytes (take k rest)) else none

pub read_be_lem :
    (k at : ℕ) (bs : Bytes)
    → at + k ≤ length bs
    → read_be k bs at ≡ some (from_be_bytes (take k (drop at bs)))
unfolding read_be
read_be_lem k at bs h = ground (arith, length-drop at bs)

pub read_be-append :
    (k n at : ℕ) (front back : Bytes)
    → at ≡ length front
    → n < 256 ^ k
    → read_be k (front ++ (to_be_bytes k n ++ back)) at ≡ some n
read_be-append k n at front back ha hn = rw ha (
    read_be_lem k (length front) (front ++ (to_be_bytes k n ++ back)) fits
    ∙ rw (drop-append front (to_be_bytes k n ++ back)) (ap some value))
  where
    size : length (to_be_bytes k n) ≡ k
    size = length-to_be_bytes k n

    fits : length front + k ≤ length (front ++ (to_be_bytes k n ++ back))
    fits = omega (
      arith,
      size,
      length-append front (to_be_bytes k n ++ back),
      length-append (to_be_bytes k n) back,
    )

    value : from_be_bytes (take k (to_be_bytes k n ++ back)) ≡ n
    value =
        ap (λ j. from_be_bytes (take j (to_be_bytes k n ++ back))) (sym size)
        ∙ ap from_be_bytes (take-append (to_be_bytes k n) back)
        ∙ from_be_bytes-to_be_bytes k n hn

-- A number that was read stands in front of what is left.
pub read_be-drop :
    (k at n : ℕ) (bs : Bytes)
    → AreBytes bs
    → read_be k bs at ≡ some n
    → (drop at bs ≡ to_be_bytes k n ++ drop (at + k) bs) × (n < 256 ^ k) × (at + k ≤ length bs)
read_be-drop k at n bs hb e =
    let here : Bytes = take k (drop at bs) in
    let fits : at + k ≤ length bs = reads in
    let size : length here ≡ k = omega (arith, length-take k (drop at bs), length-drop at bs) in
    let value : from_be_bytes here ≡ n = ground (arith, read_be_lem k at bs fits) in
    let bytes : AreBytes here = All-take IsByte k (drop at bs) (All-drop IsByte at bs hb) in
    (
      sym (take-append-drop k (drop at bs))
          ∙ ap₂ (λ xs ys. xs ++ ys)
              (sym (to_be_bytes-from_be_bytes here bytes) ∙ ap₂ to_be_bytes size value)
              (drop-drop k at bs),
      subst (λ m. m < 256 ^ k) value
          (subst (λ j. from_be_bytes here < 256 ^ j) size (from_be_bytes-lt here bytes)),
      fits,
    )
  where
    reads : at + k ≤ length bs
    reads = unfold read_be in ground (arith, length-drop at bs)

pub read_be-fits : (k at n : ℕ) (bs : Bytes) → read_be k bs at ≡ some n → at + k ≤ length bs
unfolding read_be
read_be-fits k at n bs e = ground (arith, length-drop at bs)

pub read_be-append_some :
    (k at n : ℕ) (bs more : Bytes) → read_be k bs at ≡ some n → read_be k (bs ++ more) at ≡ some n
read_be-append_some k at n bs more e =
    let fits : at + k ≤ length bs = read_be-fits k at n bs e in
    let value : from_be_bytes (take k (drop at bs)) ≡ n =
      ground (arith, read_be_lem k at bs fits) in
    read_be_lem k at (bs ++ more) (omega (arith, length-append bs more))
    ∙ ap (λ xs. some (from_be_bytes (take k xs))) (drop-append_le at bs more (omega arith))
    ∙ ap (λ xs. some (from_be_bytes xs))
        (take-append_le k (drop at bs) more (omega (arith, length-drop at bs)))
    ∙ ap some value
