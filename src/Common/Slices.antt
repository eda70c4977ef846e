-- ===== src/Common/Slices.antt =====
-- `slice::get` with a range, and what it reads from a list in parts.
use Prim.Native.Nat.{ℕ, ◌+◌, ◌-◌, ◌≤◌}
use mathlib.Core.Path.{◌≡◌, ap, sym, ◌∙◌}
use mathlib.Core.Bool.{◌&&◌}
use mathlib.Core.List.{List, ◌++◌}
use mathlib.Core.Option.{Option, none, some}
use native.Mathlib.Omega.{arith}
use wbf_matrix_client.Common.Tests.{leb, le→leb, if◌then◌else◌}
use wbf_matrix_client.Common.Lists.{
  length, take, drop, length-append, length-take, length-drop, take-append, drop-append,
  take-append-drop, drop-drop, take-append_le, drop-append_le,
}

module _ {ℓ} {A : Type ℓ} where
  -- `xs.get(a..b)`.
  unfoldable pub slice : List A → ℕ → ℕ → Option (List A)
  slice xs a b = if leb a b && leb b (length xs) then some (take (b - a) (drop a xs)) else none

  pub slice_lem :
      (xs : List A) (a b : ℕ)
      → a ≤ b
      → b ≤ length xs
      → slice xs a b ≡ some (take (b - a) (drop a xs))
  unfolding slice
  slice_lem xs a b h k = rw (le→leb a b h, le→leb b (length xs) k)

  -- The middle of three parts.
  pub slice-append :
      (front mid back : List A) (a b : ℕ)
      → a ≡ length front
      → b ≡ a + length mid
      → slice (front ++ (mid ++ back)) a b ≡ some mid
  slice-append front mid back a b ha hb =
      slice_lem (front ++ (mid ++ back)) a b (omega arith)
        (omega (arith, length-append front (mid ++ back), length-append mid back))
      ∙ ap some (
          ap (λ k. take (b - a) (drop k (front ++ (mid ++ back)))) ha
          ∙ ap (take (b - a)) (drop-append front (mid ++ back))
          ∙ ap (λ k. take k (mid ++ back)) (omega arith)
          ∙ take-append mid back)

  pub slice-eq_some :
      (xs : List A) (a b : ℕ) (ys : List A)
      → slice xs a b ≡ some ys
      → (a ≤ b) × (b ≤ length xs) × (ys ≡ take (b - a) (drop a xs))
  unfolding slice
  slice-eq_some xs a b ys h = ground arith

  -- What is read stands in front of what is left.
  pub slice-drop :
      (xs : List A) (a b : ℕ) (ys : List A)
      → slice xs a b ≡ some ys
      → (drop a xs ≡ ys ++ drop b xs) × (length ys + a ≡ b)
  slice-drop xs a b ys h =
      let (le, fits, e) = slice-eq_some xs a b ys h in
      (
        sym (take-append-drop (b - a) (drop a xs))
            ∙ ap₂_append e (drop-drop (b - a) a xs ∙ ap (λ k. drop k xs) (omega arith)),
        omega (arith, ap length e, length-take (b - a) (drop a xs), length-drop a xs),
      )
    where
      ap₂_append : {us vs ts ws : List A} → vs ≡ us → ts ≡ ws → us ++ ts ≡ vs ++ ws
      ap₂_append p q = cc

  -- Bytes added behind change nothing that was read.
  pub slice-append_some :
      (xs more : List A) (a b : ℕ) (ys : List A)
      → slice xs a b ≡ some ys
      → slice (xs ++ more) a b ≡ some ys
  slice-append_some xs more a b ys h =
      let (le, fits, e) = slice-eq_some xs a b ys h in
      slice_lem (xs ++ more) a b le (omega (arith, length-append xs more))
      ∙ ap some (
          ap (take (b - a)) (drop-append_le a xs more (omega arith))
          ∙ take-append_le (b - a) (drop a xs) more (omega (arith, length-drop a xs))
          ∙ sym e)
