-- ===== src/Media/SeekStore/Scanning.antt =====
-- The scan of a file for its cells (crates/wbf-sdk/src/seek_store.rs).
use wbf_matrix_client.Common.{
  ℕ, zero, suc, ◌+◌, ◌-◌, ◌≤◌, ◌<◌, ◌≡◌, refl, sym, ap, ◌∙◌, subst, arith, List, Option, none, some,
  length, take, drop, get_elem?, set, replicate, length-set, slice, slice_lem, slice-eq_some, ok,
  ◌==◌, >>=-eq-ok, ok_or, ok_injective, if-holds,
}
use wbf_matrix_client.Common.Bytes.{Bytes, from_le_bytes}
use native.Mathlib.Nat.{mul-le-mul, le_refl}
use native.Mathlib.Decide.{ℕ_discrete}
use wbf_matrix_client.Media.Download.Spans.{take-take}
use wbf_matrix_client.Media.SeekStore.{io, cell_len, cell_offset, note_cell, note_entry, scan_cells}
use wbf_matrix_client.Media.SeekStore.Files.{get-set, get-set_other, get_elem?-lt}

-- `Soundness.Holds` of a file and a table, before there is a store.
abbrev pub HoldsIn : Bytes → ℕ → ℕ → ℕ → Type 0
HoldsIn file cs i slot =
    (cell : Bytes) × (slice file (cell_offset cs slot) (cell_offset cs slot + cell_len cs)
      ≡ some cell)
    × (from_le_bytes (take 4 cell) ≡ i)

abbrev pub PointsInto : Bytes → ℕ → List ℕ → Type 0
PointsInto file cs slots =
    (i slot : ℕ) → get_elem? slots i ≡ some (suc slot) → HoldsIn file cs i slot

pub empty_table : (n i : ℕ) (entry : ℕ) → get_elem? (replicate n 0) i ≡ some entry → entry ≡ 0
empty_table zero i entry e = absurd cc
empty_table (suc n) zero entry e = cc
empty_table (suc n) (suc i) entry e = empty_table n i entry e

some_injective : {a b : ℕ} → some a ≡ some b → a ≡ b
some_injective h = cc

module _ (file : Bytes) (cs : ℕ) where
  set-PointsInto :
      (slots : List ℕ) (i slot : ℕ)
      → PointsInto file cs slots
      → HoldsIn file cs i slot
      → PointsInto file cs (set slots i (suc slot))
  set-PointsInto slots i slot points holds j slot' e = elim (ℕ_discrete i j) [
    | yes same ↦
        let inside : j < length slots = omega (
          arith,
          get_elem?-lt (set slots i (suc slot)) j (suc slot') e,
          length-set slots i (suc slot),
        ) in
        let number : suc slot ≡ suc slot' = some_injective (
          sym (get-set slots j (suc slot) inside)
          ∙ ap (λ k. get_elem? (set slots k (suc slot)) j) (sym same)
          ∙ e) in
        let number' : slot ≡ slot' = omega arith in
        subst (λ k. HoldsIn file cs j k) number' (subst (λ k. HoldsIn file cs k slot) same holds)
    | no other ↦ points j slot' (sym (get-set_other slots i j (suc slot) other) ∙ e)
  ]

  note_entry-PointsInto :
      (slots : List ℕ) (i slot : ℕ) (o : Option ℕ)
      → PointsInto file cs slots
      → HoldsIn file cs i slot
      → PointsInto file cs (note_entry slots i slot o)
        × (length (note_entry slots i slot o) ≡ length slots)
  unfolding note_entry
  note_entry-PointsInto slots i slot none points holds = (points, refl)
  note_entry-PointsInto slots i slot (some entry) points holds =
      if-holds {A = List ℕ} (λ t. PointsInto file cs t × (length t ≡ length slots)) (entry == 0) _ _
        (λ free. (set-PointsInto slots i slot points holds, length-set slots i (suc slot)))
        (λ held. (points, refl))

  -- A cell that ends inside the file, and its first four bytes.
  whole_cell :
      (slot : ℕ) (field : Bytes)
      → cell_offset cs slot + cell_len cs ≤ length file
      → slice file (cell_offset cs slot) (cell_offset cs slot + 4) ≡ some field
      → HoldsIn file cs (from_le_bytes field) slot
  whole_cell slot field fits e =
      let offset = cell_offset cs slot in
      let (_, _, same) = slice-eq_some file offset (offset + 4) field e in
      let four : offset + 4 - offset ≡ 4 = omega arith in
      let size : offset + cell_len cs - offset ≡ cell_len cs = omega arith in
      let long : 4 ≤ cell_len cs = (unfold cell_len in omega arith) in
      (
        take (cell_len cs) (drop offset file),
        slice_lem file offset (offset + cell_len cs) (omega arith) fits
            ∙ ap (λ k. some (take k (drop offset file))) size,
        ap from_le_bytes (
            take-take 4 (cell_len cs) (drop offset file) long
            ∙ ap (λ k. take k (drop offset file)) (sym four)
            ∙ sym same),
      )

  cell_ends :
      (slot left : ℕ)
      → cell_offset cs (slot + suc left) ≤ length file
      → cell_offset cs slot + cell_len cs ≤ length file
  unfolding cell_offset cell_len
  cell_ends slot left h = omega (arith, mul-le-mul (more slot left) (le_refl (24 + cs)))
    where
      more : (a b : ℕ) → suc a ≤ a + suc b
      more a b = omega arith

  shifted :
      (slot left : ℕ)
      → cell_offset cs (slot + suc left) ≤ length file
      → cell_offset cs (suc slot + left) ≤ length file
  shifted slot left h =
      let e : slot + suc left ≡ suc slot + left = omega arith in
      subst (λ k. cell_offset cs k ≤ length file) e h

  -- A scan keeps the table's size and points only to whole cells of their chunks.
  pub scan_cells-PointsInto :
      (left slot : ℕ) (slots slots' : List ℕ)
      → cell_offset cs (slot + left) ≤ length file
      → PointsInto file cs slots
      → scan_cells file cs left slot slots ≡ ok slots'
      → PointsInto file cs slots' × (length slots' ≡ length slots)
  unfolding scan_cells note_cell
  scan_cells-PointsInto zero slot slots slots' fits points h =
      let same : slots ≡ slots' = ok_injective h in
      (subst (PointsInto file cs) same points, ap length (sym same))
  scan_cells-PointsInto (suc left) slot slots slots' fits points h =
      let (field, got, rest) =
        >>=-eq-ok (ok_or (slice file (cell_offset cs slot) (cell_offset cs slot + 4)) io) _ h in
      let read : slice file (cell_offset cs slot) (cell_offset cs slot + 4) ≡ some field =
        ground arith in
      let ends : cell_offset cs slot + cell_len cs ≤ length file = cell_ends slot left fits in
      let fits' : cell_offset cs (suc slot + left) ≤ length file = shifted slot left fits in
      let (points', size) =
        note_entry-PointsInto slots (from_le_bytes field) slot
          (get_elem? slots (from_le_bytes field)) points (whole_cell slot field ends read) in
      let (all, same) =
        scan_cells-PointsInto left (suc slot) (note_cell slots (from_le_bytes field) slot) slots'
          fits' points' rest in
      (all, same ∙ size)
