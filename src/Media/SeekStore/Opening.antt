-- ===== src/Media/SeekStore/Opening.antt =====
-- A store that `open` gives is sound, whatever stood in the file (crates/wbf-sdk/src/seek_store.rs).
use wbf_matrix_client.Common.{
  ℕ, suc, ◌+◌, ◌-◌, ◌*◌, ◌/◌, ◌^◌, ◌≤◌, ◌<◌, ◌≡◌, ◌⊎◌, inl, inr, refl, sym, ap, ◌∙◌, subst, arith,
  List, ◌++◌, Option, none, some, length, take, drop, replicate, length-append, length-replicate,
  Result, ok, err, Bool, true, false, ltb, ◌==◌, refuse, >>=-eq-ok, ok_injective, if◌then◌else◌,
}
use wbf_matrix_client.Common.Bytes.{Bytes, to_le_bytes, length-to_le_bytes}
use native.Mathlib.Nat.{div-add-mod', mul-le-mul, le_refl}
use native.Mathlib.Decide.{dec_le}
use wbf_matrix_client.Media.Geometry.{div_ceil}
use wbf_matrix_client.Media.Geometry.Division.{div_ceil_bounds}
use wbf_matrix_client.Media.Block.{Text}
use wbf_matrix_client.Media.SeekStore.{
  SeekStore, SeekError, Sealer, Disk, lands, fails_after, usage, header_len, cell_len, cell_offset,
  create, encode_header, is_our_header, max_seek_chunks, open_store, read_cell, rebuild, reopen,
  saturating_u32, scan_cells, try_first, new_store, or_create, reopen_existing,
}
use wbf_matrix_client.Media.SeekStore.Soundness.{IsSound}
use wbf_matrix_client.Media.SeekStore.Scanning.{PointsInto, empty_table, scan_cells-PointsInto}

abbrev rebuilt : Bytes → Text → ℕ → List ℕ → SeekStore
rebuilt file mxc cs slots = record {
  file = file;
  nonce_base = take 16 (drop 16 file);
  chunk_size = cs;
  mxc = mxc;
  slots = slots;
  cells = saturating_u32 (div_ceil (length file - header_len) (cell_len cs));
}

-- Every number of which the file has a byte is taken.
rebuilt-IsSound :
    (file : Bytes) (mxc : Text) (cs : ℕ) (slots : List ℕ)
    → header_len ≤ length file
    → cs < 2 ^ 32
    → length slots ≤ max_seek_chunks
    → PointsInto file cs slots
    → IsSound (rebuilt file mxc cs slots)
rebuilt-IsSound file mxc cs slots headed small table points = record {
  fits = covered (div_ceil_bounds (length file - header_len) (cell_len cs) pos).0;
  numbered = omega arith;
  small = small;
  table = table;
  pointed = points;
}
  where
    pos : 0 < cell_len cs
    pos = unfold cell_len in omega arith

    covered :
        length file - header_len ≤ div_ceil (length file - header_len) (cell_len cs) * cell_len cs
        → (length file
            ≤ cell_offset cs (saturating_u32 (div_ceil (length file - header_len) (cell_len cs))))
          ⊎ (saturating_u32 (div_ceil (length file - header_len) (cell_len cs)) ≡ 2 ^ 32 - 1)
    covered b = elim (dec_le (div_ceil (length file - header_len) (cell_len cs)) (2 ^ 32 - 1)) [
      | yes le ↦
          let e : saturating_u32 (div_ceil (length file - header_len) (cell_len cs))
              ≡ div_ceil (length file - header_len) (cell_len cs) =
            omega arith in
          inl (unfold cell_offset in rw e (omega (arith, b, headed)))
      | no gt ↦ inr (omega arith)
    ]

whole_fits :
    (file : Bytes) (cs : ℕ)
    → header_len ≤ length file
    → cell_offset cs (0 + saturating_u32 ((length file - header_len) / cell_len cs)) ≤ length file
unfolding cell_offset
whole_fits file cs headed =
    let c = cell_len cs in
    let q = (length file - header_len) / c in
    let few : saturating_u32 q ≤ q = omega arith in
    omega (arith, mul-le-mul few (le_refl c), div-add-mod' (length file - header_len) c, headed)

tried :
    (b : Bool) (r : Result SeekError (ℕ × Bytes)) (c s : SeekStore)
    → (if b then ok (some c) else try_first c r) ≡ ok (some s)
    → s ≡ c
unfolding try_first
tried true r c s h = cc
tried false (err e) c s h = absurd cc
tried false (ok cell) c s h = cc

module _ (x : Sealer) where
  rebuild_sound :
      (file : Bytes) (mxc : Text) (cs count : ℕ) (s : SeekStore)
      → rebuild x file mxc cs count ≡ ok (some s)
      → (slots : List ℕ) × (scan_cells file cs
            (saturating_u32 ((length file - header_len) / cell_len cs))
            0
            (replicate count 0)
          ≡ ok slots)
        × (s ≡ rebuilt file mxc cs slots)
  unfolding rebuild
  rebuild_sound file mxc cs count s h =
      let (slots, scanned, rest) =
        >>=-eq-ok
          (scan_cells file cs (saturating_u32 ((length file - header_len) / cell_len cs)) 0
            (replicate count 0))
          _ h in
      (
        slots,
        scanned,
        tried _ (read_cell x (rebuilt file mxc cs slots) 0) (rebuilt file mxc cs slots) s rest,
      )

  reopen-IsSound :
      (file : Bytes) (mxc : Text) (cs count : ℕ) (s : SeekStore)
      → cs < 2 ^ 32
      → count ≤ max_seek_chunks
      → reopen x file mxc cs count ≡ ok (some s)
      → IsSound s × (s.file ≡ file) × (length s.slots ≡ count)
  unfolding reopen is_our_header
  reopen-IsSound file mxc cs count s small few h =
      let headed : header_len ≤ length file = ground arith in
      let built : rebuild x file mxc cs count ≡ ok (some s) = ground arith in
      let (slots, scanned, same) = rebuild_sound file mxc cs count s built in
      let nothing : PointsInto file cs (replicate count 0) =
        λ i slot e. absurd (omega (arith, empty_table count i (suc slot) e)) in
      let (points, size) =
        scan_cells-PointsInto file cs (saturating_u32 ((length file - header_len) / cell_len cs)) 0
          (replicate count 0) slots (whole_fits file cs headed) nothing scanned in
      let size' : length slots ≡ count = size ∙ length-replicate {A = ℕ} count 0 in
      (
        subst IsSound (sym same)
            (rebuilt-IsSound file mxc cs slots headed small (omega arith) points),
        ap (λ t. t.file) same,
        ap (λ t. length t.slots) same ∙ size',
      )

  new_store-IsSound :
      (base : Bytes) (mxc : Text) (cs count : ℕ)
      → cs < 2 ^ 32
      → count ≤ max_seek_chunks
      → length base ≡ 16
      → IsSound (new_store base mxc cs count) × (length (new_store base mxc cs count).slots ≡ count)
  unfolding new_store encode_header cell_offset to_le_bytes
  new_store-IsSound base mxc cs count small few based =
      let tail = to_le_bytes 4 count ++ base in
      let size : length (encode_header cs count base) ≡ 32 = omega (
        arith,
        based,
        length-append (to_le_bytes 4 cs) tail,
        length-append (to_le_bytes 4 count) base,
        length-to_le_bytes 4 cs,
        length-to_le_bytes 4 count,
      ) in
      let count' = length-replicate {A = ℕ} count 0 in
      (
        record {
          fits = inl (omega (arith, size));
          numbered = omega arith;
          small = small;
          table = omega (arith, count');
          pointed = λ i slot e. absurd (omega (arith, empty_table count i (suc slot) e));
        },
        count',
      )

  reopen_existing-IsSound :
      (e : Option Bytes) (mxc : Text) (cs count : ℕ) (s : SeekStore)
      → cs < 2 ^ 32
      → count ≤ max_seek_chunks
      → reopen_existing x e mxc cs count ≡ ok (some s)
      → IsSound s × (length s.slots ≡ count)
  unfolding reopen_existing
  reopen_existing-IsSound none mxc cs count s small few h = absurd (ground arith)
  reopen_existing-IsSound (some file) mxc cs count s small few h =
      let (sound, _, size) = reopen-IsSound file mxc cs count s small few h in (sound, size)

  created :
      (disk : Disk) (draw : Option Bytes) (mxc : Text) (cs count : ℕ) (s : SeekStore)
      → or_create disk draw mxc cs count none ≡ ok s
      → (base : Bytes) × (draw ≡ some base) × (s ≡ new_store base mxc cs count)
  unfolding or_create create
  created disk none mxc cs count s h = absurd cc
  created (fails_after k) (some base) mxc cs count s h = absurd cc
  created lands (some base) mxc cs count s h = (base, refl, sym (ok_injective h))

  -- Whatever stands in the file of the name, with a chunk size below 2 ^ 32 and draws of 16 bytes,
  -- a store that `open` gives is sound and has the table of the wanted chunks: its entries point
  -- to whole cells, and every byte of the file, of a cell that was cut short too, lies in a cell
  -- whose number is taken, unless no number is left.
  pub open_store-IsSound :
      (disk : Disk) (existing draw : Option Bytes) (mxc : Text) (cs count : ℕ) (s : SeekStore)
      → cs < 2 ^ 32
      → ((base : Bytes) → draw ≡ some base → length base ≡ 16)
      → open_store x disk existing draw mxc cs count ≡ ok s
      → IsSound s × (length s.slots ≡ count)
  unfolding open_store or_create
  open_store-IsSound disk existing draw mxc cs count s small random h =
      let (_, filled, h1) = >>=-eq-ok (refuse (cs == 0) usage) _ h in
      let (_, some_chunks, h2) = >>=-eq-ok (refuse (count == 0) usage) _ h1 in
      let (_, few, h3) = >>=-eq-ok (refuse (ltb max_seek_chunks count) usage) _ h2 in
      let (found, got, h4) = >>=-eq-ok (reopen_existing x existing mxc cs count) _ h3 in
      let few' : count ≤ max_seek_chunks = ground arith in made found existing got h4 few'
    where
      made :
          (found : Option SeekStore) (e : Option Bytes)
          → reopen_existing x e mxc cs count ≡ ok found
          → or_create disk draw mxc cs count found ≡ ok s
          → count ≤ max_seek_chunks
          → IsSound s × (length s.slots ≡ count)
      made none e got done few =
          let (base, drawn, same) = created disk draw mxc cs count s done in
          subst (λ t. IsSound t × (length t.slots ≡ count)) (sym same)
            (new_store-IsSound base mxc cs count small few (random base drawn))
      made (some t) e got done few =
          let same : t ≡ s = ok_injective done in
          subst (λ t. IsSound t × (length t.slots ≡ count)) same
            (reopen_existing-IsSound e mxc cs count t small few got)
