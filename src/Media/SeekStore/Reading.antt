-- ===== src/Media/SeekStore/Reading.antt =====
-- What was appended is read back, and no append takes it away (crates/wbf-sdk/src/seek_store.rs).
use wbf_matrix_client.Common.{
  ℕ, zero, suc, ◌+◌, ◌-◌, ◌^◌, ◌≤◌, ◌<◌, ◌≡◌, inl, inr, refl, sym, ap, ◌∙◌, arith, [], ◌++◌, Option,
  none, some, length, drop, drop-append, get_elem?, set, replicate, length-append, slice,
  slice-append_some, slice-append, Result, ok, err, true, false, leb, ltb, ◌==◌, ==_self, not,
  >>=-eq-ok, ok_or, Bool-cases,
}
use wbf_matrix_client.Common.Bytes.{
  Bytes, to_le_bytes, from_le_bytes, length-to_le_bytes, from_le_bytes-to_le_bytes,
}
use wbf_matrix_client.Media.SeekStore.{
  SeekStore, SeekError, Sealer, Disk, lands, io, admit, append, append_sealed, append_admitted,
  cell_len, cell_offset, cell_nonce, cell_aad, has, land, pad, seal_cell, read, settle, entry_of,
  read_cell, open_padded,
}
use wbf_matrix_client.Media.SeekStore.Files.{added, write_at-added, slice-added, get-set}
use wbf_matrix_client.Media.SeekStore.Soundness.{IsSound, Grows, append-Grows, made_cell, has_room}

-- The padded text of a chunk opens to the chunk.
open_padded-pad :
    (cs : ℕ) (text : Bytes)
    → 0 < length text
    → length text ≤ cs
    → cs < 2 ^ 32
    → open_padded cs (pad cs text) ≡ ok text
unfolding open_padded pad
open_padded-pad cs text pos short small =
    let gap : Bytes = replicate (cs - length text) 0 in
    let field = to_le_bytes 4 (length text) in
    let four = length-to_le_bytes 4 (length text) in
    let front : slice (field ++ (text ++ gap)) 0 4 ≡ some field =
      slice-append [] field (text ++ gap) 0 4 refl (omega (arith, four)) in
    let mid : slice (field ++ (text ++ gap)) 4 (4 + length text) ≡ some text =
      slice-append field text gap 4 (4 + length text) (omega (arith, four)) refl in
    let value : from_le_bytes field ≡ length text =
      from_le_bytes-to_le_bytes 4 (length text) (omega arith) in
    let nonzero : (from_le_bytes field == 0) ≡ false = ground (arith, value) in
    let fits : ltb cs (from_le_bytes field) ≡ false = ground (arith, value) in
    rw (front, nonzero, fits, value, mid) refl

opened :
    (x : Sealer) (s : SeekStore) (slot i : ℕ) (text sealed : Bytes)
    → seal_cell x s slot i text ≡ some sealed
    → x.decrypt (cell_nonce s.nonce_base slot) (cell_aad s slot i) sealed
      ≡ some (pad s.chunk_size text)
unfolding seal_cell
opened x s slot i text sealed e = x.decrypt-encrypt _ _ (pad s.chunk_size text) sealed e

-- A cell of the file as `append` makes it is read as its chunk.
read_cell_lem :
    (x : Sealer) (s : SeekStore) (slot i : ℕ) (text sealed : Bytes)
    → 0 < length text
    → length text ≤ s.chunk_size
    → s.chunk_size < 2 ^ 32
    → i < 2 ^ 32
    → seal_cell x s slot i text ≡ some sealed
    → slice s.file
        (cell_offset s.chunk_size slot)
        (cell_offset s.chunk_size slot + cell_len s.chunk_size)
      ≡ some (to_le_bytes 4 i ++ sealed)
    → read_cell x s slot ≡ ok (i, text)
unfolding read_cell
read_cell_lem x s slot i text sealed pos short small lt e there =
    let front = to_le_bytes 4 i in
    let four = length-to_le_bytes 4 i in
    let field : slice (front ++ sealed) 0 4 ≡ some front =
      slice-append [] front sealed 0 4 refl (omega (arith, four)) in
    let number : from_le_bytes front ≡ i = from_le_bytes-to_le_bytes 4 i lt in
    let rest : drop 4 (front ++ sealed) ≡ sealed =
      ap (λ k. drop k (front ++ sealed)) (sym four) ∙ drop-append front sealed in
    rw
      (
        there,
        field,
        number,
        rest,
        opened x s slot i text sealed e,
        open_padded-pad s.chunk_size text pos short small,
      )
      refl

append_landed :
    (x : Sealer) (s : SeekStore) (i : ℕ) (text sealed : Bytes)
    → IsSound s
    → i < length s.slots
    → has s i ≡ false
    → 0 < length text
    → length text ≤ s.chunk_size
    → suc s.cells < 2 ^ 32
    → seal_cell x s s.cells i text ≡ some sealed
    → append x lands s i text ≡ (
      ok tt,
      record s {
        file =
            s.file ++ added s.file (cell_offset s.chunk_size s.cells) (to_le_bytes 4 i ++ sealed);
        slots = set s.slots i (suc s.cells);
        cells = suc s.cells;
      },
    )
unfolding append append_admitted append_sealed land admit
append_landed x s i text sealed h inside missing pos short room e =
    let inside' : leb (length s.slots) i ≡ false = ground arith in
    let filled : (length text == 0) ≡ false = ground arith in
    let short' : ltb s.chunk_size (length text) ≡ false = ground arith in
    let room' : ltb (s.cells + 1) (2 ^ 32) ≡ true = ground arith in
    rw
      (
        inside',
        missing,
        filled,
        short',
        room',
        e,
        write_at-added s.file (cell_offset s.chunk_size s.cells) (to_le_bytes 4 i ++ sealed)
            (has_room s h room),
      )
      refl

read_entry :
    (x : Sealer) (s : SeekStore) (i slot : ℕ) (text : Bytes)
    → get_elem? s.slots i ≡ some (suc slot)
    → read_cell x s slot ≡ ok (i, text)
    → read x s i ≡ (some text, s)
unfolding read has entry_of settle
read_entry x s i slot text entry got =
    let before : suc slot - 1 ≡ slot = omega arith in
    let taken : (suc slot == 0) ≡ false = ground arith in
    rw (entry, taken, before, got, ==_self i) refl

settle_back :
    (s : SeekStore) (j : ℕ) (r : Result SeekError (ℕ × Bytes)) (kept : Bytes)
    → (settle s j r).0 ≡ some kept
    → r ≡ ok (j, kept)
unfolding settle
settle_back s j (err e) kept h = absurd cc
settle_back s j (ok (stored, text)) kept h = ground arith

has-entry :
    (s : SeekStore) (j : ℕ) → has s j ≡ true → (slot : ℕ) × (get_elem? s.slots j ≡ some (suc slot))
unfolding has entry_of
has-entry s j h = entry (get_elem? s.slots j) refl h
  where
    entry :
        (o : Option ℕ)
        → get_elem? s.slots j ≡ o
        → not (entry_of o == 0) ≡ true
        → (slot : ℕ) × (get_elem? s.slots j ≡ some (suc slot))
    entry none e t = absurd (ground arith)
    entry (some zero) e t = absurd (ground arith)
    entry (some (suc slot)) e t = (slot, e)

read_entry_back :
    (x : Sealer) (s : SeekStore) (j : ℕ) (kept : Bytes)
    → (read x s j).0 ≡ some kept
    → (slot : ℕ) × (get_elem? s.slots j ≡ some (suc slot)) × (read_cell x s slot ≡ ok (j, kept))
unfolding read entry_of
read_entry_back x s j kept e = elim (Bool-cases (has s j)) [
  | inl there ↦
      let (slot, entry) = has-entry s j there in
      let before : entry_of (get_elem? s.slots j) - 1 ≡ slot = (rw entry (omega arith)) in
      let settled : (settle s j (read_cell x s slot)).0 ≡ some kept =
        ap (λ k. (settle s j (read_cell x s k)).0) (sym before) ∙ (ground arith) in
      (slot, entry, settle_back s j (read_cell x s slot) kept settled)
  | inr missing ↦ absurd (ground arith)
]

read_cell-Grows :
    (x : Sealer) (s s' : SeekStore) (slot j : ℕ) (text : Bytes)
    → Grows s s'
    → read_cell x s slot ≡ ok (j, text)
    → read_cell x s' slot ≡ ok (j, text)
unfolding read_cell cell_aad
read_cell-Grows x s s' slot j text g e =
    let (cell, got, rest) =
      >>=-eq-ok
        (ok_or
          (slice s.file (cell_offset s.chunk_size slot)
            (cell_offset s.chunk_size slot + cell_len s.chunk_size))
          io)
        _ e in
    let there : slice s.file (cell_offset s.chunk_size slot)
          (cell_offset s.chunk_size slot + cell_len s.chunk_size)
        ≡ some cell =
      ground arith in
    rw
      (
        g.same_chunks,
        g.behind,
        g.same_base,
        g.same_owner,
        slice-append_some s.file g.more _ _ cell there,
      )
      rest

-- A cell is sealed in the same way by every store of its parameters.
made_again :
    (x : Sealer) (s s' : SeekStore) (i : ℕ) (text sealed : Bytes)
    → s'.chunk_size ≡ s.chunk_size
    → s'.nonce_base ≡ s.nonce_base
    → s'.mxc ≡ s.mxc
    → seal_cell x s s.cells i text ≡ some sealed
    → seal_cell x s' s.cells i text ≡ some sealed
unfolding seal_cell cell_aad
made_again x s s' i text sealed p q r e = rw (p, q, r) e

-- A chunk that a sound store does not have yet, of a size that is allowed, while a cell number is
-- left and the cipher seals it: `append` on a disk that takes it succeeds, and then `read` gives
-- exactly its bytes and leaves the store as it is.
pub read-append :
    (x : Sealer) (s : SeekStore) (i : ℕ) (text sealed : Bytes)
    → IsSound s
    → i < length s.slots
    → has s i ≡ false
    → 0 < length text
    → length text ≤ s.chunk_size
    → suc s.cells < 2 ^ 32
    → seal_cell x s s.cells i text ≡ some sealed
    → ((append x lands s i text).0 ≡ ok tt)
      × (read x (append x lands s i text).1 i ≡ (some text, (append x lands s i text).1))
read-append x s i text sealed h inside missing pos short room e =
    let cell = to_le_bytes 4 i ++ sealed in
    let offset = cell_offset s.chunk_size s.cells in
    let s' : SeekStore = record s {
      file = s.file ++ added s.file offset cell;
      slots = set s.slots i (suc s.cells);
      cells = suc s.cells;
    } in
    let lt : i < 2 ^ 32 = omega (arith, h.table) in
    let size = (made_cell x s s.cells i text sealed short lt e).0 in
    let four : 0 < length cell =
      omega (arith, length-append (to_le_bytes 4 i) sealed, length-to_le_bytes 4 i) in
    let there : slice s'.file offset (offset + cell_len s.chunk_size) ≡ some cell =
      ap (λ k. slice s'.file offset (offset + k)) (sym size)
      ∙ slice-added s.file offset cell (has_room s h room) four in
    let got : read_cell x s' s.cells ≡ ok (i, text) =
      read_cell_lem x s' s.cells i text sealed pos short h.small lt
        (made_again x s s' i text sealed refl refl refl e) there in
    rw (append_landed x s i text sealed h inside missing pos short room e)
      (refl, read_entry x s' i s.cells text (get-set s.slots i (suc s.cells) inside) got)

-- Whatever is appended to a sound store, and whatever the disk does to it, every chunk that could
-- be read can be read still, and is the same.
pub read_kept :
    (x : Sealer) (disk : Disk) (s : SeekStore) (i j : ℕ) (text kept : Bytes)
    → IsSound s
    → (read x s j).0 ≡ some kept
    → (read x (append x disk s i text).1 j).0 ≡ some kept
read_kept x disk s i j text kept h e =
    let (slot, entry, got) = read_entry_back x s j kept e in
    let g = append-Grows x disk s i text h in
    ap (λ p. p.0)
      (read_entry x (append x disk s i text).1 j slot kept (g.kept_entries j slot entry)
        (read_cell-Grows x s (append x disk s i text).1 slot j kept g got))
