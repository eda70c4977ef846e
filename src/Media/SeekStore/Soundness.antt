-- ===== src/Media/SeekStore/Soundness.antt =====
-- The table points only to cells that landed, and no write touches one (crates/wbf-sdk/src/seek_store.rs).
use wbf_matrix_client.Common.{
  ℕ, suc, ◌+◌, ◌-◌, ◌^◌, ◌≤◌, ◌<◌, ◌≡◌, ◌≢◌, ◌⊎◌, inl, refl, sym, ap, ◌∙◌, subst, arith, [], ◌++◌,
  append-nil, Option, none, some, length, take, get_elem?, set, replicate, length-append,
  length-take, length-replicate, length-set, slice, slice-append_some, Result, ok, err, false, leb,
  take-append, if-holds,
}
use wbf_matrix_client.Common.Bytes.{
  Bytes, to_le_bytes, from_le_bytes, length-to_le_bytes, from_le_bytes-to_le_bytes,
}
use native.Mathlib.Decide.{ℕ_discrete}
use wbf_matrix_client.Media.SeekStore.{
  SeekStore, SeekError, Sealer, Disk, lands, fails_after, admit, append, append_admitted,
  append_sealed, cell_len, cell_offset, has, land, pad, seal_cell, write_at, entry_of,
  max_seek_chunks,
}
use wbf_matrix_client.Media.SeekStore.Files.{
  added, write_at-added, length-added, slice-added, get-set, get-set_other, get_elem?-lt,
}

-- A whole cell of the file with the number of chunk `i` in front.
abbrev pub Holds : SeekStore → ℕ → ℕ → Type 0
Holds s i slot =
    (cell : Bytes) × (slice s.file (cell_offset s.chunk_size slot)
        (cell_offset s.chunk_size slot + cell_len s.chunk_size)
      ≡ some cell)
    × (from_le_bytes (take 4 cell) ≡ i)

-- Every byte of the file lies in a cell whose number is taken, unless no number is left, and an
-- entry of the table points to a cell of its chunk.
pub record IsSound (s : SeekStore) : Type 0 where
  pub fits : (length s.file ≤ cell_offset s.chunk_size s.cells) ⊎ (s.cells ≡ 2 ^ 32 - 1)
  pub numbered : s.cells < 2 ^ 32
  pub small : s.chunk_size < 2 ^ 32
  pub table : length s.slots ≤ max_seek_chunks
  pub pointed : (i slot : ℕ) → get_elem? s.slots i ≡ some (suc slot) → Holds s i slot

pub cell_offset-suc : (cs slot : ℕ) → cell_offset cs (suc slot) ≡ cell_offset cs slot + cell_len cs
unfolding cell_offset cell_len
cell_offset-suc cs slot = omega arith

pub length-pad : (cs : ℕ) (text : Bytes) → length text ≤ cs → length (pad cs text) ≡ 4 + cs
unfolding pad
length-pad cs text h =
    let gap : Bytes = replicate (cs - length text) 0 in
    omega (
      arith,
      length-append (to_le_bytes 4 (length text)) (text ++ gap),
      length-append text gap,
      length-to_le_bytes 4 (length text),
      length-replicate {A = ℕ} (cs - length text) 0,
    )

module _ (x : Sealer) where
  -- A cell as `append` makes it has the size of a cell and its chunk's number in front.
  pub made_cell :
      (s : SeekStore) (slot i : ℕ) (text sealed : Bytes)
      → length text ≤ s.chunk_size
      → i < 2 ^ 32
      → seal_cell x s slot i text ≡ some sealed
      → (length (to_le_bytes 4 i ++ sealed) ≡ cell_len s.chunk_size)
        × (from_le_bytes (take 4 (to_le_bytes 4 i ++ sealed)) ≡ i)
  unfolding seal_cell cell_len
  made_cell s slot i text sealed short small e =
      let size = x.length-encrypt _ _ (pad s.chunk_size text) sealed e in
      let four = length-to_le_bytes 4 i in
      (
        omega (
          arith,
          length-append (to_le_bytes 4 i) sealed,
          four,
          size,
          length-pad s.chunk_size text short,
        ),
        ap (λ k. from_le_bytes (take k (to_le_bytes 4 i ++ sealed))) (sym four)
            ∙ ap from_le_bytes (take-append (to_le_bytes 4 i) sealed)
            ∙ from_le_bytes-to_le_bytes 4 i small,
      )

-- The number of a cell is taken and bytes are put behind the file.
abbrev pub extend : SeekStore → Bytes → SeekStore
extend s more = record s { file = s.file ++ more; cells = suc s.cells }

pub extend-IsSound :
    (s : SeekStore) (more : Bytes)
    → IsSound s
    → suc s.cells < 2 ^ 32
    → length (s.file ++ more) ≤ cell_offset s.chunk_size (suc s.cells)
    → IsSound (extend s more)
extend-IsSound s more h room size = record {
  fits = inl size;
  numbered = room;
  small = h.small;
  table = h.table;
  pointed = λ i slot e.
      let (cell, there, number) = h.pointed i slot e in
      (cell, slice-append_some s.file more _ _ cell there, number);
}

some_injective : {a b : ℕ} → some a ≡ some b → a ≡ b
some_injective h = cc

-- The table gets an entry for a cell of its chunk.
pub point-IsSound :
    (s : SeekStore) (i slot : ℕ)
    → IsSound s
    → Holds s i slot
    → IsSound (record s { slots = set s.slots i (suc slot) })
point-IsSound s i slot h holds = record {
  fits = h.fits;
  numbered = h.numbered;
  small = h.small;
  table = omega (arith, length-set s.slots i (suc slot), h.table);
  pointed = λ j slot' e. elim (ℕ_discrete i j) [
    | yes same ↦
        let inside : j < length s.slots = omega (
          arith,
          get_elem?-lt (set s.slots i (suc slot)) j (suc slot') e,
          length-set s.slots i (suc slot),
        ) in
        let found = get-set s.slots j (suc slot) inside in
        let number : suc slot ≡ suc slot' =
          some_injective
            (sym found ∙ ap (λ k. get_elem? (set s.slots k (suc slot)) j) (sym same) ∙ e) in
        let number' : slot ≡ slot' = omega arith in
        subst (λ k. Holds s j k) number' (subst (λ k. Holds s k slot) same holds)
    | no other ↦ h.pointed j slot' (sym (get-set_other s.slots i j (suc slot) other) ∙ e)
  ];
}

-- What an operation leaves: a sound store whose file begins with the old one, with no number given
-- back, and with the parameters that it had.
pub record Grows (s s' : SeekStore) : Type 0 where
  pub sound : IsSound s'
  pub more : Bytes
  pub behind : s'.file ≡ s.file ++ more
  pub upward : s.cells ≤ s'.cells
  pub same_chunks : s'.chunk_size ≡ s.chunk_size
  pub same_base : s'.nonce_base ≡ s.nonce_base
  pub same_owner : s'.mxc ≡ s.mxc
  pub kept_entries :
      (j slot : ℕ) → get_elem? s.slots j ≡ some (suc slot) → get_elem? s'.slots j ≡ some (suc slot)

stays : (s : SeekStore) → IsSound s → Grows s s
stays s h = record {
  sound = h;
  more = [];
  behind = sym (append-nil s.file);
  upward = omega arith;
  same_chunks = refl;
  same_base = refl;
  same_owner = refl;
  kept_entries = λ j slot e. e;
}

-- The table has no cell for a chunk.
abbrev pub Free : SeekStore → ℕ → Type 0
Free s i = (slot : ℕ) → get_elem? s.slots i ≢ some (suc slot)

-- What the disk leaves of a cell behind the file of a store with room.
land-Grows :
    (disk : Disk) (s : SeekStore) (i : ℕ) (cell : Bytes)
    → IsSound s
    → length s.file ≤ cell_offset s.chunk_size s.cells
    → suc s.cells < 2 ^ 32
    → 0 < length cell
    → length cell ≡ cell_len s.chunk_size
    → from_le_bytes (take 4 cell) ≡ i
    → Free s i
    → Grows s (land disk (record s { cells = suc s.cells }) s.cells i cell).1
unfolding land
land-Grows lands s i cell h fits room pos size number free =
    let offset = cell_offset s.chunk_size s.cells in
    let more = added s.file offset cell in
    let file : write_at s.file offset cell ≡ s.file ++ more =
      write_at-added s.file offset cell fits in
    let next =
      extend-IsSound s more h room (
        omega
          (arith, length-added s.file offset cell fits, cell_offset-suc s.chunk_size s.cells)) in
    let read_back : slice (s.file ++ more) offset (offset + cell_len s.chunk_size) ≡ some cell =
      ap (λ k. slice (s.file ++ more) offset (offset + k)) (sym size)
      ∙ slice-added s.file offset cell fits pos in
    record {
      sound =
          subst
            (λ f.
              IsSound
                (record s { file = f; slots = set s.slots i (suc s.cells); cells = suc s.cells }))
            (sym file) (point-IsSound (extend s more) i s.cells next (cell, read_back, number));
      more = more;
      behind = file;
      upward = omega arith;
      same_chunks = refl;
      same_base = refl;
      same_owner = refl;
      kept_entries = λ j slot e. elim (ℕ_discrete i j) [
        | yes same ↦ absurd (free slot (ap (get_elem? s.slots) same ∙ e))
        | no other ↦ get-set_other s.slots i j (suc s.cells) other ∙ e
      ];
    }
land-Grows (fails_after k) s i cell h fits room pos size number free =
    let offset = cell_offset s.chunk_size s.cells in
    let more = added s.file offset (take k cell) in
    let file : write_at s.file offset (take k cell) ≡ s.file ++ more =
      write_at-added s.file offset (take k cell) fits in
    let next = extend-IsSound s more h room (
      omega (
        arith,
        length-added s.file offset (take k cell) fits,
        length-take k cell,
        cell_offset-suc s.chunk_size s.cells,
      )) in
    record {
      sound = subst (λ f. IsSound (record s { file = f; cells = suc s.cells })) (sym file) next;
      more = more;
      behind = file;
      upward = omega arith;
      same_chunks = refl;
      same_base = refl;
      same_owner = refl;
      kept_entries = λ j slot e. e;
    }

admit_sound :
    (s : SeekStore) (i : ℕ) (text : Bytes)
    → admit s i text ≡ ok tt
    → (0 < length text) × (length text ≤ s.chunk_size) × (suc s.cells < 2 ^ 32)
unfolding admit
admit_sound s i text h = ground arith

pub has_room :
    (s : SeekStore)
    → IsSound s
    → suc s.cells < 2 ^ 32
    → length s.file ≤ cell_offset s.chunk_size s.cells
has_room s h room = ground (arith, h.fits)

missing-Free : (s : SeekStore) (i : ℕ) → has s i ≡ false → Free s i
unfolding has entry_of
missing-Free s i h slot e = ground arith

module _ (x : Sealer) where
  append_sealed-Grows :
      (disk : Disk) (s : SeekStore) (i : ℕ) (text : Bytes) (o : Option Bytes)
      → IsSound s
      → length text ≤ s.chunk_size
      → suc s.cells < 2 ^ 32
      → i < 2 ^ 32
      → seal_cell x s s.cells i text ≡ o
      → Free s i
      → Grows s (append_sealed disk s i o).1
  unfolding append_sealed
  append_sealed-Grows disk s i text none h short room small e free = record {
    sound = record {
      fits = inl (omega (arith, has_room s h room, cell_offset-suc s.chunk_size s.cells));
      numbered = room;
      small = h.small;
      table = h.table;
      pointed = h.pointed;
    };
    more = [];
    behind = sym (append-nil s.file);
    upward = omega arith;
    same_chunks = refl;
    same_base = refl;
    same_owner = refl;
    kept_entries = λ j slot e. e;
  }
  append_sealed-Grows disk s i text (some sealed) h short room small e free =
      let (size, number) = made_cell x s s.cells i text sealed short small e in
      let pos : 0 < length (to_le_bytes 4 i ++ sealed) =
        omega (arith, length-append (to_le_bytes 4 i) sealed, length-to_le_bytes 4 i) in
      land-Grows disk s i (to_le_bytes 4 i ++ sealed) h (has_room s h room) room pos size number
        free

  append_admitted-Grows :
      (disk : Disk) (s : SeekStore) (i : ℕ) (text : Bytes) (r : Result SeekError (Unit {0}))
      → IsSound s
      → i < 2 ^ 32
      → admit s i text ≡ r
      → Free s i
      → Grows s (append_admitted x disk s i text r).1
  unfolding append_admitted
  append_admitted-Grows disk s i text (err e) h small a free = stays s h
  append_admitted-Grows disk s i text (ok u) h small a free =
      let (pos, short, room) = admit_sound s i text a in
      append_sealed-Grows disk s i text (seal_cell x s s.cells i text) h short room small refl free

  -- Every append on a sound store, whatever the disk does, leaves a sound store: it only puts
  -- bytes behind the file, it never gives a number back, it keeps the entries of the table, and
  -- these point only to cells that landed.
  pub append-Grows :
      (disk : Disk) (s : SeekStore) (i : ℕ) (text : Bytes)
      → IsSound s
      → Grows s (append x disk s i text).1
  unfolding append
  append-Grows disk s i text h =
      if-holds {A = Result SeekError (Unit {0}) × SeekStore} (λ r. Grows s r.1)
        (leb (length s.slots) i) _ _ (λ past. stays s h)
        λ inside.
          if-holds {A = Result SeekError (Unit {0}) × SeekStore} (λ r. Grows s r.1) (has s i) _ _
            (λ there. stays s h)
            λ missing.
              append_admitted-Grows disk s i text (admit s i text) h (below_table inside) refl
                (missing-Free s i missing)
    where
      below_table : leb (length s.slots) i ≡ false → i < 2 ^ 32
      below_table e = ground (arith, h.table)
