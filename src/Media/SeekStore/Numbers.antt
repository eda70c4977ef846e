-- ===== src/Media/SeekStore/Numbers.antt =====
-- No two cells are sealed under one nonce (crates/wbf-sdk/src/seek_store.rs).
use wbf_matrix_client.Common.{
  ℕ, suc, ◌^◌, ◌≤◌, ◌<◌, ◌≡◌, ◌≢◌, refl, sym, ap, ◌∙◌, arith, List, [], ◌∷◌, ◌++◌, Option, none,
  some, All, Result, ok, err, leb, length, if◌then◌else◌, ◌⊎◌, inl, inr, subst, Bool-cases, drop,
  drop-append,
}
use wbf_matrix_client.Common.Bytes.{Bytes, to_le_bytes, from_le_bytes, from_le_bytes-to_le_bytes}
use wbf_matrix_client.Media.SeekStore.{
  SeekStore, SeekError, Sealer, Disk, lands, fails_after, admit, append, append_admitted,
  append_sealed, cell_aad, cell_nonce, has, land, pad, seal_cell,
}
use wbf_matrix_client.Media.SeekStore.Soundness.{IsSound, append-Grows}

-- One call of `encrypt`.
pub record Seal : Type 0 where
  pub nonce : Bytes
  pub aad : Bytes
  pub message : Bytes

-- The call that an append makes, where it comes to one.
unfoldable pub seal_of : SeekStore → ℕ → Bytes → Result SeekError (Unit {0}) → Option Seal
seal_of store index text (err e) = none
seal_of store index text (ok u) = some (record {
  nonce = cell_nonce store.nonce_base store.cells;
  aad = cell_aad store store.cells index;
  message = pad store.chunk_size text;
})

unfoldable pub append_seal : SeekStore → ℕ → Bytes → Option Seal
append_seal store index text =
    if leb (length store.slots) index
    then none
    else if has store index
    then none
    else seal_of store index text (admit store index text)

-- The append is what `append_sealed` makes of the answer to the call; without a call it leaves the
-- store as it is.
abbrev pub Makes :
    Sealer → Disk → SeekStore → ℕ → Result SeekError (Unit {0}) × SeekStore → Option Seal → Type 0
Makes x disk store index out none = out.1 ≡ store
Makes x disk store index out (some call) =
    out ≡ append_sealed disk store index (x.encrypt call.nonce call.aad call.message)

unfoldable pub nonce_of : Option Seal → List Bytes
nonce_of none = []
nonce_of (some call) = call.nonce ∷ []

-- The nonces of a run of appends, each with what the disk does to it.
unfoldable pub run_nonces : Sealer → SeekStore → List (Disk × ℕ × Bytes) → List Bytes
run_nonces x store [] = []
run_nonces x store ((disk, index, text) ∷ rest) =
    nonce_of (append_seal store index text) ++ run_nonces x (append x disk store index text).1 rest

-- Every append of the run makes its call and no other.
abbrev pub RunMakes : Sealer → SeekStore → List (Disk × ℕ × Bytes) → Type 0
RunMakes x store [] = Unit
RunMakes x store ((disk, index, text) ∷ rest) =
    Makes x disk store index (append x disk store index text) (append_seal store index text)
    × RunMakes x (append x disk store index text).1 rest

abbrev pub Distinct {ℓ} : {A : Type ℓ} → List A → Type ℓ
Distinct [] = Unit
Distinct (x ∷ xs) = All (λ y. x ≢ y) xs × Distinct xs

cell_nonce-distinct :
    (base : Bytes) (a b : ℕ) → a < 2 ^ 32 → b < a → cell_nonce base b ≢ cell_nonce base a
unfolding cell_nonce
cell_nonce-distinct base a b small lt same =
    let fields : to_le_bytes 8 b ≡ to_le_bytes 8 a =
      sym (drop-append base (to_le_bytes 8 b))
      ∙ ap (drop (length base)) same
      ∙ drop-append base (to_le_bytes 8 a) in
    let numbers : b ≡ a =
      sym (from_le_bytes-to_le_bytes 8 b (omega arith))
      ∙ ap from_le_bytes fields
      ∙ from_le_bytes-to_le_bytes 8 a (omega arith) in
    absurd (omega arith)

-- The nonces from a store on are those of numbers at or above its own.
abbrev Above : Bytes → ℕ → Bytes → Type 0
Above base low nonce = (a : ℕ) × (low ≤ a) × (a < 2 ^ 32) × (nonce ≡ cell_nonce base a)

taken :
    (disk : Disk) (s : SeekStore) (i : ℕ) (o : Option Bytes)
    → (append_sealed disk s i o).1.cells ≡ suc s.cells
unfolding append_sealed land
taken disk s i none = refl
taken lands s i (some sealed) = refl
taken (fails_after k) s i (some sealed) = refl

seal_of-Makes :
    (x : Sealer) (disk : Disk) (s : SeekStore) (i : ℕ) (text : Bytes)
    (r : Result SeekError (Unit {0}))
    → Makes x disk s i (append_admitted x disk s i text r) (seal_of s i text r)
unfolding seal_of append_admitted seal_cell
seal_of-Makes x disk s i text (err e) = refl
seal_of-Makes x disk s i text (ok u) = refl

append_seal-Makes :
    (x : Sealer) (disk : Disk) (s : SeekStore) (i : ℕ) (text : Bytes)
    → Makes x disk s i (append x disk s i text) (append_seal s i text)
unfolding append_seal append
append_seal-Makes x disk s i text = elim (Bool-cases (leb (length s.slots) i)) [
  | inl past ↦ rw past refl
  | inr inside ↦ elim (Bool-cases (has s i)) [
    | inl there ↦ rw (inside, there) refl
    | inr missing ↦ rw (inside, missing) (seal_of-Makes x disk s i text (admit s i text))
  ]
]

run-RunMakes : (x : Sealer) (s : SeekStore) (ops : List (Disk × ℕ × Bytes)) → RunMakes x s ops
run-RunMakes x s [] = tt
run-RunMakes x s ((disk, index, text) ∷ rest) =
    (append_seal-Makes x disk s index text, run-RunMakes x (append x disk s index text).1 rest)

-- An append seals nothing, or under the number it takes.
nonce_of-cases :
    (x : Sealer) (disk : Disk) (s : SeekStore) (i : ℕ) (text : Bytes)
    (r : Result SeekError (Unit {0}))
    → (nonce_of (seal_of s i text r) ≡ [])
      ⊎ ((nonce_of (seal_of s i text r) ≡ cell_nonce s.nonce_base s.cells ∷ [])
          × ((append_admitted x disk s i text r).1.cells ≡ suc s.cells))
unfolding nonce_of seal_of append_admitted
nonce_of-cases x disk s i text (err e) = inl refl
nonce_of-cases x disk s i text (ok u) = inr (refl, taken disk s i (seal_cell x s s.cells i text))

nonces-cases :
    (x : Sealer) (disk : Disk) (s : SeekStore) (i : ℕ) (text : Bytes)
    → (nonce_of (append_seal s i text) ≡ [])
      ⊎ ((nonce_of (append_seal s i text) ≡ cell_nonce s.nonce_base s.cells ∷ [])
          × ((append x disk s i text).1.cells ≡ suc s.cells))
unfolding append_seal append nonce_of
nonces-cases x disk s i text = elim (Bool-cases (leb (length s.slots) i)) [
  | inl past ↦ inl (rw past refl)
  | inr inside ↦ elim (Bool-cases (has s i)) [
    | inl there ↦ inl (rw (inside, there) refl)
    | inr missing ↦ rw (inside, missing) (nonce_of-cases x disk s i text (admit s i text))
  ]
]

Above-All :
    (base : Bytes) (low high : ℕ) (xs : List Bytes)
    → low ≤ high
    → All (Above base high) xs
    → All (Above base low) xs
Above-All base low high [] h all = tt
Above-All base low high (x ∷ xs) h ((a, above, small, e), rest) =
    ((a, omega arith, small, e), Above-All base low high xs h rest)

-- What lies above a number is not the nonce of that number.
apart :
    (base : Bytes) (low : ℕ) (xs : List Bytes)
    → All (Above base (suc low)) xs
    → All (λ y. cell_nonce base low ≢ y) xs
apart base low [] all = tt
apart base low (x ∷ xs) ((a, above, small, e), rest) =
    (λ same. cell_nonce-distinct base a low small (omega arith) (same ∙ e), apart base low xs rest)

-- The nonces of a run, and of the rest of it behind its first append.
run_nonces-Above :
    (x : Sealer) (s : SeekStore) (ops : List (Disk × ℕ × Bytes))
    → IsSound s
    → All (Above s.nonce_base s.cells) (run_nonces x s ops) × Distinct (run_nonces x s ops)
unfolding run_nonces
run_nonces-Above x s [] h = (tt, tt)
run_nonces-Above x s ((disk, index, text) ∷ rest) h =
    let s' = (append x disk s index text).1 in
    let g = append-Grows x disk s index text h in
    let (all, apart') = run_nonces-Above x s' rest g.sound in
    let all' : All (Above s.nonce_base s'.cells) (run_nonces x s' rest) =
      subst (λ base. All (Above base s'.cells) (run_nonces x s' rest)) g.same_base all in
    elim (nonces-cases x disk s index text) [
      | inl quiet ↦ rw quiet (Above-All s.nonce_base s.cells s'.cells _ g.upward all', apart')
      | inr (sealed, next) ↦
          let above : All (Above s.nonce_base (suc s.cells)) (run_nonces x s' rest) =
            subst (λ k. All (Above s.nonce_base k) (run_nonces x s' rest)) next all' in
          rw sealed (
            (
              (s.cells, omega arith, h.numbered, refl),
              Above-All s.nonce_base s.cells (suc s.cells) _ (omega arith) above,
            ),
            (apart s.nonce_base s.cells _ above, apart'),
          )
    ]

-- In a run of appends on a sound store, whatever the disk does to each of them, every append leaves
-- the store as it is or is what comes of one call of `encrypt`, and no two of these calls have the
-- same nonce: not for another chunk, and not for the same one after a write that failed.
pub run_nonces-Distinct :
    (x : Sealer) (s : SeekStore) (ops : List (Disk × ℕ × Bytes))
    → IsSound s
    → RunMakes x s ops × Distinct (run_nonces x s ops)
run_nonces-Distinct x s ops h = (run-RunMakes x s ops, (run_nonces-Above x s ops h).1)
