-- ===== src/Media/FileCipher/Nonces.antt =====
-- No two seals of one file share a nonce (crates/wbf-sdk/src/chunk_crypto.rs, `build_nonce`,
-- `MAX_CHUNK_INDEX` and the reserved indices).
use wbf_matrix_client.Common.{
  ℕ, ◌^◌, ◌≤◌, ◌<◌, ◌≡◌, refl, sym, ap, ◌∙◌, arith, Result, ok, length, drop, drop-append,
}
use wbf_matrix_client.Common.Bytes.{Bytes, to_be_bytes, from_be_bytes, from_be_bytes-to_be_bytes}
use wbf_matrix_client.Media.Geometry.{max_chunk_index}
use wbf_matrix_client.Media.Cipher.{Cipher, Aead, CryptoError, cipher_seal}
use wbf_matrix_client.Media.FileCipher.{
  FileCipher, encrypted, DescriptionSlot, create, seal, nonce_index, build_nonce, seal_chunk,
  seal_description, seal_with_index, chunk_aad, description_aad,
}

pub build_nonce-injective :
    (base : Bytes) (i j : ℕ)
    → i < 2 ^ 32
    → j < 2 ^ 32
    → build_nonce base i ≡ build_nonce base j
    → i ≡ j
unfolding build_nonce
build_nonce-injective base i j hi hj e =
    let tails : to_be_bytes 4 i ≡ to_be_bytes 4 j =
      sym (drop-append base (to_be_bytes 4 i))
      ∙ ap (drop (length base)) e
      ∙ drop-append base (to_be_bytes 4 j) in
    sym (from_be_bytes-to_be_bytes 4 i hi)
    ∙ ap from_be_bytes tails
    ∙ from_be_bytes-to_be_bytes 4 j hj

-- What a file seals: its chunks, by index, and its two descriptions.
pub data Sealed : Type 0 where
  chunk : ℕ → Sealed
  description : DescriptionSlot → Sealed

abbrev pub index_of : Sealed → ℕ
index_of (chunk i) = i
index_of (description slot) = nonce_index slot

abbrev pub aad_of : Sealed → Bytes
aad_of (chunk i) = chunk_aad
aad_of (description slot) = description_aad

unfoldable pub seal_one : Aead → FileCipher → Sealed → Bytes → Result CryptoError Bytes
unfolding seal_chunk seal_description
seal_one a f (chunk i) text = seal_chunk a f i text
seal_one a f (description slot) text = seal_description a f slot text

-- A seal that went through is the AEAD's under the nonce of its index, and no chunk has the index
-- of a description.
seal_one-nonce :
    (a : Aead) (f : FileCipher) (c : Cipher) (k base : Bytes) (x : Sealed) (text sealed : Bytes)
    → f.mode ≡ encrypted c k base
    → seal_one a f x text ≡ ok sealed
    → (cipher_seal a c k (build_nonce base (index_of x)) (aad_of x) text ≡ ok sealed)
      × ((i : ℕ) → x ≡ chunk i → i ≤ max_chunk_index)
      × (index_of x < 2 ^ 32)
unfolding seal_one seal_with_index nonce_index
seal_one-nonce a f c k base (chunk i) text sealed m h =
    (ground arith, λ j e. ground arith, ground arith)
seal_one-nonce a f c k base (description create) text sealed m h =
    (ground arith, λ j e. cc, omega arith)
seal_one-nonce a f c k base (description seal) text sealed m h =
    (ground arith, λ j e. cc, omega arith)

index_of-injective :
    (x y : Sealed)
    → ((i : ℕ) → x ≡ chunk i → i ≤ max_chunk_index)
    → ((i : ℕ) → y ≡ chunk i → i ≤ max_chunk_index)
    → index_of x ≡ index_of y
    → x ≡ y
unfolding nonce_index
index_of-injective (chunk i) (chunk j) hx hy e = ap chunk e
index_of-injective (chunk i) (description slot) hx hy e = absurd (ground (arith, hx i refl))
index_of-injective (description slot) (chunk j) hx hy e = absurd (ground (arith, hy j refl))
index_of-injective (description s) (description t) hx hy e = ground arith

-- Two seals of one encrypted file whose indices give the same nonce sealed the same chunk index or
-- the same description slot, and each of them ran the cipher under the file's key and the nonce of
-- its own index.
pub seal_one-distinct :
    (a : Aead) (f : FileCipher) (c : Cipher) (k base : Bytes) (x y : Sealed)
    (text text' sealed sealed' : Bytes)
    → f.mode ≡ encrypted c k base
    → seal_one a f x text ≡ ok sealed
    → seal_one a f y text' ≡ ok sealed'
    → build_nonce base (index_of x) ≡ build_nonce base (index_of y)
    → (x ≡ y)
      × (cipher_seal a c k (build_nonce base (index_of x)) (aad_of x) text ≡ ok sealed)
      × (cipher_seal a c k (build_nonce base (index_of y)) (aad_of y) text' ≡ ok sealed')
seal_one-distinct a f c k base x y text text' sealed sealed' m h h' same =
    let (run, low, word) = seal_one-nonce a f c k base x text sealed m h in
    let (run', low', word') = seal_one-nonce a f c k base y text' sealed' m h' in
    (
      index_of-injective x y low low'
          (build_nonce-injective base (index_of x) (index_of y) word word' same),
      run,
      run',
    )
