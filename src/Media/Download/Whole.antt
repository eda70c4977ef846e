-- ===== src/Media/Download/Whole.antt =====
-- `download` writes the file, and reports no other (crates/wbf-sdk/src/download.rs).
use wbf_matrix_client.Common.{
  ℕ, zero, suc, ◌+◌, ◌*◌, ◌≤◌, ◌<◌, ◌≡◌, ◌⊎◌, inl, inr, min, refl, sym, ap, ap₂, ◌∙◌, arith, List,
  [], ◌∷◌, refuse, ◌++◌, append-nil, append_assoc, length, Result, ok, >>=-eq-ok, ok_injective,
  Option, none, some, is_some, Bool, true, ◌==◌, ==_self, not,
}
use wbf_matrix_client.Common.Bytes.{Bytes}
use native.Mathlib.Decide.{dec_le}
use wbf_matrix_client.Media.Geometry.{chunk_count}
use wbf_matrix_client.Media.Geometry.Partition.{chunk_count-starts}
use wbf_matrix_client.Media.Block.{ChunkedBlock, Text}
use wbf_matrix_client.Media.Block.Checks.{text_eq_self, text_eq→eq}
use wbf_matrix_client.Media.Download.{
  SdkError, DownloadReport, VerifiedTarget, all_lower_hex, check_hash, integrity, download,
  download_loop, parse_sha256_field,
}
use wbf_matrix_client.Media.Download.Spans.{between, between-append, between_empty, between_whole}
use wbf_matrix_client.Media.Download.Chunks.{chunk_of, Serves}

-- The sink takes every write and appends it.
abbrev pub Appends : (Bytes → Bytes → Result SdkError Bytes) → Type 0
Appends write = (out text : Bytes) → write out text ≡ ok (out ++ text)

-- The texts that `next` gives from an index on.
abbrev pub Given : (ℕ → Result SdkError Bytes) → ℕ → List Bytes → Type 0
Given next i [] = Unit
Given next i (t ∷ ts) = (next i ≡ ok t) × Given next (suc i) ts

abbrev pub flatten : List Bytes → Bytes
flatten [] = []
flatten (t ∷ ts) = t ++ flatten ts

-- A chunk and the rest of the file behind it.
served_join :
    (xs : Bytes) (size k : ℕ)
    → k * size < length xs
    → chunk_of xs size k ++ between xs (suc k * size) (length xs)
      ≡ between xs (k * size) (length xs)
served_join xs size k lt = elim (dec_le (suc k * size) (length xs)) [
  | yes more ↦
      let m : min (suc k * size) (length xs) ≡ suc k * size = omega arith in
      ap (λ x. between xs (k * size) x ++ between xs (suc k * size) (length xs)) m
      ∙ between-append xs (k * size) (suc k * size) (length xs) (omega arith) more
  | no last ↦
      let m : min (suc k * size) (length xs) ≡ length xs = omega arith in
      ap (λ x. between xs (k * size) x ++ between xs (suc k * size) (length xs)) m
      ∙ ap (λ t. between xs (k * size) (length xs) ++ t)
          (between_empty xs (suc k * size) (length xs) (omega arith))
      ∙ append-nil (between xs (k * size) (length xs))
]

module _ (next : ℕ → Result SdkError Bytes) (write : Bytes → Bytes → Result SdkError Bytes)
    (appends : Appends write) where
  -- The loop over the chunks from `i` on, of a served file.
  served_loop :
      (file : Bytes) (cs n left i : ℕ) (hashed out : Bytes)
      → Serves next file cs n
      → chunk_count (length file) cs ≡ some n
      → i + left ≡ n
      → download_loop next write left i hashed out
        ≡ ok (
          hashed ++ between file (i * cs) (length file),
          out ++ between file (i * cs) (length file),
        )
  unfolding download_loop
  served_loop file cs n zero i hashed out serves counted e =
      let past : length file ≤ i * cs =
        grind (arith, chunk_count-starts (length file) cs n i counted) in
      rw (between_empty file (i * cs) (length file) past, append-nil hashed, append-nil out)
  served_loop file cs n (suc left) i hashed out serves counted e =
      let begins : i * cs < length file =
        (chunk_count-starts (length file) cs n i counted).0 (omega arith) in
      let rest = between file (suc i * cs) (length file) in
      let join : chunk_of file cs i ++ rest ≡ between file (i * cs) (length file) =
        served_join file cs i begins in
      rw (serves i (omega arith), appends out (chunk_of file cs i))
        (served_loop file cs n left (suc i) (hashed ++ chunk_of file cs i)
            (out ++ chunk_of file cs i) serves counted (omega arith)
          ∙ ap₂ (λ x y. ok (x, y))
              (append_assoc hashed (chunk_of file cs i) rest ∙ ap (λ t. hashed ++ t) join)
              (append_assoc out (chunk_of file cs i) rest ∙ ap (λ t. out ++ t) join))

  -- What the loop hashes it also writes, and it is what `next` gave, in order.
  loop_sound :
      (left i : ℕ) (hashed out hashed' out' : Bytes)
      → download_loop next write left i hashed out ≡ ok (hashed', out')
      → (texts : List Bytes) × Given next i texts
        × (length texts ≡ left)
        × (hashed' ≡ hashed ++ flatten texts)
        × (out' ≡ out ++ flatten texts)
  unfolding download_loop
  loop_sound zero i hashed out hashed' out' h =
      let e = ok_injective h in
      (
        [],
        tt,
        refl,
        sym (ap (λ p. p.0) e) ∙ sym (append-nil hashed),
        sym (ap (λ p. p.1) e) ∙ sym (append-nil out),
      )
  loop_sound (suc left) i hashed out hashed' out' h =
      let (text, given, h1) = >>=-eq-ok (next i) _ h in
      let (out1, wrote, h2) = >>=-eq-ok (write out text) _ h1 in
      let e : out ++ text ≡ out1 = ok_injective (sym (appends out text) ∙ wrote) in
      let (texts, all, count, hs, os) =
        loop_sound left (suc i) (hashed ++ text) out1 hashed' out' h2 in
      (
        text ∷ texts,
        (given, all),
        ap suc count,
        hs ∙ append_assoc hashed text (flatten texts),
        os ∙ ap (λ t. t ++ flatten texts) (sym e) ∙ append_assoc out text (flatten texts),
      )

served_hash :
    (sha256 : Bytes → Text) (block : ChunkedBlock) (file : Bytes)
    → ((bytes : Bytes) → (length (sha256 bytes) ≡ 64) × (all_lower_hex (sha256 bytes) ≡ true))
    → (block.sha256 ≡ none) ⊎ (block.sha256 ≡ some (sha256 file))
    → parse_sha256_field block ≡ ok block.sha256
unfolding parse_sha256_field
served_hash sha256 block file hex (inl absent) = rw (absent) refl
served_hash sha256 block file hex (inr named) = rw (named, (hex file).0, (hex file).1) refl

served_check :
    (sha256 : Bytes → Text) (block : ChunkedBlock) (file : Bytes)
    → (block.sha256 ≡ none) ⊎ (block.sha256 ≡ some (sha256 file))
    → check_hash sha256 block.sha256 file ≡ ok (is_some block.sha256)
unfolding check_hash
served_check sha256 block file (inl absent) = rw (absent) refl
served_check sha256 block file (inr named) = rw (named, text_eq_self (sha256 file)) refl

parse_sha256_field_sound :
    (block : ChunkedBlock) (e : Option Text) → parse_sha256_field block ≡ ok e → block.sha256 ≡ e
unfolding parse_sha256_field
parse_sha256_field_sound block e h = ground arith

check_hash_sound :
    (sha256 : Bytes → Text) (e : Option Text) (bytes : Bytes) (v : Bool)
    → check_hash sha256 e bytes ≡ ok v
    → (v ≡ is_some e) × ((named : Text) → e ≡ some named → sha256 bytes ≡ named)
unfolding check_hash
check_hash_sound sha256 none bytes v h = (cc, λ named e. cc)
check_hash_sound sha256 (some expected) bytes v h =
    (ground arith, λ named e. ground (arith, text_eq→eq (sha256 bytes) expected))

-- From a server of a file of the target's size and count, into a sink that takes every write,
-- `download` writes exactly the bytes of the file and reports their number, the number of chunks,
-- and whether the block names a hash. The hash that the block names is absent or that of the file,
-- and SHA-256 is given as 64 lower-case hexadecimal digits.
pub download-Serves :
    (sha256 : Bytes → Text) (next : ℕ → Result SdkError Bytes)
    (write : Bytes → Bytes → Result SdkError Bytes) (block : ChunkedBlock) (target : VerifiedTarget)
    (file out : Bytes)
    → Appends write
    → Serves next file block.chunk_size target.chunk_count
    → chunk_count (length file) block.chunk_size ≡ some target.chunk_count
    → target.file_size ≡ length file
    → ((bytes : Bytes) → (length (sha256 bytes) ≡ 64) × (all_lower_hex (sha256 bytes) ≡ true))
    → (block.sha256 ≡ none) ⊎ (block.sha256 ≡ some (sha256 file))
    → download sha256 next write block target out
      ≡ ok (
        record {
          chunks = target.chunk_count;
          bytes = length file;
          sha256_verified = is_some block.sha256;
        },
        out ++ file,
      )
unfolding download
download-Serves sha256 next write block target file out appends serves counted size hex named =
    let run : download_loop next write target.chunk_count 0 [] out ≡ ok (file, out ++ file) =
      served_loop next write appends file block.chunk_size target.chunk_count target.chunk_count 0
        [] out serves counted (omega arith)
      ∙ (let start : 0 * block.chunk_size ≡ 0 = omega arith in
          ap (λ (k : ℕ). ok (between file k (length file), out ++ between file k (length file)))
            start)
      ∙ ap (λ (t : Bytes). ok (t, out ++ t)) (between_whole file) in
    let same : (length file == target.file_size) ≡ true =
      ap (λ fs. length file == fs) size ∙ ==_self (length file) in
    rw (served_hash sha256 block file hex named, run, same, served_check sha256 block file named)
      refl

-- When `download` succeeds, into a sink that appends what it takes, what it wrote is what the
-- chunks gave, from the first to the last and in order; it has the length of the file that was
-- verified, which the report tells; and a hash that the block names is the hash of it, which the
-- report tells too.
pub download_sound :
    (sha256 : Bytes → Text) (next : ℕ → Result SdkError Bytes)
    (write : Bytes → Bytes → Result SdkError Bytes) (block : ChunkedBlock) (target : VerifiedTarget)
    (out out' : Bytes) (report : DownloadReport)
    → Appends write
    → download sha256 next write block target out ≡ ok (report, out')
    → (texts : List Bytes) × Given next 0 texts
      × (length texts ≡ target.chunk_count)
      × (out' ≡ out ++ flatten texts)
      × (length (flatten texts) ≡ target.file_size)
      × (report ≡ record {
        chunks = target.chunk_count;
        bytes = target.file_size;
        sha256_verified = is_some block.sha256;
      })
      × ((named : Text) → block.sha256 ≡ some named → sha256 (flatten texts) ≡ named)
unfolding download
download_sound sha256 next write block target out out' report appends h =
    let (expected, parsed, h1) = >>=-eq-ok (parse_sha256_field block) _ h in
    let ((hashed, wrote), ran, h2) =
      >>=-eq-ok (download_loop next write target.chunk_count 0 [] out) _ h1 in
    let (texts, given, count, hs, os) =
      loop_sound next write appends target.chunk_count 0 [] out hashed wrote ran in
    let (u, sized, h3) =
      >>=-eq-ok (refuse (not (length hashed == target.file_size)) integrity) _ h2 in
    let (verified, checked, h4) = >>=-eq-ok (check_hash sha256 expected hashed) _ h3 in
    let (told, matches) = check_hash_sound sha256 expected hashed verified checked in
    let field = parse_sha256_field_sound block expected parsed in
    let len : length hashed ≡ target.file_size = ground arith in
    let e = ok_injective h4 in
    let written : out' ≡ out ++ flatten texts = sym (ap (λ p. p.1) e) ∙ os in
    let size : length (flatten texts) ≡ target.file_size = ap length (sym hs) ∙ len in
    let reported : report ≡ record {
      chunks = target.chunk_count;
      bytes = target.file_size;
      sha256_verified = is_some block.sha256;
    } =
      sym (ap (λ p. p.0) e)
      ∙ ap₂ (λ x y. record { chunks = target.chunk_count; bytes = x; sha256_verified = y }) len
          (told ∙ ap is_some (sym field)) in
    let hash : (named : Text) → block.sha256 ≡ some named → sha256 (flatten texts) ≡ named =
      λ named e'. ap sha256 (sym hs) ∙ matches named (sym field ∙ e') in
    (texts, given, count, written, size, reported, hash)
