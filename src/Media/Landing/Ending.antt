-- ===== src/Media/Landing/Ending.antt =====
-- A download that finishes is the file, and a reader reads it (crates/wbf-sdk/src/media.rs and
-- media_pool.rs).
use wbf_matrix_client.Common.{
  ◌≡◌, ◌⊎◌, inl, inr, sym, ap, ◌∙◌, subst, arith, Option, length, take, take-length, Result, ok,
  err, Bool, true, false, not, ◌==◌, Bool-cases, if_true, if_false, ok_injective,
}
use wbf_matrix_client.Common.Bytes.{Bytes}
use wbf_matrix_client.Media.Block.{Text}
use wbf_matrix_client.Media.SeekStore.{Sealer, Disk}
use wbf_matrix_client.Media.Pool.Format.{PoolError}
use wbf_matrix_client.Media.Pool.Writer.{PoolWriter, Finished, finish}
use wbf_matrix_client.Media.Pool.Reader.{path_of}
use wbf_matrix_client.Media.Pool.Finishing.{Reads, finish-Reads}
use wbf_matrix_client.Media.Landing.{
  MediaDownload, from_pool, Verification, of_hex, finish_landed, finish_download,
}
use wbf_matrix_client.Media.Landing.Prefix.{IsLanding}

module _ (x : Sealer) (text : Bytes) where
  -- What is known behind a `finish` of a download that succeeds.
  abbrev pub Finishes :
      (Bytes → Text)
      → (Bytes → Text)
      → Bool
      → Disk
      → Text
      → MediaDownload
      → Finished
      → Verification
      → Type 0
  Finishes blake3 sha256 synced disk name md f v =
      (w : PoolWriter) × (finish x blake3 sha256 synced disk md.writer ≡ (ok f, w))
      × Reads x blake3 sha256 name text f w
      × (v ≡ of_hex md.block.sha256 (sha256 text))

  finish_landed-ok :
      (moved : Bool) (expected : Option Text) (out : Result PoolError Finished × PoolWriter)
      (f : Finished) (v : Verification)
      → finish_landed x moved expected out ≡ ok (f, v)
      → (w : PoolWriter) × (out ≡ (ok f, w)) × (v ≡ of_hex expected f.sha256_hex)
  unfolding finish_landed from_pool
  finish_landed-ok moved expected (err PoolError.usage, w) f v e = absurd cc
  finish_landed-ok moved expected (err PoolError.io, w) f v e = absurd cc
  finish_landed-ok moved expected (err PoolError.endless, w) f v e = absurd cc
  finish_landed-ok false expected (ok g, w) f v e = absurd cc
  finish_landed-ok true expected (ok g, w) f v e =
      let same : g ≡ f = ap (λ p. p.0) (ok_injective e) in
      (
        w,
        ap (λ k. (ok k, w)) same,
        sym (ap (λ p. p.1) (ok_injective e)) ∙ ap (λ k. of_hex expected k.sha256_hex) same,
      )

  -- A `finish` of a download of a file succeeds only when the whole file has landed: the main file
  -- then opens under every name that `path_of` takes, as a reader at its start that stands for the
  -- file, the hashes and the length are its own, and the verdict compares the block's SHA-256 with
  -- that of the file.
  pub finish_download-Finishes :
      (blake3 sha256 : Bytes → Text) (synced moved : Bool) (disk : Disk) (name : Text)
      (path : Text × Text) (md : MediaDownload) (f : Finished) (v : Verification)
      → IsLanding x md text
      → path_of name ≡ ok path
      → finish_download x blake3 sha256 synced moved disk md ≡ ok (f, v)
      → Finishes blake3 sha256 synced disk name md f v
  unfolding finish_download
  finish_download-Finishes blake3 sha256 synced moved disk name path md f v h named e =
      split (Bool-cases (not (md.writer.plain_len == md.file_size)))
    where
      finished :
          md.writer.hashed ≡ text
          → finish_landed x moved md.block.sha256 (finish x blake3 sha256 synced disk md.writer)
            ≡ ok (f, v)
          → Finishes blake3 sha256 synced disk name md f v
      finished whole e' =
          let (w, out, verdict) = finish_landed-ok moved md.block.sha256 _ f v e' in
          let reads =
            subst (λ t. Reads x blake3 sha256 name t f w) whole
              (finish-Reads x blake3 sha256 synced disk name path md.writer f w h.writer_ok named
                out) in
          let (r, opened, stands, start, blake, sha, size, disk_size) = reads in
          (w, out, reads, verdict ∙ ap (of_hex md.block.sha256) sha)

      split :
          (not (md.writer.plain_len == md.file_size) ≡ true)
            ⊎ (not (md.writer.plain_len == md.file_size) ≡ false)
          → Finishes blake3 sha256 synced disk name md f v
      split (inl part) = absurd (cc (if_true _ _ part e))
      split (inr all) =
          let size : md.writer.plain_len ≡ length text = ground (arith, h.sized) in
          finished (h.front ∙ ap (λ k. take k text) size ∙ take-length text) (if_false _ _ all e)
