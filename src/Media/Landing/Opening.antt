-- ===== src/Media/Landing/Opening.antt =====
-- A download that is opened again goes on where the one before it stopped
-- (crates/wbf-sdk/src/media.rs).
use wbf_matrix_client.Common.{
  ℕ, ◌≤◌, ◌<◌, ◌≡◌, refl, sym, ap, ◌∙◌, arith, Option, none, some, length, take, length-take, ok,
  true, false, leb, ◌==◌, le→leb,
}
use wbf_matrix_client.Common.Bytes.{Bytes}
use wbf_matrix_client.Media.Block.{ChunkedBlock, Text}
use wbf_matrix_client.Media.Geometry.{chunk_count}
use wbf_matrix_client.Media.Download.{manifest_file_size}
use wbf_matrix_client.Media.Download.Spans.{take-take}
use wbf_matrix_client.Media.SeekStore.{Sealer, Disk}
use wbf_matrix_client.Media.Pool.Format.{owner_of}
use wbf_matrix_client.Media.Pool.Writer.{PoolWriter, sealed_plain_len}
use wbf_matrix_client.Media.Pool.Writing.{IsImage}
use wbf_matrix_client.Media.Pool.Crash.{resume_pending-IsImage}
use wbf_matrix_client.Media.Landing.{
  MediaDownload, open_download, resumed_or_new, positive, from_pool, seek_beside,
}
use wbf_matrix_client.Media.Landing.Prefix.{IsLanding}

module _ (x : Sealer) (text : Bytes) where
  -- The main file that a writer left at any moment, with a front part of the file in it, of the
  -- owner and with the segment size of this build: a download of the file that has a count of chunks
  -- opens on it, holds a front part of the file, and has at least the whole segments of before.
  pub open_download-IsLanding :
      (blake3 : Text → Bytes) (disk : Disk) (draw seek_draw beside : Option Bytes) (mxc : Text)
      (block : ChunkedBlock) (count : ℕ) (w : PoolWriter)
      → IsImage x w
      → w.hashed ≡ take (length w.hashed) text
      → w.header.owner ≡ owner_of blake3 mxc
      → manifest_file_size block ≡ length text
      → chunk_count (manifest_file_size block) block.chunk_size ≡ some count
      → 0 < count
      → (md : MediaDownload) × (open_download x blake3 w.header.segment_size disk draw seek_draw
            (some w.file)
            beside
            mxc
            block
          ≡ ok md)
        × IsLanding x md text
        × (sealed_plain_len w ≤ md.writer.plain_len)
  unfolding open_download positive resumed_or_new from_pool
  open_download-IsLanding blake3 disk draw seek_draw beside mxc block count w image front owned
        sized counted filled =
      let (v, m, resumed, sound, same, kept, short) =
        resume_pending-IsImage x w image blake3 mxc owned in
      let some_chunks : (count == 0) ≡ false = ground arith in
      let all : length w.hashed ≤ length text =
        omega (arith, ap length front, length-take (length w.hashed) text) in
      let plain : v.plain_len ≡ m =
        omega (arith, sound.image.counted, ap length same, length-take m w.hashed, short) in
      let fits : leb v.plain_len (manifest_file_size block) ≡ true =
        le→leb v.plain_len (manifest_file_size block) (omega (arith, plain, short, all, sized)) in
      (
        record {
          block = block;
          mxc = mxc;
          writer = v;
          seek = seek_beside x disk beside seek_draw mxc block.chunk_size count;
          target = none;
          file_size = manifest_file_size block;
          chunk_size = block.chunk_size;
          chunk_count = count;
        },
        rw (counted, some_chunks, resumed, fits) refl,
        record {
          writer_ok = sound;
          sized = sized;
          counted = counted;
          within = omega (arith, plain, short, all);
          front =
              same
              ∙ ap (take m) front
              ∙ take-take m (length w.hashed) text short
              ∙ ap (λ k. take k text) (sym plain);
        },
        omega (arith, plain, kept),
      )
