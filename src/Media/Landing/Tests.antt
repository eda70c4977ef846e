-- ===== src/Media/Landing/Tests.antt =====
-- A file of six bytes in chunks of three that lands in segments of four, and the theorems of these
-- modules at it.
use wbf_matrix_client.Common.{
  ◌+◌, ◌*◌, ◌≤◌, ◌≡◌, inl, inr, refl, arith, [], ◌∷◌, none, some, ok, true, false, length, take,
}
use wbf_matrix_client.Common.Bytes.{to_le_bytes, from_le_bytes}
use wbf_matrix_client.Media.Block.{ChunkedBlock}
use wbf_matrix_client.Media.Tests.{sample_block}
use wbf_matrix_client.Media.Geometry.{chunk_count, div_ceil}
use wbf_matrix_client.Media.Download.{manifest_file_size}
use wbf_matrix_client.Media.SeekStore.{lands, fails_after, write_at}
use wbf_matrix_client.Media.Pool.Format.{
  owner_of, encode_pool_header, seal_segment, pad_segment, segment_offset, record_len,
}
use wbf_matrix_client.Media.Pool.Writer.{
  new_writer, write, write_loop, fitting, take_in, hash, seal_full, seal_buffer, land_segment,
  after, finish, finish_with, sealed_plain_len,
}
use wbf_matrix_client.Media.Pool.Pieces.{piece}
use wbf_matrix_client.Media.Pool.Outcomes.{IsBlocked}
use wbf_matrix_client.Media.Pool.Tests.{
  tagged, no_hash, owner, fresh, six, written, result, written-IsSound, named, fresh-IsSound,
  named_run,
}
use wbf_matrix_client.Media.Landing.{
  MediaDownload, unknown, of_hex, finish_landed, open_download, land_chunk, finish_download,
  is_written,
}
use wbf_matrix_client.Media.Landing.Prefix.{IsLanding, Lands, land_chunk-Lands}
use wbf_matrix_client.Media.Landing.Whole.{land_all, land_all-hashed}
use wbf_matrix_client.Media.Landing.Ending.{Finishes, finish_download-Finishes}
use wbf_matrix_client.Media.Landing.Opening.{open_download-IsLanding}

abbrev block : ChunkedBlock
block = record sample_block { chunk_size = 3; file_size = some 6 }

count_run : chunk_count (manifest_file_size block) block.chunk_size ≡ some 2
unfolding chunk_count div_ceil manifest_file_size
count_run = refl

size_run : manifest_file_size block ≡ length six
unfolding manifest_file_size
size_run = refl

front_run : fresh.hashed ≡ take (length fresh.hashed) six
unfolding new_writer
front_run = refl

owner_run : fresh.header.owner ≡ owner_of no_hash owner
unfolding new_writer
owner_run = refl

open_download-IsLanding_example :
    (md : MediaDownload) × (open_download tagged no_hash fresh.header.segment_size lands none none
        (some fresh.file)
        none
        owner
        block
      ≡ ok md)
    × IsLanding tagged md six
    × (sealed_plain_len fresh ≤ md.writer.plain_len)
open_download-IsLanding_example =
    open_download-IsLanding tagged six no_hash lands none none none owner block 2 fresh
      fresh-IsSound.image front_run owner_run size_run count_run (omega arith)

abbrev started : MediaDownload
started = record {
  block = block;
  mxc = owner;
  writer = fresh;
  seek = none;
  target = none;
  file_size = 6;
  chunk_size = 3;
  chunk_count = 2;
}

started-IsLanding : IsLanding tagged started six
unfolding new_writer chunk_count div_ceil
started-IsLanding = record {
  writer_ok = fresh-IsSound;
  sized = refl;
  counted = refl;
  within = omega arith;
  front = refl;
}

land_chunk-Lands_example :
    Lands tagged started six
      (0 * 3 + length (piece 3 six 0))
      (land_chunk tagged (λ n. fails_after 5) started 0 (piece 3 six 0))
land_chunk-Lands_example =
    land_chunk-Lands tagged six (λ n. fails_after 5) started 0 started-IsLanding

clear_run : IsBlocked tagged (λ n. lands) → ⊥
clear_run (inl (n, k, e)) = absurd cc
clear_run (inr (nonce, aad, msg, e)) = absurd cc

live_run : started.writer.holds_final_segment ≡ false
unfolding new_writer
live_run = refl

land_all-hashed_example :
    ((land_all tagged (λ n. lands) six 2 started).0 ≡ ok tt)
    × ((land_all tagged (λ n. lands) six 2 started).1.writer.hashed ≡ six)
    × (is_written (land_all tagged (λ n. lands) six 2 started).1 ≡ true)
land_all-hashed_example =
    land_all-hashed tagged (λ n. lands) six started started-IsLanding clear_run live_run

abbrev landed : MediaDownload
landed = record started { writer = written }

landed-IsLanding : IsLanding tagged landed six
unfolding new_writer encode_pool_header write write_loop fitting take_in hash seal_full seal_buffer
    land_segment after seal_segment pad_segment write_at to_le_bytes segment_offset record_len
    owner_of from_le_bytes chunk_count div_ceil
landed-IsLanding = record {
  writer_ok = written-IsSound;
  sized = refl;
  counted = refl;
  within = omega arith;
  front = refl;
}

finish_run : finish_download tagged no_hash no_hash true true lands landed ≡ ok (result, unknown)
unfolding finish_download finish_landed of_hex new_writer encode_pool_header write write_loop
    fitting take_in hash seal_full seal_buffer land_segment after finish finish_with seal_segment
    pad_segment write_at to_le_bytes segment_offset record_len owner_of from_le_bytes
finish_run = refl

finish_download-Finishes_example :
    Finishes tagged six no_hash no_hash true lands named landed result unknown
finish_download-Finishes_example =
    finish_download-Finishes tagged six no_hash no_hash true true lands named
      (b'a' ∷ b'b' ∷ [], named) landed result unknown landed-IsLanding named_run finish_run
