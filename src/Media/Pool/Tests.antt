-- ===== src/Media/Pool/Tests.antt =====
-- A pool file of segments of four bytes, and the theorems of these modules at it.
use wbf_matrix_client.Common.{
  ℕ, ◌-◌, ◌^◌, ◌≤◌, ◌<◌, ◌≡◌, refl, ap, arith, List, [], ◌∷◌, ◌++◌, some, Result, ok, err, true,
  length, take, drop, replicate, slice, ltb, ◌||◌, if◌then◌else◌,
}
use wbf_matrix_client.Common.Bytes.{Bytes, to_le_bytes, from_le_bytes}
use wbf_matrix_client.Media.Block.{Text, text_eq}
use wbf_matrix_client.Media.Tests.{tag, tagged-length, untagged}
use wbf_matrix_client.Media.SeekStore.{Sealer, lands, fails_after, write_at, entry_of}
use wbf_matrix_client.Media.Pool.Format.{
  PoolError, usage, Header, owner_of, encode_pool_header, read_header, record_len, segment_offset,
  seal_segment, pad_segment,
}
use wbf_matrix_client.Media.Pool.Writer.{
  PoolWriter, Finished, new_writer, create_pending, write, write_loop, fitting, take_in, hash,
  seal_full, seal_buffer, land_segment, after, finish, finish_with, resume_pending, resume_scan,
  truncate_to_written, set_len, sealed_plain_len, read_sealed,
}
use wbf_matrix_client.Media.Pool.Reader.{
  PoolReader, path_of, from_end, back, all_hexdigits, is_hexdigit,
}
use wbf_matrix_client.Media.Pool.Writing.{IsSound}
use wbf_matrix_client.Media.Pool.Sealing.{Takes, write-Takes, create_pending-IsSound}
use wbf_matrix_client.Media.Pool.Outcomes.{Outcome, write-Outcome}
use wbf_matrix_client.Media.Pool.Resumed.{resume_pending-IsSound}
use wbf_matrix_client.Media.Pool.Crash.{resume_pending-IsImage}
use wbf_matrix_client.Media.Pool.Finishing.{Reads, finish-Reads}
use wbf_matrix_client.Media.Pool.Cursor.{
  Op, read_op, seek_op, CursorRun, perform_all, perform_all-CursorRun,
}
use wbf_matrix_client.Media.Pool.Sealed.{read_sealed-lem}

abbrev pub tagged : Sealer
tagged = record {
  encrypt = λ nonce aad msg. some (msg ++ tag);
  decrypt = λ nonce aad sealed. some (take (length sealed - 16) sealed);
  decrypt-encrypt = λ nonce aad msg sealed e. untagged msg sealed e;
  length-encrypt = λ nonce aad msg sealed e. tagged-length msg sealed e;
}

abbrev pub no_hash : Text → Bytes
no_hash text = 1 ∷ 2 ∷ 3 ∷ 4 ∷ []

abbrev pub owner : Text
owner = b'm' ∷ []

abbrev header : Header
header = record { segment_size = 4; nonce_base = replicate 16 7; owner = owner_of no_hash owner }

abbrev pub fresh : PoolWriter
fresh = new_writer header (encode_pool_header header)

created_run : create_pending no_hash 4 lands (some (replicate 16 7)) owner ≡ ok fresh
unfolding create_pending
created_run = refl

owner_run : owner_of no_hash owner < 2 ^ 32
unfolding owner_of from_le_bytes
owner_run = omega arith

pub fresh-IsSound : IsSound tagged fresh
fresh-IsSound =
    create_pending-IsSound tagged no_hash 4 (replicate 16 7) owner fresh (omega arith) (omega arith)
      refl owner_run created_run

abbrev pub six : Bytes
six = 1 ∷ 2 ∷ 3 ∷ 4 ∷ 5 ∷ 6 ∷ []

write-Takes_example : Takes tagged fresh six (write tagged (λ n. fails_after 7) fresh six)
write-Takes_example = write-Takes tagged (λ n. fails_after 7) fresh six fresh-IsSound

write-Outcome_example : Outcome tagged (λ n. lands) (write tagged (λ n. lands) fresh six)
unfolding new_writer
write-Outcome_example = write-Outcome tagged (λ n. lands) fresh six fresh-IsSound refl

abbrev pub written : PoolWriter
written = (write tagged (λ n. lands) fresh six).1

pub written-IsSound : IsSound tagged written
written-IsSound = (write-Takes tagged (λ n. lands) fresh six fresh-IsSound).sound

abbrev interrupted : PoolWriter
interrupted = (write tagged (λ n. fails_after 7) fresh six).1

interrupted-Takes : Takes tagged fresh six (write tagged (λ n. fails_after 7) fresh six)
interrupted-Takes = write-Takes tagged (λ n. fails_after 7) fresh six fresh-IsSound

interrupted_owner : interrupted.header.owner ≡ owner_of no_hash owner
unfolding new_writer
interrupted_owner = ap (λ h. h.owner) interrupted-Takes.same_header

resume_pending-IsImage_example :
    (v : PoolWriter) × (m : ℕ) × (resume_pending tagged no_hash interrupted.header.segment_size
        owner interrupted.file
      ≡ ok v)
    × IsSound tagged v
    × (v.hashed ≡ take m interrupted.hashed)
    × (sealed_plain_len interrupted ≤ m)
    × (m ≤ length interrupted.hashed)
resume_pending-IsImage_example =
    resume_pending-IsImage tagged interrupted interrupted-Takes.sound.image no_hash owner
      interrupted_owner

read_sealed-lem_example : read_sealed tagged written 1 3 ≡ (
    if ltb 3 1 || ltb (sealed_plain_len written) 3
    then err usage
    else ok (take (3 - 1) (drop 1 written.hashed)))
read_sealed-lem_example = read_sealed-lem tagged written written-IsSound.image 1 3

resumed_run : resume_pending tagged no_hash 4 owner fresh.file ≡ ok fresh
unfolding new_writer resume_pending resume_scan truncate_to_written set_len read_header
    encode_pool_header text_eq entry_of from_le_bytes to_le_bytes owner_of segment_offset record_len
    slice
resumed_run = refl

resume_pending-IsSound_example :
    IsSound tagged fresh
    × (fresh.header.segment_size ≡ 4)
    × (fresh.header.owner ≡ owner_of no_hash owner)
    × (length fresh.file ≡ segment_offset fresh.header fresh.segments_written)
resume_pending-IsSound_example =
    resume_pending-IsSound tagged no_hash 4 owner fresh.file fresh (omega arith) (omega arith)
      resumed_run

abbrev done : Result PoolError Finished × PoolWriter
done = finish tagged no_hash no_hash true lands written

finished_run : done ≡ (
  ok (record {
    hash_hex = 1 ∷ 2 ∷ 3 ∷ 4 ∷ [];
    sha256_hex = 1 ∷ 2 ∷ 3 ∷ 4 ∷ [];
    plain_len = 6;
    segments = 2;
    bytes_on_disk = 80;
  }),
  done.1,
)
unfolding new_writer encode_pool_header write write_loop fitting take_in hash seal_full seal_buffer
    land_segment after finish finish_with seal_segment pad_segment write_at to_le_bytes
    segment_offset record_len owner_of from_le_bytes
finished_run = refl

abbrev pub named : Text
named = b'a' ∷ b'b' ∷ b'0' ∷ b'9' ∷ []

pub named_run : path_of named ≡ ok (b'a' ∷ b'b' ∷ [], named)
unfolding path_of all_hexdigits is_hexdigit
named_run = refl

abbrev pub result : Finished
result = record {
  hash_hex = 1 ∷ 2 ∷ 3 ∷ 4 ∷ [];
  sha256_hex = 1 ∷ 2 ∷ 3 ∷ 4 ∷ [];
  plain_len = 6;
  segments = 2;
  bytes_on_disk = 80;
}

finish-Reads_example : Reads tagged no_hash no_hash named written.hashed result done.1
finish-Reads_example =
    finish-Reads tagged no_hash no_hash true lands named (b'a' ∷ b'b' ∷ [], named) written result
      done.1 written-IsSound named_run finished_run

opened_run : Reads tagged no_hash no_hash named written.hashed result done.1
opened_run =
    finish-Reads tagged no_hash no_hash true lands named (b'a' ∷ b'b' ∷ [], named) written result
      done.1 written-IsSound named_run finished_run

abbrev reader : PoolReader
reader = opened_run.0

abbrev calls : List Op
calls = read_op 3 ∷ seek_op (from_end (back 1)) ∷ read_op 9 ∷ []

perform_all-CursorRun_example :
    CursorRun written.hashed reader.position calls
      (perform_all tagged calls reader).0
      (perform_all tagged calls reader).1.position
perform_all-CursorRun_example =
    perform_all-CursorRun tagged written.hashed calls reader opened_run.2
