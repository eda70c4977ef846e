-- ===== src/Daemon/Tests.antt =====
-- Frames and ranges of the daemon, and its theorems at them.
use wbf_matrix_client.Common.{
  ◌≤◌, ◌≡◌, ◌↔◌, refl, arith, [], ◌∷◌, ◌++◌, some, ok, length, take, ◌-◌, replicate, ◌≢◌, sym, ap,
  true, false, none,
}
use wbf_matrix_client.Common.Bytes.{Bytes}
use wbf_matrix_client.Media.Tests.{tag, tagged-length, untagged}
use wbf_matrix_client.Daemon.RpcPack.{
  FrameCipher, RpcKeys, plain, cipher, client, daemon, max_frame_bytes, open_frame, pack_version,
  receiving_key, seal_data, seal_frame, type_byte,
}
use wbf_matrix_client.Media.Block.{Text, text_eq}
use wbf_matrix_client.Core.Claims.{Key, key_eq}
use wbf_matrix_client.Daemon.Uploads.{begin, begins, ends, run_ops, begin_exclusive}
use wbf_matrix_client.Daemon.Ranges.{
  Fits, part, parse_range, parse_range-Fits, range_of_spec, range_of_split, range_of, range_from,
  bounded_range, range_end, trim, trim_start, is_space, strip_prefix, contains, split_once,
  parse_u64, parse_digits,
}
use wbf_matrix_client.Daemon.RpcPack.Frames.{Carries, open_frame-seal_frame, open_frame_iff}

abbrev tagged : FrameCipher
tagged = record {
  encrypt = λ key nonce aad msg. some (msg ++ tag);
  decrypt = λ key nonce aad sealed. some (take (length sealed - 16) sealed);
  decrypt-encrypt = λ key nonce aad msg sealed e. untagged msg sealed e;
  length-encrypt = λ key nonce aad msg sealed e. tagged-length msg sealed e;
}

abbrev keys : RpcKeys
keys = record { client_to_daemon = replicate 32 1; daemon_to_client = replicate 32 2 }

abbrev drawn_nonce : Bytes
drawn_nonce = replicate 24 5

drawn_size : (nonce : Bytes) → some drawn_nonce ≡ some nonce → length nonce ≡ 24
drawn_size nonce e = ground arith

seal_run :
    seal_frame tagged keys client (some drawn_nonce) cipher (123 ∷ 125 ∷ [])
    ≡ ok (1 ∷ 2 ∷ (drawn_nonce ++ ((123 ∷ 125 ∷ []) ++ tag)))
unfolding seal_frame seal_data type_byte
seal_run = refl

open_frame-seal_frame_example :
    open_frame tagged keys daemon (1 ∷ 2 ∷ (drawn_nonce ++ ((123 ∷ 125 ∷ []) ++ tag)))
    ≡ ok (cipher, 123 ∷ 125 ∷ [])
open_frame-seal_frame_example =
    open_frame-seal_frame tagged keys client (some drawn_nonce) drawn_size cipher (123 ∷ 125 ∷ [])
      (1 ∷ 2 ∷ (drawn_nonce ++ ((123 ∷ 125 ∷ []) ++ tag))) seal_run (omega arith)

open_frame_iff_example :
    (open_frame tagged keys daemon (1 ∷ 1 ∷ 123 ∷ 125 ∷ []) ≡ ok (plain, 123 ∷ 125 ∷ [])) ↔ (
      (4 ≤ max_frame_bytes)
      × ((payload : Bytes) × (1 ∷ 1 ∷ 123 ∷ 125 ∷ [] ≡ pack_version ∷ type_byte plain ∷ payload)
          × Carries tagged (receiving_key keys daemon) plain payload (123 ∷ 125 ∷ [])))
open_frame_iff_example =
    open_frame_iff tagged keys daemon (1 ∷ 1 ∷ 123 ∷ 125 ∷ []) (123 ∷ 125 ∷ []) plain

-- "bytes=100-" of a file of 1000 bytes.
abbrev header : Text
header = b'b' ∷ b'y' ∷ b't' ∷ b'e' ∷ b's' ∷ b'=' ∷ b'1' ∷ b'0' ∷ b'0' ∷ b'-' ∷ []

parse_range_run : parse_range (some header) 1000 ≡ part 100 1000
unfolding parse_range range_of_spec range_of_split range_of range_from bounded_range range_end trim
    trim_start is_space strip_prefix contains split_once parse_u64 parse_digits
parse_range_run = refl

parse_range-Fits_example : Fits 1000 (parse_range (some header) 1000)
parse_range-Fits_example = parse_range-Fits (some header) 1000 (omega arith)

abbrev an_upload : Key
an_upload = (b's' ∷ [], b'u' ∷ [])

abbrev another_upload : Key
another_upload = (b's' ∷ [], b'v' ∷ [])

another_differs : another_upload ≢ an_upload
unfolding key_eq text_eq
another_differs same = absurd (one_bool (sym (ap (λ k. key_eq k an_upload) same)))
  where
    one_bool : true ≡ false → ⊥
    one_bool e = cc

begin_exclusive_example :
    (begin
      (run_ops (begin [] an_upload).1 (begins another_upload ∷ ends another_upload ∷ []))
      an_upload).0
    ≡ none
begin_exclusive_example =
    begin_exclusive [] an_upload (begins another_upload ∷ ends another_upload ∷ [])
      (tt, (another_differs, tt))
