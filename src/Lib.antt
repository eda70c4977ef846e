-- ===== src/Lib.antt =====
-- A model of the Matrix client WBF (crates/wbf-wire, wbf-sdk, wbf-core, wbf-daemon): the wire format of
-- its messages, the chunked and encrypted media of its SDK, and the state that its core and its daemon
-- keep about files that several callers want. The media path uses the wire format for what it asks of
-- a server; the daemon hands out what the core downloads, in the ranges that a player asks for.
--
-- Files:
--   Common and Common/: bytes, lists, options, results and Boolean tests on the native numbers.
--   Wire/Pack: crates/wbf-wire/src/pack.rs, `Pack::encode` and `Pack::decode` (`decode_header`,
--     `decode_meta` and `decode_data` are its three parts, in the order of its checks).
--   Wire/Id: the module `id` of the same file. Wire/FileInfo: crates/wbf-wire/src/encrypted_file_info.rs.
--   Media/Geometry: the lengths in crates/wbf-sdk/src/chunk_crypto.rs. Media/FileCipher: `FileCipher`
--     of the same file. Media/Cipher, Media/CipherNames: crates/wbf-sdk/src/cipher.rs.
--   Media/Block: crates/wbf-sdk/src/chunk_block.rs, the checks of an event block and of a description.
--   Media/Download: crates/wbf-sdk/src/download.rs, `verify_info`, `download` and `seek_read`; the
--     requests to the server are a function `next` from an index to a reply.
--   Media/SeekStore: crates/wbf-sdk/src/seek_store.rs; the file is its bytes, and every write may fail
--     when any number of its bytes has reached the file.
--   Media/Pool: crates/wbf-sdk/src/media_pool.rs. Media/Pool/Format: the header and the segments of a
--     file; Media/Pool/Writer: `PoolWriter` and `resume_pending`, with the outcome of every write;
--     Media/Pool/Reader: `PoolReader`. Both hashes are over the same bytes, which the writer of the
--     model keeps. The size of a segment is an argument, 65536 in this build.
--   Media/Landing: `MediaDownload` of crates/wbf-sdk/src/media.rs (`open_download` is `open`,
--     `open_arrived` is `open_chunk`, `finish_download` is `finish`), and `Verification::of_hex` of
--     media_kind.rs; its two files and what becomes of them on the disk are arguments.
--   Core/LinkRequests: crates/wbf-core/src/link_requests.rs; the rounds of the sender, the ends of the
--     tasks that wait for a reply and the checks for silence are operations that come in any order.
--   Core/JobQueue: `QueueState` of crates/wbf-core/src/download_queue.rs, with `enqueue_into`, `cancel`,
--     `process_inbox` (`take_job`), `start_job`, `end_job`, `hand_over` and the end of
--     `process_download_job` (`end_preparing`), as steps that come in any order. What a handler does
--     with its files and its line between two steps is not in the model.
--   Core/Errors: `CoreErrorKind` of crates/wbf-core/src/error.rs. Core/Claims: `MediaClaims` of
--     crates/wbf-core/src/download_queue.rs.
--   Daemon/RpcPack: crates/wbf-daemon/src/pack.rs. Daemon/Ranges and Daemon/Uploads: `parse_range`,
--     `status_for_trust`, `check_content_length` and `UploadsReceiving` of
--     crates/wbf-daemon/src/data_plane.rs.
--
-- Machine integers are numbers with their bounds written out. `usize` is that of a 64-bit target. The
-- loop of `seek_read` runs on fuel, one more than the chunks of the file, which is enough for a file
-- that has them. The loop of a `write` to the pool runs on one round more than there are bytes, that of
-- `read_sealed` on one for each byte wanted; a loop that ran out would give the error `endless`. The
-- other loops are structural.
--
-- Arguments, since their code is not here: CRC-32C, the AEAD ciphers (a round trip and a tag of 16
-- bytes), the draws of random bytes, SHA-256, blake3, the JSON of serde, the server's replies and the
-- sink of a download. An error keeps its class and loses its text.
--
-- Not modelled: input and output on sockets and files other than those above, SQLite, the calls of
-- matrix-sdk, and for now the upload, the directory of the media pool (so `discard`, and the names of
-- files), the export of a file, the links, the room state and the cache.
pub mod Common
pub mod Wire
pub mod Media
pub mod Core
pub mod Daemon
