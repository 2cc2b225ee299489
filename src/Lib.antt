-- ===== src/Lib.antt =====
-- pytusk, a Walrus client for Python: the parts of the SDK whose correctness rests on pure computation
-- and on the order of events.
--
-- Each file names the source file that it models, by its path from the repository's root.
--
-- - Redstuff (pytusk/core/encoding/redstuff.py): Redstuff.Sizes has the size arithmetic (max_n_faulty to
--   encoded_blob_length), Redstuff.Rotation the conversions of blob IDs and the rotation between shard
--   indices and sliver-pair indices, Redstuff.Codec the wrappers of the native functions, which are the
--   record `Native`. An extension function returns, or raises a ValueError with a code (`Answer`).
-- - Certification (pytusk/core/certification.py): Certification.Bitmap has pack_signers_bitmap and
--   unpack_signers_bitmap, Certification.Quorum the thresholds, Certification.Certificate the
--   confirmations, build_certificate and verify_certificate, over the BLS functions of the extension as the
--   record `Bls`.
-- - CommitteeFanout (pytusk/core/committee_fanout.py): fan_out_to_committee over an event loop that is a
--   parameter. What a wait returns is its choice, restrained by what asyncio documents
--   (`EventLoopLaws`); the caller may be cancelled at any of its awaits.
-- - Committee (pytusk/core/chain/committee.py): Committee.Json has the decoded staking object and the readers
--   of its fields, Committee.Members WalrusCommittee and its lookups, Committee.Build build_committee.
-- - Quilt (pytusk/core/encoding/quilt.py, pytusk/core/types/quilts.py): Quilt.Packing has compute_symbol_size,
--   which Redstuff's limits bound, Quilt.Matrix _write_blob_to_quilt, Quilt.Patches the identifiers and the
--   metadata of a patch, and Quilt.Assembly assemble_quilt, which puts these together. BCS is the record `Bcs`.
--   Quilt.Reading is a reader of the format, which only the theorems use.
-- - NativeRead (pytusk/core/native_read): NativeRead.Fetch has _fetch_node_slivers, _fetch_slivers_attributed
--   and fetch_slivers (fetch.py), which give CommitteeFanout a task for each asked member of a committee,
--   NativeRead.Metadata fetch_verified_metadata (metadata.py), NativeRead.Reconstruct reconstruct_blob
--   (reconstruct.py) over the wrappers of Redstuff.Codec. What a node answers to a request is a parameter.
-- - NativeUpload (pytusk/core/native_upload): NativeUpload.Retry has _put_metadata and _put_sliver with
--   their retries, NativeUpload.Throttle _BytesInFlightThrottle with the PUTs that sleep on it,
--   NativeUpload.Node _upload_node and _outcome_from_task, NativeUpload.Slivers upload_slivers (all in
--   fanout.py), NativeUpload.Confirm collect_confirmations (confirm.py) over build_certificate of
--   Certification, and NativeUpload.Certify the epoch loop of certify (certify.py) with submit_certification
--   and execute_certify of pytusk/core/ops/blob_execute.py, which record the transactions that they submit. upload_slivers and collect_confirmations give CommitteeFanout a task for
--   each node; the waits of a node's own PUTs are a second event loop.
-- - BlobStatus (pytusk/core/types/blob_status.py, pytusk/core/ops/blob_status.py): the statuses and _resolve,
--   the verdict on the weights that the committee's answers add up to; BlobStatus.Report has
--   fetch_blob_status, which collects these answers by a fan-out.
-- - Pipelines (pytusk/core/pipelines): Pipelines.Native has store_blob_native with its preamble (write.py) and
--   NativeDelivery (delivery.py), which run encode_blob of Redstuff and the three stages of NativeUpload in
--   their order; the registration Tx1 is a parameter. Pipelines.Read has read_blob_native (read.py), which
--   runs the stages of NativeRead.
-- - Relay (pytusk/core/relay_upload): Relay.Upload has upload_to_relay (upload.py), and Relay.Tip what a relay
--   charges, quote_tip and assert_tip_within_ceiling (tip.py), with the package that binds a tip to a blob
--   (pytusk/core/types/tips.py). Relay.Certificate has parse_relay_certificate (relay_certify.py), which reads
--   a certificate out of JSON and checks it. What a relay answers is a parameter.
-- - Coins (pytusk/core/ops/coins.py, pytusk/core/chain/coin_types.py): the choice of WAL coins, and the commands
--   that prepare_wal_coin_for_amount adds to a transaction.
--
-- Prelude and Errors hold what these share: Boolean tests, lists over the native numbers, bytes, bits of a
-- byte, and exceptions as values.
--
-- Bounds of the model. Integers that the source documents as sizes, counts, weights, indices and positions
-- are naturals, so a test such as `position < 0` cannot fail; (n_shards - 1) // 3 is -1 without shards, and
-- has a type of integers of its own. `math.ceil(a / b)` divides floating-point numbers: below 2 ^ 53 the
-- quotient is rounded correctly and its ceiling is the exact one, which the model uses. Python's integers
-- have no width, so nothing wraps. The wait loop of a fan-out takes as many rounds as there are tasks as
-- fuel, which is enough, since each round completes a task, and so does the loop over a node's PUTs; a loop
-- of retries, of POSTs to a relay or of epoch checks recurs on the attempts that are left; the loop of
-- _write_blob_to_quilt takes the length of its data, since each round writes a byte; the binary search of compute_symbol_size
-- takes the length of its interval, which each round shortens. Exceptions carry no messages; log calls have
-- no effect.
--
-- Not modelled: base64 with the IDs of quilt patches, the log lines of an upload and the counters that feed
-- them, the payment of a tip and the writes through a relay, the network and chain commands, the transaction
-- builders but that of certify_blob, the pipelines but the native write and read, the command-line tool and the
-- configuration. A request to a node or to the chain is a parameter where a modelled function makes one.
pub mod Prelude
pub mod Errors
pub mod Redstuff
pub mod Certification
pub mod Committee
pub mod CommitteeFanout
pub mod Quilt
pub mod NativeRead
pub mod BlobStatus
pub mod NativeUpload
pub mod Coins
pub mod Pipelines
pub mod Relay
