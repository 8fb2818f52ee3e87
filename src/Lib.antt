-- ===== src/Lib.antt =====
-- Aether is an archiver: a file is cut into chunks, a chunk goes through a reversible transform and an
-- entropy coder, and the blocks stand in a container with a header, file entries, block headers with
-- their trailers, an index and a footer.
-- This library models the fixed-size chunker, the grouper, the range coder with its order-0 model, the
-- transforms, the router of chunks, the extraction of files, encryption and the container, which are in
-- aether-core/src.
--
-- The chunker:
--   Chunker           chunker.rs: chunks of a fixed size.
-- The grouper:
--   Grouper           grouper.rs: files in groups of one content type. Partition counts the indices,
--                     Sizes is about numbers,
--                     sizes and limits.
-- The predictors, entropy/:
--   Entropy           traits.rs: what the range coder calls of a predictor, as the record Predictor with
--                     the laws IsLawful, and the default methods, with find_symbol of coding/rans.rs.
--   Entropy.Order0    order0.rs: the order-0 model with its division (Divisor), its Fenwick tree
--                     (Fenwick, over the facts on lowest bits of LowBit), its invariant (Model), its
--                     table (Boundaries) and its saved state (State).
-- The range coder, coding/rans.rs:
--   Coding.Rans       Encoder, Decoder and Blocks are the code. Value, Carry, Window, Steps, Loops,
--                     Intervals and Finish say what number the encoder stands for and how far the
--                     decoder is behind it; RoundTrip and Total put the blocks together.
-- The transforms, coding/:
--   Coding.Bcj        coding/bcj.rs: detection of x86 executables, and call targets made absolute.
--   Coding.Bwt        coding/bwt_preprocess.rs: bwt_encode, bwt_decode_with, and both with move-to-front.
--                     Order, Rotations and Encoded are about sorted rotations, Table and Rows about the
--                     table, Walks and Chains about the walks over it; RoundTrip puts them together,
--                     and Framing adds the ranks.
--   Coding.Mtf        coding/bwt_preprocess.rs: mtf_encode, with its rank table, and mtf_decode.
--   Coding.ZeroRun    coding/bwt_preprocess.rs: rle_encode, rle_decode and the escaped pair.
--   Coding.Lz77       coding/lz77_preprocess.rs: the match finder (Finder), lz77_encode (Encode) with lazy
--                     matching, and lz77_decode (Decode).
--   Coding.BytePlane  coding/byteplane_preprocess.rs: splitting, merging, delta coding and the payload.
-- Each function keeps the name that it has in the source. A loop with an index is a recursion over what
-- the index has not reached, and what the source writes to a vector is the list that is returned.
-- The pipeline, in pipeline/:
--   Pipeline.Zstd     coding/zstd_fallback.rs: the calls of the zstd crate.
--   Pipeline.Router   pipeline/router.rs: the types and the setting; Encode has the trials with
--                     compress_chunk_with_baseline, Decode has decompress_chunk_with_baseline.
--                     Payloads reads the fields, Trials takes each trial and Cascade all of them.
--                     It calls Coding.Bcj, Coding.Bwt, Coding.ZeroRun, Coding.Lz77, Coding.BytePlane
--                     and Coding.Rans.
--   Pipeline.ExtractionPath  pipeline/decompress.rs: validate_extraction_path.
--   Pipeline.Reassemble      pipeline/decompress.rs: files made of decompressed blocks, and the loop
--                     over the files of pipeline/decompress_seekable.rs. Counts is about the references
--                     to blocks, Shared about one file, Extract about all of them, Consuming about a
--                     file that takes its blocks.
-- Encryption:
--   Crypto            crypto/mod.rs: Header is about the header, Blocks about encrypted blocks. The hash,
--                     Argon2id and the ciphers are the parameter Primitives.
-- The container, in format.rs, block.rs and header.rs:
--   Archive.Codes     format.rs: magic numbers, limits, and the three enums with their codes.
--   Archive.Block     block.rs: BlockHeader, BlockTrailer and BlockIndexEntry.
--   Archive.Header    header.rs: ArchiveHeader, SolidGroupEntry and ArchiveFooter.
--   Archive.Files     header.rs: FileEntry, in its plain form.
--   Archive.Crates    what other crates do: byteorder's words, blake3::hash and crc32fast::hash are the
--                     parameter Crates, whose laws are a word that is read back, a hash of 32 bytes and
--                     a checksum of 32 bits. sample_crates fulfils them.
-- write_to is a function from a record to bytes, read_from one from the bytes still to be read to the
-- record and what is left, or an error. Errors holds AetherError, without the text of the messages, and
-- its Result. Base holds what the modules share: lists and tests over the native numbers, bytes and
-- little-endian words.
--
-- Words: a byte is a number below 256, a wider word a number with its wrap-around written out, and a
-- signed 64-bit time its bit pattern. Saturating arithmetic of the run decoders is written with min.
-- Positions and lengths are natural numbers, since a slice is shorter than 2 ^ 63 bytes.
--
-- A predictor is an argument of the range coder, which hands its state through; a method that takes
-- &mut self returns the state behind its result. range_coder of Coding.BytePlane.Coder makes of the
-- range coder what the byte planes need, and order0_coder is the one that the source takes.
--
-- Fuel: fixed_loop of the chunker has a number of rounds as an argument, and is none when they run out;
-- one for each byte of the data is enough if blocks are not empty. find_loop has the 256 rounds of
-- MAX_CHAIN. encode_loop of Lz77 has one round for each byte of the input, as each moves its position;
-- decode_loop has one for each byte of the code, as each takes a token; copy_chunks has one for each
-- byte of the match, as an offset is not 0. renormalize of the range coder has three, which bring every
-- range but 0 to 2 ^ 24; with a range of 0 the source would not end, and a lawful predictor never gives
-- one. search_symbol has eight, as each halves at most 254 symbols. The loops on the Fenwick tree have
-- as many as there are indices left, as idx falls in a query and grows in an addition.
--
-- Parameters: sais of Coding.Bwt is libsais, which makes a suffix array of a text (IsSuffixArray) or
-- fails. PlaneCoder of Coding.BytePlane is what codes a plane; its law is that it decodes what it
-- encodes, for a plane no larger than a block. Predictor is what the range coder calls. Entropies are
-- the decisions by floating-point entropy, which may be any functions; recommend of the grouper is the
-- method recommended for the mean entropy of a bucket.
-- Setting of Pipeline.Router holds what the router calls: the predictor of the coder, the zstd crate
-- (IsZstd), which may fail, libsais, and the decisions by floating-point entropy. The predictor is
-- NeuralSsmPredictor of entropy/neural_ssm.rs, which is floating point and not modelled: its state and
-- its operations are a parameter, with the dictionary that coding_predictor puts into the first state,
-- and its laws are hypotheses. They are IsLawful, and ResetsAlike: what was coded does not change what a
-- reset leads to, but for fields that the next symbol rewrites before they are read. With a dictionary,
-- reset leaves four such fields as they are (last_ssm_p_run, last_ssm_p_runa, last_rle_p_run and
-- last_rle_p_runa), and prepare_step_params writes them for every symbol.
-- Primitives of Crypto are BLAKE3, Argon2id and the ciphers
-- (IsPrimitives).
--
-- Not modelled: probs_to_cdf and predict, which are floating point, the predictors of entropy/ but the
-- order-0 model, content-defined chunking, the prefix-compressed file entry, the reading and writing of
-- whole archives with its threads and progress, the writing of extracted files with its checks of
-- symbolic links, random salts and nonces, dictionaries, cloud storage, and the command line and
-- bindings.
pub mod Base
pub mod Errors
pub mod Chunker
pub mod Grouper
pub mod Entropy
pub mod Coding
pub mod Archive
pub mod Pipeline
pub mod Crypto
