-- ===== src/Coding/Rans/Blocks.antt =====
-- aether-core/src/coding/rans.rs: the coding of a block. What is returned with the bytes is the
-- predictor's state, for the next block of the group.
use aether_arch.Base.{ℕ, zero, suc, ◌*◌, Bool, true, false, List, [], ◌∷◌, leb, if◌then◌else◌}
use aether_arch.Errors.{Result, ok, err, decompression, ◌>>=◌, ◌>>◌, guard}
use aether_arch.Entropy.{Predictor}
use aether_arch.Coding.Rans.Encoder
use aether_arch.Coding.Rans.Encoder.{RangeEncoder}
use aether_arch.Coding.Rans.Decoder
use aether_arch.Coding.Rans.Decoder.{RangeDecoder}

-- `MAX_DECODE_SIZE`
abbrev pub max_decode_size : ℕ
max_decode_size = 64 * 1024 * 1024

module _ {S : Type 0} (p : Predictor S) where
  unfoldable pub encode_loop : List ℕ → RangeEncoder → S → RangeEncoder × S
  unfolding Encoder.encode_interval
  encode_loop [] e s = (e, s)
  encode_loop (byte ∷ rest) e s =
      let queried = p.query_cdf s byte in
      encode_loop rest (Encoder.encode_interval queried.0.0 queried.0.1 e) (p.update queried.1 byte)

  unfoldable pub encode_block_inner : List ℕ → Bool → S → Result (List ℕ × S)
  unfolding encode_loop Encoder.finish
  encode_block_inner [] reset s = ok ([], s)
  encode_block_inner (byte ∷ rest) reset s = do
    let coded = encode_loop (byte ∷ rest) Encoder.start (if reset then p.reset s else s)
    bytes ← Encoder.finish coded.0
    ok (bytes, coded.1)

  unfoldable pub encode_block : List ℕ → S → Result (List ℕ × S)
  unfolding encode_block_inner
  encode_block bytes s = encode_block_inner bytes true s

  unfoldable pub encode_block_continuing : List ℕ → S → Result (List ℕ × S)
  unfolding encode_block_inner
  encode_block_continuing bytes s = encode_block_inner bytes false s

  -- The bytes, and the decoder and the predictor behind them.
  unfoldable pub decode_loop : ℕ → RangeDecoder → S → List ℕ × (RangeDecoder × S)
  unfolding Decoder.decode_freq Decoder.advance
  decode_loop zero d s = ([], (d, s))
  decode_loop (suc n) d s =
      let found = Decoder.decode_freq d in
      let resolved = p.decode_symbol s found.1 in
      let byte = resolved.0.0 in
      let rest =
        decode_loop n (Decoder.advance found.0 resolved.0.1.0 resolved.0.1.1 d)
          (p.update resolved.1 byte) in
      (byte ∷ rest.0, rest.1)

  unfoldable pub decode_block_inner : List ℕ → ℕ → Bool → S → Result (List ℕ × S)
  unfolding decode_loop Decoder.new
  decode_block_inner compressed zero reset s = ok ([], s)
  decode_block_inner [] (suc n) reset s = err decompression
  decode_block_inner (b ∷ compressed) (suc n) reset s = do
    guard (leb (suc n) max_decode_size) decompression
    let decoded =
        decode_loop (suc n) (Decoder.new (b ∷ compressed)) (if reset then p.reset s else s)
    guard (leb decoded.1.0.eof_overread 5) decompression
    ok (decoded.0, decoded.1.1)

  unfoldable pub decode_block : List ℕ → ℕ → S → Result (List ℕ × S)
  unfolding decode_block_inner
  decode_block compressed expected_len s = decode_block_inner compressed expected_len true s

  unfoldable pub decode_block_continuing : List ℕ → ℕ → S → Result (List ℕ × S)
  unfolding decode_block_inner
  decode_block_continuing compressed expected_len s =
      decode_block_inner compressed expected_len false s
