-- ===== src/Coding/Lz77/Decode.antt =====
-- aether-core/src/coding/lz77_preprocess.rs: `lz77_decode`.
-- The input is the list of the bytes from `pos` on.
pub mod Lengths
pub mod Copies
pub mod Rounds
use aether_arch.Base.{
  ℕ, zero, suc, ◌+◌, ◌-◌, ◌*◌, ◌/◌, ◌%◌, ◌^◌, Bool, true, false, ◌&&◌, ◌||◌, List, [], ◌∷◌, ◌++◌,
  length, take, drop, ltb, leb, ◌==◌, if◌then◌else◌, min, from_le,
}
use aether_arch.Errors.{Result, ok, err, decompression, ◌>>=◌, ◌>>◌, guard}
use aether_arch.Coding.Lz77.Finder.{min_match, max_lz77_input_size}

-- The bytes behind a nibble of 15, each added to `len`, which may not pass `remaining`.
unfoldable pub read_extension : ℕ → ℕ → List ℕ → Result (ℕ × List ℕ)
read_extension remaining len [] = err decompression
read_extension remaining len (ext ∷ rest) =
    let more = read_extension remaining (len + ext) rest in
    if ltb remaining (len + ext)
    then err decompression
    else if ltb ext 255
    then ok (len + ext, rest)
    else more

unfoldable pub read_length : ℕ → ℕ → ℕ → List ℕ → Result (ℕ × List ℕ)
unfolding read_extension
read_length remaining nibble len input =
    if nibble == 15 then read_extension remaining len input else ok (len, input)

-- `extend_from_within(len - offset..len - offset + chunk)` until `remaining` is 0. The offset is not
-- 0, so each round writes a byte, and `remaining` rounds are enough.
unfoldable pub copy_chunks : ℕ → ℕ → ℕ → List ℕ → List ℕ
copy_chunks zero offset remaining output = output
copy_chunks (suc rounds) offset remaining output =
    let chunk = min remaining offset in
    let piece = take chunk (drop (length output - offset) output) in
    let rest = copy_chunks rounds offset (remaining - chunk) (output ++ piece) in
    if ltb 0 remaining then rest else output

unfoldable pub copy_match : ℕ → ℕ → List ℕ → List ℕ
unfolding copy_chunks
copy_match offset match_len output =
    if leb match_len offset
    then output ++ take match_len (drop (length output - offset) output)
    else copy_chunks match_len offset match_len output

-- The part of a round from the offset on: the input and the output behind the match.
unfoldable pub read_match : ℕ → ℕ → List ℕ → List ℕ → Result (List ℕ × List ℕ)
read_match original_size token output [] = err decompression
read_match original_size token output (lo ∷ []) = err decompression
read_match original_size token output (lo ∷ hi ∷ input) = do
  let offset = lo + hi * 256
  guard (ltb 0 offset && leb offset (length output)) decompression
  (match_len, input') ←
      read_length (original_size - length output) (token % 16) (token % 16 + min_match) input
  ok (input', copy_match offset match_len output)

unfoldable pub check_size : ℕ → List ℕ → Result (List ℕ)
check_size original_size output =
    if length output == original_size then ok output else err decompression

-- The main loop. Each round takes a token at least, so as many rounds as there are bytes are enough,
-- and with no round left the input is at its end.
unfoldable pub decode_loop : ℕ → ℕ → List ℕ → List ℕ → Result (List ℕ)
decode_loop zero original_size input output =
    if ltb (length output) original_size then err decompression else check_size original_size output
decode_loop (suc rounds) original_size [] output =
    if ltb (length output) original_size then err decompression else check_size original_size output
decode_loop (suc rounds) original_size (token ∷ input) output =
    let round = do
      (lit_len, input') ←
          read_length (original_size - length output) (token / 16) (token / 16) input
      guard (leb lit_len (length input')) decompression
      let output' = output ++ take lit_len input'
      let next = do
        (input'', output'') ← read_match original_size token output' (drop lit_len input')
        decode_loop rounds original_size input'' output''
      if leb original_size (length output') then check_size original_size output' else next
    in if ltb (length output) original_size then round else check_size original_size output

unfoldable pub lz77_decode : List ℕ → ℕ → Result (List ℕ)
unfolding decode_loop
lz77_decode encoded expected_size = do
  let original_size = from_le (take 4 encoded)
  guard (leb 4 (length encoded)) decompression
  guard (original_size == expected_size) decompression
  guard (leb original_size max_lz77_input_size) decompression
  decode_loop (length encoded) original_size (drop 4 encoded) []
