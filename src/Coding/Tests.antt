-- ===== src/Coding/Tests.antt =====
-- Runs of the transforms, and their theorems at concrete inputs.
use aether_arch.Base.{
  ℕ, ◌+◌, ◌<◌, ◌≡◌, refl, List, [], ◌∷◌, ◌++◌, some, none, arith, length, replicate, true, false,
  false, ◌⊎◌, bytes_eq, from_le, to_le, IsBytes, zero, suc, get_or, ◌==◌, ◌≤◌, if◌then◌else◌,
  bytes_eq→eq, sym, ap, ◌≢◌,
}
use aether_arch.Errors.{ok, err, Result, decompression}
use aether_arch.Coding.BytePlane.{
  PlaneCoder, Entropies, two, delta_encode, delta_decode, byteplane_encode, byteplane_decode,
  max_decompressed_block_size,
}
use aether_arch.Coding.BytePlane.Delta.{delta_decode-delta_encode}
use aether_arch.Coding.BytePlane.RoundTrip.{byteplane_decode-byteplane_encode}
use aether_arch.Coding.Bcj.{encode_x86, decode_x86}
use aether_arch.Coding.Bcj.RoundTrip.{decode_x86-encode_x86}
use aether_arch.Coding.Mtf.{mtf_encode, mtf_decode, initial, move_to_front}
use aether_arch.Coding.Mtf.RoundTrip.{mtf_decode-mtf_encode}
use aether_arch.Coding.Mtf.Inverse.{IsInverse, initial-IsInverse, move_to_front-IsInverse}
use aether_arch.Coding.ZeroRun.{
  rle_encode, rle_decode, contains, rle_encode_escaped, rle_decode_escaped,
}
use aether_arch.Coding.ZeroRun.Plain.{rle_decode-rle_encode}
use aether_arch.Coding.ZeroRun.Escaped.{rle_decode_escaped-rle_encode_escaped}
use aether_arch.Coding.Lz77.Finder.{MatchFinder, min_match, empty, find_best, new, insert, hash3}
use aether_arch.Coding.Lz77.Finder.Matches.{IsMatch, find_best-IsMatch}
use aether_arch.Coding.Lz77.Encode.{
  lz77_encode, encode_loop, take_match, emit_sequence, extend, insert_range, finish,
}
use aether_arch.Coding.Lz77.Decode.{lz77_decode}
use aether_arch.Coding.Lz77.RoundTrip.{lz77_decode-lz77_encode}

-- A 64-bit ELF header with a call at offset 20.
abbrev elf : List ℕ
elf =
    0x7f ∷ b'E' ∷ b'L' ∷ b'F' ∷ 2 ∷ 1 ∷ 0 ∷ 0 ∷ 0 ∷ 0 ∷ 0 ∷ 0 ∷ 0 ∷ 0 ∷ 0 ∷ 0 ∷ 2 ∷ 0 ∷ 62 ∷ 0
    ∷ 0xe8 ∷ 1 ∷ 0 ∷ 0 ∷ 0 ∷ 0xc3 ∷ []

abbrev elf_encoded : List ℕ
elf_encoded =
    0x7f ∷ b'E' ∷ b'L' ∷ b'F' ∷ 2 ∷ 1 ∷ 0 ∷ 0 ∷ 0 ∷ 0 ∷ 0 ∷ 0 ∷ 0 ∷ 0 ∷ 0 ∷ 0 ∷ 2 ∷ 0 ∷ 62 ∷ 0
    ∷ 0xe8 ∷ 26 ∷ 0 ∷ 0 ∷ 0 ∷ 0xc3 ∷ []

elf_runs : encode_x86 elf ≡ some elf_encoded
unfolding encode_x86 bytes_eq from_le to_le
elf_runs = refl

decode_x86-encode_x86_example : (decode_x86 elf_encoded ≡ elf) × (length elf_encoded ≡ length elf)
decode_x86-encode_x86_example = decode_x86-encode_x86 elf elf_encoded (omega arith) elf_runs

mtf_runs : mtf_encode (b'b' ∷ b'b' ∷ b'a' ∷ b'b' ∷ []) ≡ 98 ∷ 0 ∷ 98 ∷ 1 ∷ []
unfolding mtf_encode
mtf_runs = refl

mtf_decode-mtf_encode_example :
    mtf_decode (mtf_encode (b'b' ∷ b'b' ∷ b'a' ∷ [])) ≡ b'b' ∷ b'b' ∷ b'a' ∷ []
mtf_decode-mtf_encode_example = mtf_decode-mtf_encode (b'b' ∷ b'b' ∷ b'a' ∷ []) (omega arith)

-- Five zeros are 1 + 2 * 2, the digits 0 and 1.
rle_runs : rle_encode (7 ∷ 0 ∷ 0 ∷ 0 ∷ 0 ∷ 0 ∷ 1 ∷ []) ≡ some (8 ∷ 0 ∷ 1 ∷ 2 ∷ [])
unfolding rle_encode
rle_runs = refl

escaped_runs : rle_encode_escaped (255 ∷ 0 ∷ 254 ∷ 3 ∷ []) ≡ 255 ∷ 3 ∷ 0 ∷ 255 ∷ 2 ∷ 4 ∷ []
unfolding rle_encode_escaped
escaped_runs = refl

rle_decode_escaped-rle_encode_escaped_example :
    rle_decode_escaped (rle_encode_escaped (255 ∷ 0 ∷ 254 ∷ [])) 3 ≡ ok (255 ∷ 0 ∷ 254 ∷ [])
rle_decode_escaped-rle_encode_escaped_example =
    rle_decode_escaped-rle_encode_escaped (255 ∷ 0 ∷ 254 ∷ []) (omega arith) (omega arith)

abbrev ranks : List ℕ
ranks = 7 ∷ 0 ∷ 0 ∷ 0 ∷ []

rle_decode-rle_encode_example :
    ((contains 255 ranks ≡ true) × (rle_encode ranks ≡ none))
    ⊎ ((ys : List ℕ) × (contains 255 ranks ≡ false)
        × (rle_encode ranks ≡ some ys)
        × (rle_decode ys (length ranks) ≡ ok ranks))
rle_decode-rle_encode_example = rle_decode-rle_encode ranks (omega arith)

abbrev text : List ℕ
text = replicate 40 b'a' ++ (b'b' ∷ replicate 20 b'a')

lz77_runs :
    lz77_encode text
    ≡ some (61 ∷ 0 ∷ 0 ∷ 0 ∷ 0x1f ∷ b'a' ∷ 1 ∷ 0 ∷ 21 ∷ 0x1f ∷ b'b' ∷ 21 ∷ 0 ∷ 2 ∷ [])
unfolding lz77_encode to_le encode_loop find_best new insert hash3 take_match emit_sequence extend
    insert_range finish
lz77_runs = refl

lz77_decode-lz77_encode_example :
    (lz77_encode text ≡ none)
    ⊎ ((ys : List ℕ) × (lz77_encode text ≡ some ys)
        × (length ys < length text)
        × (lz77_decode ys (length text) ≡ ok text))
lz77_decode-lz77_encode_example = lz77_decode-lz77_encode text

abbrev finder : MatchFinder
finder = record { head = λ slot. 0; prev = λ slot. empty }

abbrev abc : List ℕ
abc = b'a' ∷ b'b' ∷ b'c' ∷ b'a' ∷ b'b' ∷ b'c' ∷ b'd' ∷ []

find_best_runs : find_best finder abc 3 7 ≡ some (3, 3)
unfolding find_best
find_best_runs = refl

find_best-IsMatch_example : IsMatch abc 3 (3, 3) × (min_match ≤ 3)
find_best-IsMatch_example = find_best-IsMatch finder abc 3 7 (3, 3) (omega arith) find_best_runs

move_to_front-IsInverse_example : IsInverse (move_to_front 98 initial)
move_to_front-IsInverse_example = move_to_front-IsInverse initial 98 initial-IsInverse (omega arith)

-- A coder that writes a plane of one repeated byte as that byte, and refuses any other.
abbrev repeat_encode : List ℕ → Result (List ℕ)
repeat_encode [] = err decompression
repeat_encode (b ∷ bs) =
    if bytes_eq (replicate (length bs) b) bs then ok (b ∷ []) else err decompression

abbrev repeat_decode : List ℕ → ℕ → Result (List ℕ)
repeat_decode [] n = err decompression
repeat_decode (b ∷ bs) n = ok (replicate n b)

err≢ok : {coded : List ℕ} → err decompression ≢ ok coded
err≢ok = ground arith

ok_if_equal :
    (b : ℕ) (bs coded : List ℕ)
    → (if bytes_eq (replicate (length bs) b) bs then ok (b ∷ []) else err decompression) ≡ ok coded
    → (replicate (length bs) b ≡ bs) × (b ∷ [] ≡ coded)
ok_if_equal b bs coded e = let same = bytes_eq→eq (replicate (length bs) b) bs in ground arith

repeat_decode-repeat_encode :
    (plane coded : List ℕ)
    → IsBytes plane
    → length plane ≤ max_decompressed_block_size
    → repeat_encode plane ≡ ok coded
    → repeat_decode coded (length plane) ≡ ok plane
repeat_decode-repeat_encode [] coded h small e = absurd (err≢ok e)
repeat_decode-repeat_encode (b ∷ bs) coded h small e =
    let (same, coded_eq) = ok_if_equal b bs coded e in rw (sym coded_eq) (ap (λ t. ok (b ∷ t)) same)

abbrev repeat_coder : PlaneCoder
repeat_coder = record {
  encode = repeat_encode;
  decode = repeat_decode;
  decode-encode = repeat_decode-repeat_encode;
}

-- Elements of two bytes: a 7, and a byte that counts down from 255.
abbrev pairs : ℕ → List ℕ
pairs zero = []
pairs (suc n) = 7 ∷ (216 + n) ∷ pairs n

-- Every plane is worth its code, and a plane that counts down is worth its differences.
abbrev sample_entropies : Entropies
sample_entropies = record {
  is_low = λ plane. true;
  is_gain = λ plane differences. get_or differences 1 0 == 255;
}

byteplane_runs :
    byteplane_encode repeat_coder sample_entropies (pairs 40) two
    ≡ some (2 ∷ 35 ∷ 1 ∷ 0 ∷ 0 ∷ 0 ∷ 1 ∷ 0 ∷ 0 ∷ 0 ∷ 7 ∷ 255 ∷ [])
unfolding byteplane_encode bytes_eq
byteplane_runs = refl

byteplane_decode-byteplane_encode_example :
    (byteplane_decode repeat_coder (2 ∷ 35 ∷ 1 ∷ 0 ∷ 0 ∷ 0 ∷ 1 ∷ 0 ∷ 0 ∷ 0 ∷ 7 ∷ 255 ∷ []) 80
      ≡ ok (pairs 40))
    × (12 < 80)
byteplane_decode-byteplane_encode_example =
    byteplane_decode-byteplane_encode repeat_coder sample_entropies (pairs 40) two
      (2 ∷ 35 ∷ 1 ∷ 0 ∷ 0 ∷ 0 ∷ 1 ∷ 0 ∷ 0 ∷ 0 ∷ 7 ∷ 255 ∷ []) (omega arith) byteplane_runs

abbrev odd_bytes : List ℕ
odd_bytes = 1 ∷ 2 ∷ 3 ∷ 4 ∷ 5 ∷ 6 ∷ 7 ∷ 8 ∷ 9 ∷ []

delta_decode-delta_encode_example : delta_decode (delta_encode odd_bytes) ≡ odd_bytes
delta_decode-delta_encode_example = delta_decode-delta_encode odd_bytes (omega arith)
