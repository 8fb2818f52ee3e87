-- ===== src/Coding/Bwt.antt =====
-- aether-core/src/coding/bwt_preprocess.rs: the Burrows-Wheeler transform and its inverse.
pub mod Order
pub mod Counting
pub mod Table
pub mod Rotations
pub mod Rows
pub mod Reads
pub mod Encoded
pub mod Walks
pub mod Chains
pub mod RoundTrip
pub mod Framing
pub mod Tests
use aether_arch.Base.{
  ℕ, zero, suc, ◌+◌, ◌-◌, ◌*◌, ◌/◌, ◌%◌, ◌^◌, Bool, true, false, List, [], ◌∷◌, ◌++◌, length,
  replicate, get_or, set, take, drop, to_le, from_le, ltb, leb, ◌==◌, if◌then◌else◌, Option, none,
  some,
}
use aether_arch.Errors.{Result, ok, err, decompression, resource_limit_exceeded, ◌>>=◌, ◌>>◌, guard}
use aether_arch.Coding.Mtf.{mtf_encode, mtf_decode}
use aether_arch.Coding.BytePlane.{max_decompressed_block_size}

abbrev pub max_bwt_input_size : ℕ
max_bwt_input_size = 8 * 1024 * 1024

abbrev pub max_packed_lf : ℕ
max_packed_lf = 2 ^ 24

abbrev pub two_chain_min : ℕ
two_chain_min = 2 ^ 20

-- The scan of the suffix array: `rank` is `bwt.len()`.
unfoldable pub scan : List ℕ → List ℕ → ℕ → ℕ → List ℕ × ℕ
scan bytes [] rank primary = ([], primary)
scan bytes (pos ∷ sa) rank primary =
    let n = length bytes in
    let primary' = if pos == 0 then rank else primary in
    let b = get_or bytes ((pos + n - 1) % n) 0 in
    let kept = scan bytes sa (rank + 1) primary' in
    let passed = scan bytes sa rank primary in
    if ltb pos n
    then (if rank + 1 == n then (b ∷ [], primary') else (b ∷ kept.0, kept.1))
    else passed

-- `sais` is `libsais` on the doubled text, and none where it returns an error.
unfoldable pub bwt_encode : (List ℕ → Option (List ℕ)) → List ℕ → Option (List ℕ × ℕ)
unfolding scan
bwt_encode sais [] = some ([], 0)
bwt_encode sais (b ∷ []) = some (b ∷ [], 0)
bwt_encode sais (b ∷ c ∷ rest) =
    let bytes = b ∷ c ∷ rest in
    if ltb max_bwt_input_size (length bytes)
    then none
    else elim (sais (bytes ++ bytes)) [ none ↦ none | some sa ↦ some (scan bytes sa 0 0) ]

abbrev pub bump : List ℕ → ℕ → List ℕ
bump xs i = set xs i (get_or xs i 0 + 1)

unfoldable pub count_bytes : List ℕ → List ℕ → List ℕ
count_bytes counts [] = counts
count_bytes counts (b ∷ bwt) = count_bytes (bump counts b) bwt

unfoldable pub cumulate : ℕ → List ℕ → List ℕ
cumulate sum [] = []
cumulate sum (c ∷ counts) = sum ∷ cumulate (sum + c) counts

-- `cumul[c] + occ[c]` for each byte. The sums are below the length of a block, which 32 bits hold.
unfoldable pub last_first : List ℕ → List ℕ → List ℕ → List ℕ
last_first cumul occ [] = []
last_first cumul occ (b ∷ bwt) =
    (get_or cumul b 0 + get_or occ b 0) ∷ last_first cumul (bump occ b) bwt

abbrev pub zeros : List ℕ
zeros = replicate 256 0

unfoldable pub lf_table : List ℕ → List ℕ
unfolding count_bytes cumulate last_first
lf_table bwt = last_first (cumulate 0 (count_bytes zeros bwt)) zeros bwt

-- The walk over two arrays, that fills the output from its end.
unfoldable pub walk_arrays : List ℕ → List ℕ → ℕ → ℕ → List ℕ → List ℕ
walk_arrays bwt lf zero idx output = output
walk_arrays bwt lf (suc slots) idx output =
    walk_arrays bwt lf slots (get_or lf idx 0) (get_or bwt idx 0 ∷ output)

-- `(lf << 8) | byte`
unfoldable pub pack : List ℕ → List ℕ → List ℕ
pack (l ∷ lf) (b ∷ bwt) = (l * 256 % 2 ^ 32 + b) ∷ pack lf bwt
pack lf bwt = []

unfoldable pub walk_packed : List ℕ → ℕ → ℕ → List ℕ → List ℕ
walk_packed forward zero idx output = output
walk_packed forward (suc slots) idx output =
    let packed = get_or forward idx 0 in
    walk_packed forward slots (packed / 256) (packed % 256 ∷ output)

unfoldable pub invert : ℕ → List ℕ → List ℕ → List ℕ
invert i [] inverse = inverse
invert i (packed ∷ forward) inverse =
    invert (i + 1) forward (set inverse (packed / 256) (i * 256 % 2 ^ 32 + packed % 256))

-- The rounds of the two chains: what they write to the front, where the backward chain stands then,
-- and the tail with what they write to the back.
unfoldable pub two_chains : List ℕ → List ℕ → ℕ → ℕ → ℕ → List ℕ → List ℕ × (ℕ × List ℕ)
two_chains forward inverse zero back fwd tail = ([], (back, tail))
two_chains forward inverse (suc rounds) back fwd tail =
    let b = get_or forward back 0 in
    let f = get_or inverse fwd 0 in
    let rest = two_chains forward inverse rounds (b / 256) (f / 256) (b % 256 ∷ tail) in
    (f % 256 ∷ rest.0, rest.1)

unfoldable pub walk_both : List ℕ → ℕ → ℕ → List ℕ
unfolding invert two_chains
walk_both forward n primary =
    let inverse = invert 0 forward (replicate n 0) in
    let found = two_chains forward inverse (n / 2) primary primary [] in
    let middle = if n % 2 == 1 then get_or forward found.1.0 0 % 256 ∷ [] else [] in
    found.0 ++ (middle ++ found.1.1)

unfoldable pub bwt_decode_with : List ℕ → ℕ → ℕ → ℕ → Option (List ℕ)
unfolding lf_table walk_arrays pack walk_packed walk_both
bwt_decode_with [] primary chain_min packed_max = some []
bwt_decode_with (b ∷ rest) primary chain_min packed_max =
    let bwt = b ∷ rest in
    let n = length bwt in
    let lf = lf_table bwt in
    if leb n primary
    then none
    else if ltb packed_max n
    then some (walk_arrays bwt lf n primary [])
    else if leb n chain_min
    then some (walk_packed (pack lf bwt) n primary [])
    else some (walk_both (pack lf bwt) n primary)

unfoldable pub bwt_decode : List ℕ → ℕ → Option (List ℕ)
unfolding bwt_decode_with
bwt_decode bwt primary = bwt_decode_with bwt primary two_chain_min max_packed_lf

unfoldable pub bwt_mtf_encode_parts : (List ℕ → Option (List ℕ)) → List ℕ → Result (ℕ × List ℕ)
unfolding bwt_encode mtf_encode
bwt_mtf_encode_parts sais bytes = elim (bwt_encode sais bytes) [
  | none ↦ err resource_limit_exceeded
  | some (bwt, primary) ↦ ok (primary, mtf_encode bwt)
]

unfoldable pub bwt_mtf_encode : (List ℕ → Option (List ℕ)) → List ℕ → Result (List ℕ)
unfolding bwt_mtf_encode_parts to_le
bwt_mtf_encode sais bytes = do
  (primary, ranks) ← bwt_mtf_encode_parts sais bytes
  ok (to_le 4 primary ++ ranks)

abbrev pub sized : ℕ → Option (List ℕ) → Result (List ℕ)
sized n none = err decompression
sized n (some original) = if length original == n then ok original else err decompression

unfoldable pub bwt_mtf_decode_parts : ℕ → List ℕ → ℕ → Result (List ℕ)
unfolding mtf_decode bwt_decode
bwt_mtf_decode_parts primary ranks expected_size = do
  guard (leb expected_size max_decompressed_block_size) decompression
  sized expected_size (bwt_decode (mtf_decode ranks) primary)

unfoldable pub bwt_mtf_decode : List ℕ → ℕ → Result (List ℕ)
unfolding from_le bwt_mtf_decode_parts
bwt_mtf_decode encoded expected_size = do
  guard (leb expected_size max_decompressed_block_size) decompression
  guard (leb 4 (length encoded)) decompression
  guard (length (drop 4 encoded) == expected_size) decompression
  bwt_mtf_decode_parts (from_le (take 4 encoded)) (drop 4 encoded) expected_size
