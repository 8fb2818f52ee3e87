-- ===== src/Coding/Bwt/RoundTrip.antt =====
-- The transform and its inverse together, through each of the three walks.
use aether_arch.Base.{
  ℕ, suc, ◌+◌, ◌-◌, ◌^◌, ◌≤◌, ◌<◌, ◌≡◌, refl, ap, ◌∙◌, false, List, [], ◌∷◌, ◌++◌, append-nil,
  length, drop, take-append, get_or, ltb, leb, ◌==◌, if◌then◌else◌, Option, none, some, arith,
  IsBytes, Bool-cases, inl, inr, ==_iff, length-map,
}
use aether_arch.Coding.Bwt.{
  max_bwt_input_size, bwt_encode, bwt_decode_with, lf_table, walk_arrays, walk_packed, walk_both,
  pack,
}
use aether_arch.Coding.Bwt.Counting.{bit, count}
use aether_arch.Coding.Bwt.Reads.{get_or-map}
use aether_arch.Coding.Bwt.Rows.{AreRows}
use aether_arch.Coding.Bwt.Rotations.{IsSuffixArray}
use aether_arch.Coding.Bwt.Walks.{same, walk_arrays-row, walk_packed-walk_arrays}
use aether_arch.Coding.Bwt.Chains.{walk_both-row}
use aether_arch.Coding.Bwt.Encoded.{
  find, places, rows, around, bytes_before, once, length-places, rows-AreRows, scan-find,
}

find_other :
    (ps : List ℕ) (rank primary : ℕ) → count (λ p. p == 0) ps ≡ 0 → find ps rank primary ≡ primary
find_other [] rank primary absent = refl
find_other (p ∷ ps) rank primary absent = elim (Bool-cases (p == 0)) [
  | inl here ↦ let one : bit (p == 0) ≡ 1 = rw here in absurd (omega (arith, one))
  | inr away ↦ rw away (find_other ps (rank + 1) primary (omega arith))
]

-- The scan finds the one place where the text starts.
find_zero :
    (ps : List ℕ) (rank primary : ℕ)
    → count (λ p. p == 0) ps ≡ 1
    → (i : ℕ) × (i < length ps) × (get_or ps i 0 ≡ 0) × (find ps rank primary ≡ rank + i)
find_zero [] rank primary one = absurd (omega arith)
find_zero (p ∷ ps) rank primary one = elim (Bool-cases (p == 0)) [
  | inl here ↦
      let found : bit (p == 0) ≡ 1 = rw here in
      let e : find (p ∷ ps) rank primary ≡ rank + 0 =
        rw here (find_other ps (rank + 1) rank (omega (arith, found)) ∙ omega arith) in
      (0, omega arith, (==_iff p 0).0 here, e)
  | inr away ↦
      let missed : bit (p == 0) ≡ 0 = rw away in
      let (i, lt, at, e) = find_zero ps (rank + 1) primary (omega (arith, missed)) in
      (suc i, omega arith, at, rw away (omega (arith, e)))
]

module _ (n : ℕ) (rows : List (List ℕ)) (bwt : List ℕ) (h : AreRows n rows bwt) (primary : ℕ)
    (lt : primary < n) where
  whole : walk_arrays bwt (lf_table bwt) (length bwt) primary [] ≡ get_or rows primary []
  whole =
      let start : n - n ≡ 0 = omega arith in
      ap (λ k. walk_arrays bwt (lf_table bwt) k primary []) (same n rows bwt h)
      ∙ walk_arrays-row n rows bwt h n primary [] (omega arith) lt
      ∙ append-nil (drop (n - n) (get_or rows primary []))
      ∙ ap (λ k. drop k (get_or rows primary [])) start

  packed :
      n ≤ 2 ^ 24
      → walk_packed (pack (lf_table bwt) bwt) (length bwt) primary [] ≡ get_or rows primary []
  packed small = walk_packed-walk_arrays n rows bwt h small (length bwt) primary [] lt ∙ whole

  both :
      n ≤ 2 ^ 24 → walk_both (pack (lf_table bwt) bwt) (length bwt) primary ≡ get_or rows primary []
  both small =
      ap (λ k. walk_both (pack (lf_table bwt) bwt) k primary) (same n rows bwt h)
      ∙ walk_both-row n rows bwt h small primary lt

  -- Whatever the thresholds choose, the inverse gives the row that it is asked for.
  decode_row :
      (chain_min packed_max : ℕ)
      → packed_max ≤ 2 ^ 24
      → (if leb (length bwt) primary
          then none
          else if ltb packed_max (length bwt)
          then some (walk_arrays bwt (lf_table bwt) (length bwt) primary [])
          else if leb (length bwt) chain_min
          then some (walk_packed (pack (lf_table bwt) bwt) (length bwt) primary [])
          else some (walk_both (pack (lf_table bwt) bwt) (length bwt) primary))
        ≡ some (get_or rows primary [])
  decode_row chain_min packed_max small =
      let size = same n rows bwt h in
      let inside : leb (length bwt) primary ≡ false = ground (arith, lt, size) in
      elim (Bool-cases (ltb packed_max (length bwt))) [
        | inl large ↦ rw (inside, large) (ap some whole)
        | inr fits ↦
            let room : n ≤ 2 ^ 24 = ground (arith, fits, size, small) in
            elim (Bool-cases (leb (length bwt) chain_min)) [
              | inl short ↦ rw (inside, fits, short) (ap some (packed room))
              | inr long ↦ rw (inside, fits, long) (ap some (both room))
            ]
      ]

decode_rows :
    (n : ℕ) (rows : List (List ℕ)) (bwt : List ℕ)
    → AreRows n rows bwt
    → (primary chain_min packed_max : ℕ) → primary < n
    → packed_max ≤ 2 ^ 24
    → bwt_decode_with bwt primary chain_min packed_max ≡ some (get_or rows primary [])
unfolding bwt_decode_with
decode_rows n rows [] h primary chain_min packed_max lt small =
    absurd (omega (arith, same n rows [] h))
decode_rows n rows (b ∷ rest) h primary chain_min packed_max lt small =
    decode_row n rows (b ∷ rest) h primary lt chain_min packed_max small

-- What the transform writes is as long as the text, in bytes, and the inverse gives the text back.
abbrev pub Inverts : (List ℕ → Option (List ℕ)) → List ℕ → Type 0
Inverts sais text =
    (bwt : List ℕ) × (primary : ℕ) × (bwt_encode sais text ≡ some (bwt, primary))
    × (length bwt ≡ length text)
    × (primary ≤ length text)
    × IsBytes bwt
    × ((chain_min packed_max : ℕ)
        → packed_max ≤ 2 ^ 24
        → bwt_decode_with bwt primary chain_min packed_max ≡ some text)

one_byte : (b : ℕ) → b < 256 → AreRows 1 ((b ∷ []) ∷ []) (b ∷ [])
one_byte b small = record {
  number = refl;
  width = (refl, tt);
  sorted = (tt, tt);
  lasts = refl;
  bytes = (small, tt);
  closed = λ f. refl;
}

-- With the suffix array of the doubled text, the scan finds the text's own row.
module _ (text sa : List ℕ) (h : IsSuffixArray (text ++ text) sa)
    (some_text : 0 < length text) where
  abbrev primary_of : ℕ
  primary_of = find (places text sa h) 0 0

  primary_row : (primary_of < length text) × (get_or (rows text sa h) primary_of [] ≡ text)
  primary_row =
      let (i, lt, at, e) = find_zero (places text sa h) 0 0 (once text sa h 0 some_text) in
      let primary_at : primary_of ≡ i = omega (arith, e) in
      (
        omega (arith, primary_at, lt, length-places text sa h),
        ap (λ r. get_or (rows text sa h) r []) primary_at
            ∙ get_or-map (around text sa h) (places text sa h) i lt
            ∙ ap (around text sa h) at
            ∙ take-append (length text) text text refl,
      )

  inverts_sorted :
      IsBytes text
      → (chain_min packed_max : ℕ) → packed_max ≤ 2 ^ 24
      → bwt_decode_with (bytes_before text sa h) primary_of chain_min packed_max ≡ some text
  inverts_sorted bytes chain_min packed_max small =
      let (lt, e) = primary_row in
      decode_rows (length text) (rows text sa h) (bytes_before text sa h)
        (rows-AreRows text sa h bytes) primary_of chain_min packed_max lt small
      ∙ ap some e

pub bwt_encode-Inverts :
    (sais : List ℕ → Option (List ℕ)) (text sa : List ℕ)
    → sais (text ++ text) ≡ some sa
    → IsSuffixArray (text ++ text) sa
    → IsBytes text
    → length text ≤ max_bwt_input_size
    → Inverts sais text
unfolding bwt_encode
bwt_encode-Inverts sais [] sa found h bytes fits = (
  [],
  0,
  refl,
  refl,
  omega arith,
  tt,
  λ chain_min packed_max small. unfold bwt_decode_with in refl,
)
bwt_encode-Inverts sais (b ∷ []) sa found h (small, bytes) fits = (
  b ∷ [],
  0,
  refl,
  refl,
  omega arith,
  (small, tt),
  λ chain_min packed_max le.
      decode_rows 1 ((b ∷ []) ∷ []) (b ∷ []) (one_byte b small) 0 chain_min packed_max (omega arith)
        le,
)
bwt_encode-Inverts sais (b ∷ c ∷ rest) sa found h bytes fits =
    let text = b ∷ c ∷ rest in
    let within : ltb max_bwt_input_size (length text) ≡ false = ground (arith, fits) in
    let size = length-places text sa h in
    (
      bytes_before text sa h,
      find (places text sa h) 0 0,
      rw (within, found) (ap some (scan-find text sa h sa 0 0 (omega (arith, size)))),
      length-map (places text sa h) _ ∙ size,
      omega (arith, (primary_row text sa h (omega arith)).0),
      (rows-AreRows text sa h bytes).bytes,
      inverts_sorted text sa h (omega arith) bytes,
    )

-- With a suffix array of the doubled text, for a block of at most 8 MiB: `bwt_encode` returns a
-- transform and an index, and `bwt_decode_with` makes the block of them whatever thresholds choose its
-- walk, where the packed table is used for at most 2^24 bytes.
pub bwt_decode_with-bwt_encode :
    (sais : List ℕ → Option (List ℕ)) (text sa : List ℕ) (chain_min packed_max : ℕ)
    → sais (text ++ text) ≡ some sa
    → IsSuffixArray (text ++ text) sa
    → IsBytes text
    → length text ≤ max_bwt_input_size
    → packed_max ≤ 2 ^ 24
    → (bwt : List ℕ) × (primary : ℕ) × (bwt_encode sais text ≡ some (bwt, primary))
      × (bwt_decode_with bwt primary chain_min packed_max ≡ some text)
bwt_decode_with-bwt_encode sais text sa chain_min packed_max found h bytes fits small =
    let (bwt, primary, e, size, primary_small, small_bytes, back) =
      bwt_encode-Inverts sais text sa found h bytes fits in
    (bwt, primary, e, back chain_min packed_max small)
