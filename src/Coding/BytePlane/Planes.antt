-- ===== src/Coding/BytePlane/Planes.antt =====
-- The planes of a payload, coded and decoded one by one.
use aether_arch.Base.{
  ℕ, suc, ◌*◌, ◌/◌, ◌%◌, ◌^◌, ◌≤◌, ◌<◌, ◌≡◌, refl, sym, ap, ◌∙◌, Bool, true, false, ◌&&◌, List, [],
  ◌∷◌, ◌++◌, map, length, arith, All, IsBytes, ◌⊎◌, inl, inr, Bool-cases, lt→ltb, ==_iff,
  if◌then◌else◌, ltb, ◌==◌, take-append, drop-append, append_assoc,
}
use aether_arch.Errors.{AetherError, Result, ok, err, decompression}
use aether_arch.Coding.BytePlane.{
  PlaneCoder, Entropies, max_decompressed_block_size, delta_decode, should_delta, maybe_delta, mask,
  encode_one, encode_planes, compressed, decode_plane, decode_planes, concat,
}
use aether_arch.Coding.BytePlane.Delta.{
  delta_decode-delta_encode, maybe_delta-IsBytes, length-maybe_delta,
}

pub mask_head : (b : Bool) (bs : List Bool) → mask (b ∷ bs) % 2 ≡ (if b then 1 else 0)
mask_head b bs = unfold mask in ground arith

pub mask_tail : (b : Bool) (bs : List Bool) → mask (b ∷ bs) / 2 ≡ mask bs
mask_tail b bs = unfold mask in ground arith

pub mask_bound : (bs : List Bool) → mask bs < 2 ^ length bs
unfolding mask
mask_bound [] = omega arith
mask_bound (b ∷ bs) =
    let step : 2 ^ suc (length bs) ≡ 2 * 2 ^ length bs = omega arith in
    ground (arith, mask_bound bs, step)

Result-cases {ℓ} :
    {T : Type ℓ} (r : Result T) → ((v : T) × (r ≡ ok v)) ⊎ ((e : AetherError) × (r ≡ err e))
Result-cases (ok v) = inl (v, refl)
Result-cases (err e) = inr (e, refl)

-- The delta bit of a plane undoes its delta coding.
undone :
    (entropies : Entropies) (deltas : ℕ) (q : List ℕ)
    → IsBytes q
    → deltas % 2 ≡ (if should_delta entropies q then 1 else 0)
    → (if deltas % 2 == 1 then delta_decode (maybe_delta entropies q) else maybe_delta entropies q)
      ≡ q
undone entropies deltas q h e = elim (Bool-cases (should_delta entropies q)) [
  | inl on ↦ unfold maybe_delta in rw (e, on) (delta_decode-delta_encode q h)
  | inr off ↦ unfold maybe_delta in rw (e, off)
]

module _ (coder : PlaneCoder) where
  -- What became of a plane: it is stored as it is, or as smaller code that its bit allows.
  abbrev Outcome : ℕ → List ℕ → Type 0
  Outcome rc_flags p =
      (encode_one coder rc_flags p ≡ p)
      ⊎ ((rc_flags % 2 == 1) ≡ true)
        × (coder.encode p ≡ ok (encode_one coder rc_flags p))
        × (length (encode_one coder rc_flags p) < length p)

  encode_one_off :
      (rc_flags : ℕ) (p : List ℕ) → (rc_flags % 2 == 1) ≡ false → encode_one coder rc_flags p ≡ p
  unfolding encode_one
  encode_one_off rc_flags p off = rw off

  encode_one_err :
      (rc_flags : ℕ) (p : List ℕ) (e : AetherError)
      → (rc_flags % 2 == 1) ≡ true
      → coder.encode p ≡ err e
      → encode_one coder rc_flags p ≡ p
  unfolding encode_one
  encode_one_err rc_flags p e on failed = rw (on, failed)

  encode_one_ok :
      (rc_flags : ℕ) (p coded : List ℕ)
      → (rc_flags % 2 == 1) ≡ true
      → coder.encode p ≡ ok coded
      → encode_one coder rc_flags p ≡ (if ltb (length coded) (length p) then coded else p)
  unfolding encode_one
  encode_one_ok rc_flags p coded on done = rw (on, done)

  encode_one-Outcome : (rc_flags : ℕ) (p : List ℕ) → Outcome rc_flags p
  encode_one-Outcome rc_flags p = elim (Bool-cases (rc_flags % 2 == 1)) [
    | inr off ↦ inl (encode_one_off rc_flags p off)
    | inl on ↦ elim (Result-cases (coder.encode p)) [
      | inr (e, failed) ↦ inl (encode_one_err rc_flags p e on failed)
      | inl (coded, done) ↦ elim (Bool-cases (ltb (length coded) (length p))) [
        | inl smaller ↦
            let e : encode_one coder rc_flags p ≡ coded =
              encode_one_ok rc_flags p coded on done ∙ rw smaller in
            inr (on, rw e done, rw e (ground arith))
        | inr larger ↦ inl (encode_one_ok rc_flags p coded on done ∙ rw larger)
      ]
    ]
  ]

  pub length-encode_one :
      (rc_flags : ℕ) (p : List ℕ) → length (encode_one coder rc_flags p) ≤ length p
  length-encode_one rc_flags p = elim (encode_one-Outcome rc_flags p) [
    | inl same ↦ rw same (omega arith)
    | inr (on, done, smaller) ↦ omega arith
  ]

  -- The bit that the encoder leaves for a plane, and the mask of the planes behind it.
  abbrev smaller_bit : ℕ → List ℕ → Bool
  smaller_bit rc_flags p =
      ltb (length (encode_one coder rc_flags p)) (length p) && rc_flags % 2 == 1

  bit_off :
      (rc_flags : ℕ) (p : List ℕ) → encode_one coder rc_flags p ≡ p → smaller_bit rc_flags p ≡ false
  bit_off rc_flags p same =
      let e : ltb (length p) (length p) ≡ false = ground arith in rw same (rw e)

  bit_on :
      (rc_flags : ℕ) (p : List ℕ)
      → (rc_flags % 2 == 1) ≡ true
      → length (encode_one coder rc_flags p) < length p
      → smaller_bit rc_flags p ≡ true
  bit_on rc_flags p on smaller = rw (on, lt→ltb _ _ smaller)

  -- What the decoder fetches for a plane is what the encoder coded or stored.
  fetch_plane :
      (n rc_flags actual : ℕ) (p : List ℕ)
      → IsBytes p
      → length p ≡ n
      → n ≤ max_decompressed_block_size
      → actual % 2 ≡ (if smaller_bit rc_flags p then 1 else 0)
      → (if actual % 2 == 1
          then coder.decode (encode_one coder rc_flags p) n
          else if length (encode_one coder rc_flags p) == n
          then ok (encode_one coder rc_flags p)
          else err decompression)
        ≡ ok p
  fetch_plane n rc_flags actual p h len small e = elim (encode_one-Outcome rc_flags p) [
    | inl same ↦
        let zero_bit : actual % 2 ≡ 0 = e ∙ rw (bit_off rc_flags p same) in
        let fits : (length p == n) ≡ true = (==_iff (length p) n).1 len in
        rw zero_bit (rw same (rw fits))
    | inr (on, done, smaller) ↦
        let one_bit : actual % 2 ≡ 1 = e ∙ rw (bit_on rc_flags p on smaller) in
        rw one_bit (rw (sym len) (coder.decode-encode p _ h (rw len small) done))
  ]

  -- A plane with its own two bits decodes to the plane before its delta coding.
  decode_plane-encode_one :
      (entropies : Entropies) (n rc_flags actual deltas : ℕ) (q : List ℕ)
      → IsBytes q
      → length q ≡ n
      → n ≤ max_decompressed_block_size
      → actual % 2 ≡ (if smaller_bit rc_flags (maybe_delta entropies q) then 1 else 0)
      → deltas % 2 ≡ (if should_delta entropies q then 1 else 0)
      → decode_plane coder n actual deltas (encode_one coder rc_flags (maybe_delta entropies q))
        ≡ ok q
  decode_plane-encode_one entropies n rc_flags actual deltas q h len small e1 e2 =
      let p = maybe_delta entropies q in
      let fetched =
        fetch_plane n rc_flags actual p (maybe_delta-IsBytes entropies q h)
          (length-maybe_delta entropies q ∙ len) small e1 in
      unfold decode_plane in rw fetched (ap ok (undone entropies deltas q h e2))

  -- All planes with their masks: what the encoder wrote for the planes decodes to them.
  pub decode_planes-encode_planes :
      (entropies : Entropies) (n rc_flags actual deltas : ℕ) (qs : List (List ℕ)) (rest : List ℕ)
      → All IsBytes qs
      → All (λ q. length q ≡ n) qs
      → n ≤ max_decompressed_block_size
      → actual ≡ mask (compressed coder rc_flags (map (maybe_delta entropies) qs))
      → deltas ≡ mask (map (should_delta entropies) qs)
      → decode_planes coder n actual deltas
          (map length (encode_planes coder rc_flags (map (maybe_delta entropies) qs)))
          (concat (encode_planes coder rc_flags (map (maybe_delta entropies) qs)) ++ rest)
        ≡ ok (qs, rest)
  unfolding decode_planes encode_planes compressed
  decode_planes-encode_planes entropies n rc_flags actual deltas [] rest h lens small e1 e2 = refl
  decode_planes-encode_planes entropies n rc_flags actual deltas (q ∷ qs) rest (hq, h) (len, lens)
        small e1 e2 =
      let p = maybe_delta entropies q in
      let ps = map (maybe_delta entropies) qs in
      let e = encode_one coder rc_flags p in
      let behind = concat (encode_planes coder (rc_flags / 2) ps) in
      let first : decode_plane coder n actual deltas e ≡ ok q =
        decode_plane-encode_one entropies n rc_flags actual deltas q hq len small
          (rw e1 (mask_head (smaller_bit rc_flags p) (compressed coder (rc_flags / 2) ps)))
          (rw e2 (mask_head (should_delta entropies q) (map (should_delta entropies) qs))) in
      let others =
        decode_planes-encode_planes entropies n (rc_flags / 2) (actual / 2) (deltas / 2) qs rest h
          lens small
          (rw e1 (mask_tail (smaller_bit rc_flags p) (compressed coder (rc_flags / 2) ps)))
          (rw e2 (mask_tail (should_delta entropies q) (map (should_delta entropies) qs))) in
      rw (append_assoc e behind rest) (
        rw
          (
            take-append (length e) e (behind ++ rest) refl,
            drop-append (length e) e (behind ++ rest) refl,
          )
          (rw (first, others)))

  -- No stored plane is longer than the plane.
  pub encode_planes-bound :
      (rc_flags limit : ℕ) (ps : List (List ℕ))
      → All (λ p. length p ≤ limit) ps
      → All (λ e. length e ≤ limit) (encode_planes coder rc_flags ps)
  unfolding encode_planes
  encode_planes-bound rc_flags limit [] h = tt
  encode_planes-bound rc_flags limit (p ∷ ps) (first, h) =
      (omega (arith, length-encode_one rc_flags p), encode_planes-bound (rc_flags / 2) limit ps h)

  pub length-encode_planes :
      (rc_flags : ℕ) (ps : List (List ℕ)) → length (encode_planes coder rc_flags ps) ≡ length ps
  unfolding encode_planes
  length-encode_planes rc_flags [] = refl
  length-encode_planes rc_flags (p ∷ ps) = ap suc (length-encode_planes (rc_flags / 2) ps)

  pub length-compressed :
      (rc_flags : ℕ) (ps : List (List ℕ)) → length (compressed coder rc_flags ps) ≡ length ps
  unfolding compressed
  length-compressed rc_flags [] = refl
  length-compressed rc_flags (p ∷ ps) = ap suc (length-compressed (rc_flags / 2) ps)
