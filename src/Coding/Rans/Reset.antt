-- ===== src/Coding/Rans/Reset.antt =====
-- Blocks coded one after another with one predictor that each of them resets: what a block becomes
-- depends on the state only through its reset.
use aether_arch.Base.{ℕ, suc, ◌≤◌, ◌≡◌, refl, sym, ap, ◌∙◌, List, [], ◌∷◌, length, leb, IsBytes}
use mathlib.Core.Path.{subst}
use aether_arch.Errors.{Result, ok, err, decompression, guard, ◌>>=◌, ◌>>◌}
use aether_arch.Entropy.{Predictor, IsLawful}
use aether_arch.Coding.Rans.Encoder
use aether_arch.Coding.Rans.Decoder
use aether_arch.Coding.Rans.Blocks.{
  max_decode_size, encode_loop, encode_block, encode_block_inner, decode_block, decode_block_inner,
  decode_loop,
}
use aether_arch.Coding.Rans.RoundTrip.{decode_block-encode_block}

-- Coding does not change what the predictor is reset to, up to what the next symbol rewrites: states
-- that are alike decode a symbol alike, and are the same state behind it.
pub record ResetsAlike {S : Type 0} (p : Predictor S) (Alike : S → S → Type 0) : Type 0 where
  pub same : (s : S) → Alike s s
  pub joined : (s t u : S) → Alike s t → Alike t u → Alike s u
  pub decode : (s t : S) (freq : ℕ) → Alike s t → p.decode_symbol s freq ≡ p.decode_symbol t freq
  pub reset_reset : (s : S) → Alike (p.reset (p.reset s)) (p.reset s)
  pub reset_update : (s : S) (b : ℕ) → Alike (p.reset (p.update (p.query_cdf s b).1 b)) (p.reset s)

module _ {S : Type 0} (p : Predictor S) {Good : S → Type 0} {Alike : S → S → Type 0}
    (lawful : IsLawful p Good) (alike : ResetsAlike p Alike) where
  reset-encode_loop :
      (xs : List ℕ) (e : Encoder.RangeEncoder) (s : S)
      → Alike (p.reset (encode_loop p xs e s).1) (p.reset s)
  unfolding encode_loop
  reset-encode_loop [] e s = alike.same (p.reset s)
  reset-encode_loop (x ∷ xs) e s =
      let s' = p.update (p.query_cdf s x).1 x in
      let e' = Encoder.encode_interval (p.query_cdf s x).0.0 (p.query_cdf s x).0.1 e in
      alike.joined (p.reset (encode_loop p xs e' s').1) (p.reset s') (p.reset s)
        (reset-encode_loop xs e' s') (alike.reset_update s x)

  abbrev beside : Result (List ℕ) → S → Result (List ℕ × S)
  beside m s = m >>= λ bytes. ok (bytes, s)

  state_of : (m : Result (List ℕ)) (s s' : S) (ys : List ℕ) → beside m s ≡ ok (ys, s') → s ≡ s'
  state_of (ok bytes) s s' ys e = cc e
  state_of (err reason) s s' ys e = absurd (cc e)

  pub reset-encode_block :
      (xs : List ℕ) (s s' : S) (ys : List ℕ)
      → encode_block p xs s ≡ ok (ys, s')
      → Alike (p.reset s') (p.reset s)
  unfolding encode_block encode_block_inner
  reset-encode_block [] s s' ys done =
      let e : s ≡ s' = cc done in
      subst (λ t. Alike (p.reset t) (p.reset s)) e (alike.same (p.reset s))
  reset-encode_block (x ∷ xs) s s' ys done =
      let coded = encode_loop p (x ∷ xs) Encoder.start (p.reset s) in
      let e = state_of (Encoder.finish coded.0) coded.1 s' ys done in
      subst (λ t. Alike (p.reset t) (p.reset s)) e
        (alike.joined (p.reset coded.1) (p.reset (p.reset s)) (p.reset s)
          (reset-encode_loop (x ∷ xs) Encoder.start (p.reset s)) (alike.reset_reset s))

  same_loop :
      (n : ℕ) (d : Decoder.RangeDecoder) (s t : S)
      → Alike s t
      → decode_loop p (suc n) d s ≡ decode_loop p (suc n) d t
  unfolding decode_loop
  same_loop n d s t h = rw (alike.decode s t (Decoder.decode_freq d).1 h) refl

  abbrev checked : ℕ → List ℕ × (Decoder.RangeDecoder × S) → Result (List ℕ × S)
  checked n decoded = do
    guard (leb n max_decode_size) decompression
    guard (leb decoded.1.0.eof_overread 5) decompression
    ok (decoded.0, decoded.1.1)

  same_decoding :
      (ys : List ℕ) (n : ℕ) (s t : S)
      → Alike (p.reset s) (p.reset t)
      → decode_block p ys (suc n) s ≡ decode_block p ys (suc n) t
  unfolding decode_block decode_block_inner
  same_decoding [] n s t h = refl
  same_decoding (y ∷ ys) n s t h =
      ap (checked (suc n)) (same_loop n (Decoder.new (y ∷ ys)) (p.reset s) (p.reset t) h)

  -- A decoder with another predictor that is reset to a state alike gives the block back.
  pub decode_block-fresh :
      (xs : List ℕ) (s s' t : S) (ys : List ℕ)
      → Alike (p.reset s) (p.reset t)
      → IsBytes xs
      → length xs ≤ max_decode_size
      → encode_block p xs s ≡ ok (ys, s')
      → (t' : S) × (decode_block p ys (length xs) t ≡ ok (xs, t'))
  decode_block-fresh [] s s' t ys e h small done = (t, unfold decode_block in refl)
  decode_block-fresh (x ∷ xs) s s' t ys e h small done = (
    s',
    sym (same_decoding ys (length xs) s t e)
        ∙ decode_block-encode_block p lawful (x ∷ xs) s s' ys h small done,
  )
