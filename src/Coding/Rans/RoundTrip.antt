-- ===== src/Coding/Rans/RoundTrip.antt =====
-- A block that is encoded with a lawful predictor is decoded with it.
use aether_arch.Base.{
  ℕ, suc, ◌≤◌, ◌≡◌, refl, sym, ap, ◌∙◌, Bool, true, false, List, [], ◌∷◌, length, arith, IsBytes,
  le→leb, if◌then◌else◌,
}
use mathlib.Core.Path.{subst}
use aether_arch.Errors.{Result, ok, err, ◌>>=◌}
use aether_arch.Entropy.{Predictor, IsLawful}
use aether_arch.Coding.Rans.Encoder
use aether_arch.Coding.Rans.Encoder.{RangeEncoder, start}
use aether_arch.Coding.Rans.Decoder
use aether_arch.Coding.Rans.Decoder.{RangeDecoder, pull}
use aether_arch.Coding.Rans.Blocks.{
  max_decode_size, encode_loop, encode_block_inner, encode_block, encode_block_continuing,
  decode_loop, decode_block_inner, decode_block, decode_block_continuing,
}
use aether_arch.Coding.Rans.Steps.{IsReady, Leads, IsBehind}
use aether_arch.Coding.Rans.Loops.{Clean, renormalize-Clean}
use aether_arch.Coding.Rans.Intervals.{
  encode_interval-Kept, encode_interval-Leads, encode_interval-IsBehind,
}
use aether_arch.Coding.Rans.Finish.{finish-Leads, finish-Clean}

pub start-IsReady : IsReady start
start-IsReady = record {
  sound = record {
    clean = refl;
    bytes = tt;
    pending = omega arith;
    cache_byte = omega arith;
    open_room = omega arith;
    one_carry = omega arith;
    no_wrap = λ full. omega arith;
  };
  wide = omega arith;
  fits = omega arith;
}

-- The first five bytes.
new-IsBehind : (stream : List ℕ) → Leads stream start → IsBehind stream start (Decoder.new stream)
unfolding Decoder.new Decoder.pull_many pull
new-IsBehind (a ∷ b ∷ c ∷ d ∷ e ∷ rest) w = record {
  range = refl;
  rest = refl;
  code = omega (arith, w.below);
  no_overread = refl;
}
new-IsBehind [] w = absurd (omega (arith, w.enough))
new-IsBehind (a ∷ []) w = absurd (omega (arith, w.enough))
new-IsBehind (a ∷ b ∷ []) w = absurd (omega (arith, w.enough))
new-IsBehind (a ∷ b ∷ c ∷ []) w = absurd (omega (arith, w.enough))
new-IsBehind (a ∷ b ∷ c ∷ d ∷ []) w = absurd (omega (arith, w.enough))

abbrev paired {ℓ} : {S : Type ℓ} → List ℕ → S → Result (List ℕ × S)
paired bytes s = ok (bytes, s)

ok_pair_inv {ℓ} :
    {S : Type ℓ} (xs ys : List ℕ) (s s' : S) → paired xs s ≡ paired ys s' → (xs ≡ ys) × (s ≡ s')
ok_pair_inv xs ys s s' h = (cc h, cc h)

bind_pair_inv {ℓ} :
    {S : Type ℓ} (m : Result (List ℕ)) (st : S) (ys : List ℕ) (s' : S)
    → (m >>= λ (bytes : List ℕ). paired bytes st) ≡ paired ys s'
    → (m ≡ ok ys) × (st ≡ s')
bind_pair_inv (ok bytes) st ys s' h =
    let (same, state) = ok_pair_inv bytes ys st s' h in (ap ok same, state)
bind_pair_inv (err e) st ys s' h = absurd (cc h)

interval-Clean : (lo hi : ℕ) (e : RangeEncoder) → Clean (Encoder.encode_interval lo hi e) → Clean e
unfolding Encoder.encode_interval Encoder.narrow
interval-Clean lo hi e clean = renormalize-Clean 3 (Encoder.narrow lo hi e) clean

module _ {S : Type 0} (p : Predictor S) {Good : S → Type 0} (lawful : IsLawful p Good) where
  encode_loop-Clean :
      (xs : List ℕ) (e : RangeEncoder) (s : S) → Clean (encode_loop p xs e s).0 → Clean e
  unfolding encode_loop
  encode_loop-Clean [] e s clean = clean
  encode_loop-Clean (x ∷ xs) e s clean =
      let queried = p.query_cdf s x in
      interval-Clean queried.0.0 queried.0.1 e (
        encode_loop-Clean xs (Encoder.encode_interval queried.0.0 queried.0.1 e)
          (p.update queried.1 x) clean)

  -- A round of the decoder that resolves a symbol.
  decode_step :
      (n x : ℕ) (interval : ℕ × ℕ) (d : RangeDecoder) (s s' : S)
      → p.decode_symbol s (Decoder.decode_freq d).1 ≡ ((x, interval), s')
      → decode_loop p (suc n) d s ≡ (
        x
            ∷ (decode_loop p n
                (Decoder.advance (Decoder.decode_freq d).0 interval.0 interval.1 d)
                (p.update s' x)).0,
        (decode_loop p n
            (Decoder.advance (Decoder.decode_freq d).0 interval.0 interval.1 d)
            (p.update s' x)).1,
      )
  unfolding decode_loop
  decode_step n x interval d s s' resolved =
      ap
        (λ (found : (ℕ × (ℕ × ℕ)) × S).
          let rest =
            decode_loop p n (Decoder.advance (Decoder.decode_freq d).0 found.0.1.0 found.0.1.1 d)
              (p.update found.1 found.0.0) in
          (found.0.0 ∷ rest.0, rest.1))
        resolved

  -- What decoding makes of a stream, when the decoder is behind an encoder that has yet to write `xs`.
  abbrev Decodes : List ℕ → RangeEncoder → S → List ℕ → Type 0
  Decodes xs e s stream =
      (d : RangeDecoder)
      → IsBehind stream e d
      → ((decode_loop p (length xs) d s).0 ≡ xs)
        × ((decode_loop p (length xs) d s).1.0.eof_overread ≡ 0)
        × ((decode_loop p (length xs) d s).1.1 ≡ (encode_loop p xs e s).1)

  decode-encode_loop :
      (xs : List ℕ) (e : RangeEncoder) (s : S) (stream : List ℕ)
      → IsReady e
      → Good s
      → IsBytes xs
      → Encoder.finish (encode_loop p xs e s).0 ≡ ok stream
      → IsBytes stream × Leads stream e × Decodes xs e s stream
  unfolding encode_loop decode_loop
  decode-encode_loop [] e s stream ready good h done =
      let (bytes, leads, size, clean) = finish-Leads e stream ready done in
      (bytes, leads, λ d follows. (refl, follows.no_overread, refl))
  decode-encode_loop (x ∷ xs) e s stream ready good (hx, h) done =
      let lo = (p.query_cdf s x).0.0 in
      let hi = (p.query_cdf s x).0.1 in
      let s' = p.update (p.query_cdf s x).1 x in
      let e' = Encoder.encode_interval lo hi e in
      let (order, inside) = lawful.interval s x hx good in
      let clean : Clean e' =
        encode_loop-Clean xs e' s' (finish-Clean (encode_loop p xs e' s').0 stream done) in
      let kept = encode_interval-Kept e lo hi ready order inside clean in
      let (bytes, leads, decodes) =
        decode-encode_loop xs e' s' stream kept.ready (lawful.update-Good s x hx good) h done in
      (
        bytes,
        encode_interval-Leads e lo hi ready order inside clean stream bytes leads,
        λ d follows.
            let (least, most, behind) =
              encode_interval-IsBehind e lo hi ready order inside clean stream d bytes leads
                follows in
            let resolved = lawful.decode s x (Decoder.decode_freq d).1 hx good least most in
            let (same, no_overread, state) =
              decodes (Decoder.advance (Decoder.decode_freq d).0 lo hi d) behind in
            subst
              (λ (out : List ℕ × (RangeDecoder × S)).
                (out.0 ≡ x ∷ xs)
                × (out.1.0.eof_overread ≡ 0)
                × (out.1.1 ≡ (encode_loop p xs e' s').1))
              (sym (decode_step (length xs) x (lo, hi) d s (p.query_cdf s x).1 resolved))
              (ap (λ t. x ∷ t) same, no_overread, state),
      )

  abbrev first_state : Bool → S → S
  first_state reset s = if reset then p.reset s else s

  decode_block_lem :
      (reset : Bool) (s s' : S) (n : ℕ) (xs ys : List ℕ)
      → 5 ≤ length ys
      → suc n ≤ max_decode_size
      → (decode_loop p (suc n) (Decoder.new ys) (first_state reset s)).0 ≡ xs
      → (decode_loop p (suc n) (Decoder.new ys) (first_state reset s)).1.0.eof_overread ≡ 0
      → (decode_loop p (suc n) (Decoder.new ys) (first_state reset s)).1.1 ≡ s'
      → decode_block_inner p ys (suc n) reset s ≡ ok (xs, s')
  unfolding decode_block_inner
  decode_block_lem reset s s' n xs [] long small e0 e1 e2 = absurd (omega (arith, long))
  decode_block_lem reset s s' n xs (y ∷ ys) long small e0 e1 e2 =
      rw (le→leb (suc n) max_decode_size small) (rw (e0, e1, e2))

  coded_eq :
      (x : ℕ) (xs : List ℕ) (reset : Bool) (s : S)
      → (Encoder.finish (encode_loop p (x ∷ xs) start (first_state reset s)).0 >>= λ bytes.
          ok (bytes, (encode_loop p (x ∷ xs) start (first_state reset s)).1))
        ≡ encode_block_inner p (x ∷ xs) reset s
  unfolding encode_block_inner
  coded_eq x xs reset s = refl

  -- The two blocks, for either value of `reset`.
  block_lem :
      (x : ℕ) (xs : List ℕ) (reset : Bool) (s s' : S) (ys : List ℕ)
      → Good (first_state reset s)
      → IsBytes (x ∷ xs)
      → length (x ∷ xs) ≤ max_decode_size
      → encode_block_inner p (x ∷ xs) reset s ≡ ok (ys, s')
      → decode_block_inner p ys (length (x ∷ xs)) reset s ≡ ok (x ∷ xs, s')
  block_lem x xs reset s s' ys good h small done =
      let coded = encode_loop p (x ∷ xs) start (first_state reset s) in
      let (finished, state) =
        bind_pair_inv (Encoder.finish coded.0) coded.1 ys s' (coded_eq x xs reset s ∙ done) in
      let (bytes, leads, decodes) =
        decode-encode_loop (x ∷ xs) start (first_state reset s) ys start-IsReady good h finished in
      let (same, no_overread, state') = decodes (Decoder.new ys) (new-IsBehind ys leads) in
      decode_block_lem reset s s' (length xs) (x ∷ xs) ys (omega (arith, leads.enough)) small same
        no_overread (state' ∙ state)

  -- What `encode_block` makes of bytes, no more than a block may hold, `decode_block` with their number
  -- and the same predictor gives back, and leaves the predictor in the state that the encoder left it in.
  pub decode_block-encode_block :
      (xs : List ℕ) (s s' : S) (ys : List ℕ)
      → IsBytes xs
      → length xs ≤ max_decode_size
      → encode_block p xs s ≡ ok (ys, s')
      → decode_block p ys (length xs) s ≡ ok (xs, s')
  unfolding encode_block decode_block
  decode_block-encode_block [] s s' ys h small done =
      ap (λ t. ok ([], t)) (ok_pair_inv [] ys s s' done).1
  decode_block-encode_block (x ∷ xs) s s' ys h small done =
      block_lem x xs true s s' ys (lawful.reset-Good s) h small done

  -- What `encode_block_continuing` makes of bytes, no more than a block may hold, with a lawful
  -- predictor in a state that its laws hold of, `decode_block_continuing` with their number gives
  -- back from the same state, and leaves the predictor in the state that the encoder left it in.
  pub decode_block_continuing-encode_block_continuing :
      (xs : List ℕ) (s s' : S) (ys : List ℕ)
      → Good s
      → IsBytes xs
      → length xs ≤ max_decode_size
      → encode_block_continuing p xs s ≡ ok (ys, s')
      → decode_block_continuing p ys (length xs) s ≡ ok (xs, s')
  unfolding encode_block_continuing decode_block_continuing
  decode_block_continuing-encode_block_continuing [] s s' ys good h small done =
      ap (λ t. ok ([], t)) (ok_pair_inv [] ys s s' done).1
  decode_block_continuing-encode_block_continuing (x ∷ xs) s s' ys good h small done =
      block_lem x xs false s s' ys good h small done
