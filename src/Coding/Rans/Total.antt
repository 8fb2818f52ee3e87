-- ===== src/Coding/Rans/Total.antt =====
-- Blocks below 8 MiB never fill the encoder's cache, so that encoding them succeeds.
use aether_arch.Base.{
  ℕ, zero, suc, ◌+◌, ◌-◌, ◌*◌, ◌^◌, ◌≤◌, ◌<◌, ◌≡◌, refl, sym, ap, ◌∙◌, false, List, [], ◌∷◌, length,
  arith, IsBytes, ltb, Bool-cases, inl, inr,
}
use mathlib.Core.Path.{subst}
use native.Mathlib.Decide.{dec_lt}
use aether_arch.Errors.{ok, ◌>>=◌}
use aether_arch.Entropy.{Predictor, IsLawful}
use aether_arch.Coding.Rans.{top}
use aether_arch.Coding.Rans.Encoder
use aether_arch.Coding.Rans.Encoder.{
  RangeEncoder, start, settle, flush_cache, count, shift_low, flush,
}
use aether_arch.Coding.Rans.Blocks.{encode_loop, encode_block_inner, encode_block, decode_block}
use aether_arch.Coding.Rans.Value.{waits}
use aether_arch.Coding.Rans.Steps.{IsReady, encoder_round, encoder_more, encoder_done}
use aether_arch.Coding.Rans.Loops.{Clean}
use aether_arch.Coding.Rans.Intervals.{encode_interval-Kept, narrow_fits}
use aether_arch.Coding.Rans.RoundTrip.{start-IsReady, decode_block-encode_block}

-- At most `n` bytes are pending, and the valve has not fired.
pub record IsSmall (n : ℕ) (e : RangeEncoder) : Type 0 where
  pub clean : Clean e
  pub pending : e.cache_size ≤ n

IsSmall-mono : {n m : ℕ} {e : RangeEncoder} → n ≤ m → IsSmall n e → IsSmall m e
IsSmall-mono le s = record { clean = s.clean; pending = omega (arith, le, s.pending) }

settle-IsSmall : (n : ℕ) (e : RangeEncoder) → IsSmall n e → IsSmall n (settle e)
unfolding settle flush_cache
settle-IsSmall n e s = elim (Bool-cases (waits e)) [
  | inl w ↦ rw w record { clean = s.clean; pending = omega arith }
  | inr w ↦ rw w s
]

shift_low-IsSmall :
    (n : ℕ) (e : RangeEncoder) → n < 2 ^ 24 → IsSmall n e → IsSmall (n + 1) (shift_low e)
unfolding shift_low
shift_low-IsSmall n e small s =
    let settled = settle-IsSmall n e s in
    let no_spill : ltb (2 ^ 24) (count (settle e)).cache_size ≡ false =
      ground (arith, settled.pending) in
    rw no_spill record { clean = settled.clean; pending = omega (arith, settled.pending) }

encoder_round-IsSmall :
    (n : ℕ) (e : RangeEncoder) → n < 2 ^ 24 → IsSmall n e → IsSmall (n + 1) (encoder_round e)
encoder_round-IsSmall n e small s =
    let s' = shift_low-IsSmall n e small s in record { clean = s'.clean; pending = s'.pending }

-- A range of 512 or more needs two rounds at most.
renormalize-IsSmall :
    (n : ℕ) (e : RangeEncoder)
    → n + 1 < 2 ^ 24
    → 512 ≤ e.range
    → IsSmall n e
    → IsSmall (n + 2) (Encoder.renormalize 3 e)
renormalize-IsSmall n e small wide s = elim (dec_lt e.range top) [
  | no done ↦
      subst (IsSmall (n + 2)) (sym (encoder_done 3 e (omega arith))) (IsSmall-mono (omega arith) s)
  | yes once ↦
      let e1 = encoder_round e in
      let s1 = encoder_round-IsSmall n e (omega arith) s in
      subst (IsSmall (n + 2)) (sym (encoder_more 2 e once)) (elim (dec_lt e1.range top) [
        | no done ↦
            subst (IsSmall (n + 2)) (sym (encoder_done 2 e1 (omega arith)))
              (IsSmall-mono (omega arith) s1)
        | yes twice ↦
            let e2 = encoder_round e1 in
            let s2 = encoder_round-IsSmall (n + 1) e1 (omega arith) s1 in
            let wide2 : top ≤ e2.range = omega (arith, once, twice, wide) in
            subst (IsSmall (n + 2)) (sym (encoder_more 1 e1 twice ∙ encoder_done 1 e2 wide2))
              (IsSmall-mono (omega arith) s2)
      ])
]

flush-IsSmall :
    (k n : ℕ) (e : RangeEncoder) → n + k ≤ 2 ^ 24 → IsSmall n e → IsSmall (n + k) (flush k e)
unfolding flush
flush-IsSmall zero n e small s = IsSmall-mono (omega arith) s
flush-IsSmall (suc k) n e small s =
    IsSmall-mono (omega arith)
      (flush-IsSmall k (n + 1) (shift_low e) (omega arith) (shift_low-IsSmall n e (omega arith) s))

finish-ok :
    (n : ℕ) (e : RangeEncoder)
    → n + 5 ≤ 2 ^ 24
    → IsSmall n e
    → Encoder.finish e ≡ ok (flush 5 e).output
unfolding Encoder.finish
finish-ok n e small s = rw ((flush-IsSmall 5 n e small s).clean)

narrow-IsSmall : (lo hi n : ℕ) (e : RangeEncoder) → IsSmall n e → IsSmall n (Encoder.narrow lo hi e)
unfolding Encoder.narrow
narrow-IsSmall lo hi n e s = record { clean = s.clean; pending = s.pending }

module _ {S : Type 0} (p : Predictor S) {Good : S → Type 0} (lawful : IsLawful p Good) where
  encode_loop-IsSmall :
      (xs : List ℕ) (n : ℕ) (e : RangeEncoder) (s : S)
      → IsReady e
      → Good s
      → IsBytes xs
      → n + 2 * length xs < 2 ^ 24
      → IsSmall n e
      → IsSmall (n + 2 * length xs) (encode_loop p xs e s).0
  unfolding encode_loop Encoder.encode_interval
  encode_loop-IsSmall [] n e s ready good h small s0 = IsSmall-mono (omega arith) s0
  encode_loop-IsSmall (x ∷ xs) n e s ready good (hx, h) small s0 =
      let lo = (p.query_cdf s x).0.0 in
      let hi = (p.query_cdf s x).0.1 in
      let (order, inside) = lawful.interval s x hx good in
      let s1 =
        renormalize-IsSmall n (Encoder.narrow lo hi e) (omega (arith, small))
          (narrow_fits e lo hi ready order inside).1 (narrow-IsSmall lo hi n e s0) in
      let kept = encode_interval-Kept e lo hi ready order inside s1.clean in
      IsSmall-mono (omega arith) (
        encode_loop-IsSmall xs (n + 2) (Encoder.encode_interval lo hi e)
          (p.update (p.query_cdf s x).1 x) kept.ready (lawful.update-Good s x hx good) h
          (omega (arith, small)) s1)

  encoded :
      (xs : List ℕ) (s : S)
      → IsBytes xs
      → length xs ≤ 8 * 1024 * 1024 - 4
      → (ys : List ℕ) × (s' : S) × (encode_block p xs s ≡ ok (ys, s'))
  unfolding encode_block encode_block_inner
  encoded [] s h small = ([], s, refl)
  encoded (x ∷ xs) s h small =
      let coded = encode_loop p (x ∷ xs) start (p.reset s) in
      let n = 1 + 2 * length (x ∷ xs) in
      let s0 : IsSmall 1 start = record { clean = refl; pending = omega arith } in
      let s1 : IsSmall n coded.0 =
        encode_loop-IsSmall (x ∷ xs) 1 start (p.reset s) start-IsReady (lawful.reset-Good s) h
          (omega (arith, small)) s0 in
      let finished = finish-ok n coded.0 (omega (arith, small)) s1 in
      ((flush 5 coded.0).output, coded.1, ap (λ m. m >>= λ bytes. ok (bytes, coded.1)) finished)

  -- For bytes, at most 8 MiB - 4 of them, and a lawful predictor in any state: `encode_block`
  -- succeeds, and `decode_block` with their number gives them back and leaves the predictor in
  -- the state that the encoder left it in.
  pub decode_block-encode_block_total :
      (xs : List ℕ) (s : S)
      → IsBytes xs
      → length xs ≤ 8 * 1024 * 1024 - 4
      → (ys : List ℕ) × (s' : S) × (encode_block p xs s ≡ ok (ys, s'))
        × (decode_block p ys (length xs) s ≡ ok (xs, s'))
  decode_block-encode_block_total xs s h small =
      let (ys, s', done) = encoded xs s h small in
      (ys, s', done, decode_block-encode_block p lawful xs s s' ys h (omega (arith, small)) done)
