-- ===== src/Coding/Rans/Loops.antt =====
-- The two renormalizing loops end, and keep encoder and decoder in step.
use aether_arch.Base.{ℕ, zero, suc, ◌*◌, ◌%◌, ◌^◌, ◌≤◌, ◌<◌, ◌≡◌, sym, false, List, arith, IsBytes}
use mathlib.Core.Path.{subst}
use native.Mathlib.Decide.{dec_lt}
use aether_arch.Coding.Rans.{top}
use aether_arch.Coding.Rans.Encoder
use aether_arch.Coding.Rans.Encoder.{RangeEncoder, shift_low}
use aether_arch.Coding.Rans.Decoder
use aether_arch.Coding.Rans.Decoder.{RangeDecoder}
use aether_arch.Coding.Rans.Value.{IsSound, shift_low-Clean}
use aether_arch.Coding.Rans.Steps.{
  IsReady, Leads, IsBehind, encoder_round, decoder_round, encoder_more, encoder_done, decoder_more,
  decoder_done, encoder_round-IsSound, encoder_round-Leads, encoder_round-IsBehind,
}

-- The least range that `rounds` rounds bring to `top`.
abbrev pub least : ℕ → ℕ
least zero = 2 ^ 24
least (suc zero) = 2 ^ 16
least (suc (suc zero)) = 2 ^ 8
least (suc (suc (suc rounds))) = 1

least_step :
    (rounds range : ℕ)
    → least (suc rounds) ≤ range
    → range < top
    → least rounds ≤ range * 256 % 2 ^ 32
least_step zero range h small = omega arith
least_step (suc zero) range h small = omega arith
least_step (suc (suc zero)) range h small = omega arith
least_step (suc (suc (suc rounds))) range h small = omega arith

abbrev pub Clean : RangeEncoder → Type 0
Clean e = e.cache_overflow ≡ false

pub renormalize-Clean :
    (rounds : ℕ) (e : RangeEncoder)
    → (Encoder.renormalize rounds e).cache_overflow ≡ false
    → e.cache_overflow ≡ false
renormalize-Clean zero e clean = unfold Encoder.renormalize in clean
renormalize-Clean (suc rounds) e clean = elim (dec_lt e.range top) [
  | yes small ↦
      shift_low-Clean e (
        renormalize-Clean rounds (encoder_round e)
          (subst Clean (encoder_more rounds e small) clean))
  | no wide ↦ subst Clean (encoder_done (suc rounds) e (omega arith)) clean
]

-- What the loops keep: the encoder is ready again, a stream in its stretch was in the old one, and a
-- decoder behind it stays behind it.
pub record Kept (e e' : RangeEncoder) (follow : RangeDecoder → RangeDecoder) : Type 0 where
  pub ready : IsReady e'
  pub leads : (stream : List ℕ) → IsBytes stream → Leads stream e' → Leads stream e
  pub behind :
      (stream : List ℕ) (d : RangeDecoder)
      → IsBytes stream
      → Leads stream e'
      → IsBehind stream e d
      → IsBehind stream e' (follow d)

Kept-done :
    (rounds : ℕ) (e : RangeEncoder)
    → IsReady e
    → Kept e (Encoder.renormalize rounds e) (Decoder.renormalize rounds)
Kept-done rounds e ready =
    let stays = encoder_done rounds e ready.wide in
    record {
      ready = subst IsReady (sym stays) ready;
      leads = λ stream h w. subst (Leads stream) stays w;
      behind = λ stream d h w follows.
          subst (λ e'. IsBehind stream e' (Decoder.renormalize rounds d)) (sym stays)
            (subst (IsBehind stream e)
              (sym (decoder_done rounds d (omega (arith, follows.range, ready.wide)))) follows);
    }

Kept-more :
    (rounds : ℕ) (e : RangeEncoder) (sound : IsSound e.range e) (small : e.range < top)
    → (shift_low e).cache_overflow ≡ false
    → Kept
        (encoder_round e)
        (Encoder.renormalize rounds (encoder_round e))
        (Decoder.renormalize rounds)
    → Kept e (Encoder.renormalize (suc rounds) e) (Decoder.renormalize (suc rounds))
Kept-more rounds e sound small clean next =
    let goes = encoder_more rounds e small in
    record {
      ready = subst IsReady (sym goes) next.ready;
      leads = λ stream h w.
          encoder_round-Leads e sound small clean stream h
            (next.leads stream h (subst (Leads stream) goes w));
      behind = λ stream d h w follows.
          let w' = subst (Leads stream) goes w in
          let before = next.leads stream h w' in
          subst (λ e'. IsBehind stream e' (Decoder.renormalize (suc rounds) d)) (sym goes)
            (subst (IsBehind stream (Encoder.renormalize rounds (encoder_round e)))
              (sym (decoder_more rounds d (omega (arith, follows.range, small))))
              (next.behind stream (decoder_round d) h w'
                (encoder_round-IsBehind e sound small clean stream d h before follows)));
    }

pub renormalize-Kept :
    (rounds : ℕ) (e : RangeEncoder)
    → IsSound e.range e
    → e.range < 2 ^ 32
    → least rounds ≤ e.range
    → (Encoder.renormalize rounds e).cache_overflow ≡ false
    → Kept e (Encoder.renormalize rounds e) (Decoder.renormalize rounds)
renormalize-Kept zero e sound fits enough clean =
    Kept-done zero e (record { sound = sound; wide = enough; fits = fits })
renormalize-Kept (suc rounds) e sound fits enough clean = elim (dec_lt e.range top) [
  | yes small ↦
      let clean' = subst Clean (encoder_more rounds e small) clean in
      let once = renormalize-Clean rounds (encoder_round e) clean' in
      Kept-more rounds e sound small once (
        renormalize-Kept rounds (encoder_round e) (encoder_round-IsSound e sound small once)
          (omega arith) (least_step rounds e.range enough small) clean')
  | no wide ↦ Kept-done (suc rounds) e (record { sound = sound; wide = omega arith; fits = fits })
]
