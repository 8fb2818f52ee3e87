-- ===== src/Coding/Bcj/RoundTrip.antt =====
-- Decoding undoes encoding, byte for byte.
use aether_arch.Base.{
  ℕ, suc, ◌+◌, ◌^◌, ◌<◌, ◌≡◌, refl, ap, ◌∙◌, Bool, true, false, List, [], ◌∷◌, ◌++◌, length,
  length-append, some, arith, to_le, from_le, from_le-to_le, to_le-from_le, length-to_le, IsBytes,
  Bool-cases, inl, inr,
}
use aether_arch.Coding.Bcj.{
  normalize, transform_from, transform_x86, encode_x86, decode_x86, is_branch,
}

normalize_inverse :
    (position v : ℕ) → v < 2 ^ 32 → normalize false position (normalize true position v) ≡ v
unfolding normalize
normalize_inverse position v h = omega arith

normalize_bound : (encode : Bool) (position v : ℕ) → normalize encode position v < 2 ^ 32
unfolding normalize
normalize_bound true position v = omega arith
normalize_bound false position v = omega arith

branch_step :
    (encode : Bool) (position op a b c d : ℕ) (rest : List ℕ)
    → is_branch op ≡ true
    → transform_from encode position (op ∷ a ∷ b ∷ c ∷ d ∷ rest)
      ≡ op
        ∷ (to_le 4 (normalize encode position (from_le (a ∷ b ∷ c ∷ d ∷ [])))
            ++ transform_from encode (position + 5) rest)
unfolding transform_from
branch_step encode position op a b c d rest h = rw (h, transform_from)

other_step :
    (encode : Bool) (position op a b c d : ℕ) (rest : List ℕ)
    → is_branch op ≡ false
    → transform_from encode position (op ∷ a ∷ b ∷ c ∷ d ∷ rest)
      ≡ op ∷ transform_from encode (position + 1) (a ∷ b ∷ c ∷ d ∷ rest)
unfolding transform_from
other_step encode position op a b c d rest h = rw (h, transform_from)

-- A branch whose operand bytes are those of the word `v`.
word_step :
    (encode : Bool) (position op v : ℕ) (rest : List ℕ)
    → is_branch op ≡ true
    → v < 2 ^ 32
    → transform_from encode position (op ∷ (to_le 4 v ++ rest))
      ≡ op ∷ (to_le 4 (normalize encode position v) ++ transform_from encode (position + 5) rest)
unfolding to_le
word_step encode position op v rest h hv =
    branch_step encode position op _ _ _ _ rest h
    ∙ ap
        (λ w.
          op ∷ (to_le 4 (normalize encode position w) ++ transform_from encode (position + 5) rest))
        (from_le-to_le 4 v hv)

-- Five bytes or more in front keep an opcode that is no branch in place.
skip_step :
    (encode : Bool) (position op : ℕ) (rest : List ℕ)
    → is_branch op ≡ false
    → transform_from encode position (op ∷ rest) ≡ op ∷ transform_from encode (position + 1) rest
unfolding transform_from
skip_step encode position op [] h = refl
skip_step encode position op (a ∷ []) h = refl
skip_step encode position op (a ∷ b ∷ []) h = refl
skip_step encode position op (a ∷ b ∷ c ∷ []) h = refl
skip_step encode position op (a ∷ b ∷ c ∷ d ∷ rest) h = other_step encode position op a b c d rest h

from_le_bound : (a b c d : ℕ) → IsBytes (a ∷ b ∷ c ∷ d ∷ []) → from_le (a ∷ b ∷ c ∷ d ∷ []) < 2 ^ 32
unfolding from_le
from_le_bound a b c d h = omega arith

transform_from-inverse :
    (position : ℕ) (xs : List ℕ)
    → IsBytes xs
    → transform_from false position (transform_from true position xs) ≡ xs
transform_from-inverse position (op ∷ a ∷ b ∷ c ∷ d ∷ rest) h = elim (Bool-cases (is_branch op)) [
  | inl e ↦ rw (branch_step true position op a b c d rest e) (
      word_step false position op _ _ e (normalize_bound true position _)
      ∙ rw (
        normalize_inverse position _ (from_le_bound a b c d (omega arith)),
        to_le-from_le (a ∷ b ∷ c ∷ d ∷ []) (omega arith),
        transform_from-inverse (position + 5) rest h.1.1.1.1.1,
      ))
  | inr e ↦ rw (skip_step true position op (a ∷ b ∷ c ∷ d ∷ rest) e) (
      skip_step false position op _ e
      ∙ ap (λ r. op ∷ r) (transform_from-inverse (position + 1) (a ∷ b ∷ c ∷ d ∷ rest) h.1))
]
transform_from-inverse position [] h = unfold transform_from in refl
transform_from-inverse position (op ∷ []) h = unfold transform_from in refl
transform_from-inverse position (op ∷ a ∷ []) h = unfold transform_from in refl
transform_from-inverse position (op ∷ a ∷ b ∷ []) h = unfold transform_from in refl
transform_from-inverse position (op ∷ a ∷ b ∷ c ∷ []) h = unfold transform_from in refl

transform_from-length :
    (encode : Bool) (position : ℕ) (xs : List ℕ)
    → length (transform_from encode position xs) ≡ length xs
transform_from-length encode position (op ∷ a ∷ b ∷ c ∷ d ∷ rest) =
    elim (Bool-cases (is_branch op)) [
      | inl e ↦ rw (branch_step encode position op a b c d rest e) (
          ap suc (
            length-append (to_le 4 (normalize encode position (from_le (a ∷ b ∷ c ∷ d ∷ []))))
              (transform_from encode (position + 5) rest)
            ∙ rw (length-to_le, transform_from-length encode (position + 5) rest) (omega arith)))
      | inr e ↦
          rw (skip_step encode position op (a ∷ b ∷ c ∷ d ∷ rest) e)
            (ap suc (transform_from-length encode (position + 1) (a ∷ b ∷ c ∷ d ∷ rest)))
    ]
transform_from-length encode position [] = unfold transform_from in refl
transform_from-length encode position (op ∷ []) = unfold transform_from in refl
transform_from-length encode position (op ∷ a ∷ []) = unfold transform_from in refl
transform_from-length encode position (op ∷ a ∷ b ∷ []) = unfold transform_from in refl
transform_from-length encode position (op ∷ a ∷ b ∷ c ∷ []) = unfold transform_from in refl

-- What `encode_x86` returns is as long as its input, and `decode_x86` makes the input of it again,
-- for every byte string that it accepts, wherever the bytes of an opcode stand by chance.
pub decode_x86-encode_x86 :
    (xs ys : List ℕ)
    → IsBytes xs
    → encode_x86 xs ≡ some ys
    → (decode_x86 ys ≡ xs) × (length ys ≡ length xs)
unfolding encode_x86 decode_x86 transform_x86
decode_x86-encode_x86 xs ys h e =
    ground (arith, transform_from-inverse 0 xs h, transform_from-length true 0 xs)
