-- ===== src/Coding/Mtf/RoundTrip.antt =====
-- Move-to-front decoding undoes encoding.
use aether_arch.Base.{
  ℕ, zero, suc, ◌+◌, ◌≤◌, ◌<◌, ◌≡◌, refl, sym, ap, ◌∙◌, List, [], ◌∷◌, ◌++◌, get_or, set, take,
  drop, length, length-set, arith, get_or-set_self, get_or-set_ne, list_ext, lt→ltb, append_assoc,
  length-append, length-take, length-drop, IsBytes,
}
use native.Mathlib.Decide.{dec_lt}
use aether_arch.Coding.Mtf.{
  Tables, initial, move_to_front, copy_within, bring_front, encode_loop, decode_loop, mtf_encode,
  mtf_decode,
}
use aether_arch.Coding.Mtf.Inverse.{
  IsInverse, place, front, passed, beyond, move_stays, list_first, list_moved, list_kept,
  move_to_front-IsInverse, initial-IsInverse,
}

get_or-append_left :
    (xs ys : List ℕ) (i : ℕ) → i < length xs → get_or (xs ++ ys) i 0 ≡ get_or xs i 0
get_or-append_left [] ys i h = absurd (omega arith)
get_or-append_left (x ∷ xs) ys zero h = refl
get_or-append_left (x ∷ xs) ys (suc i) h = get_or-append_left xs ys i (omega arith)

get_or-take : (n : ℕ) (xs : List ℕ) (i : ℕ) → i < n → get_or (take n xs) i 0 ≡ get_or xs i 0
get_or-take zero xs i h = absurd (omega arith)
get_or-take (suc n) [] i h = refl
get_or-take (suc n) (x ∷ xs) zero h = refl
get_or-take (suc n) (x ∷ xs) (suc i) h = get_or-take n xs i (omega arith)

drop-nil : (n : ℕ) → drop {A = ℕ} n [] ≡ []
drop-nil zero = refl
drop-nil (suc n) = refl

-- Replacing the first `n` entries by as many others keeps the entries from `n` on.
get_or-overwrite :
    (n : ℕ) (ys xs : List ℕ) (i : ℕ)
    → length ys ≡ n
    → n ≤ i
    → get_or (ys ++ drop n xs) i 0 ≡ get_or xs i 0
get_or-overwrite zero [] xs i e h = refl
get_or-overwrite zero (y ∷ ys) xs i e h = absurd (omega arith)
get_or-overwrite (suc n) [] xs i e h = absurd (omega arith)
get_or-overwrite (suc n) (y ∷ ys) xs zero e h = absurd (omega arith)
get_or-overwrite (suc n) (y ∷ ys) [] (suc i) e h =
    rw (drop-nil n) at (get_or-overwrite n ys [] i (omega arith) (omega arith))
get_or-overwrite (suc n) (y ∷ ys) (x ∷ xs) (suc i) e h =
    get_or-overwrite n ys xs i (omega arith) (omega arith)

length-copy_within : (r : ℕ) (xs : List ℕ) → r < length xs → length (copy_within r xs) ≡ length xs
unfolding copy_within
length-copy_within r xs h =
    simp length-append (omega (arith, length-take 1 xs, length-take r xs, length-drop (r + 1) xs))

copy_within-below :
    (r : ℕ) (xs : List ℕ) (i : ℕ)
    → r < length xs
    → i < r
    → get_or (copy_within r xs) (suc i) 0 ≡ get_or xs i 0
unfolding copy_within
copy_within-below r [] i h p = absurd (omega arith)
copy_within-below r (x ∷ xs) i h p =
    get_or-append_left (take r (x ∷ xs)) (drop (r + 1) (x ∷ xs)) i
      (omega (arith, length-take r (x ∷ xs)))
    ∙ get_or-take r (x ∷ xs) i p

copy_within-above :
    (r : ℕ) (xs : List ℕ) (i : ℕ)
    → r < length xs
    → r < i
    → get_or (copy_within r xs) i 0 ≡ get_or xs i 0
unfolding copy_within
copy_within-above r xs i h p = rw (← append_assoc) (
    get_or-overwrite (r + 1) (take 1 xs ++ take r xs) xs i
      (length-append (take 1 xs) (take r xs) ∙ omega (arith, length-take 1 xs, length-take r xs))
      (omega arith))

bring_front_eq :
    (r : ℕ) (xs : List ℕ) → 0 < r → bring_front r xs ≡ set (copy_within r xs) 0 (get_or xs r 0)
unfolding bring_front
bring_front_eq r xs h = rw (lt→ltb 0 r h)

bring_front-zero : (xs : List ℕ) → bring_front 0 xs ≡ xs
unfolding bring_front
bring_front-zero xs = refl

-- The decoder's list after a move is the encoder's.
bring_front-list :
    (t : Tables) (byte : ℕ)
    → IsInverse t
    → byte < 256
    → bring_front (get_or t.pos byte 0) t.list ≡ (move_to_front byte t).list
bring_front-list t byte inv small = elim (dec_lt 0 rank) [
  | yes up ↦ rw (moving up) (
      list_ext (set (copy_within rank t.list) 0 byte) (move_to_front byte t).list
        (omega (arith, full, (move_to_front-IsInverse t byte inv small).list_full)) (entries up))
  | no down ↦ rw (move_stays t byte inv small (omega arith)) (staying (omega arith))
]
  where
    rank : ℕ
    rank = get_or t.pos byte 0

    inside : rank < length t.list
    inside = omega (arith, inv.rank_bound byte small, inv.list_full)

    moving : 0 < rank → bring_front rank t.list ≡ set (copy_within rank t.list) 0 byte
    moving up =
        bring_front_eq rank t.list up
        ∙ ap (λ b. set (copy_within rank t.list) 0 b) (inv.list-pos byte small)

    staying : rank ≡ 0 → bring_front rank t.list ≡ t.list
    staying e = rw e (bring_front-zero t.list)

    full : length (set (copy_within rank t.list) 0 byte) ≡ 256
    full =
        length-set (copy_within rank t.list) 0 byte
        ∙ length-copy_within rank t.list inside
        ∙ inv.list_full

    entries :
        0 < rank
        → (i : ℕ) → i < length (set (copy_within rank t.list) 0 byte)
        → get_or (set (copy_within rank t.list) 0 byte) i 0 ≡ get_or (move_to_front byte t).list i 0
    entries up i h = elim (place t byte inv small up i) [
      | front e ↦ rw e (
          get_or-set_self (copy_within rank t.list) 0 byte
            (omega (arith, inside, length-copy_within rank t.list inside))
          ∙ sym (list_first t byte inv small up))
      | passed k e p ↦ rw e (
          get_or-set_ne (copy_within rank t.list) 0 (suc k) byte (omega arith)
          ∙ copy_within-below rank t.list k inside p
          ∙ sym (list_moved t byte inv small up k p))
      | beyond p ↦
          get_or-set_ne (copy_within rank t.list) 0 i byte (omega arith)
          ∙ copy_within-above rank t.list i inside p
          ∙ sym (list_kept t byte inv small up i p)
    ]

decode_loop-encode_loop :
    (t : Tables) (xs : List ℕ)
    → IsInverse t
    → IsBytes xs
    → decode_loop t.list (encode_loop t xs) ≡ xs
unfolding decode_loop encode_loop
decode_loop-encode_loop t [] inv h = refl
decode_loop-encode_loop t (byte ∷ rest) inv (small, hr) =
    ap (λ (b : ℕ). b ∷ decode_loop (bring_front (get_or t.pos byte 0) t.list) later)
      (inv.list-pos byte small)
    ∙ ap (λ (l : List ℕ). byte ∷ decode_loop l later) (bring_front-list t byte inv small)
    ∙ ap (λ (r : List ℕ). byte ∷ r)
        (decode_loop-encode_loop (move_to_front byte t) rest
          (move_to_front-IsInverse t byte inv small) hr)
  where
    later : List ℕ
    later = encode_loop (move_to_front byte t) rest

-- For every byte string, `mtf_decode` makes of the ranks that `mtf_encode` writes the bytes that it
-- was given.
pub mtf_decode-mtf_encode : (xs : List ℕ) → IsBytes xs → mtf_decode (mtf_encode xs) ≡ xs
unfolding mtf_decode mtf_encode
mtf_decode-mtf_encode xs h = decode_loop-encode_loop initial xs initial-IsInverse h

encode_loop_shape :
    (t : Tables) (xs : List ℕ)
    → IsInverse t
    → IsBytes xs
    → IsBytes (encode_loop t xs) × (length (encode_loop t xs) ≡ length xs)
unfolding encode_loop
encode_loop_shape t [] inv h = (tt, refl)
encode_loop_shape t (byte ∷ rest) inv (small, hr) =
    let (bytes, len) =
      encode_loop_shape (move_to_front byte t) rest (move_to_front-IsInverse t byte inv small) hr in
    ((inv.rank_bound byte small, bytes), ap suc len)

-- `mtf_encode` writes one rank for each byte, and each rank is a byte itself.
pub mtf_encode_shape :
    (xs : List ℕ) → IsBytes xs → IsBytes (mtf_encode xs) × (length (mtf_encode xs) ≡ length xs)
unfolding mtf_encode
mtf_encode_shape xs h = encode_loop_shape initial xs initial-IsInverse h
