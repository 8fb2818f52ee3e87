-- ===== src/Coding/Mtf.antt =====
-- aether-core/src/coding/bwt_preprocess.rs: the move-to-front transform.
-- The stack arrays `[u8; 256]` are lists; an index never leaves them (a byte is below 256).
pub mod Shift
pub mod Inverse
pub mod RoundTrip
use aether_arch.Base.{
  ℕ, zero, suc, ◌+◌, List, [], ◌∷◌, ◌++◌, get_or, set, take, drop, if◌then◌else◌, ltb,
}

-- 0, 1, ..., 255: what the loops that fill `list` and `pos` write.
unfoldable pub count_from : ℕ → ℕ → List ℕ
count_from i zero = []
count_from i (suc n) = i ∷ count_from (i + 1) n

pub record Tables : Type 0 where
  -- list[rank] = byte
  pub list : List ℕ
  -- pos[byte] = rank
  pub pos : List ℕ

unfoldable pub initial : Tables
unfolding count_from
initial = record { list = count_from 0 256; pos = count_from 0 256 }

-- for i in (1..=r).rev(): move `list[i - 1]` up to `i`, and enter its rank
unfoldable pub shift_up : ℕ → Tables → Tables
shift_up zero t = t
shift_up (suc i) t =
    let b = get_or t.list i 0 in
    shift_up i (record { list = set t.list (suc i) b; pos = set t.pos b (suc i) })

-- The rank of `byte`, and the tables with `byte` in front.
unfoldable pub move_to_front : ℕ → Tables → Tables
unfolding shift_up
move_to_front byte t =
    let rank = get_or t.pos byte 0 in
    let t' = shift_up rank t in
    if ltb 0 rank then record { list = set t'.list 0 byte; pos = set t'.pos byte 0 } else t

unfoldable pub encode_loop : Tables → List ℕ → List ℕ
unfolding move_to_front
encode_loop t [] = []
encode_loop t (byte ∷ rest) = get_or t.pos byte 0 ∷ encode_loop (move_to_front byte t) rest

unfoldable pub mtf_encode : List ℕ → List ℕ
unfolding encode_loop initial
mtf_encode xs = encode_loop initial xs

-- `list.copy_within(0..r, 1)`
unfoldable pub copy_within : ℕ → List ℕ → List ℕ
copy_within r list = take 1 list ++ (take r list ++ drop (r + 1) list)

unfoldable pub bring_front : ℕ → List ℕ → List ℕ
unfolding copy_within
bring_front rank list =
    let byte = get_or list rank 0 in if ltb 0 rank then set (copy_within rank list) 0 byte else list

unfoldable pub decode_loop : List ℕ → List ℕ → List ℕ
unfolding bring_front
decode_loop list [] = []
decode_loop list (rank ∷ rest) = get_or list rank 0 ∷ decode_loop (bring_front rank list) rest

unfoldable pub mtf_decode : List ℕ → List ℕ
unfolding decode_loop count_from
mtf_decode xs = decode_loop (count_from 0 256) xs
