-- ===== src/Coding/Lz77/Finder.antt =====
-- aether-core/src/coding/lz77_preprocess.rs: `hash3` and `MatchFinder`.
-- The tables `head` and `prev` are functions of the slot: a hash has 16 bits and a position is taken
-- modulo the window, so no slot lies outside them.
pub mod Matches
use aether_arch.Base.{
  ℕ, zero, suc, ◌+◌, ◌-◌, ◌*◌, ◌/◌, ◌%◌, ◌^◌, Bool, true, false, ◌&&◌, ◌||◌, List, [], ◌∷◌, length,
  get_or, take, drop, ltb, leb, ◌==◌, if◌then◌else◌, Option, none, some, min,
}

abbrev pub window_size : ℕ
window_size = 65536

abbrev pub min_match : ℕ
min_match = 3

abbrev pub max_match : ℕ
max_match = 65538

abbrev pub max_chain : ℕ
max_chain = 256

abbrev pub nice_match : ℕ
nice_match = 258

-- `MAX_DECOMPRESSED_BLOCK_SIZE`
abbrev pub max_lz77_input_size : ℕ
max_lz77_input_size = 64 * 1024 * 1024

abbrev pub empty : ℕ
empty = 2 ^ 32 - 1

-- The bytes are put together by shifts; the sum is the same number, as each is below 256.
unfoldable pub hash3 : List ℕ → ℕ → ℕ
hash3 xs pos =
    let v = get_or xs pos 0 * 2 ^ 16 + get_or xs (pos + 1) 0 * 2 ^ 8 + get_or xs (pos + 2) 0 in
    v * 2654435761 % 2 ^ 32 / 2 ^ 16

pub record MatchFinder : Type 0 where
  pub head : ℕ → ℕ
  pub prev : ℕ → ℕ

unfoldable pub new : MatchFinder
new = record { head = λ slot. empty; prev = λ slot. empty }

abbrev pub update : (ℕ → ℕ) → ℕ → ℕ → ℕ → ℕ
update f slot v j = if j == slot then v else f j

unfoldable pub insert : ℕ → ℕ → MatchFinder → MatchFinder
insert pos hash m = if ltb max_lz77_input_size pos then m else record {
  head = update m.head hash (pos % 2 ^ 32);
  prev = update m.prev (pos % window_size) (m.head hash);
}

-- `zip(..).take_while(|(x, y)| x == y).count()`
unfoldable pub common_prefix : List ℕ → List ℕ → ℕ
common_prefix [] ys = 0
common_prefix (x ∷ xs) [] = 0
common_prefix (x ∷ xs) (y ∷ ys) = if x == y then suc (common_prefix xs ys) else 0

-- The early rejection test.
unfoldable pub quick_check : List ℕ → ℕ → ℕ → ℕ → Bool
quick_check xs pos ref_pos best_len =
    get_or xs (ref_pos + best_len) 0 == get_or xs (pos + best_len) 0
    && (get_or xs ref_pos 0 == get_or xs pos 0
        && get_or xs (ref_pos + 1) 0 == get_or xs (pos + 1) 0)

unfoldable pub match_length : List ℕ → ℕ → ℕ → ℕ → ℕ
unfolding common_prefix
match_length xs pos ref_pos max_len =
    2
    + common_prefix (take (max_len - 2) (drop (ref_pos + 2) xs))
        (take (max_len - 2) (drop (pos + 2) xs))

-- Whether the chain is at its end: no entry, one outside the window or ahead, or a cycle.
unfoldable pub chain_ends : ℕ → ℕ → ℕ → Bool
chain_ends pos last_ref_pos ref_pos =
    ref_pos == empty
    || (leb pos ref_pos || (leb window_size (pos - ref_pos) || leb last_ref_pos ref_pos))

-- `len > best_len`, behind the early test.
unfoldable pub improves : List ℕ → ℕ → ℕ → ℕ → ℕ × ℕ → Bool
unfolding match_length quick_check
improves xs pos max_len ref_pos best =
    quick_check xs pos ref_pos best.1 && ltb best.1 (match_length xs pos ref_pos max_len)

-- The offset is cast to a `u16`.
unfoldable pub improved : List ℕ → ℕ → ℕ → ℕ → ℕ × ℕ → ℕ × ℕ
unfolding improves
improved xs pos max_len ref_pos best =
    if improves xs pos max_len ref_pos best
    then ((pos - ref_pos) % 2 ^ 16, match_length xs pos ref_pos max_len)
    else best

-- The loop of `find_best` with the rounds that `MAX_CHAIN` leaves it; the result is the best offset
-- and length so far.
unfoldable pub find_loop : ℕ → MatchFinder → List ℕ → ℕ → ℕ → ℕ → ℕ → ℕ × ℕ → ℕ × ℕ
unfolding chain_ends improved
find_loop zero m xs pos max_len last_ref_pos ref_pos best = best
find_loop (suc rounds) m xs pos max_len last_ref_pos ref_pos best =
    let best' = improved xs pos max_len ref_pos best in
    let enough =
      improves xs pos max_len ref_pos best && (leb nice_match best'.1 || best'.1 == max_len) in
    let rest = find_loop rounds m xs pos max_len ref_pos (m.prev (ref_pos % window_size)) best' in
    if chain_ends pos last_ref_pos ref_pos then best else if enough then best' else rest

unfoldable pub find_best : MatchFinder → List ℕ → ℕ → ℕ → Option (ℕ × ℕ)
unfolding find_loop
find_best m xs pos hash =
    let max_len = min (length xs - pos) max_match in
    let best = find_loop max_chain m xs pos max_len pos (m.head hash) (0, min_match - 1) in
    if leb min_match best.1 then some best else none
