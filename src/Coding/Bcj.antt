-- ===== src/Coding/Bcj.antt =====
-- aether-core/src/coding/bcj.rs: detection of x86 executables and the branch address transform.
-- A slice is a list of bytes. An `i32` operand is its bit pattern, a number below 2 ^ 32.
pub mod RoundTrip
use aether_arch.Base.{
  ℕ, zero, suc, ◌+◌, ◌-◌, ◌%◌, ◌^◌, Bool, true, false, ◌&&◌, ◌||◌, List, [], ◌∷◌, ◌++◌, take, drop,
  length, get_or, ltb, ◌==◌, if◌then◌else◌, Option, none, some, to_le, from_le, bytes_eq, not,
}

-- `&data[i..i + n]`, where the caller has checked the length.
abbrev pub slice : List ℕ → ℕ → ℕ → List ℕ
slice xs i n = take n (drop i xs)

abbrev pub from_be16 : ℕ → ℕ → ℕ
from_be16 a b = from_le (b ∷ a ∷ [])

unfoldable pub is_x86_elf : List ℕ → Bool
is_x86_elf xs =
    let class = get_or xs 5 0 in
    let machine =
      if class == 1
      then from_le (get_or xs 18 0 ∷ get_or xs 19 0 ∷ [])
      else from_be16 (get_or xs 18 0) (get_or xs 19 0) in
    if ltb (length xs) 20 || not (bytes_eq (slice xs 0 4) (0x7f ∷ b'E' ∷ b'L' ∷ b'F' ∷ []))
    then false
    else if class == 1 || class == 2
    then machine == 3 || machine == 62
    else false

-- `checked_add(6)` cannot fail on a 64-bit `usize`: the offset is a `u32`.
unfoldable pub is_x86_pe : List ℕ → Bool
is_x86_pe xs =
    let pe_offset = from_le (slice xs 0x3c 4) in
    let machine = from_le (slice xs (pe_offset + 4) 2) in
    if ltb (length xs) 0x40 || not (bytes_eq (slice xs 0 2) (b'M' ∷ b'Z' ∷ []))
    then false
    else if ltb (length xs) (pe_offset + 6)
        || not (bytes_eq (slice xs pe_offset 4) (b'P' ∷ b'E' ∷ 0 ∷ 0 ∷ []))
    then false
    else machine == 0x014c || machine == 0x8664

unfoldable pub is_x86_macho : List ℕ → Bool
is_x86_macho xs =
    let magic = slice xs 0 4 in
    let cpu = slice xs 4 4 in
    let little =
      bytes_eq magic (0xce ∷ 0xfa ∷ 0xed ∷ 0xfe ∷ [])
      || bytes_eq magic (0xcf ∷ 0xfa ∷ 0xed ∷ 0xfe ∷ []) in
    let big =
      bytes_eq magic (0xfe ∷ 0xed ∷ 0xfa ∷ 0xce ∷ [])
      || bytes_eq magic (0xfe ∷ 0xed ∷ 0xfa ∷ 0xcf ∷ []) in
    let cpu_type =
      if little
      then from_le cpu
      else from_le (get_or cpu 3 0 ∷ get_or cpu 2 0 ∷ get_or cpu 1 0 ∷ get_or cpu 0 0 ∷ []) in
    if ltb (length xs) 8
    then false
    else if little || big
    then cpu_type == 7 || cpu_type == 0x0100_0007
    else false

unfoldable pub is_x86_executable : List ℕ → Bool
unfolding is_x86_elf is_x86_pe is_x86_macho
is_x86_executable xs = is_x86_elf xs || is_x86_pe xs || is_x86_macho xs

-- `operand.wrapping_add(instruction_end)`, or `wrapping_sub`, on bit patterns. The end of the
-- instruction at `position` is `(position as u32).wrapping_add(5)`.
unfoldable pub normalize : Bool → ℕ → ℕ → ℕ
normalize encode position operand =
    let instruction_end = (position % 2 ^ 32 + 5) % 2 ^ 32 in
    if encode
    then (operand + instruction_end) % 2 ^ 32
    else (operand + 2 ^ 32 - instruction_end) % 2 ^ 32

abbrev pub is_branch : ℕ → Bool
is_branch b = b == 0xe8 || b == 0xe9

-- The list is what the loop has not reached, from `position` on: an opcode of a call or a jump
-- takes its four operand bytes with it, and the last four bytes of the data are never an opcode.
unfoldable pub transform_from : Bool → ℕ → List ℕ → List ℕ
unfolding normalize
transform_from encode position (op ∷ a ∷ b ∷ c ∷ d ∷ rest) = elim (is_branch op) [
  | true ↦
      op
      ∷ (to_le 4 (normalize encode position (from_le (a ∷ b ∷ c ∷ d ∷ [])))
          ++ transform_from encode (position + 5) rest)
  | false ↦ op ∷ transform_from encode (position + 1) (a ∷ b ∷ c ∷ d ∷ rest)
]
transform_from encode position rest = rest

unfoldable pub transform_x86 : Bool → List ℕ → List ℕ
unfolding transform_from
transform_x86 encode xs = transform_from encode 0 xs

unfoldable pub encode_x86 : List ℕ → Option (List ℕ)
unfolding is_x86_executable transform_x86
encode_x86 xs = if is_x86_executable xs then some (transform_x86 true xs) else none

unfoldable pub decode_x86 : List ℕ → List ℕ
unfolding transform_x86
decode_x86 xs = transform_x86 false xs
