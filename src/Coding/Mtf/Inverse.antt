-- ===== src/Coding/Mtf/Inverse.antt =====
-- The two tables stay inverse to one another.
use aether_arch.Base.{
  ℕ, zero, suc, ◌+◌, ◌<◌, ◌≡◌, refl, sym, ap, ◌∙◌, get_or, set, length, length-set, arith,
  get_or-set_self, get_or-set_ne, lt→ltb,
}
use native.Mathlib.Decide.{ℕ_discrete, dec_lt}
use aether_arch.Coding.Mtf.{Tables, count_from, initial, shift_up, move_to_front}
use aether_arch.Coding.Mtf.Shift.{
  Ranks, shift_up_full, shift_up-above, shift_up-below, shift_up-pos_moved, shift_up-pos_kept,
}

-- `pos` and `list` are inverse permutations of the bytes.
pub record IsInverse (t : Tables) : Type 0 where
  pub list_full : length t.list ≡ 256
  pub pos_full : length t.pos ≡ 256
  pub byte_bound : (i : ℕ) → i < 256 → get_or t.list i 0 < 256
  pub rank_bound : (b : ℕ) → b < 256 → get_or t.pos b 0 < 256
  pub pos-list : (i : ℕ) → i < 256 → get_or t.pos (get_or t.list i 0) 0 ≡ i
  pub list-pos : (b : ℕ) → b < 256 → get_or t.list (get_or t.pos b 0) 0 ≡ b

-- The tables after a move: `byte` in front, the entries before its rank one further, the rest kept.
module _ (t : Tables) (byte : ℕ) (inv : IsInverse t) (small : byte < 256) where
  abbrev rank : ℕ
  rank = get_or t.pos byte 0

  abbrev moved : Tables
  moved = move_to_front byte t

  ranks : Ranks (λ b. get_or t.pos b 0) rank t
  ranks i p =
      let i_small : i < 256 = omega (arith, inv.rank_bound byte small) in
      (omega (arith, inv.byte_bound i i_small, inv.pos_full), inv.pos-list i i_small)

  pub move_stays : rank ≡ 0 → moved ≡ t
  unfolding move_to_front
  move_stays e = rw e

  pub move_eq :
      0 < rank
      → moved ≡ record {
        list = set (shift_up rank t).list 0 byte;
        pos = set (shift_up rank t).pos byte 0;
      }
  unfolding move_to_front
  move_eq h = rw (lt→ltb 0 rank h)

  module _ (up : 0 < rank) where
    full : rank < length t.list
    full = omega (arith, inv.list_full, inv.rank_bound byte small)

    pub list_first : get_or moved.list 0 0 ≡ byte
    list_first = rw (move_eq up) (
        get_or-set_self (shift_up rank t).list 0 byte
          (omega (arith, full, (shift_up_full rank t).0)))

    pub list_moved : (i : ℕ) → i < rank → get_or moved.list (suc i) 0 ≡ get_or t.list i 0
    list_moved i h = rw (move_eq up) (
        get_or-set_ne (shift_up rank t).list 0 (suc i) byte (omega arith)
        ∙ shift_up-below rank t i full h)

    pub list_kept : (i : ℕ) → rank < i → get_or moved.list i 0 ≡ get_or t.list i 0
    list_kept i h = rw (move_eq up) (
        get_or-set_ne (shift_up rank t).list 0 i byte (omega arith)
        ∙ shift_up-above rank t i full h)

    pos_first : get_or moved.pos byte 0 ≡ 0
    pos_first = rw (move_eq up) (
        get_or-set_self (shift_up rank t).pos byte 0
          (omega (arith, small, inv.pos_full, (shift_up_full rank t).1)))

    pos_moved : (i : ℕ) → i < rank → get_or moved.pos (get_or t.list i 0) 0 ≡ suc i
    pos_moved i h = rw (move_eq up) (
        get_or-set_ne (shift_up rank t).pos byte (get_or t.list i 0) 0
          (λ e. omega (arith, (ranks i h).1, ap (λ b. get_or t.pos b 0) e))
        ∙ shift_up-pos_moved (λ b. get_or t.pos b 0) rank t i ranks h)

    pos_kept : (b : ℕ) → rank < get_or t.pos b 0 → get_or moved.pos b 0 ≡ get_or t.pos b 0
    pos_kept b h = rw (move_eq up) (
        get_or-set_ne (shift_up rank t).pos byte b 0
          (λ e. omega (arith, ap (λ b. get_or t.pos b 0) e))
        ∙ shift_up-pos_kept (λ b. get_or t.pos b 0) rank t b ranks (omega arith))

    -- Where a rank or a byte lies with respect to the move.
    pub data Place (i : ℕ) : Type 0 where
      front : i ≡ 0 → Place i
      passed : (k : ℕ) → i ≡ suc k → k < rank → Place i
      beyond : rank < i → Place i

    pub place : (i : ℕ) → Place i
    place zero = front refl
    place (suc k) = elim (dec_lt k rank) [ yes h ↦ passed k refl h | no h ↦ beyond (omega arith) ]

    data ByteAt (b : ℕ) : Type 0 where
      itself : b ≡ byte → ByteAt b
      before : (k : ℕ) → b ≡ get_or t.list k 0 → k < rank → ByteAt b
      after : rank < get_or t.pos b 0 → ByteAt b

    byte_at : (b : ℕ) → b < 256 → ByteAt b
    byte_at b h = elim (dec_lt (get_or t.pos b 0) rank) [
      | yes p ↦ before (get_or t.pos b 0) (sym (inv.list-pos b h)) p
      | no p ↦ elim (ℕ_discrete (get_or t.pos b 0) rank) [
        | yes e ↦
            itself
              (sym (inv.list-pos b h) ∙ ap (λ i. get_or t.list i 0) e ∙ inv.list-pos byte small)
        | no e ↦ after (omega (arith, p, e))
      ]
    ]

    byte_bound_moved : (i : ℕ) → i < 256 → get_or moved.list i 0 < 256
    byte_bound_moved i h = elim (place i) [
      | front e ↦ rw (e, list_first) small
      | passed k e p ↦ rw (e, list_moved k p) (inv.byte_bound k (omega arith))
      | beyond p ↦ rw (list_kept i p) (inv.byte_bound i h)
    ]

    rank_bound_moved : (b : ℕ) → b < 256 → get_or moved.pos b 0 < 256
    rank_bound_moved b h = elim (byte_at b h) [
      | itself e ↦ rw (e, pos_first) (omega arith)
      | before k e p ↦ rw (e, pos_moved k p) (omega (arith, inv.rank_bound byte small))
      | after p ↦ rw (pos_kept b p) (inv.rank_bound b h)
    ]

    pos-list_moved : (i : ℕ) → i < 256 → get_or moved.pos (get_or moved.list i 0) 0 ≡ i
    pos-list_moved i h = elim (place i) [
      | front e ↦ rw (e, list_first) pos_first
      | passed k e p ↦ rw (e, list_moved k p) (pos_moved k p)
      | beyond p ↦
          rw (list_kept i p)
            (pos_kept (get_or t.list i 0) (omega (arith, inv.pos-list i h)) ∙ inv.pos-list i h)
    ]

    list-pos_moved : (b : ℕ) → b < 256 → get_or moved.list (get_or moved.pos b 0) 0 ≡ b
    list-pos_moved b h = elim (byte_at b h) [
      | itself e ↦ rw (e, pos_first) list_first
      | before k e p ↦ rw (e, pos_moved k p) (list_moved k p)
      | after p ↦ rw (pos_kept b p) (list_kept (get_or t.pos b 0) p ∙ inv.list-pos b h)
    ]

    moved-IsInverse : IsInverse moved
    moved-IsInverse = record {
      list_full =
          rw (move_eq up)
            (length-set (shift_up rank t).list 0 byte ∙ (shift_up_full rank t).0 ∙ inv.list_full);
      pos_full =
          rw (move_eq up)
            (length-set (shift_up rank t).pos byte 0 ∙ (shift_up_full rank t).1 ∙ inv.pos_full);
      byte_bound = byte_bound_moved;
      rank_bound = rank_bound_moved;
      pos-list = pos-list_moved;
      list-pos = list-pos_moved;
    }

  -- Moving any byte to the front keeps the two tables inverse permutations of the bytes.
  pub move_to_front-IsInverse : IsInverse (move_to_front byte t)
  move_to_front-IsInverse = elim (dec_lt 0 rank) [
    | yes up ↦ moved-IsInverse up
    | no down ↦ rw (move_stays (omega arith)) inv
  ]

count_from-length : (i n : ℕ) → length (count_from i n) ≡ n
unfolding count_from
count_from-length i zero = refl
count_from-length i (suc n) = ap suc (count_from-length (i + 1) n)

count_from-get : (i n j : ℕ) → j < n → get_or (count_from i n) j 0 ≡ i + j
unfolding count_from
count_from-get i zero j h = absurd (omega arith)
count_from-get i (suc n) zero h = omega arith
count_from-get i (suc n) (suc j) h = omega (arith, count_from-get (i + 1) n j)

counted : (j : ℕ) → j < 256 → get_or (count_from 0 256) j 0 ≡ j
counted j h = omega (arith, count_from-get 0 256 j)

pub initial-IsInverse : IsInverse initial
unfolding initial
initial-IsInverse = record {
  list_full = count_from-length 0 256;
  pos_full = count_from-length 0 256;
  byte_bound = λ i h. omega (arith, counted i h);
  rank_bound = λ b h. omega (arith, counted b h);
  pos-list = λ i h. rw (counted i h) (counted i h);
  list-pos = λ b h. rw (counted b h) (counted b h);
}
