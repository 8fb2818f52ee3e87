-- ===== src/Coding/Mtf/Shift.antt =====
-- The encoder's shift loop, entry by entry.
use aether_arch.Base.{
  ℕ, zero, suc, ◌≤◌, ◌<◌, ◌≡◌, refl, ap, ◌∙◌, get_or, set, length, length-set, arith,
  get_or-set_self, get_or-set_ne,
}
use native.Mathlib.Decide.{ℕ_discrete}
use aether_arch.Coding.Mtf.{Tables, shift_up}

pub shift_up_full :
    (k : ℕ) (t : Tables)
    → (length (shift_up k t).list ≡ length t.list) × (length (shift_up k t).pos ≡ length t.pos)
unfolding shift_up
shift_up_full zero t = (refl, refl)
shift_up_full (suc k) t =
    let b = get_or t.list k 0 in
    let (p, q) =
      shift_up_full k (record { list = set t.list (suc k) b; pos = set t.pos b (suc k) }) in
    (p ∙ length-set t.list (suc k) b, q ∙ length-set t.pos b (suc k))

-- The state after one round of the loop.
abbrev pub shifted : ℕ → Tables → Tables
shifted k t = record {
  list = set t.list (suc k) (get_or t.list k 0);
  pos = set t.pos (get_or t.list k 0) (suc k);
}

-- The loop over the list: entries above `k`, and the first one, stay.
pub shift_up-above :
    (k : ℕ) (t : Tables) (i : ℕ)
    → k < length t.list
    → k < i
    → get_or (shift_up k t).list i 0 ≡ get_or t.list i 0
unfolding shift_up
shift_up-above zero t i h p = refl
shift_up-above (suc k) t i h p =
    shift_up-above k (shifted k t) i (omega (arith, length-set t.list (suc k) (get_or t.list k 0)))
      (omega arith)
    ∙ get_or-set_ne t.list (suc k) i _ (omega arith)

pub shift_up-first :
    (k : ℕ) (t : Tables) → k < length t.list → get_or (shift_up k t).list 0 0 ≡ get_or t.list 0 0
unfolding shift_up
shift_up-first zero t h = refl
shift_up-first (suc k) t h =
    shift_up-first k (shifted k t) (omega (arith, length-set t.list (suc k) (get_or t.list k 0)))
    ∙ get_or-set_ne t.list (suc k) 0 _ (omega arith)

-- The first `k` entries move up by one.
pub shift_up-below :
    (k : ℕ) (t : Tables) (i : ℕ)
    → k < length t.list
    → i < k
    → get_or (shift_up k t).list (suc i) 0 ≡ get_or t.list i 0
unfolding shift_up
shift_up-below zero t i h p = absurd (omega arith)
shift_up-below (suc k) t i h p =
    let full : k < length (shifted k t).list =
      omega (arith, length-set t.list (suc k) (get_or t.list k 0)) in
    elim (ℕ_discrete i k) [
      | yes e ↦ rw e (
          shift_up-above k (shifted k t) (suc k) full (omega arith)
          ∙ get_or-set_self t.list (suc k) _ h)
      | no ne ↦
          shift_up-below k (shifted k t) i full (omega (arith, ne))
          ∙ get_or-set_ne t.list (suc k) i _ (omega arith)
    ]

-- The loop over `pos`: the bytes that stood below rank `k` of a list with ranks `rank` get the next
-- rank, the others keep theirs.
module _ (rank : ℕ → ℕ) where
  abbrev pub Ranks : ℕ → Tables → Type 0
  Ranks k t = (i : ℕ) → i < k → (get_or t.list i 0 < length t.pos) × (rank (get_or t.list i 0) ≡ i)

  Ranks_shifted : (k : ℕ) (t : Tables) → Ranks (suc k) t → Ranks k (shifted k t)
  Ranks_shifted k t h i p =
      rw
        (
          get_or-set_ne t.list (suc k) i (get_or t.list k 0) (omega arith),
          length-set t.pos (get_or t.list k 0) (suc k),
        )
        (h i (omega arith))

  pub shift_up-pos_kept :
      (k : ℕ) (t : Tables) (b : ℕ)
      → Ranks k t
      → k ≤ rank b
      → get_or (shift_up k t).pos b 0 ≡ get_or t.pos b 0
  unfolding shift_up
  shift_up-pos_kept zero t b h p = refl
  shift_up-pos_kept (suc k) t b h p =
      shift_up-pos_kept k (shifted k t) b (Ranks_shifted k t h) (omega arith)
      ∙ get_or-set_ne t.pos (get_or t.list k 0) b (suc k)
          (λ e. omega (arith, (h k (omega arith)).1, ap rank e))

  pub shift_up-pos_moved :
      (k : ℕ) (t : Tables) (i : ℕ)
      → Ranks k t
      → i < k
      → get_or (shift_up k t).pos (get_or t.list i 0) 0 ≡ suc i
  unfolding shift_up
  shift_up-pos_moved zero t i h p = absurd (omega arith)
  shift_up-pos_moved (suc k) t i h p = elim (ℕ_discrete i k) [
    | yes e ↦ rw e (
        shift_up-pos_kept k (shifted k t) (get_or t.list k 0) (Ranks_shifted k t h)
          (omega (arith, (h k (omega arith)).1))
        ∙ get_or-set_self t.pos (get_or t.list k 0) (suc k) (h k (omega arith)).0)
    | no ne ↦
        rw (get_or-set_ne t.list (suc k) i (get_or t.list k 0) (omega arith)) at
          (shift_up-pos_moved k (shifted k t) i (Ranks_shifted k t h) (omega (arith, ne)))
  ]
