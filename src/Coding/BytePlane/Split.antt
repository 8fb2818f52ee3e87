-- ===== src/Coding/BytePlane/Split.antt =====
-- Splitting into planes and merging them.
use aether_arch.Base.{
  ℕ, zero, suc, ◌+◌, ◌-◌, ◌*◌, ◌/◌, ◌≤◌, ◌≡◌, refl, sym, ap, ◌∙◌, List, [], ◌∷◌, ◌++◌, map, length,
  replicate, get_or, take, drop, arith, All, IsBytes, length-take_le, length-drop, take-append-take,
}
use mathlib.Core.Path.{subst}
use aether_arch.Coding.BytePlane.{
  BytePlaneWidth, two, four, planes, push_element, split_loop, byteplane_split, merge_loop,
  byteplane_merge,
}

-- `count` planes of `n` bytes.
pub record IsPlanes (count n : ℕ) (ps : List (List ℕ)) : Type 0 where
  pub count_eq : length ps ≡ count
  pub lengths : All (λ p. length p ≡ n) ps
  pub bytes : All IsBytes ps

length-push_element : (x : List ℕ) (ps : List (List ℕ)) → length (push_element x ps) ≡ length ps
unfolding push_element
length-push_element [] ps = refl
length-push_element (b ∷ x) [] = refl
length-push_element (b ∷ x) (p ∷ ps) = ap suc (length-push_element x ps)

push_element-lengths :
    (n : ℕ) (x : List ℕ) (ps : List (List ℕ))
    → length x ≡ length ps
    → All (λ p. length p ≡ n) ps
    → All (λ p. length p ≡ suc n) (push_element x ps)
unfolding push_element
push_element-lengths n [] [] e h = h
push_element-lengths n [] (p ∷ ps) e h = absurd (omega (arith, e))
push_element-lengths n (b ∷ x) [] e h = h
push_element-lengths n (b ∷ x) (p ∷ ps) e (same, h) =
    (ap suc same, push_element-lengths n x ps (omega (arith, e)) h)

push_element-IsBytes :
    (x : List ℕ) (ps : List (List ℕ)) → IsBytes x → All IsBytes ps → All IsBytes (push_element x ps)
unfolding push_element
push_element-IsBytes [] ps hx h = h
push_element-IsBytes (b ∷ x) [] hx h = h
push_element-IsBytes (b ∷ x) (p ∷ ps) (hb, hx) (hp, h) = ((hb, hp), push_element-IsBytes x ps hx h)

heads-push_element :
    (x : List ℕ) (ps : List (List ℕ))
    → length x ≡ length ps
    → map (λ p. get_or p 0 0) (push_element x ps) ≡ x
unfolding push_element
heads-push_element [] [] e = refl
heads-push_element [] (p ∷ ps) e = absurd (omega (arith, e))
heads-push_element (b ∷ x) [] e = absurd (omega (arith, e))
heads-push_element (b ∷ x) (p ∷ ps) e = ap (λ t. b ∷ t) (heads-push_element x ps (omega (arith, e)))

tails-push_element :
    (x : List ℕ) (ps : List (List ℕ)) → length x ≡ length ps → map (drop 1) (push_element x ps) ≡ ps
unfolding push_element
tails-push_element [] [] e = refl
tails-push_element [] (p ∷ ps) e = absurd (omega (arith, e))
tails-push_element (b ∷ x) [] e = absurd (omega (arith, e))
tails-push_element (b ∷ x) (p ∷ ps) e = ap (λ t. p ∷ t) (tails-push_element x ps (omega (arith, e)))

replicate-lengths : (w : ℕ) → All (λ (p : List ℕ). length p ≡ 0) (replicate w [])
replicate-lengths zero = tt
replicate-lengths (suc w) = (refl, replicate-lengths w)

replicate-IsBytes : (w : ℕ) → All IsBytes (replicate w [])
replicate-IsBytes zero = tt
replicate-IsBytes (suc w) = (tt, replicate-IsBytes w)

replicate-count : (w : ℕ) → length (replicate {A = List ℕ} w []) ≡ w
replicate-count zero = refl
replicate-count (suc w) = ap suc (replicate-count w)

IsBytes-take : (n : ℕ) (xs : List ℕ) → IsBytes xs → IsBytes (take n xs)
IsBytes-take zero xs h = tt
IsBytes-take (suc n) [] h = tt
IsBytes-take (suc n) (x ∷ xs) (hx, h) = (hx, IsBytes-take n xs h)

IsBytes-drop : (n : ℕ) (xs : List ℕ) → IsBytes xs → IsBytes (drop n xs)
IsBytes-drop zero xs h = h
IsBytes-drop (suc n) [] h = tt
IsBytes-drop (suc n) (x ∷ xs) (hx, h) = IsBytes-drop n xs h

mul_step : (n w : ℕ) → suc n * w ≡ w + n * w
mul_step n w = omega arith

first_full : (n w : ℕ) (xs : List ℕ) → suc n * w ≤ length xs → length (take w xs) ≡ w
first_full n w xs h = length-take_le w xs (omega (arith, mul_step n w))

rest_full : (n w : ℕ) (xs : List ℕ) → suc n * w ≤ length xs → n * w ≤ length (drop w xs)
rest_full n w xs h = omega (arith, mul_step n w, length-drop w xs)

pub split_loop-IsPlanes :
    (n w : ℕ) (xs : List ℕ) → n * w ≤ length xs → IsBytes xs → IsPlanes w n (split_loop n w xs)
unfolding split_loop
split_loop-IsPlanes zero w xs h hx = record {
  count_eq = replicate-count w;
  lengths = replicate-lengths w;
  bytes = replicate-IsBytes w;
}
split_loop-IsPlanes (suc n) w xs h hx =
    let rest = split_loop-IsPlanes n w (drop w xs) (rest_full n w xs h) (IsBytes-drop w xs hx) in
    let full : length (take w xs) ≡ length (split_loop n w (drop w xs)) =
      first_full n w xs h ∙ sym rest.count_eq in
    record {
      count_eq = length-push_element (take w xs) (split_loop n w (drop w xs)) ∙ rest.count_eq;
      lengths = push_element-lengths n (take w xs) (split_loop n w (drop w xs)) full rest.lengths;
      bytes =
          push_element-IsBytes (take w xs) (split_loop n w (drop w xs)) (IsBytes-take w xs hx)
            rest.bytes;
    }

merge_loop-split_loop :
    (n w : ℕ) (xs : List ℕ)
    → n * w ≤ length xs
    → IsBytes xs
    → merge_loop n (split_loop n w xs) ≡ take (n * w) xs
unfolding merge_loop split_loop
merge_loop-split_loop zero w xs h hx = let e : 0 * w ≡ 0 = omega arith in rw e
merge_loop-split_loop (suc n) w xs h hx =
    let inside = rest_full n w xs h in
    let hd = IsBytes-drop w xs hx in
    let rest = split_loop n w (drop w xs) in
    let full : length (take w xs) ≡ length rest =
      first_full n w xs h ∙ sym (split_loop-IsPlanes n w (drop w xs) inside hd).count_eq in
    rw (heads-push_element (take w xs) rest full, tails-push_element (take w xs) rest full)
      (rw (merge_loop-split_loop n w (drop w xs) inside hd, mul_step n w)
        (take-append-take w (n * w) xs))

pub merge_planes :
    (count n : ℕ) (ps : List (List ℕ)) (tail : List ℕ)
    → IsPlanes (suc count) n ps
    → byteplane_merge ps tail ≡ merge_loop n ps ++ tail
merge_planes count n [] tail h = absurd (omega (arith, h.count_eq))
merge_planes count n (p ∷ ps) tail h = unfold byteplane_merge in rw (h.lengths.0)

pub whole_elements : (n w : ℕ) (width : BytePlaneWidth) → w ≡ planes width → n / w * w ≤ n
whole_elements n w two e = rw e (omega arith)
whole_elements n w four e = rw e (omega arith)

planes_positive : (width : BytePlaneWidth) → planes width ≡ suc (planes width - 1)
planes_positive two = refl
planes_positive four = refl

pub split-IsPlanes :
    (xs : List ℕ) (width : BytePlaneWidth)
    → IsBytes xs
    → IsPlanes (planes width) (length xs / planes width) (byteplane_split xs width).0
unfolding byteplane_split
split-IsPlanes xs width hx =
    split_loop-IsPlanes (length xs / planes width) (planes width) xs
      (whole_elements (length xs) (planes width) width refl) hx

take-append-drop : (n : ℕ) (xs : List ℕ) → take n xs ++ drop n xs ≡ xs
take-append-drop zero xs = refl
take-append-drop (suc n) [] = refl
take-append-drop (suc n) (x ∷ xs) = ap (λ t. x ∷ t) (take-append-drop n xs)

-- For bytes and either width, merging what `byteplane_split` returns gives the bytes back.
pub byteplane_merge-byteplane_split :
    (xs : List ℕ) (width : BytePlaneWidth)
    → IsBytes xs
    → byteplane_merge (byteplane_split xs width).0 (byteplane_split xs width).1 ≡ xs
byteplane_merge-byteplane_split xs width hx =
    let w = planes width in
    let n = length xs / w in
    let counted =
      subst (λ k. IsPlanes k n (byteplane_split xs width).0) (planes_positive width)
        (split-IsPlanes xs width hx) in
    merge_planes (w - 1) n (byteplane_split xs width).0 (byteplane_split xs width).1 counted
    ∙ (unfold byteplane_split in
        rw (merge_loop-split_loop n w xs (whole_elements (length xs) w width refl) hx)
          (take-append-drop (n * w) xs))
