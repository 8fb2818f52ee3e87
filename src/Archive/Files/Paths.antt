-- ===== src/Archive/Files/Paths.antt =====
-- No path that the reader accepts leads out of the directory that it is joined to.
use aether_arch.Base.{
  ℕ, ◌≡◌, ◌≢◌, refl, List, [], ◌∷◌, ◌++◌, ◌==◌, Bool, true, false, ◌||◌, arith, bytes_eq, drop,
  Bool-cases, inl, inr, ◌⊎◌, append_assoc,
}
use aether_arch.Errors.{ok}
use aether_arch.Archive.Files.{
  is_separator, contains_nul, starts_with_separator, has_drive, prepend, components, dot_dot,
  has_dot_dot, is_utf8, check_path,
}

-- `/` and `\`.
abbrev pub IsSeparator : ℕ → Type 0
IsSeparator s = (s ≡ b'/') ⊎ (s ≡ b'\\')

separator_found : (s : ℕ) → IsSeparator s → is_separator s ≡ true
separator_found s h = ground arith

-- `..` stands between two separators, or ends of the path.
abbrev pub Before : List ℕ → Type 0
Before before =
    (before ≡ []) ⊎ ((start : List ℕ) × (s : ℕ) × IsSeparator s × (before ≡ start ++ (s ∷ [])))

abbrev pub After : List ℕ → Type 0
After after = (after ≡ []) ⊎ ((s : ℕ) × (rest : List ℕ) × IsSeparator s × (after ≡ s ∷ rest))

or_right : (a b : Bool) → b ≡ true → (a || b) ≡ true
or_right a b h = ground arith

drop-prepend : (b : ℕ) (cs : List (List ℕ)) → drop 1 (prepend b cs) ≡ drop 1 cs
drop-prepend b [] = refl
drop-prepend b (c ∷ cs) = refl

components_separator :
    (b : ℕ) (bs : List ℕ) → is_separator b ≡ true → components (b ∷ bs) ≡ [] ∷ components bs
unfolding components
components_separator b bs h = rw h

components_other :
    (b : ℕ) (bs : List ℕ) → is_separator b ≡ false → components (b ∷ bs) ≡ prepend b (components bs)
unfolding components
components_other b bs h = rw h

dot_dot_behind : (cs : List (List ℕ)) → has_dot_dot (drop 1 cs) ≡ true → has_dot_dot cs ≡ true
unfolding has_dot_dot
dot_dot_behind [] h = h
dot_dot_behind (c ∷ cs) h = or_right (bytes_eq c dot_dot) (has_dot_dot cs) h

climbs_now : (after : List ℕ) → After after → has_dot_dot (components (dot_dot ++ after)) ≡ true
climbs_now after h = elim h [
  | inl e ↦ rw e (unfold components has_dot_dot bytes_eq in refl)
  | inr (s, rest, hs, e) ↦ rw e (
      rw
        (
          components_other b'.' (b'.' ∷ s ∷ rest) refl,
          components_other b'.' (s ∷ rest) refl,
          components_separator s rest (separator_found s hs),
        )
        (unfold has_dot_dot bytes_eq in refl))
]

climbs_later :
    (start after : List ℕ) (s : ℕ)
    → is_separator s ≡ true
    → has_dot_dot (components after) ≡ true
    → has_dot_dot (drop 1 (components (start ++ (s ∷ after)))) ≡ true
climbs_later [] after s hs h = rw (components_separator s after hs) h
climbs_later (b ∷ start) after s hs h =
    let behind = start ++ (s ∷ after) in
    let later = climbs_later start after s hs h in
    elim (Bool-cases (is_separator b)) [
      | inl here ↦
          rw (components_separator b behind here) (dot_dot_behind (components behind) later)
      | inr other ↦ rw (components_other b behind other, drop-prepend b (components behind)) later
    ]

climbs :
    (before after : List ℕ)
    → Before before
    → After after
    → has_dot_dot (components (before ++ (dot_dot ++ after))) ≡ true
climbs before after hb ha =
    let now = climbs_now after ha in
    elim hb [
      | inl e ↦ rw e now
      | inr (start, s, hs, e) ↦
          rw (e, append_assoc start (s ∷ []) (dot_dot ++ after))
            (dot_dot_behind _ (climbs_later start (dot_dot ++ after) s (separator_found s hs) now))
    ]

-- A path with no way up, in terms of its bytes.
pub record IsSafe (path : List ℕ) : Type 0 where
  pub no_nul : (before after : List ℕ) → path ≢ before ++ (0 ∷ after)
  pub relative : (s : ℕ) (rest : List ℕ) → IsSeparator s → path ≢ s ∷ rest
  pub no_drive : (a : ℕ) (rest : List ℕ) → path ≢ a ∷ b':' ∷ rest
  pub no_dot_dot :
      (before after : List ℕ) → Before before → After after → path ≢ before ++ (b'.' ∷ b'.' ∷ after)

nul_found : (before after : List ℕ) → contains_nul (before ++ (0 ∷ after)) ≡ true
unfolding contains_nul
nul_found [] after = refl
nul_found (b ∷ before) after = or_right (b == 0) _ (nul_found before after)

true≢false : {b : Bool} → b ≡ true → b ≢ false
true≢false h e = ground arith

pub check_path_inv :
    (path : List ℕ)
    → check_path path ≡ ok tt
    → (is_utf8 path ≡ true)
      × (contains_nul path ≡ false)
      × (starts_with_separator path ≡ false)
      × (has_drive path ≡ false)
      × (has_dot_dot (components path) ≡ false)
unfolding check_path
check_path_inv path h = ground arith

-- A path that the checks accept is safe.
pub check_path-IsSafe : (path : List ℕ) → check_path path ≡ ok tt → IsSafe path
check_path-IsSafe path h =
    let (valid, nul, start, drive, dots) = check_path_inv path h in
    record {
      no_nul = λ before after e. true≢false (rw e (nul_found before after)) nul;
      relative = λ s rest hs e.
          true≢false (rw e (unfold starts_with_separator in separator_found s hs)) start;
      no_drive = λ a rest e. true≢false (rw e (unfold has_drive in refl)) drive;
      no_dot_dot = λ before after hb ha e. true≢false (rw e (climbs before after hb ha)) dots;
    }
