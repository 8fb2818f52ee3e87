-- ===== src/Coding/Bwt/Tests.antt =====
-- A periodic text, whose rotations are not all different, through the transform.
use aether_arch.Base.{
  ℕ, zero, suc, ◌+◌, ◌^◌, ◌<◌, ◌≡◌, refl, List, [], ◌∷◌, ◌++◌, length, Option, none, some,
  if◌then◌else◌, bytes_eq, bytes_eq→eq, sym, Bool-cases, inl, inr, bytes_eq→eq, sym, Bool-cases,
  inl, inr, arith, IsBytes, ◌==◌,
}
use aether_arch.Errors.{ok}
use aether_arch.Coding.Bwt.{bwt_encode, bwt_decode_with, bwt_mtf_encode, bwt_mtf_decode}
use aether_arch.Coding.Bwt.Counting.{count}
use aether_arch.Coding.Bwt.Rotations.{IsSuffixArray}
use aether_arch.Coding.Bwt.RoundTrip.{bwt_decode_with-bwt_encode}
use aether_arch.Coding.Bwt.Framing.{bwt_mtf_decode-bwt_mtf_encode}

abbrev pub abab : List ℕ
abab = 97 ∷ 98 ∷ 97 ∷ 98 ∷ 97 ∷ 98 ∷ 97 ∷ 98 ∷ []

abbrev abab_suffixes : List ℕ
abab_suffixes = 14 ∷ 12 ∷ 10 ∷ 8 ∷ 6 ∷ 4 ∷ 2 ∷ 0 ∷ 15 ∷ 13 ∷ 11 ∷ 9 ∷ 7 ∷ 5 ∷ 3 ∷ 1 ∷ []

abbrev pub sais : List ℕ → Option (List ℕ)
unfolding bytes_eq
sais text = if bytes_eq text (abab ++ abab) then some abab_suffixes else none

abab_once : (i : ℕ) → i < 16 → count (λ s. s == i) abab_suffixes ≡ 1
abab_once zero lt = refl
abab_once (suc zero) lt = refl
abab_once (suc (suc zero)) lt = refl
abab_once (suc (suc (suc zero))) lt = refl
abab_once (suc (suc (suc (suc zero)))) lt = refl
abab_once (suc (suc (suc (suc (suc zero))))) lt = refl
abab_once (suc (suc (suc (suc (suc (suc zero)))))) lt = refl
abab_once (suc (suc (suc (suc (suc (suc (suc zero))))))) lt = refl
abab_once (suc (suc (suc (suc (suc (suc (suc (suc zero)))))))) lt = refl
abab_once (suc (suc (suc (suc (suc (suc (suc (suc (suc zero))))))))) lt = refl
abab_once (suc (suc (suc (suc (suc (suc (suc (suc (suc (suc zero)))))))))) lt = refl
abab_once (suc (suc (suc (suc (suc (suc (suc (suc (suc (suc (suc zero))))))))))) lt = refl
abab_once (suc (suc (suc (suc (suc (suc (suc (suc (suc (suc (suc (suc zero)))))))))))) lt = refl
abab_once (suc (suc (suc (suc (suc (suc (suc (suc (suc (suc (suc (suc (suc zero))))))))))))) lt =
    refl
abab_once (suc (suc (suc (suc (suc (suc (suc (suc (suc (suc (suc (suc (suc (suc zero))))))))))))))
      lt =
    refl
abab_once
      (suc (suc (suc (suc (suc (suc (suc (suc (suc (suc (suc (suc (suc (suc (suc zero)))))))))))))))
      lt =
    refl
abab_once
      (suc
        (suc (suc (suc (suc (suc (suc (suc (suc (suc (suc (suc (suc (suc (suc (suc i))))))))))))))))
      lt =
    absurd (omega arith)

abab-IsSuffixArray : IsSuffixArray (abab ++ abab) abab_suffixes
abab-IsSuffixArray = record {
  bounded = (
    omega arith,
    (
      omega arith,
      (
        omega arith,
        (
          omega arith,
          (
            omega arith,
            (
              omega arith,
              (
                omega arith,
                (
                  omega arith,
                  (
                    omega arith,
                    (
                      omega arith,
                      (
                        omega arith,
                        (
                          omega arith,
                          (omega arith, (omega arith, (omega arith, (omega arith, tt)))),
                        ),
                      ),
                    ),
                  ),
                ),
              ),
            ),
          ),
        ),
      ),
    ),
  );
  once = abab_once;
  ascends = (
    (
      refl,
      (
        refl,
        (
          refl,
          (
            refl,
            (
              refl,
              (refl, (refl, (refl, (refl, (refl, (refl, (refl, (refl, (refl, (refl, tt)))))))))),
            ),
          ),
        ),
      ),
    ),
    (
      (
        refl,
        (
          refl,
          (
            refl,
            (
              refl,
              (refl, (refl, (refl, (refl, (refl, (refl, (refl, (refl, (refl, (refl, tt)))))))))),
            ),
          ),
        ),
      ),
      (
        (
          refl,
          (
            refl,
            (
              refl,
              (refl, (refl, (refl, (refl, (refl, (refl, (refl, (refl, (refl, (refl, tt)))))))))),
            ),
          ),
        ),
        (
          (
            refl,
            (
              refl,
              (refl, (refl, (refl, (refl, (refl, (refl, (refl, (refl, (refl, (refl, tt)))))))))),
            ),
          ),
          (
            (
              refl,
              (refl, (refl, (refl, (refl, (refl, (refl, (refl, (refl, (refl, (refl, tt)))))))))),
            ),
            (
              (refl, (refl, (refl, (refl, (refl, (refl, (refl, (refl, (refl, (refl, tt)))))))))),
              (
                (refl, (refl, (refl, (refl, (refl, (refl, (refl, (refl, (refl, tt))))))))),
                (
                  (refl, (refl, (refl, (refl, (refl, (refl, (refl, (refl, tt)))))))),
                  (
                    (refl, (refl, (refl, (refl, (refl, (refl, (refl, tt))))))),
                    (
                      (refl, (refl, (refl, (refl, (refl, (refl, tt)))))),
                      (
                        (refl, (refl, (refl, (refl, (refl, tt))))),
                        (
                          (refl, (refl, (refl, (refl, tt)))),
                          (
                            (refl, (refl, (refl, tt))),
                            ((refl, (refl, tt)), ((refl, tt), (tt, tt))),
                          ),
                        ),
                      ),
                    ),
                  ),
                ),
              ),
            ),
          ),
        ),
      ),
    ),
  );
}

pub sais-IsSuffixArray :
    (text sa : List ℕ) → sais (text ++ text) ≡ some sa → IsSuffixArray (text ++ text) sa
unfolding sais
sais-IsSuffixArray text sa found = elim (Bool-cases (bytes_eq (text ++ text) (abab ++ abab))) [
  | inr other ↦ absurd (cc (rw (sais, other) at found))
  | inl same ↦
      let whole : text ++ text ≡ abab ++ abab = bytes_eq→eq (text ++ text) (abab ++ abab) same in
      let array : abab_suffixes ≡ sa = cc (rw (sais, same) at found) in
      rw (whole, sym array) abab-IsSuffixArray
]

pub abab-IsBytes : IsBytes abab
abab-IsBytes = (
  omega arith,
  (
    omega arith,
    (omega arith, (omega arith, (omega arith, (omega arith, (omega arith, (omega arith, tt)))))),
  ),
)

abab_encoded : bwt_encode sais abab ≡ some (98 ∷ 98 ∷ 98 ∷ 98 ∷ 97 ∷ 97 ∷ 97 ∷ 97 ∷ [], 3)
unfolding bwt_encode sais
abab_encoded = refl

bwt_decode_with-bwt_encode_example :
    (bwt : List ℕ) × (primary : ℕ) × (bwt_encode sais abab ≡ some (bwt, primary))
    × (bwt_decode_with bwt primary 2 (2 ^ 24) ≡ some abab)
unfolding sais
bwt_decode_with-bwt_encode_example =
    bwt_decode_with-bwt_encode sais abab abab_suffixes 2 (2 ^ 24) refl abab-IsSuffixArray
      abab-IsBytes (omega arith) (omega arith)

bwt_mtf_decode-bwt_mtf_encode_example :
    (encoded : List ℕ) × (bwt_mtf_encode sais abab ≡ ok encoded)
    × (length encoded ≡ 4 + length abab)
    × (bwt_mtf_decode encoded (length abab) ≡ ok abab)
unfolding sais
bwt_mtf_decode-bwt_mtf_encode_example =
    bwt_mtf_decode-bwt_mtf_encode sais abab abab_suffixes refl abab-IsSuffixArray abab-IsBytes
      (omega arith)
