-- ===== src/Checksum/Fold.antt =====
-- The loop of `checksum_fold` ends within two rounds, and a sum with its own checksum folds to zero.
use bpf2socks.Prelude.{
  ℕ, ◌+◌, ◌-◌, ◌*◌, ◌/◌, ◌%◌, ◌^◌, ◌≤◌, ◌<◌, ◌==◌, List, [], ◌∷◌, ◌++◌, ◌≡◌, refl, ◌∙◌, arith,
  Bool-cases, inl, inr, length, All,
}
use bpf2socks.Checksum.{add_bytes, fold_loop, fold, nonzero}

-- What is left of a sum: the same remainder of 65535, and not zero but for zero.
pub record Folded (s : ℕ) (r : ℕ) : Type 0 where
  pub rounds : ℕ
  pub congruent : s ≡ r + 65535 * rounds
  pub small : r < 65536
  pub positive : 0 < s → 0 < r

fold_loop-Folded : (s : ℕ) → s < 2 ^ 32 → Folded s (fold_loop 2 s)
unfolding fold_loop
fold_loop-Folded s h = elim (Bool-cases (s / 65536 == 0)) [
  | inl e ↦
      rw e (record { rounds = 0; congruent = omega arith; small = ground arith; positive = λ p. p })
  | inr e ↦
      let t = s % 65536 + s / 65536 in
      elim (Bool-cases (t / 65536 == 0)) [
        | inl f ↦
            rw (e, f)
              (record {
                rounds = s / 65536;
                congruent = omega arith;
                small = ground arith;
                positive = λ p. ground arith;
              })
        | inr f ↦
            rw (e, f)
              (record {
                rounds = s / 65536 + t / 65536;
                congruent = omega arith;
                small = ground arith;
                positive = λ p. ground arith;
              })
      ]
]

fold_lem : (s r : ℕ) → fold_loop 2 s ≡ r → r < 65536 → fold s ≡ 65535 - r
unfolding fold
fold_lem s r e h = rw e (omega arith)

-- A sum with its own checksum added is a multiple of 65535, also where the checksum 0 is sent as
-- 65535.
pub fold-multiples :
    (s : ℕ) → s + 65535 < 2 ^ 32 → ((s + fold s) % 65535 ≡ 0) × ((s + nonzero (fold s)) % 65535 ≡ 0)
fold-multiples s h =
    let f = fold_loop-Folded s (omega arith) in
    let e = fold_lem s (fold_loop 2 s) refl f.small in
    let plain : (s + fold s) % 65535 ≡ 0 = omega (arith, e, f.congruent, f.small) in
    (
      plain,
      elim (Bool-cases (fold s == 0)) [
        | inl z ↦ rw z (ground (arith, z, plain))
        | inr nz ↦ rw nz plain
      ],
    )

-- The sum of the words, with no wrap-around.
abbrev pub words : List ℕ → ℕ
words [] = 0
words (a ∷ []) = a * 256
words (a ∷ b ∷ rest) = a * 256 + b + words rest

abbrev pub IsBytes : List ℕ → Type 0
IsBytes xs = All (λ b. b < 256) xs

pub words-le : (xs : List ℕ) → IsBytes xs → 2 * words xs ≤ 65535 * (length xs + 1)
words-le [] h = omega arith
words-le (a ∷ []) h = omega (arith, h.0)
words-le (a ∷ b ∷ rest) h = omega (arith, h.0, h.1.0, words-le rest h.1.1)

pub add_bytes-words :
    (sum : ℕ) (xs : List ℕ) → sum + words xs < 2 ^ 32 → add_bytes sum xs ≡ sum + words xs
unfolding add_bytes
add_bytes-words sum [] h = omega arith
add_bytes-words sum (a ∷ []) h = omega arith
add_bytes-words sum (a ∷ b ∷ rest) h =
    let e : (sum + (a * 256 + b)) % 2 ^ 32 ≡ sum + (a * 256 + b) = omega arith in
    rw e (add_bytes-words (sum + (a * 256 + b)) rest (omega arith) ∙ omega arith)

-- The bytes come in pairs.
abbrev pub IsEven : List ℕ → Type 0
IsEven [] = Unit {0}
IsEven (a ∷ []) = ⊥
IsEven (a ∷ b ∷ rest) = IsEven rest

pub IsEven-length : (n : ℕ) (xs : List ℕ) → length xs ≡ 2 * n → IsEven xs
IsEven-length n [] h = tt
IsEven-length n (a ∷ []) h = absurd (omega arith)
IsEven-length n (a ∷ b ∷ rest) h = IsEven-length (n - 1) rest (omega arith)

pub words-append : (xs ys : List ℕ) → IsEven xs → words (xs ++ ys) ≡ words xs + words ys
words-append [] ys h = omega arith
words-append (a ∷ []) ys h = absurd h
words-append (a ∷ b ∷ rest) ys h = omega (arith, words-append rest ys h)
