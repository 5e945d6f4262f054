-- ===== src/Json/Numbers.antt =====
-- Decimal numbers: what the reader accepts is within the limit, and it reads back what is printed.
use bpf2socks.Prelude.{
  ℕ, ◌+◌, ◌-◌, ◌*◌, ◌≤◌, ◌≡◌, refl, arith, true, false, Option, none, some, List, [], ◌∷◌, ◌++◌,
  All, ltb, Bool-cases, inl, inr,
}
use bpf2socks.Json.{
  peek, skip_json_whitespace, json_whitespace, is_digit, parse_digits, parse_json_uint, uint_at,
  uint_field, json_value_pos, number_of,
}

-- The number of a list of digits, onto a value so far.
abbrev pub value_from : ℕ → List ℕ → ℕ
value_from acc [] = acc
value_from acc (d ∷ ds) = value_from (acc * 10 + d) ds

-- The digits as characters.
abbrev pub text_of_digits : List ℕ → List ℕ
text_of_digits [] = []
text_of_digits (d ∷ ds) = (48 + d) ∷ text_of_digits ds

value_from_ge : (acc : ℕ) (ds : List ℕ) → acc ≤ value_from acc ds
value_from_ge acc [] = omega arith
value_from_ge acc (d ∷ ds) = omega (arith, value_from_ge (acc * 10 + d) ds)

parse_digits_text :
    (max_value acc : ℕ) (ds rest : List ℕ)
    → All (λ d. d ≤ 9) ds
    → is_digit (peek rest) ≡ false
    → value_from acc ds ≤ max_value
    → parse_digits max_value acc (text_of_digits ds ++ rest) ≡ some (value_from acc ds, rest)
unfolding parse_digits
parse_digits_text max_value acc [] [] small stop fits = refl
parse_digits_text max_value acc [] (c ∷ cs) small stop fits = rw stop
parse_digits_text max_value acc (d ∷ ds) rest small stop fits =
    let next : acc * 10 + (48 + d - 48) ≡ acc * 10 + d = omega arith in
    let digit : is_digit (48 + d) ≡ true = ground (arith, small.0) in
    let below : ltb max_value (acc * 10 + d) ≡ false =
      ground (arith, value_from_ge (acc * 10 + d) ds) in
    rw (digit, next, below) (parse_digits_text max_value (acc * 10 + d) ds rest small.1 stop fits)

-- A printed number within the limit, behind no white space and before no further digit, is read back
-- with what follows it.
pub parse_json_uint-text_of_digits :
    (max_value d : ℕ) (ds rest : List ℕ)
    → All (λ x. x ≤ 9) (d ∷ ds)
    → is_digit (peek rest) ≡ false
    → value_from 0 (d ∷ ds) ≤ max_value
    → parse_json_uint (text_of_digits (d ∷ ds) ++ rest) max_value
      ≡ some (value_from 0 (d ∷ ds), rest)
unfolding parse_json_uint
parse_json_uint-text_of_digits max_value d ds rest small stop fits =
    let solid : json_whitespace (48 + d) ≡ false = ground arith in
    let digit : is_digit (48 + d) ≡ true = ground (arith, small.0) in
    rw (solid, digit) (parse_digits_text max_value 0 (d ∷ ds) rest small stop fits)

-- What is accepted is at most the limit.
abbrev pub Within : ℕ → Option (ℕ × List ℕ) → Type 0
Within max_value none = Unit
Within max_value (some (n, end_)) = n ≤ max_value

parse_digits-Within :
    (max_value parsed : ℕ) (pos : List ℕ)
    → parsed ≤ max_value
    → Within max_value (parse_digits max_value parsed pos)
unfolding parse_digits
parse_digits-Within max_value parsed [] h = h
parse_digits-Within max_value parsed (c ∷ cs) h =
    let next = parsed * 10 + (c - 48) in
    elim (Bool-cases (is_digit c)) [
      | inr other ↦ rw other h
      | inl digit ↦ elim (Bool-cases (ltb max_value next)) [
        | inl over ↦ rw (digit, over) tt
        | inr fits ↦ rw (digit, fits) (parse_digits-Within max_value next cs (ground arith))
      ]
    ]

-- A number that the reader accepts is at most the limit of its field.
pub parse_json_uint-Within :
    (pos : List ℕ) (max_value : ℕ) → Within max_value (parse_json_uint pos max_value)
unfolding parse_json_uint
parse_json_uint-Within pos max_value =
    let pos' = skip_json_whitespace pos in
    elim (Bool-cases (is_digit (peek pos'))) [
      | inl digit ↦ rw digit (parse_digits-Within max_value 0 pos' (omega arith))
      | inr other ↦ rw other tt
    ]

abbrev pub Below : ℕ → Option ℕ → Type 0
Below max_value none = Unit
Below max_value (some n) = n ≤ max_value

uint_at-Below :
    (found : Option (List ℕ)) (max_value value : ℕ)
    → value ≤ max_value
    → Below max_value (uint_at found max_value value)
unfolding uint_at
uint_at-Below none max_value value h = h
uint_at-Below (some pos) max_value value h =
    by_number (parse_json_uint pos max_value) (parse_json_uint-Within pos max_value)
  where
    by_number : (o : Option (ℕ × List ℕ)) → Within max_value o → Below max_value (number_of o)
    by_number none w = tt
    by_number (some (n, end_)) w = w

-- A field that is read is within its limit, if its default is.
pub uint_field-Below :
    (json key : List ℕ) (max_value value : ℕ)
    → value ≤ max_value
    → Below max_value (uint_field json key max_value value)
unfolding uint_field
uint_field-Below json key max_value value h =
    uint_at-Below (json_value_pos json key) max_value value h
