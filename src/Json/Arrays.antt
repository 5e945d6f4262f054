-- ===== src/Json/Arrays.antt =====
-- What the array readers accept fits the memory that the caller gave.
use bpf2socks.Prelude.{
  ℕ, zero, suc, ◌+◌, ◌-◌, ◌≤◌, ◌<◌, ◌≡◌, subst, arith, ◌||◌, not, Option, none, some, List, [], ◌∷◌,
  ◌++◌, All, length, leb, ◌==◌, Bool-cases, inl, inr,
}
use bpf2socks.Json.{
  peek, skip_json_whitespace, fitting, until_quote, after_byte, cons_item, string_item,
  string_items, string_array_at, string_array, key_followed,
}

-- Rows that fit, and no more of them than there are slots.
abbrev pub Fits : ℕ → ℕ → Option (List (List ℕ)) → Type 0
Fits row_size slots none = Unit
Fits row_size slots (some rows) = (length rows ≤ slots) × All (λ row. length row < row_size) rows

-- A text that fits its row.
abbrev pub TextFits : ℕ → Option (List ℕ × List ℕ) → Type 0
TextFits size none = Unit
TextFits size (some (text, behind)) = length text < size

pub fitting-TextFits : (size : ℕ) (o : Option (List ℕ × List ℕ)) → TextFits size (fitting size o)
fitting-TextFits size none = tt
fitting-TextFits size (some (text, behind)) = elim (Bool-cases (leb size (length text))) [
  | inl over ↦ rw over tt
  | inr fits ↦ rw fits (ground arith)
]

cons_item-Fits :
    (row_size slots : ℕ) (text : List ℕ) (rows : Option (List (List ℕ)))
    → length text < row_size
    → 0 < slots
    → Fits row_size (slots - 1) rows
    → Fits row_size slots (cons_item text rows)
cons_item-Fits row_size slots text none fits room h = tt
cons_item-Fits row_size slots text (some rows) fits room h = (omega (arith, h.0), (fits, h.1))

string_item-Fits :
    (next : List ℕ → Option (List (List ℕ))) (row_size slots : ℕ) (o : Option (List ℕ × List ℕ))
    → 0 < slots
    → ((pos : List ℕ) → Fits row_size (slots - 1) (next pos))
    → TextFits row_size o
    → Fits row_size slots (string_item next o)
string_item-Fits next row_size slots none room h fits = tt
string_item-Fits next row_size slots (some (text, behind)) room h fits =
    let pos = skip_json_whitespace behind in
    let following = skip_json_whitespace (after_byte pos) in
    elim (Bool-cases (peek pos == b']')) [
      | inl last ↦ rw last (room, (fits, tt))
      | inr more ↦ elim (Bool-cases (not (peek pos == b',') || peek following == b']')) [
        | inl bad ↦ rw (more, bad) tt
        | inr goes ↦
            rw (more, goes)
              (cons_item-Fits row_size slots text (next following) fits room (h following))
      ]
    ]

string_items-Fits :
    (fuel row_size max_count count : ℕ) (pos : List ℕ)
    → Fits row_size (max_count - count) (string_items fuel row_size max_count count pos)
unfolding string_items
string_items-Fits zero row_size max_count count pos = tt
string_items-Fits (suc fuel) row_size max_count count pos =
    elim (Bool-cases (leb max_count count || not (peek pos == 34))) [
      | inl stop ↦ rw stop tt
      | inr goes ↦
          let less : max_count - count - 1 ≡ max_count - (count + 1) = omega arith in
          rw goes (
            string_item-Fits (string_items fuel row_size max_count (count + 1)) row_size
              (max_count - count) (fitting row_size (until_quote (after_byte pos))) (ground arith)
              (λ p. rw less (string_items-Fits fuel row_size max_count (count + 1) p))
              (fitting-TextFits row_size (until_quote (after_byte pos))))
    ]

string_array_at-Fits :
    (found : Option (List ℕ)) (row_size max_count : ℕ)
    → Fits row_size max_count (string_array_at found row_size max_count)
unfolding string_array_at
string_array_at-Fits none row_size max_count = (omega arith, tt)
string_array_at-Fits (some pos) row_size max_count =
    let items = skip_json_whitespace (after_byte pos) in
    let all : max_count - 0 ≡ max_count = omega arith in
    let rows = string_items (suc (length items)) row_size max_count 0 items in
    elim (Bool-cases (not (peek pos == b'['))) [
      | inl bad ↦ rw bad tt
      | inr array ↦ elim (Bool-cases (peek items == b']')) [
        | inl empty ↦ rw (array, empty) (omega arith, tt)
        | inr full ↦
            rw (array, full)
              (subst (λ n. Fits row_size n rows) all
                (string_items-Fits (suc (length items)) row_size max_count 0 items))
      ]
    ]

-- An array of strings that is accepted has no more rows than the caller has slots, and every row
-- fits its slot with its terminating NUL.
pub string_array-Fits :
    (json key : List ℕ) (row_size max_count : ℕ)
    → Fits row_size max_count (string_array json key row_size max_count)
unfolding string_array
string_array-Fits json key row_size max_count =
    elim (Bool-cases (row_size == 0 || leb 96 (length key + 2))) [
      | inl bad ↦ rw bad tt
      | inr good ↦
          rw good
            (string_array_at-Fits (key_followed (34 ∷ (key ++ 34 ∷ [])) json) row_size max_count)
    ]
