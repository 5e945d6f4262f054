-- ===== src/Json/Lengths.antt =====
-- The texts and the arrays of numbers that are accepted fit the memory that the caller gave.
use bpf2socks.Prelude.{
  ℕ, zero, suc, ◌+◌, ◌-◌, ◌^◌, ◌≤◌, ◌<◌, ◌≡◌, subst, arith, not, Option, none, some, List, length,
  leb, ◌==◌, Bool-cases, inl, inr,
}
use bpf2socks.Json.{
  bind, peek, skip_json_whitespace, strchr, after_first, fitting, until_quote, text_of, after_byte,
  cons_item, json_value_pos, json_string, parse_json_uint, uint_item, uint_items, uint_array_at,
  uint_array,
}
use bpf2socks.Json.Arrays.{TextFits, fitting-TextFits}

-- A text with its terminating NUL fits its memory.
abbrev pub StringFits : ℕ → Option (List ℕ) → Type 0
StringFits size none = Unit {0}
StringFits size (some text) = length text < size

text_of-StringFits :
    (size : ℕ) (o : Option (List ℕ × List ℕ)) → TextFits size o → StringFits size (text_of o)
text_of-StringFits size none h = tt
text_of-StringFits size (some (text, behind)) h = h

bind-StringFits :
    (size : ℕ) (o : Option (List ℕ)) (f : List ℕ → Option (List ℕ))
    → ((a : List ℕ) → StringFits size (f a))
    → StringFits size (bind o f)
bind-StringFits size none f h = tt
bind-StringFits size (some a) f h = h a

-- A string that is accepted is shorter than the memory for it.
pub json_string-StringFits :
    (json key : List ℕ) (out_size : ℕ) → StringFits out_size (json_string json key out_size)
unfolding json_string
json_string-StringFits json key size = elim (Bool-cases (size == 0)) [
  | inl bad ↦ rw bad tt
  | inr good ↦ rw good (
      bind-StringFits size (json_value_pos json key) _ (λ pos.
        bind-StringFits size (after_first (strchr 34 pos)) _ (λ start.
          text_of-StringFits size (fitting size (until_quote start))
            (fitting-TextFits size (until_quote start)))))
]

-- No more numbers than there are slots.
abbrev pub NumbersFit : ℕ → Option (List ℕ) → Type 0
NumbersFit slots none = Unit {0}
NumbersFit slots (some ns) = length ns ≤ slots

cons_item-NumbersFit :
    (slots n : ℕ) (ns : Option (List ℕ))
    → 0 < slots
    → NumbersFit (slots - 1) ns
    → NumbersFit slots (cons_item n ns)
cons_item-NumbersFit slots n none room h = tt
cons_item-NumbersFit slots n (some ns) room h = omega (arith, h)

uint_item-NumbersFit :
    (next : List ℕ → Option (List ℕ)) (slots : ℕ) (o : Option (ℕ × List ℕ))
    → 0 < slots
    → ((pos : List ℕ) → NumbersFit (slots - 1) (next pos))
    → NumbersFit slots (uint_item next o)
uint_item-NumbersFit next slots none room h = tt
uint_item-NumbersFit next slots (some (n, behind)) room h =
    let pos = skip_json_whitespace behind in
    let following = skip_json_whitespace (after_byte pos) in
    elim (Bool-cases (peek pos == b']')) [
      | inl last ↦ rw last room
      | inr more ↦ elim (Bool-cases (not (peek pos == b','))) [
        | inl bad ↦ rw (more, bad) tt
        | inr goes ↦
            rw (more, goes) (cons_item-NumbersFit slots n (next following) room (h following))
      ]
    ]

uint_items-NumbersFit :
    (fuel max_count count : ℕ) (pos : List ℕ)
    → NumbersFit (max_count - count) (uint_items fuel max_count count pos)
unfolding uint_items
uint_items-NumbersFit zero max_count count pos = tt
uint_items-NumbersFit (suc fuel) max_count count pos = elim (Bool-cases (leb max_count count)) [
  | inl stop ↦ rw stop tt
  | inr goes ↦
      let less : max_count - count - 1 ≡ max_count - (count + 1) = omega arith in
      rw goes (
        uint_item-NumbersFit (uint_items fuel max_count (count + 1)) (max_count - count)
          (parse_json_uint pos (2 ^ 32 - 1)) (ground arith)
          (λ p. rw less (uint_items-NumbersFit fuel max_count (count + 1) p)))
]

uint_array_at-NumbersFit :
    (found : Option (List ℕ)) (max_count : ℕ) → NumbersFit max_count (uint_array_at found max_count)
unfolding uint_array_at
uint_array_at-NumbersFit none max_count = omega arith
uint_array_at-NumbersFit (some pos) max_count =
    let start = skip_json_whitespace pos in
    let items = skip_json_whitespace (after_byte start) in
    let all : max_count - 0 ≡ max_count = omega arith in
    let numbers = uint_items (suc (length items)) max_count 0 items in
    elim (Bool-cases (not (peek start == b'['))) [
      | inl bad ↦ rw bad tt
      | inr array ↦ elim (Bool-cases (peek items == b']')) [
        | inl empty ↦ rw (array, empty) (omega arith)
        | inr full ↦
            rw (array, full)
              (subst (λ n. NumbersFit n numbers) all
                (uint_items-NumbersFit (suc (length items)) max_count 0 items))
      ]
    ]

-- An array of numbers that is accepted has no more of them than the caller has slots.
pub uint_array-NumbersFit :
    (json key : List ℕ) (max_count : ℕ) → NumbersFit max_count (uint_array json key max_count)
unfolding uint_array
uint_array-NumbersFit json key max_count =
    uint_array_at-NumbersFit (json_value_pos json key) max_count
