-- ===== src/Json.antt =====
-- The JSON reader of core/json.c. A pointer into the text is the list of the bytes from there to the
-- terminating NUL, which is the end of the list; every pointer is into the text, so the code never
-- steps over its end unless a definition here says so.
pub mod Numbers
pub mod Arrays
pub mod Lengths
mod Tests
use bpf2socks.Prelude.{
  ℕ, zero, suc, ◌+◌, ◌-◌, ◌*◌, ◌^◌, ◌<◌, Bool, true, false, ◌&&◌, ◌||◌, not, Option, none, some,
  List, [], ◌∷◌, ◌++◌, ltb, leb, ◌==◌, if◌then◌else◌, length, drop,
}

abbrev pub json_whitespace : ℕ → Bool
json_whitespace value = value == 32 || (value == 10 || (value == 9 || value == 13))

abbrev pub skip_json_whitespace : List ℕ → List ℕ
skip_json_whitespace [] = []
skip_json_whitespace (c ∷ cs) = if json_whitespace c then skip_json_whitespace cs else c ∷ cs

-- The byte at a pointer: the NUL at the end.
abbrev pub peek : List ℕ → ℕ
peek [] = 0
peek (c ∷ cs) = c

abbrev pub starts_with : List ℕ → List ℕ → Bool
starts_with [] text = true
starts_with (p ∷ ps) [] = false
starts_with (p ∷ ps) (c ∷ cs) = (p == c) && starts_with ps cs

-- `strstr` and `strchr` of the C library: the first place that matches.
abbrev pub strstr : List ℕ → List ℕ → Option (List ℕ)
strstr needle [] = if starts_with needle [] then some [] else none
strstr needle (c ∷ cs) =
    let rest = strstr needle cs in if starts_with needle (c ∷ cs) then some (c ∷ cs) else rest

abbrev pub strchr : ℕ → List ℕ → Option (List ℕ)
strchr b [] = none
strchr b (c ∷ cs) = let rest = strchr b cs in if c == b then some (c ∷ cs) else rest

abbrev pub take_bytes : ℕ → List ℕ → List ℕ
take_bytes zero xs = []
take_bytes (suc n) [] = []
take_bytes (suc n) (x ∷ xs) = x ∷ take_bytes n xs

-- The key in quotes, as `snprintf` cuts it to the 96 bytes of `needle`.
abbrev pub needle_of : List ℕ → List ℕ
needle_of key = take_bytes 95 (34 ∷ (key ++ 34 ∷ []))

abbrev pub after_first : Option (List ℕ) → Option (List ℕ)
after_first none = none
after_first (some []) = none
after_first (some (c ∷ cs)) = some cs

abbrev pub bind {ℓ} : {B : Type ℓ} → Option (List ℕ) → (List ℕ → Option B) → Option B
bind none f = none
bind (some a) f = f a

abbrev pub json_value_pos : List ℕ → List ℕ → Option (List ℕ)
json_value_pos json key = bind (strstr (needle_of key) json) (λ pos. after_first (strchr b':' pos))

abbrev pub json_object : List ℕ → List ℕ → Option (List ℕ)
json_object json key = bind (json_value_pos json key) (strchr b'{')

abbrev pub has_key : List ℕ → List ℕ → Bool
has_key json key = elim (json_value_pos json key) [ none ↦ false | some pos ↦ true ]

abbrev pub is_digit : ℕ → Bool
is_digit c = leb 48 c && leb c 57

-- The digits from here on, onto a value so far: the number and what stands behind it, or that it
-- is over the maximum.
pub parse_digits : ℕ → ℕ → List ℕ → Option (ℕ × List ℕ)
parse_digits max_value parsed [] = some (parsed, [])
parse_digits max_value parsed (c ∷ cs) =
    let next = parsed * 10 + (c - 48) in
    let rest = parse_digits max_value next cs in
    if is_digit c then (if ltb max_value next then none else rest) else some (parsed, c ∷ cs)

pub parse_json_uint : List ℕ → ℕ → Option (ℕ × List ℕ)
parse_json_uint pos max_value =
    let pos' = skip_json_whitespace pos in
    if is_digit (peek pos') then parse_digits max_value 0 pos' else none

abbrev pub number_of : Option (ℕ × List ℕ) → Option ℕ
number_of none = none
number_of (some (n, end_)) = some n

-- `none` is false; an absent key leaves the value.
abbrev pub uint_at : Option (List ℕ) → ℕ → ℕ → Option ℕ
unfolding parse_json_uint
uint_at none max_value value = some value
uint_at (some pos) max_value value = number_of (parse_json_uint pos max_value)

pub uint_field : List ℕ → List ℕ → ℕ → ℕ → Option ℕ
uint_field json key max_value value = uint_at (json_value_pos json key) max_value value

abbrev pub true_text : List ℕ
true_text = b't' ∷ b'r' ∷ b'u' ∷ b'e' ∷ []

abbrev pub false_text : List ℕ
false_text = b'f' ∷ b'a' ∷ b'l' ∷ b's' ∷ b'e' ∷ []

abbrev pub bool_at : Option (List ℕ) → Bool → Bool
bool_at none fallback = fallback
bool_at (some pos) fallback =
    let pos' = skip_json_whitespace pos in
    if starts_with true_text pos'
    then true
    else (if starts_with false_text pos' then false else fallback)

abbrev pub json_bool : List ℕ → List ℕ → Bool → Bool
json_bool json key fallback = bool_at (json_value_pos json key) fallback

-- The bytes before the next quote, and what stands behind it.
abbrev pub until_quote : List ℕ → Option (List ℕ × List ℕ)
until_quote [] = none
until_quote (c ∷ cs) =
    let rest = until_quote cs in
    if c == 34
    then some ([], cs)
    else elim rest [ none ↦ none | some (text, behind) ↦ some (c ∷ text, behind) ]

-- A string that fits its slot.
abbrev pub fitting : ℕ → Option (List ℕ × List ℕ) → Option (List ℕ × List ℕ)
fitting size none = none
fitting size (some (text, behind)) = if leb size (length text) then none else some (text, behind)

abbrev pub text_of : Option (List ℕ × List ℕ) → Option (List ℕ)
text_of none = none
text_of (some (text, behind)) = some text

pub json_string : List ℕ → List ℕ → ℕ → Option (List ℕ)
json_string json key out_size =
    if out_size == 0
    then none
    else bind (json_value_pos json key) (λ pos.
      bind (after_first (strchr 34 pos)) (λ start. text_of (fitting out_size (until_quote start))))

abbrev pub cons_item {ℓ} : {A : Type ℓ} → A → Option (List A) → Option (List A)
cons_item x none = none
cons_item x (some xs) = some (x ∷ xs)

abbrev pub after_byte : List ℕ → List ℕ
after_byte [] = []
after_byte (c ∷ cs) = cs

-- What follows a number of the array.
abbrev pub uint_item : (List ℕ → Option (List ℕ)) → Option (ℕ × List ℕ) → Option (List ℕ)
uint_item next none = none
uint_item next (some (n, end_)) =
    let pos = skip_json_whitespace end_ in
    if peek pos == b']'
    then some (n ∷ [])
    else (if not (peek pos == b',')
        then none
        else cons_item n (next (skip_json_whitespace (after_byte pos))))

-- The loop of `bpf2socks_json_uint_array`: the numbers from here on. A round takes a digit of the
-- text, so its length is fuel enough.
pub uint_items : ℕ → ℕ → ℕ → List ℕ → Option (List ℕ)
unfolding parse_json_uint
uint_items zero max_count count pos = none
uint_items (suc fuel) max_count count pos =
    if leb max_count count
    then none
    else uint_item (uint_items fuel max_count (count + 1)) (parse_json_uint pos (2 ^ 32 - 1))

abbrev pub uint_array_at : Option (List ℕ) → ℕ → Option (List ℕ)
unfolding uint_items
uint_array_at none max_count = some []
uint_array_at (some pos) max_count =
    let start = skip_json_whitespace pos in
    let items = skip_json_whitespace (after_byte start) in
    if not (peek start == b'[')
    then none
    else (if peek items == b']' then some [] else uint_items (suc (length items)) max_count 0 items)

-- `none` is false; an absent key is the empty array.
pub uint_array : List ℕ → List ℕ → ℕ → Option (List ℕ)
uint_array json key max_count = uint_array_at (json_value_pos json key) max_count

-- What follows a string of the array.
abbrev pub string_item :
    (List ℕ → Option (List (List ℕ))) → Option (List ℕ × List ℕ) → Option (List (List ℕ))
string_item next none = none
string_item next (some (text, behind)) =
    let pos = skip_json_whitespace behind in
    let following = skip_json_whitespace (after_byte pos) in
    if peek pos == b']'
    then some (text ∷ [])
    else (if not (peek pos == b',') || peek following == b']'
        then none
        else cons_item text (next following))

-- The loop of `bpf2socks_json_string_array` over its items.
pub string_items : ℕ → ℕ → ℕ → ℕ → List ℕ → Option (List (List ℕ))
string_items zero row_size max_count count pos = none
string_items (suc fuel) row_size max_count count pos =
    if leb max_count count || not (peek pos == 34)
    then none
    else string_item (string_items fuel row_size max_count (count + 1))
        (fitting row_size (until_quote (after_byte pos)))

-- The search for the key that a colon follows, over the rest of the text; `none` is an absent key.
abbrev pub key_followed : List ℕ → List ℕ → Option (List ℕ)
key_followed needle [] = none
key_followed needle (c ∷ cs) =
    let rest = key_followed needle cs in
    let behind = skip_json_whitespace (drop (length needle) (c ∷ cs)) in
    if starts_with needle (c ∷ cs) && peek behind == b':'
    then some (skip_json_whitespace (after_byte behind))
    else rest

abbrev pub string_array_at : Option (List ℕ) → ℕ → ℕ → Option (List (List ℕ))
unfolding string_items
string_array_at none row_size max_count = some []
string_array_at (some pos) row_size max_count =
    let items = skip_json_whitespace (after_byte pos) in
    if not (peek pos == b'[')
    then none
    else (if peek items == b']'
        then some []
        else string_items (suc (length items)) row_size max_count 0 items)

pub string_array : List ℕ → List ℕ → ℕ → ℕ → Option (List (List ℕ))
string_array json key row_size max_count =
    if row_size == 0 || leb 96 (length key + 2)
    then none
    else string_array_at (key_followed (34 ∷ (key ++ 34 ∷ [])) json) row_size max_count
