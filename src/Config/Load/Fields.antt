-- ===== src/Config/Load/Fields.antt =====
-- What the readers of fields leave in the configuration, whether or not the field is accepted.
use bpf2socks.Prelude.{
  ℕ, ◌≤◌, ◌<◌, ◌≡◌, refl, arith, Bool, true, false, ◌&&◌, not, Option, none, some, List, [], All,
  length, ◌∷◌, Bool-cases, inl, inr,
}
use bpf2socks.Json.{uint_field, string_array, has_key, json_string, uint_array}
use bpf2socks.Json.Lengths.{StringFits, json_string-StringFits, NumbersFit, uint_array-NumbersFit}
use bpf2socks.Selector.{selector_valid}
use bpf2socks.Selector.Valid.{IsSelector, selector_valid-IsSelector}
use bpf2socks.Json.Numbers.{Below, uint_field-Below}
use bpf2socks.Json.Arrays.{Fits, string_array-Fits}
use bpf2socks.Config.Load.{
  checked, read_uint_field, read_rows, selectors_valid, read_string_field, or_default_path,
  read_uints,
}

-- An array of texts that fits its memory.
abbrev pub RowsFit : ℕ → ℕ → List (List ℕ) → Type 0
RowsFit row_size slots rows = (length rows ≤ slots) × All (λ row. length row < row_size) rows

value_of :
    (max_value value : ℕ) (o : Option ℕ)
    → value ≤ max_value
    → Below max_value o
    → (checked value o).0 ≤ max_value
value_of max_value value none h w = h
value_of max_value value (some n) h w = w

pub read_uint_field-le :
    (json key : List ℕ) (max_value value : ℕ)
    → value ≤ max_value
    → (read_uint_field json key max_value value).0 ≤ max_value
read_uint_field-le json key max_value value h =
    value_of max_value value (uint_field json key max_value value) h
      (uint_field-Below json key max_value value h)

rows_of :
    (row_size slots : ℕ) (o : Option (List (List ℕ)))
    → Fits row_size slots o
    → RowsFit row_size slots (checked [] o).0
rows_of row_size slots none h = (omega arith, tt)
rows_of row_size slots (some rows) h = h

pub read_rows-RowsFit :
    (json key : List ℕ) (row_size slots : ℕ)
    → RowsFit row_size slots (read_rows json key row_size slots).0
read_rows-RowsFit json key row_size slots =
    rows_of row_size slots (string_array json key row_size slots)
      (string_array-Fits json key row_size slots)

pub both : (a b : Bool) → a && b ≡ true → (a ≡ true) × (b ≡ true)
both true b h = (refl, h)
both false b h = cc

text_of_size :
    (size : ℕ) (old : List ℕ) (o : Option (List ℕ))
    → length old < size
    → StringFits size o
    → length (checked old o).0 < size
text_of_size size old none h w = h
text_of_size size old (some text) h w = w

pub read_string_field-fits :
    (json key : List ℕ) (required : Bool) (out_size : ℕ) (old : List ℕ)
    → length old < out_size
    → length (read_string_field json key required out_size old).0 < out_size
read_string_field-fits json key required size old h =
    elim (Bool-cases (not required && not (has_key json key))) [
      | inl absent ↦ rw absent h
      | inr there ↦ rw there (
          text_of_size size old (json_string json key size) h
            (json_string-StringFits json key size))
    ]

pub or_default_path-fits : (path : List ℕ) → length path < 512 → length (or_default_path path) < 512
or_default_path-fits [] h = omega arith
or_default_path-fits (c ∷ cs) h = h

numbers_of :
    (slots : ℕ) (o : Option (List ℕ)) → NumbersFit slots o → length (checked [] o).0 ≤ slots
numbers_of slots none h = omega arith
numbers_of slots (some ns) h = h

pub read_uints-fit : (json key : List ℕ) → length (read_uints json key).0 ≤ 8192
read_uints-fit json key =
    numbers_of 8192 (uint_array json key 8192) (uint_array-NumbersFit json key 8192)

pub selectors_valid-All : (ss : List (List ℕ)) → selectors_valid ss ≡ true → All IsSelector ss
unfolding selectors_valid
selectors_valid-All [] h = tt
selectors_valid-All (s ∷ ss) h =
    let (first, others) = both (selector_valid s) (selectors_valid ss) h in
    (selector_valid-IsSelector s first, selectors_valid-All ss others)

-- An array that was read, where its selectors are valid.
pub hotspots_of :
    (o : Option (List (List ℕ)))
    → Fits 32 64 o
    → (checked [] o).1 ≡ true
    → selectors_valid (checked [] o).0 ≡ true
    → (rows : List (List ℕ)) × (o ≡ some rows)
      × (length (checked [] o).0 ≡ length rows)
      × (length rows ≤ 64)
      × All IsSelector rows
hotspots_of none fits read h = cc
hotspots_of (some rows) fits read h = (rows, refl, refl, fits.0, selectors_valid-All rows h)
