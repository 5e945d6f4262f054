-- ===== src/Json/Tests.antt =====
-- The JSON reader on small texts.
use bpf2socks.Prelude.{ℕ, ◌≡◌, refl, arith, none, some, List, [], ◌∷◌, ◌++◌}
use bpf2socks.Json.{parse_json_uint, string_array, string_items}
use bpf2socks.Json.Numbers.{
  Within, parse_json_uint-Within, parse_json_uint-text_of_digits, text_of_digits,
}
use bpf2socks.Json.Arrays.{Fits, string_array-Fits}

-- "p": ["ab","c"]
abbrev text : List ℕ
text = 34 ∷ b'p' ∷ 34 ∷ b':' ∷ 32 ∷ b'[' ∷ 34 ∷ b'a' ∷ b'b' ∷ 34 ∷ b',' ∷ 34 ∷ b'c' ∷ 34 ∷ b']' ∷ []

rows : string_array text (b'p' ∷ []) 8 4 ≡ some ((b'a' ∷ b'b' ∷ []) ∷ (b'c' ∷ []) ∷ [])
unfolding string_array string_items
rows = refl

too_long : string_array text (b'p' ∷ []) 2 4 ≡ none
unfolding string_array string_items
too_long = refl

string_array-Fits_example : Fits 8 4 (string_array text (b'p' ∷ []) 8 4)
string_array-Fits_example = string_array-Fits text (b'p' ∷ []) 8 4

parse_json_uint-Within_example : Within 10 (parse_json_uint (b'4' ∷ b'2' ∷ []) 10)
parse_json_uint-Within_example = parse_json_uint-Within (b'4' ∷ b'2' ∷ []) 10

parse_json_uint-text_of_digits_example :
    parse_json_uint (text_of_digits (4 ∷ 2 ∷ []) ++ b',' ∷ []) 65535 ≡ some (42, b',' ∷ [])
parse_json_uint-text_of_digits_example =
    parse_json_uint-text_of_digits 65535 4 (2 ∷ []) (b',' ∷ []) (ground arith) refl (omega arith)
