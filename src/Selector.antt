-- ===== src/Selector.antt =====
-- The interface selectors of bpf/interface_selector.c. A text is the list of its bytes before the
-- terminating NUL.
pub mod Match
pub mod Valid
mod Tests
use bpf2socks.Prelude.{
  ℕ, ◌-◌, Bool, true, false, ◌&&◌, ◌||◌, List, [], ◌∷◌, ltb, leb, ◌==◌, if◌then◌else◌, length, min,
  take, get_or, bytes_equal,
}

-- BPF2SOCKS_MAX_INTERFACE_NAME_LEN.
abbrev pub max_name : ℕ
max_name = 32

abbrev pub bounded_length : List ℕ → ℕ
bounded_length text = min max_name (length text)

abbrev pub between : ℕ → ℕ → ℕ → Bool
between low high byte = leb low byte && leb byte high

pub character_valid : ℕ → Bool
character_valid byte =
    between b'A' b'Z' byte
    || (between b'a' b'z' byte
        || (between b'0' b'9' byte || (byte == b'_' || (byte == b'.' || byte == b'-'))))

pub all_valid : List ℕ → Bool
unfolding character_valid
all_valid [] = true
all_valid (c ∷ cs) = character_valid c && all_valid cs

-- `selector[size - 1U] == '+'`.
abbrev pub ends_in_plus : List ℕ → ℕ → Bool
ends_in_plus selector size = get_or selector (size - 1) 0 == b'+'

pub selector_valid : List ℕ → Bool
unfolding all_valid
selector_valid selector =
    let size = bounded_length selector in
    let ordinary = if ends_in_plus selector size then size - 1 else size in
    if size == 0 || (ltb 15 size || leb max_name size)
    then false
    else (if ordinary == 0 then false else all_valid (take ordinary selector))

pub matches_selector : List ℕ → List ℕ → Bool
matches_selector name selector =
    let size = bounded_length selector in
    if size == 0 || leb max_name size
    then false
    else (if ends_in_plus selector size
        then ltb 1 size && bytes_equal (take (size - 1) name) (take (size - 1) selector)
        else bytes_equal name selector)
