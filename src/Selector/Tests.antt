-- ===== src/Selector/Tests.antt =====
-- The selectors `wlan+` and `eth0`.
use bpf2socks.Prelude.{ℕ, ◌≡◌, ◌↔◌, refl, arith, true, false, List, [], ◌∷◌, ◌++◌}
use bpf2socks.Selector.{matches_selector, selector_valid, all_valid, character_valid}
use bpf2socks.Selector.Match.{matches_selector_prefix}

abbrev wlan : List ℕ
wlan = b'w' ∷ b'l' ∷ b'a' ∷ b'n' ∷ []

abbrev eth0 : List ℕ
eth0 = b'e' ∷ b't' ∷ b'h' ∷ b'0' ∷ []

matches_selector_prefix_example :
    (matches_selector (wlan ++ b'1' ∷ []) (wlan ++ b'+' ∷ []) ≡ true)
    ↔ ((rest : List ℕ) × (wlan ++ b'1' ∷ [] ≡ wlan ++ rest))
matches_selector_prefix_example =
    matches_selector_prefix (wlan ++ b'1' ∷ []) wlan (omega arith) (omega arith)

valid : selector_valid (wlan ++ b'+' ∷ []) ≡ true
unfolding selector_valid all_valid character_valid
valid = refl

only_plus : selector_valid (b'+' ∷ []) ≡ false
unfolding selector_valid
only_plus = refl
