-- ===== src/Selector/Match.antt =====
-- A selector with a plus sign matches the names that begin with the rest of it, any other one its
-- own name.
use bpf2socks.Prelude.{
  ℕ, ◌+◌, ◌-◌, ◌<◌, ◌≡◌, ◌↔◌, refl, sym, ◌∙◌, ap, arith, true, false, List, [], ◌∷◌, ◌++◌, length,
  length-append, take, drop, take-append-drop, take-append_length, get_or, bytes_equal_iff, ltb,
  leb, ◌==◌, ◌||◌,
}
use bpf2socks.Selector.{bounded_length, max_name, ends_in_plus, matches_selector}

get_or_last : (body : List ℕ) (c d : ℕ) → get_or (body ++ c ∷ []) (length body) d ≡ c
get_or_last [] c d = refl
get_or_last (b ∷ body) c d = get_or_last body c d

-- `body+` matches exactly the names that begin with `body`.
pub matches_selector_prefix :
    (name body : List ℕ)
    → 0 < length body
    → length body < 31
    → (matches_selector name (body ++ b'+' ∷ []) ≡ true) ↔ ((rest : List ℕ) × (name ≡ body ++ rest))
unfolding matches_selector
matches_selector_prefix name body some_body short =
    let n = length body in
    let selector = body ++ b'+' ∷ [] in
    let len : length selector ≡ n + 1 = omega (arith, length-append body (b'+' ∷ [])) in
    let size : bounded_length selector ≡ n + 1 = omega arith in
    let before : n + 1 - 1 ≡ n = omega arith in
    let inside : (n + 1 == 0 || leb max_name (n + 1)) ≡ false = ground arith in
    let long : ltb 1 (n + 1) ≡ true = ground arith in
    let tested = bytes_equal_iff (take n name) body in
    rw (size, inside, before, get_or_last body b'+' 0, long, take-append_length body (b'+' ∷ []))
      (
        λ e. (drop n name, sym (take-append-drop n name) ∙ ap (λ b. b ++ drop n name) (tested.0 e)),
        λ found. tested.1 (ap (take n) found.1 ∙ take-append_length body found.0),
      )

-- A selector without a plus sign at its end matches its own name and no other.
pub matches_selector_exact :
    (name selector : List ℕ)
    → 0 < length selector
    → length selector < 32
    → ends_in_plus selector (length selector) ≡ false
    → (matches_selector name selector ≡ true) ↔ (name ≡ selector)
unfolding matches_selector
matches_selector_exact name selector some_text short plain =
    let size : bounded_length selector ≡ length selector = omega arith in
    let inside : (length selector == 0 || leb max_name (length selector)) ≡ false = ground arith in
    rw (size, inside, plain) (bytes_equal_iff name selector)
