-- ===== src/Selector/Valid.antt =====
-- What a valid selector is: a name of at most 15 letters, digits and `_.-`, or the beginning of one
-- and a plus sign.
use bpf2socks.Prelude.{
  ℕ, suc, ◌-◌, ◌≤◌, ◌<◌, ◌≡◌, ◌⊎◌, refl, ◌∙◌, ap, arith, true, false, List, [], ◌∷◌, ◌++◌, All,
  length, length-take, take, get_or, ltb, leb, ◌==◌, ◌||◌, if◌then◌else◌, inl, inr, Bool,
}
use bpf2socks.Selector.{
  max_name, bounded_length, ends_in_plus, character_valid, all_valid, selector_valid,
}

-- A letter, a digit, or one of the three signs.
abbrev pub IsNameByte : ℕ → Type 0
IsNameByte c =
    ((b'A' ≤ c) × (c ≤ b'Z'))
    ⊎ (((b'a' ≤ c) × (c ≤ b'z'))
        ⊎ (((b'0' ≤ c) × (c ≤ b'9')) ⊎ ((c ≡ b'_') ⊎ ((c ≡ b'.') ⊎ (c ≡ b'-')))))

pub record IsSelector (selector : List ℕ) : Type 0 where
  pub body : List ℕ
  pub some_body : 0 < length body
  pub form : (selector ≡ body) ⊎ (selector ≡ body ++ b'+' ∷ [])
  pub named : All IsNameByte body
  pub short : length selector ≤ 15

character_valid-IsNameByte : (c : ℕ) → character_valid c ≡ true → IsNameByte c
unfolding character_valid
character_valid-IsNameByte c h = ground arith

all_valid-All : (cs : List ℕ) → all_valid cs ≡ true → All IsNameByte cs
unfolding all_valid
all_valid-All [] h = tt
all_valid-All (c ∷ cs) h =
    (character_valid-IsNameByte c (ground arith), all_valid-All cs (ground arith))

take_all : (xs : List ℕ) → take (length xs) xs ≡ xs
take_all [] = refl
take_all (x ∷ xs) = ap (◌∷◌ x) (take_all xs)

take_but_last :
    (x : ℕ) (xs : List ℕ) → x ∷ xs ≡ take (length xs) (x ∷ xs) ++ get_or (x ∷ xs) (length xs) 0 ∷ []
take_but_last x [] = refl
take_but_last x (y ∷ ys) = ap (◌∷◌ x) (take_but_last y ys)

-- The selector without its plus sign, if there is one.
the_body :
    (c : ℕ) (cs : List ℕ) (plus : Bool)
    → (get_or (c ∷ cs) (length cs) 0 == b'+') ≡ plus
    → length (c ∷ cs) ≤ 15
    → 0 < (if plus then length cs else suc (length cs))
    → all_valid (take (if plus then length cs else suc (length cs)) (c ∷ cs)) ≡ true
    → IsSelector (c ∷ cs)
the_body c cs true e short some_body h =
    let last : get_or (c ∷ cs) (length cs) 0 ≡ b'+' = ground (arith, e) in
    record {
      body = take (length cs) (c ∷ cs);
      some_body = omega (arith, some_body, length-take (length cs) (c ∷ cs));
      form = inr (take_but_last c cs ∙ ap (λ x. take (length cs) (c ∷ cs) ++ x ∷ []) last);
      named = all_valid-All (take (length cs) (c ∷ cs)) h;
      short = short;
    }
the_body c cs false e short some_body h = record {
  body = c ∷ cs;
  some_body = omega arith;
  form = inl refl;
  named = all_valid-All (c ∷ cs) (rw (take_all (c ∷ cs)) at h);
  short = short;
}

passes_guards :
    (out_of_range no_body named : Bool)
    → (if out_of_range then false else (if no_body then false else named)) ≡ true
    → (out_of_range ≡ false) × (no_body ≡ false) × (named ≡ true)
passes_guards true no_body named h = cc
passes_guards false true named h = cc
passes_guards false false named h = (refl, refl, h)

-- A selector that passes the test is one: 1 to 15 bytes, all of them letters, digits and `_.-` but for
-- a plus sign at the end of a longer text.
pub selector_valid-IsSelector :
    (selector : List ℕ) → selector_valid selector ≡ true → IsSelector selector
unfolding selector_valid
selector_valid-IsSelector [] h = ground (arith, h)
selector_valid-IsSelector (c ∷ cs) h =
    let n = length cs in
    let size = bounded_length (c ∷ cs) in
    let plus = ends_in_plus (c ∷ cs) size in
    let ordinary = if plus then size - 1 else size in
    let (range, some_body, named) =
      passes_guards (size == 0 || (ltb 15 size || leb max_name size)) (ordinary == 0)
        (all_valid (take ordinary (c ∷ cs))) h in
    let short : n < 15 = ground (arith, range) in
    let whole : size ≡ suc n = omega arith in
    let before : suc n - 1 ≡ n = omega arith in
    the_body c cs (get_or (c ∷ cs) n 0 == b'+') refl (omega arith)
      (let positive : 0 < ordinary = ground (arith, some_body) in rw (whole, before) at positive)
      (rw (whole, before) at named)
