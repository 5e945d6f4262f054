-- ===== src/Token/Tests.antt =====
-- The laws of tokens at concrete prefixes, and at a map that is a function of its key.
use bpf2socks.Prelude.{
  ℕ, ◌/◌, ◌^◌, ◌-◌, ◌≡◌, ◌≢◌, ◌↔◌, ◌⊎◌, refl, sym, ◌∙◌, subst, ap, arith, true, false, Option, none,
  some, List, [], ◌∷◌, inl, inr, ◌==◌, Bool-cases, replicate,
}
use bpf2socks.Token.{
  Family, inet, inet6, Key, zero_key, unknown, TokenMap, Taken, taken, missing, match4, masked4,
  take, lookup_udp,
}
use bpf2socks.Token.Prefix.{match4_iff}
use bpf2socks.Token.Lookup.{IsTokenMap, Without, Took, take-Took, LookedUp, lookup_udp-LookedUp}

-- 127.200.0.1 and 127.128.0.0/9.
match4_iff_example :
    (match4 2143813633 2139095040 9 ≡ true)
    ↔ (2143813633 / 2 ^ (32 - 9) ≡ 2139095040 / 2 ^ (32 - 9))
match4_iff_example = match4_iff 2143813633 2139095040 9 (omega arith) (omega arith) (omega arith)

matches : match4 2143813633 2139095040 9 ≡ true
unfolding match4 masked4
matches = refl

-- Equality of keys is decided field by field.
abbrev Decided : {A : Type 0} → A → A → Type 0
Decided a b = (a ≡ b) ⊎ (a ≢ b)

same_number : (a b : ℕ) → Decided a b
same_number a b = elim (Bool-cases (a == b)) [
  | inl e ↦ inl (ground arith)
  | inr e ↦ inr (ground arith)
]

same_bytes : (xs ys : List ℕ) → Decided xs ys
same_bytes [] [] = inl refl
same_bytes [] (y ∷ ys) = inr (λ e. cc)
same_bytes (x ∷ xs) [] = inr (λ e. cc)
same_bytes (x ∷ xs) (y ∷ ys) =
    let head : Decided x y = same_number x y in
    let tail : Decided xs ys = same_bytes xs ys in
    elim head [
      | inr n ↦ inr (λ e. n (ground arith))
      | inl e ↦ elim tail [ inr n ↦ inr (λ e'. n (ground arith)) | inl e' ↦ inl (λ i. e i ∷ e' i) ]
    ]

same_family : (a b : Family) → Decided a b
same_family inet inet = inl refl
same_family inet inet6 = inr (λ e. cc)
same_family inet6 inet = inr (λ e. cc)
same_family inet6 inet6 = inl refl

-- Two records are the same when both halves are.
same_with :
    {A B C : Type 0} (f : C → A) (g : C → B) (k k' : C)
    → (f k ≡ f k' → g k ≡ g k' → k ≡ k')
    → Decided (f k) (f k')
    → Decided (g k) (g k')
    → Decided k k'
same_with f g k k' join (inl e) (inl e') = inl (join e e')
same_with f g k k' join (inr n) b = inr (λ e. n (ap f e))
same_with f g k k' join (inl e) (inr n) = inr (λ e'. n (ap g e'))

abbrev Parts : Type 0
Parts = Family × (ℕ × (ℕ × (List ℕ × (ℕ × List ℕ))))

same_pair : {A B : Type 0} (p q : A × B) → Decided p.0 q.0 → Decided p.1 q.1 → Decided p q
same_pair p q a b = same_with (λ r. r.0) (λ r. r.1) p q (λ e e' i. (e i, e' i)) a b

parts : Key → Parts
parts k = (k.family, (k.protocol, (k.token_port, (k.token_addr, (k.client_port, k.client_addr)))))

same_parts : (p q : Parts) → Decided p q
same_parts p q = same_pair p q (same_family p.0 q.0) (
    same_pair p.1 q.1 (same_number p.1.0 q.1.0) (
      same_pair p.1.1 q.1.1 (same_number p.1.1.0 q.1.1.0) (
        same_pair p.1.1.1 q.1.1.1 (same_bytes p.1.1.1.0 q.1.1.1.0) (
          same_pair p.1.1.1.1 q.1.1.1.1 (same_number p.1.1.1.1.0 q.1.1.1.1.0)
            (same_bytes p.1.1.1.1.1 q.1.1.1.1.1)))))

key_of : Parts → Key
key_of p = record {
  family = p.0;
  protocol = p.1.0;
  token_port = p.1.1.0;
  token_addr = p.1.1.1.0;
  client_port = p.1.1.1.1.0;
  client_addr = p.1.1.1.1.1;
}

same_key : (k k' : Key) → Decided k k'
unfolding parts key_of
same_key k k' =
    let s : Decided (parts k) (parts k') = same_parts (parts k) (parts k') in
    elim s [ inl e ↦ inl (ap key_of e) | inr n ↦ inr (λ e. n (ap parts e)) ]

-- The map without a key.
abbrev unless_same : {key k : Key} → Decided key k → Option ℕ → Option ℕ
unless_same (inl e) d = none
unless_same (inr n) d = d

without : (Key → Option ℕ) → Key → Key → Option ℕ
without m key k = unless_same (same_key key k) (m k)

take_found : (Key → Option ℕ) → Key → Option ℕ → Taken (Key → Option ℕ) ℕ
take_found m key none = missing
take_found m key (some d) = taken d (without m key)

function_map : TokenMap (Key → Option ℕ) ℕ
function_map = record {
  lookup = λ m key. m key;
  lookup_and_delete = λ m key. take_found m key (m key);
  delete = λ m key. some (without m key);
}

unless_same_at : (key : Key) (s : Decided key key) (d : Option ℕ) → unless_same s d ≡ none
unless_same_at key (inl e) d = refl
unless_same_at key (inr n) d = absurd (n refl)

unless_same_ne : (key k : Key) (s : Decided key k) (d : Option ℕ) → k ≢ key → unless_same s d ≡ d
unless_same_ne key k (inl e) d n = absurd (n (sym e))
unless_same_ne key k (inr n) d n' = refl

without-Without : (m : Key → Option ℕ) (key : Key) → Without function_map m (without m key) key
unfolding function_map without
without-Without m key = record {
  gone = unless_same_at key (same_key key key) (m key);
  others = λ k n. unless_same_ne key k (same_key key k) (m k) n;
}

taken_parts :
    (m m' : Key → Option ℕ) (d d' : ℕ)
    → Path (Taken (Key → Option ℕ) ℕ) (taken d m) (taken d' m')
    → (d ≡ d') × (m ≡ m')
taken_parts m m' d d' e = (cc, cc)

some_part : (m m' : Key → Option ℕ) → some m ≡ some m' → m ≡ m'
some_part m m' e = cc

function_map-IsTokenMap : IsTokenMap function_map
unfolding function_map take_found
function_map-IsTokenMap = record {
  taken_found = λ m m' key d e. found m m' key d (m key) refl e;
  missing_absent = λ m key e. absent m key (m key) refl e;
  deleted = λ m m' key e.
      subst (λ r. Without function_map m r key) (some_part (without m key) m' e)
        (without-Without m key);
}
  where
    found :
        (m m' : Key → Option ℕ) (key : Key) (d : ℕ) (o : Option ℕ)
        → m key ≡ o
        → take_found m key o ≡ taken d m'
        → (m key ≡ some d) × Without function_map m m' key
    found m m' key d none at e = cc
    found m m' key d (some d') at e =
        let (ed, em) = taken_parts (without m key) m' d' d e in
        (at ∙ ap some ed, subst (λ r. Without function_map m r key) em (without-Without m key))

    absent :
        (m : Key → Option ℕ) (key : Key) (o : Option ℕ)
        → m key ≡ o
        → take_found m key o ≡ missing
        → m key ≡ none
    absent m key none at e = at
    absent m key (some d) at e = cc

abbrev client_key : Key
client_key = record {
  family = inet;
  protocol = 17;
  token_port = 5353;
  token_addr = 127 ∷ 200 ∷ 0 ∷ 1 ∷ replicate 12 0;
  client_port = 40000;
  client_addr = 192 ∷ 168 ∷ 43 ∷ 7 ∷ replicate 12 0;
}

-- One entry, under the full key.
abbrev if_same : {key k : Key} → Decided key k → Option ℕ
if_same (inl e) = some 7
if_same (inr n) = none

one_entry : Key → Option ℕ
one_entry k = if_same (same_key client_key k)

if_same_ne : (key k : Key) (s : Decided key k) → key ≢ k → if_same s ≡ none
if_same_ne key k (inl e) n = absurd (n e)
if_same_ne key k (inr n) n' = refl

ports_differ : client_key ≢ zero_key client_key
ports_differ e =
    let port : client_key.client_port ≡ (zero_key client_key).client_port =
      λ i. (e i).client_port in
    absurd (omega (arith, port))

take-Took_example :
    Took function_map one_entry client_key (take function_map false one_entry client_key).1
take-Took_example = take-Took function_map function_map-IsTokenMap false one_entry client_key

lookup_udp-LookedUp_example :
    LookedUp
      (one_entry client_key)
      (one_entry (zero_key client_key))
      (lookup_udp function_map one_entry client_key unknown)
unfolding function_map
lookup_udp-LookedUp_example = lookup_udp-LookedUp function_map one_entry client_key unknown
