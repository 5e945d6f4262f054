-- ===== src/Cidr/Masks.antt =====
-- The key of an IPv4 CIDR keeps the leading bits of the address and clears the others.
use bpf2socks.Prelude.{
  ℕ, ◌-◌, ◌*◌, ◌/◌, ◌^◌, ◌≤◌, ◌<◌, ◌≡◌, refl, sym, ◌∙◌, ap, arith, ◌==◌, all_below_at, true, false,
  Option, none, some, List, [], ◌∷◌, length, All, ltb, Bool-cases, inl, inr,
}
use mathlib.Core.Option.{some-injective}
use bpf2socks.Prelude.Bits.Network.{bit_and_network}
use bpf2socks.Token.Text.{Libc, split_slash}
use bpf2socks.Cidr.{Key, lpm4, lpm6, be32, mask4, masked4, key4, key_of, split_key, parse_cidr}

mask4_lem : (p : ℕ) → p ≤ 32 → mask4 p ≡ (2 ^ p - 1) * 2 ^ (32 - p)
mask4_lem p h =
    ground
      (arith, all_below_at 33 (λ p. mask4 p == (2 ^ p - 1) * 2 ^ (32 - p)) p refl (omega arith))

masked4_lem :
    (addr p : ℕ) → p ≤ 32 → addr < 2 ^ 32 → masked4 addr p ≡ addr / 2 ^ (32 - p) * 2 ^ (32 - p)
unfolding masked4
masked4_lem addr p h word = bit_and_network addr (mask4 p) p h word (mask4_lem p h)

-- `inet_pton` of an IPv4 address writes four bytes.
abbrev pub WritesFourBytes : Libc → Type 0
WritesFourBytes libc =
    (text bytes : List ℕ)
    → libc.inet_pton4 text ≡ some bytes
    → (length bytes ≡ 4) × All (λ b. b < 256) bytes

be32_lt : (bytes : List ℕ) → length bytes ≡ 4 → All (λ b. b < 256) bytes → be32 bytes < 2 ^ 32
be32_lt [] n h = omega arith
be32_lt (a ∷ []) n h = omega arith
be32_lt (a ∷ b ∷ []) n h = omega arith
be32_lt (a ∷ b ∷ c ∷ []) n h = omega arith
be32_lt (a ∷ b ∷ c ∷ d ∷ rest) n h = omega (arith, h.0, h.1.0, h.1.1.0, h.1.1.1.0)

-- How the key of an IPv4 text comes about: an address, a slash, and a prefix of at most 32 bits with
-- nothing behind it.
pub record IsKey4 (libc : Libc) (line : List ℕ) (prefix addr : ℕ) : Type 0 where
  pub address : List ℕ
  pub bits : List ℕ
  pub bytes : List ℕ
  pub parts : split_slash line ≡ some (address, bits)
  pub number : libc.strtoul bits ≡ some (prefix, [])
  pub in_range : prefix ≤ 32
  pub written : libc.inet_pton4 address ≡ some bytes
  pub leading : addr ≡ be32 bytes / 2 ^ (32 - prefix) * 2 ^ (32 - prefix)

-- What may be read off each kind of key: an IPv4 text has no IPv6 key, and a text without a key has
-- no way to one.
abbrev pub HasKey4 : Libc → List ℕ → Option Key → Type 0
HasKey4 libc line none = (prefix addr : ℕ) → ¬ IsKey4 libc line prefix addr
HasKey4 libc line (some (lpm4 prefix addr)) = IsKey4 libc line prefix addr
HasKey4 libc line (some (lpm6 prefix addr)) = ⊥

abbrev number_read : ℕ → List ℕ → Option (ℕ × List ℕ)
number_read n rest = some (n, rest)

second : (a c : ℕ) (b d : List ℕ) → number_read a b ≡ number_read c d → (a ≡ c) × (b ≡ d)
second a c b d e =
    let p = some-injective _ _ e in (ap (λ (q : ℕ × List ℕ). q.0) p, ap (λ (q : ℕ × List ℕ). q.1) p)

module _ (libc : Libc) (pton : WritesFourBytes libc) (line : List ℕ) where
  -- The address and the bits of a key are those around the slash.
  the_parts :
      (address bits : List ℕ) (prefix addr : ℕ)
      → split_slash line ≡ some (address, bits)
      → (k : IsKey4 libc line prefix addr) → (address ≡ k.address) × (bits ≡ k.bits)
  the_parts address bits prefix addr e k =
      let p = some-injective _ _ (sym e ∙ k.parts) in
      (ap (λ (q : List ℕ × List ℕ). q.0) p, ap (λ (q : List ℕ × List ℕ). q.1) p)

  -- The number read is the prefix of the key, with nothing behind it.
  the_number :
      (address bits : List ℕ) (n : Option (ℕ × List ℕ)) (prefix addr : ℕ)
      → split_slash line ≡ some (address, bits)
      → libc.strtoul bits ≡ n
      → IsKey4 libc line prefix addr
      → n ≡ some (prefix, [])
  the_number address bits n prefix addr e m k =
      sym m ∙ ap libc.strtoul (the_parts address bits prefix addr e k).1 ∙ k.number

  key4-HasKey4 :
      (address bits : List ℕ) (prefix : ℕ)
      → split_slash line ≡ some (address, bits)
      → libc.strtoul bits ≡ some (prefix, [])
      → prefix ≤ 32
      → (r : Option (List ℕ)) → libc.inet_pton4 address ≡ r
      → HasKey4 libc line (key4 prefix r)
  key4-HasKey4 address bits prefix e n le none w =
      λ p addr k. cc (w, k.written, (the_parts address bits p addr e k).0)
  key4-HasKey4 address bits prefix e n le (some bytes) w =
      let (four, small) = pton address bytes w in
      record {
        address = address;
        bits = bits;
        bytes = bytes;
        parts = e;
        number = n;
        in_range = le;
        written = w;
        leading = masked4_lem (be32 bytes) prefix le (be32_lt bytes four small);
      }

  key_of-HasKey4 :
      (address bits : List ℕ)
      → split_slash line ≡ some (address, bits)
      → (r : Option (ℕ × List ℕ)) → libc.strtoul bits ≡ r
      → HasKey4 libc line (key_of libc true address r)
  key_of-HasKey4 address bits e none n = λ p addr k. cc (the_number address bits none p addr e n k)
  key_of-HasKey4 address bits e (some (prefix, [])) n = elim (Bool-cases (ltb 32 prefix)) [
    | inl over ↦ rw over (λ p addr k.
        let same = (second prefix p [] [] (the_number address bits _ p addr e n k)).0 in
        ground (arith, over, same, k.in_range))
    | inr fits ↦
        rw fits (
          key4-HasKey4 address bits prefix e n (ground (arith, fits)) (libc.inet_pton4 address)
            refl)
  ]
  key_of-HasKey4 address bits e (some (prefix, c ∷ rest)) n =
      let behind : (length (c ∷ rest) == 0) ≡ false = ground arith in
      rw behind (λ p addr k.
        let same = (second prefix p (c ∷ rest) [] (the_number address bits _ p addr e n k)).1 in
        absurd (omega (arith, ap length same)))

  split-HasKey4 :
      (r : Option (List ℕ × List ℕ))
      → split_slash line ≡ r
      → HasKey4 libc line (split_key libc true r)
  split-HasKey4 none e = λ p addr k. cc (e, k.parts)
  split-HasKey4 (some (address, bits)) e = key_of-HasKey4 address bits e (libc.strtoul bits) refl

  -- Where `inet_pton` writes four bytes, the key of an IPv4 CIDR has a prefix of at most 32 bits that
  -- stands whole behind the slash, and exactly that many leading bits of the address before it: the
  -- other bits are zero. A text gets no key only where there is no such prefix or no such address.
  pub parse_cidr-HasKey4 : HasKey4 libc line (parse_cidr libc true line)
  unfolding parse_cidr
  parse_cidr-HasKey4 = split-HasKey4 (split_slash line) refl
