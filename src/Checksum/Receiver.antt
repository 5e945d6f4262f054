-- ===== src/Checksum/Receiver.antt =====
-- What the receiver of an IPv4 packet with a UDP datagram checks (RFC 791, RFC 768), and the bytes that
-- it finds.
use bpf2socks.Prelude.{
  ℕ, zero, suc, ◌+◌, ◌%◌, ◌≤◌, ◌<◌, Bool, true, false, List, [], ◌∷◌, ◌++◌, ◌≡◌, refl, arith, ◌≢◌,
  ◌*◌, length, take, drop,
}
use bpf2socks.Checksum.Fold.{words, IsBytes}

-- The bytes as big-endian words of 16 bits, added up: the bytes at even places count for 256, also
-- the last of an odd number.
abbrev pub word_sum : Bool → List ℕ → ℕ
word_sum high [] = 0
word_sum true (b ∷ bs) = 256 * b + word_sum false bs
word_sum false (b ∷ bs) = b + word_sum true bs

-- The ones' complement sum of the words is all ones.
abbrev pub Passes : List ℕ → Type 0
Passes bytes = (0 < word_sum true bytes) × (word_sum true bytes % 65535 ≡ 0)

-- What a receiver checks of the UDP datagram: the addresses, the protocol and the UDP length before
-- the datagram.
abbrev pub udp_checked : List ℕ → List ℕ
udp_checked packet = take 8 (drop 12 packet) ++ 0 ∷ 17 ∷ take 2 (drop 24 packet) ++ drop 20 packet

-- A packet from `source` to `client` that its receiver takes, with a UDP checksum, which is not 0, and
-- the payload.
pub record IsSound (source client payload packet : List ℕ) : Type 0 where
  pub header : Passes (take 20 packet)
  pub datagram : Passes (udp_checked packet)
  pub with_checksum : take 2 (drop 26 packet) ≢ 0 ∷ 0 ∷ []
  pub from : take 4 (drop 12 packet) ≡ source
  pub to : take 4 (drop 16 packet) ≡ client
  pub body : drop 28 packet ≡ payload

pub words-word_sum : (xs : List ℕ) → words xs ≡ word_sum true xs
words-word_sum [] = refl
words-word_sum (a ∷ []) = omega arith
words-word_sum (a ∷ b ∷ rest) = omega (arith, words-word_sum rest)

-- The first elements of a list that has as many.
pub four :
    (xs : List ℕ)
    → 4 ≤ length xs
    → (a : ℕ) × (b : ℕ) × (c : ℕ) × (d : ℕ) × (take 4 xs ≡ a ∷ b ∷ c ∷ d ∷ [])
four [] h = absurd (omega arith)
four (a ∷ []) h = absurd (omega arith)
four (a ∷ b ∷ []) h = absurd (omega arith)
four (a ∷ b ∷ c ∷ []) h = absurd (omega arith)
four (a ∷ b ∷ c ∷ d ∷ xs) h = (a, b, c, d, refl)

pub two : (xs : List ℕ) → 2 ≤ length xs → (p : ℕ) × (q : ℕ) × (take 2 xs ≡ p ∷ q ∷ [])
two [] h = absurd (omega arith)
two (p ∷ []) h = absurd (omega arith)
two (p ∷ q ∷ xs) h = (p, q, refl)

pub take-IsBytes : (n : ℕ) (xs : List ℕ) → IsBytes xs → IsBytes (take n xs)
take-IsBytes zero xs h = tt
take-IsBytes (suc n) [] h = tt
take-IsBytes (suc n) (x ∷ xs) h = (h.0, take-IsBytes n xs h.1)

pub drop-IsBytes : (n : ℕ) (xs : List ℕ) → IsBytes xs → IsBytes (drop n xs)
drop-IsBytes zero xs h = h
drop-IsBytes (suc n) [] h = tt
drop-IsBytes (suc n) (x ∷ xs) h = drop-IsBytes n xs h.1
