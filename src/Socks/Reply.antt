-- ===== src/Socks/Reply.antt =====
-- The parser of a SOCKS5 reply stays in its buffer, and agrees with the length that is announced.
use bpf2socks.Prelude.{
  ℕ, ◌+◌, ◌≤◌, ◌<◌, ◌≡◌, ◌≢◌, refl, arith, true, false, Option, none, some, List, [], ◌∷◌, ◌++◌,
  ltb, ◌==◌, length, take, drop, Bool-cases, inl, inr, not, ◌||◌, ◌⊎◌,
}
use bpf2socks.Prelude.Outcome.{Outcome, done, Settled, slice, slice_le, read_be16_lt}
use bpf2socks.Socks.{
  total, more_needed, reply_length, Parsed, parsed, again, refused, Bound, parse_domain,
  parse_bound_addr, parse_fixed, bound4, bound6, resolved, take_resolved,
}

-- The announced length does not change as more of the reply comes in.
pub reply_length-append :
    (buf more : List ℕ) (k : ℕ) → reply_length buf ≡ total k → reply_length (buf ++ more) ≡ total k
unfolding reply_length
reply_length-append [] more k h = cc
reply_length-append (v ∷ []) more k h = cc
reply_length-append (v ∷ r ∷ []) more k h = ground arith
reply_length-append (v ∷ r ∷ s ∷ []) more k h = ground arith
reply_length-append (v ∷ r ∷ s ∷ t ∷ []) more k h = ground arith
reply_length-append (v ∷ r ∷ s ∷ t ∷ n ∷ rest) more k h = ground arith

-- A beginning of a reply announces its length, or is not long enough to tell.
pub reply_length-prefix :
    (b m : List ℕ) (k : ℕ)
    → reply_length (b ++ m) ≡ total k
    → (reply_length b ≡ total k) ⊎ ((reply_length b ≡ more_needed) × (length b ≤ 4))
unfolding reply_length
reply_length-prefix [] m k h = inr (refl, omega arith)
reply_length-prefix (v ∷ []) m k h = inr (refl, omega arith)
reply_length-prefix (v ∷ r ∷ []) m k h = ground arith
reply_length-prefix (v ∷ r ∷ s ∷ []) m k h = ground arith
reply_length-prefix (v ∷ r ∷ s ∷ t ∷ []) m k h = ground arith
reply_length-prefix (v ∷ r ∷ s ∷ t ∷ n ∷ rest) m k h = inl (ground arith)

-- A reply has at least seven bytes.
pub reply_length-bound : (b : List ℕ) (k : ℕ) → reply_length b ≡ total k → 7 ≤ k
unfolding reply_length
reply_length-bound [] k h = cc
reply_length-bound (v ∷ []) k h = cc
reply_length-bound (v ∷ r ∷ []) k h = ground arith
reply_length-bound (v ∷ r ∷ s ∷ []) k h = ground arith
reply_length-bound (v ∷ r ∷ s ∷ t ∷ []) k h = ground arith
reply_length-bound (v ∷ r ∷ s ∷ t ∷ n ∷ rest) k h = ground arith

-- What the parser of a reply may answer, given the bytes there are.
pub record Agrees (buf : List ℕ) (answer : Outcome (Parsed (ℕ × Bound))) : Type 0 where
  pub ends : Settled answer
  pub consumes :
      (k : ℕ) (b : Bound)
      → answer ≡ done (parsed (k, b))
      → (reply_length buf ≡ total k) × (k ≤ length buf)
  pub completes : (k : ℕ) → reply_length buf ≡ total k → k ≤ length buf → answer ≢ done again

Agrees-refused : (buf : List ℕ) → Agrees buf (done refused)
Agrees-refused buf = record { ends = refl; consumes = λ k b e. cc; completes = λ k e h no_more. cc }

Agrees-again :
    (buf : List ℕ)
    → ((k : ℕ) → reply_length buf ≡ total k → length buf < k)
    → Agrees buf (done again)
Agrees-again buf h = record {
  ends = refl;
  consumes = λ k b e. cc;
  completes = λ k e enough is_again. absurd (omega (arith, h k e));
}

Agrees-parsed :
    (buf : List ℕ) (k : ℕ) (b : Bound)
    → reply_length buf ≡ total k
    → k ≤ length buf
    → Agrees buf (done (parsed (k, b)))
Agrees-parsed buf k b e h = record {
  ends = refl;
  consumes = λ k' b' e'. ground arith;
  completes = λ k' e' h' is_again. cc;
}

-- A length is announced only when four bytes are there, which say that the request succeeded.
reply_length_known : (buf : List ℕ) (k : ℕ) → reply_length buf ≡ total k → 4 ≤ length buf
unfolding reply_length
reply_length_known [] k e = cc
reply_length_known (v ∷ []) k e = cc
reply_length_known (v ∷ r ∷ []) k e = ground arith
reply_length_known (v ∷ r ∷ s ∷ []) k e = ground arith
reply_length_known (v ∷ r ∷ s ∷ t ∷ rest) k e = ground arith

Agrees-short : (buf : List ℕ) → length buf < 4 → Agrees buf (done again)
Agrees-short buf h = Agrees-again buf (λ k e. omega (arith, reply_length_known buf k e))

take_resolved-Agrees :
    (buf : List ℕ) (k : ℕ) (found : Option (List ℕ))
    → reply_length buf ≡ total k
    → k ≤ length buf
    → Agrees buf (done (take_resolved k found))
take_resolved-Agrees buf k none e h = Agrees-refused buf
take_resolved-Agrees buf k (some sa) e h = elim (Bool-cases (ltb 128 (length sa))) [
  | inl over ↦ rw over (Agrees-refused buf)
  | inr fits ↦ rw fits (Agrees-parsed buf k (resolved sa) e h)
]

parse_fixed-Agrees :
    (buf : List ℕ) (n : ℕ) (make : List ℕ → List ℕ → Bound)
    → reply_length buf ≡ total (4 + n + 2)
    → Agrees buf (parse_fixed buf n make)
unfolding parse_fixed
parse_fixed-Agrees buf n make e = elim (Bool-cases (ltb (length buf) (4 + n + 2))) [
  | inl short ↦ rw short (Agrees-again buf (λ k ek. ground arith))
  | inr long ↦
      let ea : slice buf 4 n ≡ done (take n (drop 4 buf)) = slice_le buf 4 n (ground arith) in
      let ep : slice buf (4 + n) 2 ≡ done (take 2 (drop (4 + n) buf)) =
        slice_le buf (4 + n) 2 (ground arith) in
      let b = make (take n (drop 4 buf)) (take 2 (drop (4 + n) buf)) in
      rw (long, ea, ep) (Agrees-parsed buf (4 + n + 2) b e (ground arith))
]

module _ (getaddrinfo : List ℕ → ℕ → Option (List ℕ)) where
  parse_domain-Agrees :
      (v r s t : ℕ) (rest : List ℕ)
      → not (v == 5) || not (r == 0) ≡ false
      → (t == 1) ≡ false
      → (t == 4) ≡ false
      → (t == 3) ≡ true
      → Agrees (v ∷ r ∷ s ∷ t ∷ rest) (parse_domain getaddrinfo (v ∷ r ∷ s ∷ t ∷ rest))
  unfolding parse_domain reply_length
  parse_domain-Agrees v r s t [] good not4 not6 domain =
      Agrees-again (v ∷ r ∷ s ∷ t ∷ []) (λ k e. ground arith)
  parse_domain-Agrees v r s t (n ∷ rest) good not4 not6 domain =
      let buf = v ∷ r ∷ s ∷ t ∷ n ∷ rest in
      let e : reply_length buf ≡ total (4 + 1 + n + 2) = rw (good, not4, not6, domain) in
      let there : ltb (length buf) (4 + 1) ≡ false = ground arith in
      elim (Bool-cases (n == 0)) [
        | inl empty ↦ rw (there, empty) (Agrees-refused buf)
        | inr some_host ↦ elim (Bool-cases (ltb (length buf) (4 + 1 + n + 2))) [
          | inl short ↦ rw (there, some_host, short) (Agrees-again buf (λ k ek. ground arith))
          | inr long ↦
              let es : slice buf 5 n ≡ done (take n (drop 5 buf)) =
                slice_le buf 5 n (ground arith) in
              let (p, ep) = read_be16_lt buf (5 + n) (ground arith) in
              rw (there, some_host, long, es, ep)
                (take_resolved-Agrees buf (4 + 1 + n + 2) (getaddrinfo (take n rest) p) e
                  (ground arith))
        ]
      ]

  -- The parser of a reply ends without a read outside the buffer; it accepts only a reply that is
  -- wholly there, of the announced length; and it asks for more only while that length is not there.
  pub parse_bound_addr-Agrees : (buf : List ℕ) → Agrees buf (parse_bound_addr getaddrinfo buf)
  unfolding parse_bound_addr reply_length
  parse_bound_addr-Agrees [] = Agrees-short [] (omega arith)
  parse_bound_addr-Agrees (v ∷ []) = Agrees-short (v ∷ []) (omega arith)
  parse_bound_addr-Agrees (v ∷ r ∷ []) = Agrees-short (v ∷ r ∷ []) (omega arith)
  parse_bound_addr-Agrees (v ∷ r ∷ s ∷ []) = Agrees-short (v ∷ r ∷ s ∷ []) (omega arith)
  parse_bound_addr-Agrees (v ∷ r ∷ s ∷ t ∷ rest) =
      let buf = v ∷ r ∷ s ∷ t ∷ rest in
      let there : ltb (length buf) 4 ≡ false = ground arith in
      elim (Bool-cases (not (v == 5) || not (r == 0))) [
        | inl bad ↦ rw (there, bad) (Agrees-refused buf)
        | inr good ↦ elim (Bool-cases (t == 1)) [
          | inl is4 ↦ rw (there, good, is4) (parse_fixed-Agrees buf 4 bound4 (rw (good, is4)))
          | inr not4 ↦ elim (Bool-cases (t == 4)) [
            | inl is6 ↦
                rw (there, good, not4, is6)
                  (parse_fixed-Agrees buf 16 bound6 (rw (good, not4, is6)))
            | inr not6 ↦ elim (Bool-cases (t == 3)) [
              | inl domain ↦
                  rw (there, good, not4, not6, domain)
                    (parse_domain-Agrees v r s t rest good not4 not6 domain)
              | inr other ↦ rw (there, good, not4, not6, other) (Agrees-refused buf)
            ]
          ]
        ]
      ]
