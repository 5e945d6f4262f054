-- ===== src/Udp/Associate/Partial.antt =====
-- A reply of the server that is read in part: what is known of its length, and that every piece that
-- comes in brings the reading on.
use bpf2socks.Prelude.{
  ℕ, ◌+◌, ◌≤◌, ◌<◌, true, false, some, List, [], ◌∷◌, ◌++◌, ltb, leb, length, take, drop, ◌≡◌, refl,
  sym, ap, ◌∙◌, arith, Bool-cases, inl, inr, ◌⊎◌, append_assoc, length-append, length-take,
  take-append-drop,
}
use mathlib.Core.List.{append-nil}
use bpf2socks.Socks.{total, reply_length}
use bpf2socks.Socks.Reply.{reply_length-append, reply_length-prefix, reply_length-bound}
use bpf2socks.Udp.{Session}
use bpf2socks.Udp.Associate.{
  Answer, Reading, is_response, note_length, resume, deliver, read_capacity,
}

-- Two ways to cut one list.
split_prefix :
    (b s r t : List ℕ)
    → b ++ s ≡ r ++ t
    → length b ≤ length r
    → (m : List ℕ) × (r ≡ b ++ m) × (s ≡ m ++ t)
split_prefix [] s r t e h = (r, refl, e)
split_prefix (x ∷ b) s [] t e h = absurd (omega arith)
split_prefix (x ∷ b) s (y ∷ r) t e h =
    let same : y ≡ x = cc e in
    let (m, er, es) = split_prefix b s r t (cc e) (omega arith) in
    (m, ap (◌∷◌ y) er ∙ ap (λ c. c ∷ (b ++ m)) same, es)

module _ (reply rest : List ℕ) (k : ℕ) where
  -- What is known of the length: all of it, nothing yet, or that the length of a name comes next.
  pub data Phase (v : Session) : Type 0 where
    known : reply_length v.read_buf ≡ total k → v.read_expected ≡ k → Phase v
    begun : v.read_expected ≡ 4 → length v.read_buf < 4 → Phase v
    named : v.read_expected ≡ 5 → length v.read_buf ≡ 4 → Phase v

  -- A beginning of the reply has been read.
  pub record IsPartial (v : Session) (stream : List ℕ) : Type 0 where
    pub response : is_response v.stage ≡ true
    pub whole : v.read_buf ++ stream ≡ reply ++ rest
    pub inside : length v.read_buf ≤ v.read_expected
    pub phase : Phase v

  module _ (announced : reply_length reply ≡ total k) (exact : length reply ≡ k)
      (fits : k ≤ read_capacity) where
    pub IsPartial-expected :
        (v : Session) (stream : List ℕ) → IsPartial v stream → v.read_expected ≤ k
    IsPartial-expected v stream p = elim p.phase [
      | known e x ↦ omega (arith, x)
      | begun x l ↦ omega (arith, x, reply_length-bound reply k announced)
      | named x l ↦ omega (arith, x, reply_length-bound reply k announced)
    ]

    -- The loop ends with the whole reply only.
    pub IsPartial-end :
        (v : Session) (stream : List ℕ)
        → IsPartial v stream
        → v.read_expected ≤ length v.read_buf
        → (v.read_buf ≡ reply) × (stream ≡ rest)
    IsPartial-end v stream p full = elim p.phase [
      | known e x ↦ same x
      | begun x l ↦ absurd (omega (arith, full, x, l))
      | named x l ↦ absurd (omega (arith, full, x, l))
    ]
      where
        same : v.read_expected ≡ k → (v.read_buf ≡ reply) × (stream ≡ rest)
        same x =
            let (m, er, es) =
              split_prefix v.read_buf stream reply rest p.whole
                (omega (arith, x, exact, p.inside)) in
            nothing m er es
          where
            nothing :
                (m : List ℕ)
                → reply ≡ v.read_buf ++ m
                → stream ≡ m ++ rest
                → (v.read_buf ≡ reply) × (stream ≡ rest)
            nothing [] er es = (sym (er ∙ append-nil v.read_buf), es)
            nothing (y ∷ ys) er es =
                absurd
                  (omega (arith, ap length er, length-append v.read_buf (y ∷ ys), full, x, exact))

    -- What follows when more bytes have come in.
    noted-IsPartial :
        (v : Session) (stream : List ℕ)
        → is_response v.stage ≡ true
        → v.read_buf ++ stream ≡ reply ++ rest
        → length v.read_buf ≤ v.read_expected
        → v.read_expected ≤ k
        → (reply_length v.read_buf ≡ total k) ⊎ ((v.read_expected ≡ 4) ⊎ (length v.read_buf ≡ 5))
        → (w : Session) × (note_length v ≡ some w) × (w.read_buf ≡ v.read_buf) × IsPartial w stream
    noted-IsPartial v stream r whole inside le phase =
        let (m, er, es) =
          split_prefix v.read_buf stream reply rest whole (omega (arith, inside, le, exact)) in
        let here : reply_length (v.read_buf ++ m) ≡ total k =
          ap reply_length (sym er) ∙ announced in
        elim (reply_length-prefix v.read_buf m k here) [
          | inl e ↦
              let room : ltb read_capacity k ≡ false = ground (arith, fits) in
              (
                record v { read_expected = k },
                rw (r, e, room) refl,
                refl,
                record {
                  response = r;
                  whole = whole;
                  inside = omega (arith, inside, le);
                  phase = known e refl;
                },
              )
          | inr (e, short) ↦ elim phase [
            | inl known_before ↦ cc (e, known_before)
            | inr (inr five) ↦ absurd (omega (arith, short, five))
            | inr (inl x) ↦ elim (Bool-cases (leb 4 (length v.read_buf))) [
              | inl four ↦ (
                record v { read_expected = 5 },
                rw (r, e, four) refl,
                refl,
                record {
                  response = r;
                  whole = whole;
                  inside = omega (arith, short);
                  phase = named refl (ground (arith, short, four));
                },
              )
              | inr fewer ↦ (
                v,
                rw (r, e, fewer) refl,
                refl,
                record {
                  response = r;
                  whole = whole;
                  inside = inside;
                  phase = begun x (ground (arith, fewer));
                },
              )
            ]
          ]
        ]

    -- Bytes that come in bring the reading on.
    pub deliver_step :
        (again : Session → List ℕ → Reading) (answers : List Answer) (v : Session) (b : ℕ)
        (bs : List ℕ) (n : ℕ)
        → IsPartial v (b ∷ bs)
        → 0 < n
        → n + length v.read_buf ≤ v.read_expected
        → (w : Session) × (t : List ℕ) × (deliver again answers v (b ∷ bs) n ≡ again w t)
          × IsPartial w t
          × (length v.read_buf < length w.read_buf)
    deliver_step again answers v b bs n p pos le =
        let stream = b ∷ bs in
        let v1 = record v { read_buf = v.read_buf ++ take n stream } in
        let longer = length-append v.read_buf (take n stream) in
        let some_more = length-take n stream in
        let (w, e, same, q) =
          noted-IsPartial v1 (drop n stream) p.response
            (append_assoc v.read_buf (take n stream) (drop n stream)
              ∙ ap (◌++◌ v.read_buf) (take-append-drop n stream)
              ∙ p.whole)
            (ground (arith, longer, some_more, le)) (IsPartial-expected v stream p)
            (next p.phase) in
        (
          w,
          drop n stream,
          ap (resume again answers v1 (drop n stream)) e,
          q,
          ground (arith, ap length same, longer, some_more, pos),
        )
      where
        next :
            Phase v
            → (reply_length (v.read_buf ++ take n (b ∷ bs)) ≡ total k)
              ⊎ ((v.read_expected ≡ 4) ⊎ (length (v.read_buf ++ take n (b ∷ bs)) ≡ 5))
        next (known e x) = inl (reply_length-append v.read_buf (take n (b ∷ bs)) k e)
        next (begun x l) = inr (inl x)
        next (named x l) = inr (
            inr (
              ground (
                arith,
                length-append v.read_buf (take n (b ∷ bs)),
                length-take n (b ∷ bs),
                x,
                l,
                le,
                pos,
              )))
