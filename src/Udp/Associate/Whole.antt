-- ===== src/Udp/Associate/Whole.antt =====
-- However the reply of the server is cut into pieces, it is read as a whole, and nothing beyond it.
use bpf2socks.Prelude.{
  ℕ, ◌+◌, ◌≤◌, ◌<◌, Bool, true, false, List, [], ◌∷◌, leb, length, ◌≡◌, refl, sym, subst, ap, ◌∙◌,
  arith, All, Bool-cases, inl, inr, length-append,
}
use bpf2socks.Socks.{total, reply_length}
use bpf2socks.Udp.{Session}
use bpf2socks.Udp.Associate.{
  Answer, interrupted, would_block, ended, bytes, Progress, failed, waiting, complete, Reading,
  deliver, received, read_bytes, read_capacity,
}
use bpf2socks.Udp.Associate.Partial.{IsPartial, IsPartial-expected, IsPartial-end, deliver_step}

-- The connection is closed or broken.
abbrev pub is_ended : Answer → Bool
is_ended ended = true
is_ended _ = false

-- Something comes in.
abbrev pub is_bytes : Answer → Bool
is_bytes (bytes m) = true
is_bytes _ = false

module _ (reply rest : List ℕ) (k : ℕ) where
  -- The reply has been read, or a beginning of it, and the loop can go on from there.
  abbrev pub IsDelivered : Progress → Session → List ℕ → Type 0
  IsDelivered failed v stream = ⊥
  IsDelivered waiting v stream = IsPartial reply rest k v stream
  IsDelivered complete v stream = (v.read_buf ≡ reply) × (stream ≡ rest)

  module _ (announced : reply_length reply ≡ total k) (exact : length reply ≡ k)
      (fits : k ≤ read_capacity) where
    abbrev Delivers : Reading → Type 0
    Delivers r = IsDelivered r.progress r.session r.stream

    deliver-IsDelivered :
        (again : Session → List ℕ → Reading) (answers : List Answer) (v : Session) (stream : List ℕ)
        (n : ℕ)
        → ((w : Session) (t : List ℕ) → IsPartial reply rest k w t → Delivers (again w t))
        → IsPartial reply rest k v stream
        → 0 < n
        → n + length v.read_buf ≤ v.read_expected
        → Delivers (deliver again answers v stream n)
    deliver-IsDelivered again answers v [] n ih p pos le = p
    deliver-IsDelivered again answers v (b ∷ bs) n ih p pos le =
        let (w, t, e, q, longer) =
          deliver_step reply rest k announced exact fits again answers v b bs n p pos le in
        subst Delivers (sym e) (ih w t q)

    received-IsDelivered :
        (again : Session → List ℕ → Reading) (answers : List Answer) (v : Session) (stream : List ℕ)
        (a : Answer)
        → ((w : Session) (t : List ℕ) → IsPartial reply rest k w t → Delivers (again w t))
        → is_ended a ≡ false
        → IsPartial reply rest k v stream
        → length v.read_buf < v.read_expected
        → Delivers (received again answers v stream a)
    received-IsDelivered again answers v stream interrupted ih o p h = ih v stream p
    received-IsDelivered again answers v stream would_block ih o p h = p
    received-IsDelivered again answers v stream ended ih o p h = cc
    received-IsDelivered again answers v stream (bytes m) ih o p h =
        deliver-IsDelivered again answers v stream _ ih p (ground arith) (ground arith)

    -- Of a server's reply of at most 261 bytes, whose announced length is its own, a part has
    -- been read. However `recv` cuts the rest into pieces, as long as the connection holds, the
    -- reading ends with exactly the reply read and all bytes behind it left, or with a part of
    -- it read, from where it goes on in the same way.
    pub read_bytes-IsDelivered :
        (answers : List Answer) (v : Session) (stream : List ℕ)
        → All (λ a. is_ended a ≡ false) answers
        → IsPartial reply rest k v stream
        → let r = read_bytes answers v stream in IsDelivered r.progress r.session r.stream
    unfolding read_bytes
    read_bytes-IsDelivered [] v stream o p =
        elim (Bool-cases (leb v.read_expected (length v.read_buf))) [
          | inl full ↦
              rw full
                (IsPartial-end reply rest k announced exact fits v stream p (ground (arith, full)))
          | inr more ↦ rw more p
        ]
    read_bytes-IsDelivered (a ∷ answers) v stream o p =
        elim (Bool-cases (leb v.read_expected (length v.read_buf))) [
          | inl full ↦
              rw full
                (IsPartial-end reply rest k announced exact fits v stream p (ground (arith, full)))
          | inr more ↦ rw more (
              received-IsDelivered (read_bytes answers) answers v stream a
                (λ w t q. read_bytes-IsDelivered answers w t o.1 q) o.0 p (ground (arith, more)))
        ]

    -- Where a part of the reply is missing, the stream has it.
    deliver-complete :
        (again : Session → List ℕ → Reading) (answers : List Answer) (v : Session) (stream : List ℕ)
        (n : ℕ)
        → ((w : Session) (t : List ℕ)
            → IsPartial reply rest k w t
            → k ≤ length w.read_buf + length answers
            → (again w t).progress ≡ complete)
        → IsPartial reply rest k v stream
        → 0 < n
        → n + length v.read_buf ≤ v.read_expected
        → k ≤ length v.read_buf + (length answers + 1)
        → (deliver again answers v stream n).progress ≡ complete
    deliver-complete again answers v [] n ih p pos le enough = absurd (
        omega (
          arith,
          ap length p.whole,
          length-append v.read_buf [],
          length-append reply rest,
          exact,
          IsPartial-expected reply rest k announced exact fits v [] p,
        ))
    deliver-complete again answers v (b ∷ bs) n ih p pos le enough =
        let (w, t, e, q, longer) =
          deliver_step reply rest k announced exact fits again answers v b bs n p pos le in
        ap (λ (r : Reading). r.progress) e ∙ ih w t q (omega (arith, longer, enough))

    received-complete :
        (again : Session → List ℕ → Reading) (answers : List Answer) (v : Session) (stream : List ℕ)
        (a : Answer)
        → ((w : Session) (t : List ℕ)
            → IsPartial reply rest k w t
            → k ≤ length w.read_buf + length answers
            → (again w t).progress ≡ complete)
        → is_bytes a ≡ true
        → IsPartial reply rest k v stream
        → length v.read_buf < v.read_expected
        → k ≤ length v.read_buf + (length answers + 1)
        → (received again answers v stream a).progress ≡ complete
    received-complete again answers v stream interrupted ih o p h enough = cc
    received-complete again answers v stream would_block ih o p h enough = cc
    received-complete again answers v stream ended ih o p h enough = cc
    received-complete again answers v stream (bytes m) ih o p h enough =
        deliver-complete again answers v stream _ ih p (ground arith) (ground arith) enough

    -- Of such a reply a part has been read. If every `recv` gets something, and there are as
    -- many of them as bytes of the reply missing, the reading completes.
    pub read_bytes-complete :
        (answers : List Answer) (v : Session) (stream : List ℕ)
        → All (λ a. is_bytes a ≡ true) answers
        → IsPartial reply rest k v stream
        → k ≤ length v.read_buf + length answers
        → (read_bytes answers v stream).progress ≡ complete
    unfolding read_bytes
    read_bytes-complete [] v stream o p enough =
        let full : leb v.read_expected (length v.read_buf) ≡ true =
          ground (arith, enough, IsPartial-expected reply rest k announced exact fits v stream p) in
        rw full refl
    read_bytes-complete (a ∷ answers) v stream o p enough =
        elim (Bool-cases (leb v.read_expected (length v.read_buf))) [
          | inl full ↦ rw full refl
          | inr more ↦ rw more (
              received-complete (read_bytes answers) answers v stream a
                (λ w t q enough'. read_bytes-complete answers w t o.1 q enough') o.0 p
                (ground (arith, more)) (omega (arith, enough)))
        ]
