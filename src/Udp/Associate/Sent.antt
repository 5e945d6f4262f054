-- ===== src/Udp/Associate/Sent.antt =====
-- What becomes of the bytes of a request that bridge/udp_associate.c sends.
use bpf2socks.Prelude.{
  ℕ, zero, suc, ◌+◌, ◌≤◌, List, [], ◌∷◌, ◌++◌, leb, length, take, drop, min, ◌≡◌, refl, sym, ap,
  ◌∙◌, arith, Bool-cases, inl, inr, append_assoc, length-drop, take-append-drop,
}
use mathlib.Core.List.{append-nil}
use bpf2socks.Udp.{Session}
use bpf2socks.Udp.Associate.{
  Answer, interrupted, would_block, ended, bytes, Progress, failed, waiting, complete,
}
use bpf2socks.Udp.Associate.Uplink.{Writing, sent, flush_write}

drop_empty : (m : ℕ) → drop {A = ℕ} m [] ≡ []
drop_empty zero = refl
drop_empty (suc m) = refl

drop-drop : (n m : ℕ) (xs : List ℕ) → drop (n + m) xs ≡ drop m (drop n xs)
drop-drop zero m xs = let e : 0 + m ≡ m = omega arith in ap (λ j. drop j xs) e
drop-drop (suc n) m [] =
    let e : suc n + m ≡ suc (n + m) = omega arith in
    ap (λ j. drop {A = ℕ} j []) e ∙ sym (drop_empty m)
drop-drop (suc n) m (x ∷ xs) =
    let e : suc n + m ≡ suc (n + m) = omega arith in ap (λ j. drop j (x ∷ xs)) e ∙ drop-drop n m xs

module _ (request before : List ℕ) where
  -- The beginning of the request has gone out behind what was sent before.
  pub record IsSending (v : Session) (wire : List ℕ) : Type 0 where
    pub buffer : v.write_buf ≡ request
    pub behind : wire ++ drop v.write_offset request ≡ before ++ request

  -- All of it is out, or it goes on from there.
  abbrev pub IsSent : Progress → Session → List ℕ → Type 0
  IsSent failed v wire = IsSending v wire
  IsSent waiting v wire = IsSending v wire
  IsSent complete v wire = wire ≡ before ++ request

  whole_sent :
      (v : Session) (wire : List ℕ)
      → IsSending v wire
      → length v.write_buf ≤ v.write_offset
      → wire ≡ before ++ request
  whole_sent v wire p full =
      sym (append-nil wire)
      ∙ ap (◌++◌ wire) (
          sym (
            nothing (drop v.write_offset request)
              (ground (arith, length-drop v.write_offset request, ap length p.buffer, full))))
      ∙ p.behind
    where
      nothing : (xs : List ℕ) → length xs ≡ 0 → xs ≡ []
      nothing [] h = refl
      nothing (x ∷ xs) h = absurd (omega (arith, h))

  abbrev Sends : Writing → Type 0
  Sends r = IsSent r.progress r.session r.wire

  sent-IsSent :
      (again : Session → List ℕ → Writing) (v : Session) (wire : List ℕ) (a : Answer)
      → ((w : Session) (t : List ℕ) → IsSending w t → Sends (again w t))
      → IsSending v wire
      → Sends (sent again v wire a)
  sent-IsSent again v wire interrupted ih p = ih v wire p
  sent-IsSent again v wire would_block ih p = p
  sent-IsSent again v wire ended ih p = p
  sent-IsSent again v wire (bytes m) ih p =
      let left = drop v.write_offset v.write_buf in
      let n = min (m + 1) (length left) in
      let same : left ≡ drop v.write_offset request = ap (drop v.write_offset) p.buffer in
      ih _ _ (record {
        buffer = p.buffer;
        behind =
            append_assoc wire (take n left) (drop (v.write_offset + n) request)
            ∙ ap (λ d. wire ++ (take n left ++ d))
                (drop-drop v.write_offset n request ∙ ap (drop n) (sym same))
            ∙ ap (◌++◌ wire) (take-append-drop n left ∙ same)
            ∙ p.behind;
      })

  -- A beginning of the request has gone out behind what was sent before. However `send` cuts the
  -- rest, the flush completes with the whole request out, once, or stops, also on a failure,
  -- with a beginning of it out, from where it goes on.
  pub flush_write-IsSent :
      (answers : List Answer) (v : Session) (wire : List ℕ)
      → IsSending v wire
      → let r = flush_write answers v wire in IsSent r.progress r.session r.wire
  unfolding flush_write
  flush_write-IsSent [] v wire p = elim (Bool-cases (leb (length v.write_buf) v.write_offset)) [
    | inl full ↦ rw full (whole_sent v wire p (ground (arith, full)))
    | inr more ↦ rw more p
  ]
  flush_write-IsSent (a ∷ answers) v wire p =
      elim (Bool-cases (leb (length v.write_buf) v.write_offset)) [
        | inl full ↦ rw full (whole_sent v wire p (ground (arith, full)))
        | inr more ↦
            rw more (sent-IsSent (flush_write answers) v wire a (flush_write-IsSent answers) p)
      ]
