-- ===== src/Udp/Associate/Fates.antt =====
-- What becomes of the datagrams of a batch that bridge/udp_associate.c sends, one by one, and that the
-- counters tell it.
use bpf2socks.Prelude.{
  ℕ, zero, suc, ◌+◌, ◌-◌, ◌*◌, ◌<◌, ◌==◌, Option, none, some, List, [], ◌∷◌, ◌++◌, length,
  length-append, length-replicate, replicate, min, ◌≡◌, refl, arith, Bool-cases, inl, inr,
  if◌then◌else◌,
}
use bpf2socks.Udp.{Stats}
use bpf2socks.Udp.Associate.Uplink.{
  Sending, accepted, retried, too_large, transient, broken, sent_some, send_loop, count_batch,
  relay_send_batch,
}

-- A datagram goes out, is larger than the socket takes, or finds the socket's buffer full.
pub data Fate : Type 0 where
  delivered too_big dropped : Fate

abbrev pub is_delivered : Fate → ℕ
is_delivered delivered = 1
is_delivered _ = 0

abbrev pub is_too_big : Fate → ℕ
is_too_big too_big = 1
is_too_big _ = 0

abbrev pub is_dropped : Fate → ℕ
is_dropped dropped = 1
is_dropped _ = 0

abbrev pub number : (Fate → ℕ) → List Fate → ℕ
number f [] = 0
number f (x ∷ xs) = f x + number f xs

abbrev pub first_of : List Fate → Option (List Fate) → Option (List Fate)
first_of xs none = none
first_of xs (some ys) = some (xs ++ ys)

-- One answer of `sendmmsg` to the datagrams that are left: the number that it took, less one, an
-- error of the first datagram alone, an error that ends the batch, or one that ends the session.
abbrev pub answered : (ℕ → Option (List Fate)) → ℕ → Sending → Option (List Fate)
answered others left (accepted n) =
    first_of (replicate (min (n + 1) left) delivered) (others (left - min (n + 1) left))
answered others left too_large = first_of (too_big ∷ []) (others (left - 1))
answered others left retried = others left
answered others left transient = some (replicate left dropped)
answered others left broken = none

-- The fates of the datagrams, in their order. Where no answer is left, the buffer is full.
unfoldable pub fates : List Sending → ℕ → Option (List Fate)
fates [] left = some (replicate left dropped)
fates (a ∷ answers) left =
    let rest = answered (fates answers) left a in if left == 0 then some [] else rest

-- The counters and the result tell the number of each fate, and every datagram of the batch has one.
pub record IsAccounted (stats : Stats) (count : ℕ) (fs : List Fate) (t : Stats) (n : ℕ)
    : Type 0 where
  pub each : length fs ≡ count
  pub result : n ≡ number is_delivered fs
  pub upstream : t.packets_to_upstream ≡ stats.packets_to_upstream + number is_delivered fs
  pub copies : t.copy_sends ≡ stats.copy_sends + number is_delivered fs
  pub oversized : t.drops_oversized ≡ stats.drops_oversized + number is_too_big fs
  pub busy : t.drops_send_busy ≡ stats.drops_send_busy + number is_dropped fs

-- The batch fails where the session is broken, and only there.
abbrev pub Accounted : Stats → ℕ → Option (List Fate) → Option (Stats × ℕ) → Type 0
Accounted stats count none none = Unit {0}
Accounted stats count none (some r) = ⊥
Accounted stats count (some fs) none = ⊥
Accounted stats count (some fs) (some (t, n)) = IsAccounted stats count fs t n

number-append : (f : Fate → ℕ) (xs ys : List Fate) → number f (xs ++ ys) ≡ number f xs + number f ys
number-append f [] ys = omega arith
number-append f (x ∷ xs) ys = omega (arith, number-append f xs ys)

number-replicate :
    (f : Fate → ℕ) (n : ℕ) (x : Fate) (k : ℕ) → f x ≡ k → number f (replicate n x) ≡ n * k
number-replicate f zero x k e = omega arith
number-replicate f (suc n) x k e = ground (arith, e, number-replicate f n x k e)

-- What the loop has counted of datagrams with these fates.
abbrev Tallied : ℕ → ℕ → ℕ → Option (List Fate) → Option (ℕ × ℕ × ℕ) → Type 0
Tallied left s o none none = Unit {0}
Tallied left s o none (some r) = ⊥
Tallied left s o (some fs) none = ⊥
Tallied left s o (some fs) (some (sent_total, oversized, b)) =
    (length fs ≡ left)
    × (sent_total ≡ s + number is_delivered fs + number is_too_big fs)
    × (oversized ≡ o + number is_too_big fs)
    × (b ≡ number is_dropped fs)

-- The datagrams that an answer settles, before those of which the rest of the loop tells.
Tallied-first :
    (xs : List Fate) (left left' s s' o o' : ℕ) (fo : Option (List Fate)) (r : Option (ℕ × ℕ × ℕ))
    → length xs + left' ≡ left
    → s' ≡ s + number is_delivered xs + number is_too_big xs
    → o' ≡ o + number is_too_big xs
    → number is_dropped xs ≡ 0
    → Tallied left' s' o' fo r
    → Tallied left s o (first_of xs fo) r
Tallied-first xs left left' s s' o o' none none el es eo eb h = tt
Tallied-first xs left left' s s' o o' none (some r) el es eo eb h = h
Tallied-first xs left left' s s' o o' (some fs) none el es eo eb h = h
Tallied-first xs left left' s s' o o' (some fs) (some (total, oversized, b)) el es eo eb h =
    let d = number-append is_delivered xs fs in
    let t = number-append is_too_big xs fs in
    (
      omega (arith, length-append xs fs, el, h.0),
      omega (arith, d, t, es, h.1),
      omega (arith, t, eo, h.2),
      omega (arith, number-append is_dropped xs fs, eb, h.3),
    )

all_dropped : (left s o : ℕ) → Tallied left s o (some (replicate left dropped)) (some (s, o, left))
all_dropped left s o =
    let d = number-replicate is_delivered left dropped 0 refl in
    let t = number-replicate is_too_big left dropped 0 refl in
    (
      length-replicate left dropped,
      omega (arith, d, t),
      omega (arith, t),
      omega (arith, number-replicate is_dropped left dropped 1 refl),
    )

answered-Tallied :
    (others : ℕ → Option (List Fate)) (again : ℕ → ℕ → ℕ → Option (ℕ × ℕ × ℕ)) (left s o : ℕ)
    (a : Sending)
    → ((left' s' o' : ℕ) → Tallied left' s' o' (others left') (again left' s' o'))
    → 0 < left
    → Tallied left s o (answered others left a) (sent_some again left s o a)
answered-Tallied others again left s o (accepted n) ih pos =
    let m = min (n + 1) left in
    let d = number-replicate is_delivered m delivered 1 refl in
    let t = number-replicate is_too_big m delivered 0 refl in
    let settled = length-replicate m delivered in
    Tallied-first (replicate m delivered) left (left - m) s (s + m) o o (others (left - m))
      (again (left - m) (s + m) o) (omega (arith, settled)) (omega (arith, d, t)) (omega (arith, t))
      (omega (arith, number-replicate is_dropped m delivered 0 refl)) (ih (left - m) (s + m) o)
answered-Tallied others again left s o retried ih pos = ih left s o
answered-Tallied others again left s o too_large ih pos =
    Tallied-first (too_big ∷ []) left (left - 1) s (s + 1) o (o + 1) (others (left - 1))
      (again (left - 1) (s + 1) (o + 1)) (omega arith) (omega arith) (omega arith) refl
      (ih (left - 1) (s + 1) (o + 1))
answered-Tallied others again left s o transient ih pos = all_dropped left s o
answered-Tallied others again left s o broken ih pos = tt

send_loop-Tallied :
    (answers : List Sending) (left s o : ℕ)
    → Tallied left s o (fates answers left) (send_loop answers left s o)
unfolding send_loop fates
send_loop-Tallied [] left s o = all_dropped left s o
send_loop-Tallied (a ∷ answers) left s o = elim (Bool-cases (left == 0)) [
  | inl z ↦ rw z (ground (arith, z), omega arith, omega arith, refl)
  | inr ne ↦ rw ne (
      answered-Tallied (fates answers) (send_loop answers) left s o a (send_loop-Tallied answers)
        (ground (arith, ne)))
]

-- A batch fails where the answers break the session, and only there. Else each of its datagrams has
-- a fate by the answers of `sendmmsg`; the result and two counters tell those that went out, one
-- counter those that were too large, and one those that found the buffer full.
pub relay_send_batch-Accounted :
    (answers : List Sending) (stats : Stats) (count : ℕ)
    → Accounted stats count (fates answers count) (relay_send_batch answers stats count)
unfolding relay_send_batch
relay_send_batch-Accounted answers stats count =
    go (fates answers count) (send_loop answers count 0 0) (send_loop-Tallied answers count 0 0)
  where
    go :
        (fo : Option (List Fate)) (r : Option (ℕ × ℕ × ℕ))
        → Tallied count 0 0 fo r
        → Accounted stats count fo (count_batch stats r)
    go none none h = tt
    go none (some r) h = absurd h
    go (some fs) none h = absurd h
    go (some fs) (some (total, oversized, b)) h =
        let n : total - oversized ≡ number is_delivered fs = omega (arith, h.1, h.2) in
        record {
          each = h.0;
          result = n;
          upstream = omega (arith, n);
          copies = omega (arith, n);
          oversized = omega (arith, h.2);
          busy = omega (arith, h.3);
        }
