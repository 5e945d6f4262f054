-- ===== src/Udp/Queue/Slots.antt =====
-- Reading replies needs memory for each datagram of a batch: what `reserve_slots` reserves, and that
-- a packet that cannot be allocated leaves the budget as it was.
use bpf2socks.Prelude.{
  ℕ, zero, suc, ◌+◌, ◌-◌, ◌*◌, ◌/◌, ◌%◌, ◌^◌, ◌≤◌, ◌<◌, ◌==◌, Bool, true, false, Option, none, some,
  if◌then◌else◌, ltb, leb, ◌≡◌, ◌≢◌, refl, arith, Bool-cases, inl, inr, Result, ok, err,
}
use bpf2socks.Prelude.Outcome.{Outcome, done, fail, out_of_bounds, out_of_fuel}
use bpf2socks.Udp.{State}
use bpf2socks.Udp.Queue.{
  packet_size, max_allocation, size_max, budget_reserve, from_reservation, from_budget,
  alloc_downlink_packet, reserve_loop, reserve_slots, refuse_slots, take_slots,
}

-- A batch of `c` slots comes to at least one slot, whose memory is in the budget and within its
-- capacity; or to an errno, where not one slot fits.
abbrev pub Reserved : State → ℕ → Outcome (ℕ × State) → Type 0
Reserved s c (done (n, t)) =
    (0 < n)
    × (n ≤ c)
    × (t.read_reservation ≡ n * max_allocation)
    × (t.budget_used ≡ s.budget_used + n * max_allocation)
    × (t.budget_used ≤ s.budget_cap)
Reserved s c (fail e) = s.budget_cap < s.budget_used + max_allocation
Reserved s c out_of_bounds = ⊥
Reserved s c out_of_fuel = ⊥

Reserved-le :
    (s : State) (c d : ℕ) (r : Outcome (ℕ × State)) → d ≤ c → Reserved s d r → Reserved s c r
Reserved-le s c d (done (n, t)) h r = (r.0, omega (arith, r.1), r.2, r.3, r.4)
Reserved-le s c d (fail e) h r = r
Reserved-le s c d out_of_bounds h r = r
Reserved-le s c d out_of_fuel h r = r

budget_reserve-some :
    (s : State) (bytes : ℕ) (t : State)
    → budget_reserve s bytes ≡ some t
    → (t.budget_used ≡ s.budget_used + bytes) × (s.budget_used + bytes ≤ s.budget_cap)
unfolding budget_reserve
budget_reserve-some s bytes t h = ground arith

budget_reserve-none :
    (s : State) (bytes : ℕ) → budget_reserve s bytes ≡ none → s.budget_cap < s.budget_used + bytes
unfolding budget_reserve
budget_reserve-none s bytes h = ground arith

one_or_less :
    (s : State) (c : ℕ) (smaller : Outcome (ℕ × State))
    → (c ≡ 1 → s.budget_cap < s.budget_used + max_allocation)
    → (c ≢ 1 → Reserved s c smaller)
    → Reserved s c (refuse_slots smaller c)
one_or_less s c smaller last more = elim (Bool-cases (c == 1)) [
  | inl e ↦ rw e (last (ground arith))
  | inr e ↦ rw e (more (ground arith))
]

-- A round of the loop, where the smaller batches are reserved or refused.
round-Reserved :
    (s : State) (c : ℕ) (smaller : Outcome (ℕ × State))
    → 0 < c
    → (c ≢ 1 → Reserved s c smaller)
    → (r : Option State) → budget_reserve s (c * max_allocation) ≡ r
    → Reserved s c (take_slots smaller c r)
round-Reserved s c smaller pos more none e =
    let full = budget_reserve-none s (c * max_allocation) e in
    one_or_less s c smaller (λ one. omega (arith, full, one)) more
round-Reserved s c smaller pos more (some t) e =
    let (used, fits) = budget_reserve-some s (c * max_allocation) t e in
    (pos, omega arith, refl, used, omega (arith, used, fits))

branch :
    (s : State) (c : ℕ) (b : Bool) (x y : Outcome (ℕ × State))
    → Reserved s c x
    → (b ≡ false → Reserved s c y)
    → Reserved s c (if b then x else y)
branch s c true x y p q = p
branch s c false x y p q = q refl

either :
    (s : State) (c : ℕ) (smaller : Outcome (ℕ × State))
    → 0 < c
    → (c ≢ 1 → Reserved s c smaller)
    → Reserved s c (
        if leb c (size_max / max_allocation)
        then take_slots smaller c (budget_reserve s (c * max_allocation))
        else refuse_slots smaller c)
either s c smaller pos more =
    branch s c (leb c (size_max / max_allocation))
      (take_slots smaller c (budget_reserve s (c * max_allocation))) (refuse_slots smaller c)
      (round-Reserved s c smaller pos more (budget_reserve s (c * max_allocation)) refl)
      (λ e. one_or_less s c smaller (λ one. absurd (ground arith)) more)

reserve_loop-Reserved :
    (k fuel : ℕ) (s : State) (c : ℕ)
    → 0 < c
    → c ≤ 2 ^ k
    → c < 2 ^ 32 - 1
    → k < fuel
    → Reserved s c (reserve_loop fuel s c)
unfolding reserve_loop
reserve_loop-Reserved k zero s c pos le word f = absurd (omega arith)
reserve_loop-Reserved zero (suc fuel) s c pos le word f =
    either s c (reserve_loop fuel s ((c + 1) % 2 ^ 32 / 2)) pos (λ ne. absurd (ne (omega arith)))
reserve_loop-Reserved (suc k) (suc fuel) s c pos le word f =
    let smaller = reserve_loop fuel s ((c + 1) % 2 ^ 32 / 2) in
    either s c smaller pos (λ ne. Reserved-le s c ((c + 1) % 2 ^ 32 / 2) smaller (ground arith) (
      reserve_loop-Reserved k fuel s ((c + 1) % 2 ^ 32 / 2) (omega arith) (omega arith)
        (omega arith) (omega arith)))

-- Reserving slots for a batch of at least one and less than 2^32 - 1 datagrams, where nothing is
-- reserved yet, ends: with at least one slot, all of them in the budget and within its
-- capacity, or with an errno where the budget has no room for one slot.
pub reserve_slots-Reserved :
    (s : State) (batch : ℕ)
    → 0 < batch
    → batch < 2 ^ 32 - 1
    → s.read_reservation ≡ 0
    → Reserved s batch (reserve_slots s batch)
unfolding reserve_slots
reserve_slots-Reserved s batch pos word empty =
    let some_slot : (batch == 0) ≡ false = ground arith in
    let idle : (s.read_reservation == 0) ≡ true = ground arith in
    rw (some_slot, idle) (reserve_loop-Reserved 32 34 s batch pos (omega arith) word (omega arith))

abbrev pub Charged : State → ℕ → State × Result ℕ → Type 0
Charged s bytes (t, err e) =
    (t.budget_used ≡ s.budget_used) × (t.read_reservation ≡ s.read_reservation)
Charged s bytes (t, ok n) =
    (n ≡ bytes)
    × (t.budget_used + s.read_reservation ≡ s.budget_used + t.read_reservation + bytes)
    × (t.budget_used ≤ s.budget_cap)

from_reservation-Charged :
    (malloc : Bool) (s : State) (bytes : ℕ)
    → s.budget_used ≤ s.budget_cap
    → bytes ≤ s.read_reservation
    → Charged s bytes
        (from_reservation malloc (record s { read_reservation = s.read_reservation - bytes }) bytes)
from_reservation-Charged true s bytes h le = (refl, omega arith, h)
from_reservation-Charged false s bytes h le = (refl, omega arith)

from_budget-Charged :
    (malloc : Bool) (s : State) (bytes : ℕ)
    → s.budget_used ≤ s.budget_cap
    → (r : Option State) → budget_reserve s bytes ≡ r
    → Charged s bytes (from_budget malloc s r bytes)
unfolding budget_reserve
from_budget-Charged malloc s bytes h none e = (refl, refl)
from_budget-Charged true s bytes h (some t) e = (refl, ground arith, ground arith)
from_budget-Charged false s bytes h (some t) e = (ground arith, ground arith)

-- A packet that gets no memory, or no room in the budget, leaves the state as it was; one that gets
-- it is charged its bytes, to the reservation if that has them and else to the budget.
pub alloc_downlink_packet-charge :
    (malloc : Bool) (s : State) (payload_len : ℕ)
    → s.budget_used ≤ s.budget_cap
    → Charged s (packet_size + payload_len) (alloc_downlink_packet malloc s payload_len)
unfolding alloc_downlink_packet
alloc_downlink_packet-charge malloc s n h = elim (Bool-cases (ltb (size_max - packet_size) n)) [
  | inl e ↦ rw e (refl, refl)
  | inr e ↦ elim (Bool-cases (leb (packet_size + n) s.read_reservation)) [
    | inl r ↦ rw (e, r) (from_reservation-Charged malloc s (packet_size + n) h (ground arith))
    | inr r ↦
        rw (e, r)
          (from_budget-Charged malloc s (packet_size + n) h (budget_reserve s (packet_size + n))
            refl)
  ]
]
