-- ===== src/Budget/Inv.antt =====
-- The used bytes are within the capacity and are what the workers hold, at every moment.
use bpf2socks.Prelude.{
  total, total-write, total-zero, total_ge, write_at, write_ne, write_all, subst, ℕ, ◌+◌, ◌-◌, ◌≤◌,
  ◌<◌, ◌≡◌, ◌≢◌, refl, ◌∙◌, arith, Bool, ◌&&◌, ◌||◌, Option, none, some, ltb, ◌==◌, write, erange,
  Bool-cases, inl, inr,
}
use bpf2socks.Budget.{
  Budget, Phase, reserving, releasing, raising, loading_peak, waking, taking, notifying, returned,
  advance, signal, any_waiting, max_workers,
}
use bpf2socks.Budget.Steps.{
  System, held_after, run, Step, reserve, release, register, set_fd, proceed, Reachable, begin,
  step,
}

-- What a worker's phase says of the capacity and of the bytes that it holds.
abbrev pub PhaseOk : ℕ → ℕ → Phase → Type 0
PhaseOk cap held (reserving bytes used) = Unit
PhaseOk cap held (releasing bytes used) = bytes ≤ held × bytes ≤ used
PhaseOk cap held (raising next peak) = next ≤ cap
PhaseOk cap held (loading_peak next) = next ≤ cap
PhaseOk cap held waking = Unit
PhaseOk cap held taking = Unit
PhaseOk cap held (notifying waiters i) = Unit
PhaseOk cap held (returned e) = e ≢ some erange

-- `n` workers share a budget of `cap` bytes.
pub record Inv (n cap : ℕ) (s : System) : Type 0 where
  pub capacity : s.budget.cap_bytes ≡ cap
  pub within : s.budget.used_bytes ≤ cap
  pub peak_within : s.budget.peak_bytes ≤ cap
  pub conserved : total n s.held ≡ s.budget.used_bytes
  pub phases : (i : ℕ) → PhaseOk cap (s.held i) (s.phase i)

-- One step of a worker that holds `held` bytes.
record Advanced (cap held : ℕ) (budget : Budget) (p : Phase) (next : Budget × Phase) : Type 0 where
  capacity : next.0.cap_bytes ≡ cap
  within : next.0.used_bytes ≤ cap
  peak_within : next.0.peak_bytes ≤ cap
  moved : next.0.used_bytes + held ≡ budget.used_bytes + held_after held p next.1
  ok : PhaseOk cap (held_after held p next.1) next.1

signal-keeps :
    (b : Budget) (fd : Option ℕ)
    → ((signal b fd).cap_bytes ≡ b.cap_bytes)
      × ((signal b fd).used_bytes ≡ b.used_bytes)
      × ((signal b fd).peak_bytes ≡ b.peak_bytes)
signal-keeps b none = (refl, refl, refl)
signal-keeps b (some fd) = (refl, refl, refl)

advance-Advanced :
    (exchanged : Bool) (cap held : ℕ) (b : Budget) (p : Phase)
    → b.cap_bytes ≡ cap
    → b.used_bytes ≤ cap
    → b.peak_bytes ≤ cap
    → held ≤ b.used_bytes
    → PhaseOk cap held p
    → Advanced cap held b p (advance exchanged b p)
unfolding advance
advance-Advanced x cap held b (reserving bytes used) ec hu hp hh ok =
    elim (Bool-cases (ltb b.cap_bytes bytes || ltb (b.cap_bytes - bytes) used)) [
      | inl over ↦
          rw over (record { capacity = ec; within = hu; peak_within = hp; moved = refl; ok = cc })
      | inr fits ↦ elim (Bool-cases (x && used == b.used_bytes)) [
        | inl swapped ↦
            rw (fits, swapped)
              (record {
                capacity = ec;
                within = ground arith;
                peak_within = hp;
                moved = ground arith;
                ok = ground arith;
              })
        | inr lost ↦
            rw (fits, lost)
              (record { capacity = ec; within = hu; peak_within = hp; moved = refl; ok = tt })
      ]
    ]
advance-Advanced x cap held b (releasing bytes used) ec hu hp hh ok =
    elim (Bool-cases (ltb used bytes)) [
      | inl over ↦ absurd (ground arith)
      | inr fits ↦ elim (Bool-cases (x && used == b.used_bytes)) [
        | inl swapped ↦
            rw (fits, swapped)
              (record {
                capacity = ec;
                within = ground arith;
                peak_within = hp;
                moved = ground arith;
                ok = tt;
              })
        | inr lost ↦
            rw (fits, lost)
              (record {
                capacity = ec;
                within = hu;
                peak_within = hp;
                moved = refl;
                ok = ground arith;
              })
      ]
    ]
advance-Advanced x cap held b (loading_peak next) ec hu hp hh ok = record {
  capacity = ec;
  within = hu;
  peak_within = hp;
  moved = refl;
  ok = ok;
}
advance-Advanced x cap held b (raising next peak) ec hu hp hh ok =
    elim (Bool-cases (ltb peak next)) [
      | inr over ↦
          rw over (record { capacity = ec; within = hu; peak_within = hp; moved = refl; ok = cc })
      | inl fits ↦ elim (Bool-cases (x && peak == b.peak_bytes)) [
        | inl swapped ↦
            rw (fits, swapped)
              (record { capacity = ec; within = hu; peak_within = ok; moved = refl; ok = cc })
        | inr lost ↦
            rw (fits, lost)
              (record { capacity = ec; within = hu; peak_within = hp; moved = refl; ok = ok })
      ]
    ]
advance-Advanced x cap held b waking ec hu hp hh ok =
    elim (Bool-cases (any_waiting max_workers b.waiting_workers)) [
      | inl some_wait ↦
          rw some_wait
            (record { capacity = ec; within = hu; peak_within = hp; moved = refl; ok = tt })
      | inr none_wait ↦
          rw none_wait
            (record { capacity = ec; within = hu; peak_within = hp; moved = refl; ok = cc })
    ]
advance-Advanced x cap held b taking ec hu hp hh ok = record {
  capacity = ec;
  within = hu;
  peak_within = hp;
  moved = refl;
  ok = tt;
}
advance-Advanced x cap held b (notifying waiters i) ec hu hp hh ok =
    let (kc, ku, kp) = signal-keeps b (b.wake_fds i) in
    elim (Bool-cases (ltb i max_workers && any_waiting max_workers waiters)) [
      | inl more ↦ elim (Bool-cases (waiters i)) [
        | inl waits ↦
            rw (more, waits)
              (record {
                capacity = kc ∙ ec;
                within = ground arith;
                peak_within = ground arith;
                moved = ground arith;
                ok = tt;
              })
        | inr ready ↦
            rw (more, ready)
              (record { capacity = ec; within = hu; peak_within = hp; moved = refl; ok = tt })
      ]
      | inr over ↦
          rw over (record { capacity = ec; within = hu; peak_within = hp; moved = refl; ok = cc })
    ]
advance-Advanced x cap held b (returned e) ec hu hp hh ok = record {
  capacity = ec;
  within = hu;
  peak_within = hp;
  moved = refl;
  ok = ok;
}

module _ (n cap : ℕ) where
  -- A call leaves the budget alone, and puts the worker into a phase that suits what it holds.
  call-Inv :
      (s : System) (i : ℕ) (p : Phase)
      → PhaseOk cap (s.held i) p
      → Inv n cap s
      → Inv n cap (record s { phase = write s.phase i p })
  call-Inv s i p ok v = record {
    capacity = v.capacity;
    within = v.within;
    peak_within = v.peak_within;
    conserved = v.conserved;
    phases = write_all (λ j q. PhaseOk cap (s.held j) q) s.phase i p ok v.phases;
  }

  run-Inv :
      (exchanged : Bool) (s : System) (i : ℕ) → i < n → Inv n cap s → Inv n cap (run exchanged s i)
  run-Inv exchanged s i h v =
      let next = advance exchanged s.budget (s.phase i) in
      let held = held_after (s.held i) (s.phase i) next.1 in
      let holds = total_ge n s.held i h in
      let kept = v.conserved in
      let a =
        advance-Advanced exchanged cap (s.held i) s.budget (s.phase i) v.capacity v.within
          v.peak_within (omega arith) (v.phases i) in
      let moved = a.moved in
      let sum = total-write n s.held i held h in
      record {
        capacity = a.capacity;
        within = a.within;
        peak_within = a.peak_within;
        conserved = omega arith;
        phases = both i next.1 held s a.ok v.phases;
      }
    where
      both :
          (i : ℕ) (p : Phase) (h : ℕ) (s : System)
          → PhaseOk cap h p
          → ((j : ℕ) → PhaseOk cap (s.held j) (s.phase j))
          → (j : ℕ) → PhaseOk cap (write s.held i h j) (write s.phase i p j)
      both i p h s ok all j = elim (Bool-cases (i == j)) [
        | inl same ↦
            let e : i ≡ j = ground arith in
            subst (λ k. PhaseOk cap (write s.held i h k) (write s.phase i p k)) e
              (rw (write_at s.held i h, write_at s.phase i p) ok)
        | inr other ↦
            rw (write_ne s.held i j h (ground arith), write_ne s.phase i j p (ground arith)) (all j)
      ]

  -- Every step keeps the invariant.
  Step-Inv : {s s' : System} → Step n s s' → Inv n cap s → Inv n cap s'
  Step-Inv (reserve s i bytes e h at_rest) v =
      call-Inv s i (reserving bytes s.budget.used_bytes) tt v
  Step-Inv (release s i bytes e h at_rest holds) v =
      let all = total_ge n s.held i h in
      let kept = v.conserved in
      call-Inv s i (releasing bytes s.budget.used_bytes) (holds, omega arith) v
  Step-Inv (register s i h) v = record {
    capacity = ground (arith, v.capacity);
    within = ground (arith, v.within);
    peak_within = ground (arith, v.peak_within);
    conserved = ground (arith, v.conserved);
    phases = v.phases;
  }
  Step-Inv (set_fd s i fd h) v = record {
    capacity = ground (arith, v.capacity);
    within = ground (arith, v.within);
    peak_within = ground (arith, v.peak_within);
    conserved = ground (arith, v.conserved);
    phases = v.phases;
  }
  Step-Inv (proceed s i exchanged h) v = run-Inv exchanged s i h v

  -- However the steps interleave, the used bytes are exactly what the workers hold, they and the
  -- peak are within the capacity, and no release of held bytes fails.
  pub Reachable-Inv : {s : System} → Reachable n cap s → Inv n cap s
  Reachable-Inv begin = record {
    capacity = refl;
    within = omega arith;
    peak_within = omega arith;
    conserved = total-zero n;
    phases = λ i e. cc;
  }
  Reachable-Inv (step r x) = Step-Inv x (Reachable-Inv r)
