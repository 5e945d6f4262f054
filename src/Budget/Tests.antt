-- ===== src/Budget/Tests.antt =====
-- Two workers share a budget of 100 bytes.
use bpf2socks.Prelude.{refl, ◌≡◌, arith, true, none, write}
use bpf2socks.Budget.{advance, reserving}
use bpf2socks.Budget.Steps.{System, start, Reachable, begin, step, reserve, proceed, run}
use bpf2socks.Budget.Inv.{Inv, Reachable-Inv}

-- Worker 1 reserves 60 bytes, as far as the exchange.
abbrev called : System
called = record (start 100) { phase = write (start 100).phase 1 (reserving 60 0) }

reserved-Reachable : Reachable 2 100 (run true called 1)
reserved-Reachable =
    step (step begin (reserve (start 100) 1 60 none (omega arith) refl))
      (proceed called 1 true (omega arith))

Reachable-Inv_example : Inv 2 100 (run true called 1)
Reachable-Inv_example = Reachable-Inv 2 100 reserved-Reachable

reserved : (run true called 1).budget.used_bytes ≡ 60
unfolding advance
reserved = refl
