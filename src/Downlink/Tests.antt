-- ===== src/Downlink/Tests.antt =====
-- The laws of the downlink queue and of its waiters at concrete nodes and flags.
use bpf2socks.Prelude.{ℕ, ◌≡◌, refl, arith, Bool, none, some, [], ◌∷◌, einval, ◌==◌}
use bpf2socks.Downlink.{Queue, init, push, pop, classify_send_result, retry}
use bpf2socks.Downlink.Fifo.{Holds, push-Holds, pop-Holds}

abbrev empty : Queue
empty = init (λ _. none)

empty-Holds : Holds empty []
empty-Holds = record { chained = tt; at_head = refl; at_tail = refl; distinct = tt }

one-Holds : Holds (push empty 4) (4 ∷ [])
one-Holds = push-Holds empty [] 4 empty-Holds tt

two-Holds : Holds (push (push empty 4) 9) (4 ∷ 9 ∷ [])
two-Holds = push-Holds (push empty 4) (4 ∷ []) 9 one-Holds (ground arith)

pop-Holds_example :
    ((pop (push (push empty 4) 9)).0 ≡ some 4)
    × Holds (pop (push (push empty 4) 9)).1 (9 ∷ [])
    × ((pop (push (push empty 4) 9)).1.next 4 ≡ none)
pop-Holds_example = pop-Holds (push (push empty 4) 9) 4 (9 ∷ []) two-Holds

abbrev flags : ℕ → Bool
flags i = i == 2

partly_sent : classify_send_result (some 3) 5 einval ≡ retry
unfolding classify_send_result
partly_sent = refl
