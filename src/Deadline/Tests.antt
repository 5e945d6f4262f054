-- ===== src/Deadline/Tests.antt =====
-- The timers at concrete times.
use bpf2socks.Prelude.{◌≡◌, refl, arith, true, false, some}
use bpf2socks.Deadline.{tcp_wait_timeout, deadline_wait_timeout}
use bpf2socks.Deadline.Wakeups.{Suits, IsCapped, tcp_wait_timeout-Suits}

tcp_wait_timeout-Suits_example :
    Suits 5000 100 (tcp_wait_timeout true 5000 100 false)
    × IsCapped true (tcp_wait_timeout true 5000 100 false)
tcp_wait_timeout-Suits_example = tcp_wait_timeout-Suits true 5000 100 false (omega arith)

paused_listeners : tcp_wait_timeout true 5000 100 false ≡ some 1000
unfolding tcp_wait_timeout deadline_wait_timeout
paused_listeners = refl
