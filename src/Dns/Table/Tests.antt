-- ===== src/Dns/Table/Tests.antt =====
-- The laws of bridge/dns.c's transaction table at a table of two slots.
use bpf2socks.Prelude.{ℕ, ◌≡◌, ◌≢◌, ◌↔◌, refl, arith, true, false, some, [], ◌∷◌}
use bpf2socks.Dns.Table.{Table, fresh, init, register, release, find, expire}
use bpf2socks.Dns.Table.Inv.{IsTable, register-Inv}
use bpf2socks.Dns.Table.Keep.{init-IsTable, release-IsTable, restack}
use bpf2socks.Dns.Table.Alloc.{alloc-Allocated, Allocated}
use bpf2socks.Dns.Table.Find.{Names, find_iff, find-release}
use bpf2socks.Dns.Table.Expire.{Expired, expire-Expired}

-- Two channels and two slots, none in use.
abbrev two_slots : Table
two_slots = fresh 2 2

two_slots-IsTable : IsTable two_slots []
unfolding init
two_slots-IsTable = init-IsTable true 2 2 refl

alloc-Allocated_example : (t' : Table) × (slot : ℕ) × Allocated two_slots [] 1 7 9 100 t' slot
alloc-Allocated_example =
    alloc-Allocated two_slots [] 1 7 9 100 two_slots-IsTable (omega arith) (omega arith)
      (omega arith)

-- The slot 0 in use under the channel 1 and the id 0.
abbrev one_sent : Table
one_sent = register (record two_slots { free_indices = 1 ∷ [] }) 0 1 0 7 9 100

one_sent-IsTable : IsTable one_sent (0 ∷ [])
one_sent-IsTable =
    register-Inv (record two_slots { free_indices = 1 ∷ [] }) [] 0 (1 ∷ [])
      (restack two_slots [] (0 ∷ 1 ∷ []) (1 ∷ []) two_slots-IsTable) 1 0 7 9 100 (omega arith)
      (omega arith) refl

release-IsTable_example : IsTable (release one_sent 0) []
release-IsTable_example = release-IsTable one_sent [] 0 [] one_sent-IsTable

find_iff_example : (find one_sent 1 0 ≡ some 0) ↔ Names one_sent (0 ∷ []) 1 0 0
find_iff_example = find_iff one_sent (0 ∷ []) 1 0 0 one_sent-IsTable (omega arith)

find-release_example :
    (find (release one_sent 0) 1 0 ≡ some 0) ↔ ((find one_sent 1 0 ≡ some 0) × ◌≢◌ {A = ℕ} 0 0)
find-release_example = find-release one_sent [] 0 [] 1 0 0 one_sent-IsTable (omega arith)

expire-Expired_example :
    Expired one_sent (0 ∷ []) 4 500 300 2 (λ _. false) (expire 4 one_sent 500 300 2 (λ _. false))
expire-Expired_example = expire-Expired 4 one_sent (0 ∷ []) 500 300 2 (λ _. false) one_sent-IsTable
