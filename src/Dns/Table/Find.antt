-- ===== src/Dns/Table/Find.antt =====
-- `find` returns exactly the transaction in use under a channel and an id.
use bpf2socks.Prelude.{ℕ, ◌<◌, ◌≡◌, ◌≢◌, ◌↔◌, sym, arith, true, some, List, ◌∷◌, ◌++◌, subst}
use bpf2socks.Lru.Chain.{Distinct-without}
use bpf2socks.Dns.Table.{Table, find, release, lookup_offset}
use bpf2socks.Dns.Table.Inv.{IsTable, In, In-All, In-without, In-widen, In-Absent}
use bpf2socks.Dns.Table.Keep.{release-IsTable, kept_release}

find_parts :
    (t : Table) (channel id i : ℕ)
    → find t channel id ≡ some i
    → (channel < t.channel_count) × (t.lookup (lookup_offset channel id) ≡ some i)
unfolding find
find_parts t channel id i e = ground arith

find_intro :
    (t : Table) (channel id i : ℕ)
    → channel < t.channel_count
    → t.lookup (lookup_offset channel id) ≡ some i
    → i < t.capacity
    → (t.transactions i).used ≡ true
    → find t channel id ≡ some i
unfolding find
find_intro t channel id i hc e hi u = ground arith

-- The transaction that a channel and id name.
abbrev pub Names : Table → List ℕ → ℕ → ℕ → ℕ → Type 0
Names t xs channel id i =
    In i xs × ((t.transactions i).channel_index ≡ channel) × ((t.transactions i).rewritten_id ≡ id)

-- On a well-formed table, and for a 16-bit id, `find` returns `i` exactly when `i` is in use under
-- that channel and id.
pub find_iff :
    (t : Table) (xs : List ℕ) (channel id i : ℕ)
    → IsTable t xs
    → id < 65536
    → (find t channel id ≡ some i) ↔ Names t xs channel id i
find_iff t xs channel id i v hid = (there, back)
  where
    there : find t channel id ≡ some i → Names t xs channel id i
    there e =
        let b = v.backed _ i (find_parts t channel id i e).1 in
        let k = v.keyed i b.0 in
        (v.used_in i b.0, omega (arith, b.1, k.id), omega (arith, b.1, k.id))

    back : Names t xs channel id i → find t channel id ≡ some i
    back (h, ec, ei) =
        let u = In-All _ i xs h v.in_used in
        let k = v.keyed i u.1 in
        find_intro t channel id i (omega (arith, k.channel, ec))
          (subst (λ o. t.lookup o ≡ some i) (ground (arith, ec, ei)) k.found) u.0 u.1

-- After the release of a transaction of a well-formed table exactly the others are found, by channel
-- and 16-bit id.
pub find-release :
    (t : Table) (ys : List ℕ) (i : ℕ) (zs : List ℕ) (channel id j : ℕ)
    → IsTable t (ys ++ i ∷ zs)
    → id < 65536
    → (find (release t i) channel id ≡ some j) ↔ ((find t channel id ≡ some j) × (i ≢ j))
find-release t ys i zs channel id j v hid = (there, back)
  where
    after : IsTable (release t i) (ys ++ zs)
    after = release-IsTable t ys i zs v

    others : In j (ys ++ zs) → i ≢ j
    others = In-Absent j i (ys ++ zs) (Distinct-without ys i zs v.order.distinct).1

    there : find (release t i) channel id ≡ some j → (find t channel id ≡ some j) × (i ≢ j)
    there e =
        let (h, ec, ei) = (find_iff (release t i) (ys ++ zs) channel id j after hid).0 e in
        let same = kept_release t ys i zs v j (others h) in
        (
          (find_iff t (ys ++ i ∷ zs) channel id j v hid).1
              (In-widen j i ys zs h, rw same at ec, rw same at ei),
          others h,
        )

    back : (find t channel id ≡ some j) × (i ≢ j) → find (release t i) channel id ≡ some j
    back (e, ne) =
        let (h, ec, ei) = (find_iff t (ys ++ i ∷ zs) channel id j v hid).0 e in
        let same = kept_release t ys i zs v j ne in
        (find_iff (release t i) (ys ++ zs) channel id j after hid).1
          (In-without j i ys zs (λ ji. ne (sym ji)) h, rw same ec, rw same ei)
