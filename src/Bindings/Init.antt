-- ===== src/Bindings/Init.antt =====
-- `bpf2socks_udp_binding_index_init`: the number of buckets is the next power of two.
use bpf2socks.Prelude.{
  ℕ, zero, suc, ◌+◌, ◌-◌, ◌*◌, ◌/◌, ◌%◌, ◌^◌, ◌≤◌, ◌<◌, ◌==◌, Bool, true, [], if◌then◌else◌, ltb,
  ◌≡◌, refl, subst, ◌⊎◌, ap, ◌∙◌, arith, Bool-cases, inl, inr, einval, eoverflow, enomem,
}
use bpf2socks.Prelude.Outcome.{Outcome, done, fail, out_of_fuel, ◌>>=◌}
use bpf2socks.Prelude.Bits.{bit_and_low}
use bpf2socks.Bindings.{Sockaddr, Index, bucket_of, binding_hash}

abbrev size_max : ℕ
size_max = 2 ^ 64 - 1

-- The loop that doubles `bucket_count` until it reaches the capacity.
unfoldable pub double : ℕ → ℕ → ℕ → Outcome ℕ
double zero capacity count = out_of_fuel
double (suc fuel) capacity count =
    let rest = double fuel capacity (count * 2) in
    if ltb count capacity
    then (if ltb (size_max / 2) count then fail eoverflow else rest)
    else done count

-- `calloc` gives memory for this many buckets, or not. A pointer has eight bytes.
unfoldable pub init : (ℕ → Bool) → ℕ → Outcome Index
init calloc capacity =
    if capacity == 0
    then fail einval
    else (double 65 capacity 1 >>= λ count.
        if ltb (size_max / 8) count
        then fail eoverflow
        else (if calloc count
            then done (record { buckets = λ _. []; bucket_count = count })
            else fail enomem))

-- `bpf2socks_udp_binding_index_free`: the chains are taken apart and all fields are cleared.
pub free : Index → Index
free index = record { buckets = λ _. []; bucket_count = 0 }

-- The least power of two that is enough.
pub record IsSized (capacity : ℕ) (count : ℕ) : Type 0 where
  pub exponent : ℕ
  pub power : count ≡ 2 ^ exponent
  pub enough : capacity ≤ count
  pub least : count < 2 * capacity

pow_suc : (k : ℕ) → 2 ^ suc k ≡ 2 ^ k * 2
pow_suc k = omega arith

double_lem :
    (fuel k capacity c : ℕ)
    → c ≡ 2 ^ k
    → fuel + k ≡ 65
    → c ≤ size_max
    → c < 2 * capacity
    → ((n : ℕ) × (double fuel capacity c ≡ done n) × IsSized capacity n)
      ⊎ ((double fuel capacity c ≡ fail eoverflow) × (size_max / 2 < capacity))
unfolding double
double_lem zero k capacity c e f b l =
    let k65 : k ≡ 65 = omega arith in absurd (omega (arith, e ∙ ap (λ n. 2 ^ n) k65))
double_lem (suc fuel) k capacity c e f b l = elim (Bool-cases (ltb c capacity)) [
  | inl below ↦ elim (Bool-cases (ltb (size_max / 2) c)) [
    | inl large ↦ rw (below, large) (inr (refl, ground arith))
    | inr small ↦
        rw (below, small)
          (double_lem fuel (suc k) capacity (c * 2) (rw e (omega arith)) (omega arith)
            (ground arith) (ground arith))
  ]
  | inr reached ↦
      rw reached
        (inl (c, refl, record { exponent = k; power = e; enough = ground arith; least = l }))
]

remainder_lt : (a n : ℕ) → 0 < n → a % n < n
remainder_lt a n h = grind arith

-- The number of buckets after a successful initialisation is the least power of two that is not
-- below the capacity, and every bucket that a key hashes to is one of them.
pub init-IsSized :
    (calloc : ℕ → Bool) (capacity : ℕ) (index : Index) (owner : ℕ) (original : Sockaddr)
    → init calloc capacity ≡ done index
    → IsSized capacity index.bucket_count × (bucket_of index owner original < index.bucket_count)
unfolding init
init-IsSized calloc capacity index owner original h =
    elim (double_lem 65 0 capacity 1 refl refl (omega arith) (ground arith)) [
      | inl (n, e, z) ↦
          let counted : index.bucket_count ≡ n = ground (arith, e) in
          (
            rw counted z,
            rw (counted, z.power, bit_and_low z.exponent (binding_hash owner original))
                (subst (λ m. binding_hash owner original % m < m) z.power
                  (remainder_lt (binding_hash owner original) n
                    (omega (arith, z.enough, z.least)))),
          )
      | inr (e, large) ↦ ground (arith, e)
    ]

-- With memory for the buckets, every capacity up to 2 ^ 60 gets an index.
pub init-done :
    (calloc : ℕ → Bool) (capacity : ℕ)
    → 0 < capacity
    → capacity ≤ 2 ^ 60
    → ((n : ℕ) → calloc n ≡ true)
    → (index : Index) × (init calloc capacity ≡ done index)
unfolding init
init-done calloc capacity pos small mem =
    elim (double_lem 65 0 capacity 1 refl refl (omega arith) (omega arith)) [
      | inl (n, e, z) ↦
          (record { buckets = λ _. []; bucket_count = n }, ground (arith, e, mem n, z.least))
      | inr (e, large) ↦ absurd (omega arith)
    ]
