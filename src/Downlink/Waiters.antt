-- ===== src/Downlink/Waiters.antt =====
-- The tracker's count is the number of sessions whose waiting flag is set.
use bpf2socks.Prelude.{
  ℕ, ◌+◌, ◌<◌, ◌≡◌, refl, arith, Bool, true, false, if◌then◌else◌, total, total-write, write,
  fun_ext, ◌∙◌, ap,
}
use bpf2socks.Downlink.{mark_waiting, mark_ready}

abbrev pub flag : Bool → ℕ
flag b = if b then 1 else 0

-- The waiting sessions among the first `n`.
abbrev pub waiting : ℕ → (ℕ → Bool) → ℕ
waiting n flags = total n (λ i. flag (flags i))

flag-write :
    (flags : ℕ → Bool) (i : ℕ) (b : Bool) (j : ℕ)
    → flag (write flags i b j) ≡ write (λ k. flag (flags k)) i (flag b) j
flag-write flags i b j = ground arith

waiting-write :
    (n : ℕ) (flags : ℕ → Bool) (i : ℕ) (b : Bool)
    → i < n
    → waiting n (write flags i b) + flag (flags i) ≡ waiting n flags + flag b
waiting-write n flags i b h =
    ap (λ f. total n f + flag (flags i)) (fun_ext (flag-write flags i b))
    ∙ total-write n (λ k. flag (flags k)) i (flag b) h

-- Marking a session as waiting keeps the count right, whether it was waiting or not.
pub mark_waiting_counts :
    (n count : ℕ) (flags : ℕ → Bool) (i : ℕ)
    → i < n
    → count ≡ waiting n flags
    → (mark_waiting count (flags i)).0 ≡ waiting n (write flags i (mark_waiting count (flags i)).1)
mark_waiting_counts n count flags i h e = by_flag (flags i) refl
  where
    by_flag :
        (b : Bool)
        → flags i ≡ b
        → (mark_waiting count b).0 ≡ waiting n (write flags i (mark_waiting count b).1)
    by_flag true was = ground (arith, waiting-write n flags i true h)
    by_flag false was = ground (arith, waiting-write n flags i true h)

-- Marking a session as ready keeps the count right, whether it was waiting or not.
pub mark_ready_counts :
    (n count : ℕ) (flags : ℕ → Bool) (i : ℕ)
    → i < n
    → count ≡ waiting n flags
    → (mark_ready count (flags i)).0 ≡ waiting n (write flags i (mark_ready count (flags i)).1)
mark_ready_counts n count flags i h e = by_flag (flags i) refl
  where
    by_flag :
        (b : Bool)
        → flags i ≡ b
        → (mark_ready count b).0 ≡ waiting n (write flags i (mark_ready count b).1)
    by_flag true was = ground (arith, waiting-write n flags i false h)
    by_flag false was = ground (arith, waiting-write n flags i false h)
