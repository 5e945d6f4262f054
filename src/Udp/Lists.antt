-- ===== src/Udp/Lists.antt =====
-- The lists from head to tail that stand for the intrusive lists of bridge/udp_session.c: the laws
-- of `unlink` and `to_tail`, and that they are what the pointer code does.
use bpf2socks.Prelude.{
  ℕ, ◌+◌, true, ◌==◌, Option, none, some, List, [], ◌∷◌, ◌++◌, ◌≡◌, ◌≢◌, refl, sym, subst, ◌∙◌,
  arith, length, All, Bool-cases, inl, inr, ap,
}
use bpf2socks.Bindings.{contains, unlink}
use bpf2socks.Lru.{Lru, is_ptr, touch, remove}
use bpf2socks.Lru.Chain.{Absent, Distinct, Holds, final}
use bpf2socks.Lru.Remove.{remove-Holds}
use bpf2socks.Lru.Append.{touch-Holds}
use bpf2socks.Udp.{is_last, to_tail}

pub length-unlink :
    (b : ℕ) (xs : List ℕ) → contains b xs ≡ true → length xs ≡ length (unlink b xs) + 1
unfolding unlink
length-unlink b [] h = cc
length-unlink b (x ∷ xs) h = ground (arith, length-unlink b xs)

pub unlink-Absent : (b x : ℕ) (xs : List ℕ) → Absent x xs → Absent x (unlink b xs)
unfolding unlink
unlink-Absent b x [] a = tt
unlink-Absent b x (y ∷ ys) a = elim (Bool-cases (y == b)) [
  | inl same ↦ rw same a.1
  | inr other ↦ rw other (a.0, unlink-Absent b x ys a.1)
]

pub unlink-Distinct : (b : ℕ) (xs : List ℕ) → Distinct xs → Distinct (unlink b xs)
unfolding unlink
unlink-Distinct b [] d = tt
unlink-Distinct b (y ∷ ys) d = elim (Bool-cases (y == b)) [
  | inl same ↦ rw same d.1
  | inr other ↦ rw other (unlink-Absent b y ys d.0, unlink-Distinct b ys d.1)
]

pub Absent-unlink : (b : ℕ) (xs : List ℕ) → Distinct xs → Absent b (unlink b xs)
unfolding unlink
Absent-unlink b [] d = tt
Absent-unlink b (y ∷ ys) d = elim (Bool-cases (y == b)) [
  | inl same ↦ let e : y ≡ b = ground arith in rw same (subst (λ c. Absent c ys) e d.0)
  | inr other ↦ rw other (ground (arith, other), Absent-unlink b ys d.1)
]

pub unlink-All {ℓ} : (P : ℕ → Type ℓ) (b : ℕ) (xs : List ℕ) → All P xs → All P (unlink b xs)
unfolding unlink
unlink-All P b [] h = tt
unlink-All P b (y ∷ ys) h = elim (Bool-cases (y == b)) [
  | inl same ↦ rw same h.1
  | inr other ↦ rw other (h.0, unlink-All P b ys h.1)
]

pub contains-unlink_ne :
    (b c : ℕ) (xs : List ℕ) → b ≢ c → contains c xs ≡ true → contains c (unlink b xs) ≡ true
unfolding unlink
contains-unlink_ne b c [] ne h = cc
contains-unlink_ne b c (x ∷ xs) ne h = ground (arith, ne, contains-unlink_ne b c xs ne)

-- A member splits the list, and `unlink` joins the two parts.
record Split (b : ℕ) (xs : List ℕ) : Type 0 where
  before : List ℕ
  after : List ℕ
  whole : xs ≡ before ++ b ∷ after
  joined : unlink b xs ≡ before ++ after

contains-Split : (b : ℕ) (xs : List ℕ) → contains b xs ≡ true → Split b xs
unfolding unlink
contains-Split b [] h = cc
contains-Split b (y ∷ ys) h = elim (Bool-cases (y == b)) [
  | inl same ↦
      let e : y ≡ b = ground arith in
      record { before = []; after = ys; whole = ap (λ c. c ∷ ys) e; joined = rw same refl }
  | inr other ↦
      let r = contains-Split b ys (ground arith) in
      record {
        before = y ∷ r.before;
        after = r.after;
        whole = ap (◌∷◌ y) r.whole;
        joined = rw other (ap (◌∷◌ y) r.joined);
      }
]

-- Taking a member out of a list with links takes it out of the list.
pub remove-unlink :
    (l : Lru) (x : ℕ) (xs : List ℕ)
    → Holds l xs
    → contains x xs ≡ true
    → Holds (remove l x) (unlink x xs)
remove-unlink l x xs h m =
    let r = contains-Split x xs m in
    subst (Holds (remove l x)) (sym r.joined)
      (remove-Holds l r.before x r.after (subst (Holds l) r.whole h))

is_last-final :
    (p : Option ℕ) (y : ℕ) (ys : List ℕ) (x : ℕ) → is_ptr (final p (y ∷ ys)) x ≡ is_last (y ∷ ys) x
is_last-final p y [] x = refl
is_last-final p y (z ∷ zs) x = is_last-final (some y) z zs x

-- Where the links hold a list, the pointer code that moves a member to the tail makes them hold
-- the list with that member at its end (`to_tail`).
pub touch-to_tail :
    (l : Lru) (x : ℕ) (xs : List ℕ)
    → Holds l xs
    → contains x xs ≡ true
    → Holds (touch l x) (to_tail x xs)
unfolding touch
touch-to_tail l x [] h m = cc
touch-to_tail l x (y ∷ ys) h m = elim (Bool-cases (is_last (y ∷ ys) x)) [
  | inl last ↦
      let tail : is_ptr l.tail x ≡ true =
        ap (λ t. is_ptr t x) h.at_tail ∙ is_last-final none y ys x ∙ last in
      rw (last, tail) h
  | inr inside ↦
      let r = contains-Split x (y ∷ ys) m in
      rw (inside, r.joined) (touch-Holds l r.before x r.after (subst (Holds l) r.whole h))
]
