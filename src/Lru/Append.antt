-- ===== src/Lru/Append.antt =====
-- Adding a node at the tail, and moving one there.
use bpf2socks.Prelude.{
  ℕ, true, false, Option, none, some, List, [], ◌∷◌, ◌++◌, ◌≡◌, ◌≢◌, refl, sym, ◌∙◌, arith,
  if◌then◌else◌, ◌==◌, inl, inr, Option-cases,
}
use mathlib.Core.List.{append-nil}
use bpf2socks.Lru.{Node, Lru, is_ptr, remove, add_tail, attach_tail, touch}
use bpf2socks.Lru.Chain.{
  Absent, Distinct, first, final, Linked, Holds, final-append, is_ptr-final, Distinct-without,
  Agree, Linked-Agree, Absent-right, Distinct-snoc,
}
use bpf2socks.Lru.Remove.{remove-Holds}

-- The links once `x` stands behind the tail `t`.
abbrev behind : (ℕ → Node) → Option ℕ → ℕ → ℕ → Node
behind f t x j =
    if x == j
    then record { prev = t; next = none }
    else (if is_ptr t j then record (f j) { next = some x } else f j)

behind_other :
    (f : ℕ → Node) (t : Option ℕ) (x y : ℕ) → x ≢ y → is_ptr t y ≡ false → behind f t x y ≡ f y
behind_other f t x y ne far = ground arith

behind-Linked :
    (f : ℕ → Node) (t : Option ℕ) (x : ℕ) (p : Option ℕ) (xs : List ℕ)
    → t ≡ final p xs
    → Absent x xs
    → Distinct xs
    → Linked f p xs
    → Linked (behind f t x) p (xs ++ x ∷ [])
behind-Linked f t x p [] e a d h = (ground arith, ground arith, tt)
behind-Linked f t x p (y ∷ []) e a d h =
    (ground (arith, a.0, h.0), ground (arith, a.0, e), behind-Linked f t x (some y) [] e tt tt tt)
behind-Linked f t x p (y ∷ z ∷ zs) e a d h = (
  rw (behind_other f t x y a.0 (rw e (is_ptr-final z y zs d.0.0 d.0.1))) h.0,
  rw (behind_other f t x y a.0 (rw e (is_ptr-final z y zs d.0.0 d.0.1))) h.1,
  behind-Linked f t x (some y) (z ∷ zs) e a.1 d.1 h.2,
)

final-snoc : (p : Option ℕ) (xs : List ℕ) (x : ℕ) → final p (xs ++ x ∷ []) ≡ some x
final-snoc p [] x = refl
final-snoc p (y ∷ ys) x = final-snoc (some y) ys x

nonempty_end : (xs : List ℕ) (q : ℕ) → final (some q) xs ≢ none
nonempty_end [] q e = cc
nonempty_end (x ∷ xs) q e = nonempty_end xs x e

first-snoc :
    (xs : List ℕ) (x : ℕ) (h : Option ℕ)
    → h ≡ first xs
    → (elim h [ none ↦ some x | some y ↦ some y ]) ≡ first (xs ++ x ∷ [])
first-snoc [] x h e = rw e
first-snoc (y ∷ ys) x h e = rw e

-- A list that is `l` with `x` behind the tail.
module _ (l m : Lru) (xs : List ℕ) (x : ℕ) where
  appended-Holds :
      Holds l xs
      → Absent x xs
      → ((j : ℕ) → behind l.node l.tail x j ≡ m.node j)
      → m.head ≡ first (xs ++ x ∷ [])
      → m.tail ≡ some x
      → Holds m (xs ++ x ∷ [])
  appended-Holds h a same eh et = record {
    linked =
        Linked-Agree (behind l.node l.tail x) m.node none (xs ++ x ∷ []) (agree (xs ++ x ∷ []))
          (behind-Linked l.node l.tail x none xs h.at_tail a h.distinct h.linked);
    at_head = eh;
    at_tail = rw (et, final-snoc none xs x);
    distinct = Distinct-snoc xs x h.distinct a;
  }
    where
      agree : (ys : List ℕ) → Agree (behind l.node l.tail x) m.node ys
      agree [] = tt
      agree (y ∷ ys) = (same y, agree ys)

node-add_tail :
    (l : Lru) (x j : ℕ) → is_ptr l.tail x ≡ false → behind l.node l.tail x j ≡ (add_tail l x).node j
unfolding add_tail
node-add_tail l x j ne = ground arith

ends-add_tail :
    (l : Lru) (x : ℕ)
    → ((add_tail l x).head ≡ (elim l.head [ none ↦ some x | some y ↦ some y ]))
      × ((add_tail l x).tail ≡ some x)
unfolding add_tail
ends-add_tail l x = ground arith

tail_differs : (l : Lru) (xs : List ℕ) (x : ℕ) → Holds l xs → Absent x xs → is_ptr l.tail x ≡ false
tail_differs l [] x h a = rw h.at_tail
tail_differs l (y ∷ ys) x h a = rw h.at_tail (is_ptr-final y x ys a.0 a.1)

-- `lru_add_tail` puts a new node behind all others.
pub add_tail-Holds :
    (l : Lru) (xs : List ℕ) (x : ℕ) → Holds l xs → Absent x xs → Holds (add_tail l x) (xs ++ x ∷ [])
add_tail-Holds l xs x h a =
    appended-Holds l (add_tail l x) xs x h a (λ j. node-add_tail l x j (tail_differs l xs x h a))
      (rw (ends-add_tail l x).0 (first-snoc xs x l.head h.at_head)) (ends-add_tail l x).1

node-attach_tail :
    (l : Lru) (x j : ℕ)
    → is_ptr l.tail x ≡ false
    → behind l.node l.tail x j ≡ (attach_tail l x).node j
unfolding attach_tail
node-attach_tail l x j ne = ground arith

head-attach_behind : (l : Lru) (x t : ℕ) → l.tail ≡ some t → (attach_tail l x).head ≡ l.head
unfolding attach_tail
head-attach_behind l x t e = ground arith

head-attach_tail :
    (l : Lru) (xs : List ℕ) (x : ℕ) → Holds l xs → (attach_tail l x).head ≡ first (xs ++ x ∷ [])
unfolding attach_tail
head-attach_tail l [] x h = rw h.at_tail
head-attach_tail l (y ∷ ys) x h = elim (Option-cases l.tail) [
  | inl e ↦ absurd (nonempty_end ys y (sym h.at_tail ∙ e))
  | inr (t, e) ↦ head-attach_behind l x t e ∙ h.at_head
]

-- `lru_attach_tail` puts a new node behind all others.
pub attach_tail-Holds :
    (l : Lru) (xs : List ℕ) (x : ℕ)
    → Holds l xs
    → Absent x xs
    → Holds (attach_tail l x) (xs ++ x ∷ [])
unfolding attach_tail
attach_tail-Holds l xs x h a =
    appended-Holds l (attach_tail l x) xs x h a
      (λ j. node-attach_tail l x j (tail_differs l xs x h a)) (head-attach_tail l xs x h)
      (ground arith)

touch_at_tail : (l : Lru) (x : ℕ) → is_ptr l.tail x ≡ true → touch l x ≡ l
unfolding touch
touch_at_tail l x e = ground arith

touch_elsewhere : (l : Lru) (x : ℕ) → is_ptr l.tail x ≡ false → touch l x ≡ add_tail (remove l x) x
unfolding touch
touch_elsewhere l x e = ground arith

-- `bpf2socks_udp_lru_touch` moves a node of the list to the tail, wherever it stands, and keeps the
-- order of the others.
pub touch-Holds :
    (l : Lru) (ys : List ℕ) (x : ℕ) (zs : List ℕ)
    → Holds l (ys ++ x ∷ zs)
    → Holds (touch l x) ((ys ++ zs) ++ x ∷ [])
touch-Holds l ys x [] h =
    rw (touch_at_tail l x (rw (h.at_tail, final-snoc none ys x) (ground arith)), append-nil) h
touch-Holds l ys x (z ∷ zs) h =
    let out = (Distinct-without ys x (z ∷ zs) h.distinct).1 in
    let far = Absent-right x ys (z ∷ zs) out in
    rw
      (touch_elsewhere l x
        (rw (h.at_tail, final-append none ys (x ∷ z ∷ zs)) (is_ptr-final z x zs far.0 far.1)))
      (add_tail-Holds (remove l x) (ys ++ z ∷ zs) x (remove-Holds l ys x (z ∷ zs) h) out)
