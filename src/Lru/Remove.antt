-- ===== src/Lru/Remove.antt =====
-- Removing a node, by the code of either file, leaves the other nodes linked in their order.
use bpf2socks.Prelude.{
  ℕ, false, Option, none, some, List, [], ◌∷◌, ◌++◌, ◌≡◌, ◌≢◌, ◌⊎◌, refl, sym, arith, if◌then◌else◌,
  inl, inr,
}
use mathlib.Core.List.{append-nil}
use bpf2socks.Lru.{Node, Lru, is_ptr, remove, detach}
use bpf2socks.Lru.Chain.{
  Absent, Distinct, first, final, Linked, Holds, Avoids, is_ptr-Avoids, Avoids-tail, final-append,
  is_ptr-final, Linked-at, Distinct-without, Agree, Linked-Agree, Absent-left, Absent-right,
}

-- The neighbours of `x` joined to one another.
abbrev relink : (ℕ → Node) → ℕ → ℕ → Node
relink f x j = record {
  prev = if is_ptr (f x).next j then (f x).prev else (f j).prev;
  next = if is_ptr (f x).prev j then (f x).next else (f j).next;
}

relink_frame :
    (f : ℕ → Node) (x : ℕ) (p : Option ℕ) (xs : List ℕ)
    → Avoids (f x).next xs
    → Avoids (f x).prev xs
    → Linked f p xs
    → Linked (relink f x) p xs
relink_frame f x p [] a b h = tt
relink_frame f x p (y ∷ ys) a b h = (
  rw (is_ptr-Avoids _ y ys a) h.0,
  rw (is_ptr-Avoids _ y ys b) h.1,
  relink_frame f x (some y) ys (Avoids-tail _ y ys a) (Avoids-tail _ y ys b) h.2,
)

relink-first :
    (f : ℕ → Node) (x : ℕ) (p : Option ℕ) (zs : List ℕ)
    → (f x).prev ≡ p
    → (f x).next ≡ first zs
    → Distinct zs
    → Avoids p zs
    → Linked f (some x) zs
    → Linked (relink f x) p zs
relink-first f x p [] ep en d a h = tt
relink-first f x p (z ∷ zs) ep en d a h = (
  rw en (ground arith),
  rw (ep, is_ptr-Avoids p z zs a) h.1,
  relink_frame f x (some z) zs (rw en d.0) (rw ep (Avoids-tail p z zs a)) h.2,
)

is_ptr-first : (y : ℕ) (zs : List ℕ) → Absent y zs → is_ptr (first zs) y ≡ false
is_ptr-first y [] a = refl
is_ptr-first y (z ∷ zs) a = ground (arith, λ (e : z ≡ y). a.0 (sym e))

relink-Linked :
    (f : ℕ → Node) (x : ℕ) (p : Option ℕ) (ys zs : List ℕ)
    → (f x).prev ≡ final p ys
    → (f x).next ≡ first zs
    → Distinct (ys ++ x ∷ zs)
    → Avoids p (ys ++ x ∷ zs)
    → Linked f p (ys ++ x ∷ zs)
    → Linked (relink f x) p (ys ++ zs)
relink-Linked f x p [] zs ep en d a h = relink-first f x p zs ep en d.1 (Avoids-tail p x zs a) h.2
relink-Linked f x p (y ∷ []) zs ep en d a h = (
  rw (en, is_ptr-first y zs d.0.1) h.0,
  rw ep (ground (arith, en)),
  relink-first f x (some y) zs ep en d.1.1 d.0.1 h.2.2,
)
relink-Linked f x p (y ∷ y' ∷ ys) zs ep en d a h = (
  rw (en, is_ptr-first y zs (Absent-right y ys (x ∷ zs) d.0.1).1) h.0,
  rw (ep, is_ptr-final y' y ys d.0.0 (Absent-left y ys (x ∷ zs) d.0.1)) h.1,
  relink-Linked f x (some y) (y' ∷ ys) zs ep en d.1 d.0 h.2,
)

-- The code of `remove`, as one write of the neighbours' links.
node-remove :
    (l : Lru) (x j : ℕ)
    → is_ptr (l.node x).prev x ≡ false
    → is_ptr (l.node x).next x ≡ false
    → x ≢ j
    → (remove l x).node j ≡ relink l.node x j
unfolding remove
node-remove l x j hp hn ne = ground arith

ends-remove :
    (l : Lru) (x : ℕ)
    → is_ptr (l.node x).prev x ≡ false
    → is_ptr (l.node x).next x ≡ false
    → ((remove l x).head ≡ (if is_ptr l.head x then (l.node x).next else l.head))
      × ((remove l x).tail ≡ (if is_ptr l.tail x then (l.node x).prev else l.tail))
unfolding remove
ends-remove l x hp hn = ground arith

links_kept :
    (f g : ℕ → Node) (x : ℕ) (xs : List ℕ)
    → ((j : ℕ) → x ≢ j → f j ≡ g j)
    → Absent x xs
    → Agree f g xs
links_kept f g x [] h a = tt
links_kept f g x (y ∷ ys) h a = (h y a.0, links_kept f g x ys h a.1)

head_without :
    (x : ℕ) (ys zs : List ℕ)
    → Absent x (ys ++ zs)
    → (if is_ptr (first (ys ++ x ∷ zs)) x then first zs else first (ys ++ x ∷ zs))
      ≡ first (ys ++ zs)
head_without x [] zs a = ground arith
head_without x (y ∷ ys) zs a = ground (arith, λ (e : y ≡ x). a.0 (sym e))

tail_without :
    (x : ℕ) (ys zs : List ℕ)
    → Absent x zs
    → (if is_ptr (final none (ys ++ x ∷ zs)) x then final none ys else final none (ys ++ x ∷ zs))
      ≡ final none (ys ++ zs)
tail_without x ys [] a = rw (final-append none ys (x ∷ []), append-nil) (ground arith)
tail_without x ys (z ∷ zs) a =
    rw (
      final-append none ys (x ∷ z ∷ zs),
      final-append none ys (z ∷ zs),
      is_ptr-final z x zs a.0 a.1,
    )

-- A node in the middle points to none of the two sides' wrong ends: never to itself.
neighbours_differ :
    (l : Lru) (ys : List ℕ) (x : ℕ) (zs : List ℕ)
    → Holds l (ys ++ x ∷ zs)
    → (is_ptr (l.node x).prev x ≡ false) × (is_ptr (l.node x).next x ≡ false)
neighbours_differ l ys x zs h =
    let at = Linked-at l.node none ys x zs h.linked in
    let out = (Distinct-without ys x zs h.distinct).1 in
    (
      rw at.0 (is_ptr-none_final x ys (Absent-left x ys zs out)),
      rw at.1 (is_ptr-first x zs (Absent-right x ys zs out)),
    )
  where
    is_ptr-none_final : (x : ℕ) (ys : List ℕ) → Absent x ys → is_ptr (final none ys) x ≡ false
    is_ptr-none_final x [] a = refl
    is_ptr-none_final x (y ∷ ys) a = is_ptr-final y x ys a.0 a.1

-- Two lists with the same ends and, but for `x`, the same links hold the same nodes without `x`.
module _ (l m : Lru) (ys : List ℕ) (x : ℕ) (zs : List ℕ) where
  unlinked-Holds :
      Holds l (ys ++ x ∷ zs)
      → ((j : ℕ) → x ≢ j → relink l.node x j ≡ m.node j)
      → m.head ≡ (if is_ptr l.head x then (l.node x).next else l.head)
      → m.tail ≡ (if is_ptr l.tail x then (l.node x).prev else l.tail)
      → Holds m (ys ++ zs)
  unlinked-Holds h same eh et =
      let at = Linked-at l.node none ys x zs h.linked in
      let rest = Distinct-without ys x zs h.distinct in
      record {
        linked =
            Linked-Agree (relink l.node x) m.node none (ys ++ zs)
              (links_kept (relink l.node x) m.node x (ys ++ zs) same rest.1)
              (relink-Linked l.node x none ys zs at.0 at.1 h.distinct tt h.linked);
        at_head = rw (eh, h.at_head, at.1) (head_without x ys zs rest.1);
        at_tail = rw (et, h.at_tail, at.0) (tail_without x ys zs (Absent-right x ys zs rest.1));
        distinct = rest.0;
      }

-- `lru_remove` takes exactly its node out of the list, wherever the node stands.
pub remove-Holds :
    (l : Lru) (ys : List ℕ) (x : ℕ) (zs : List ℕ)
    → Holds l (ys ++ x ∷ zs)
    → Holds (remove l x) (ys ++ zs)
remove-Holds l ys x zs h =
    let ne = neighbours_differ l ys x zs h in
    let ends = ends-remove l x ne.0 ne.1 in
    unlinked-Holds l (remove l x) ys x zs h (λ j d. sym (node-remove l x j ne.0 ne.1 d)) ends.0
      ends.1

node-detach :
    (l : Lru) (x j : ℕ)
    → is_ptr (l.node x).prev x ≡ false
    → is_ptr (l.node x).next x ≡ false
    → x ≢ j
    → (detach l x).node j ≡ relink l.node x j
unfolding detach
node-detach l x j hp hn ne = ground arith

-- The code of bridge/dns.c moves an end only where there is no neighbour, which is the same here.
ends-detach :
    (l : Lru) (x : ℕ)
    → is_ptr (l.node x).prev x ≡ false
    → is_ptr (l.node x).next x ≡ false
    → ((l.node x).prev ≡ none) ⊎ (is_ptr l.head x ≡ false)
    → ((l.node x).next ≡ none) ⊎ (is_ptr l.tail x ≡ false)
    → ((detach l x).head ≡ (if is_ptr l.head x then (l.node x).next else l.head))
      × ((detach l x).tail ≡ (if is_ptr l.tail x then (l.node x).prev else l.tail))
unfolding detach
ends-detach l x hp hn (inl a) (inl b) = ground arith
ends-detach l x hp hn (inl a) (inr b) = ground arith
ends-detach l x hp hn (inr a) (inl b) = ground arith
ends-detach l x hp hn (inr a) (inr b) = ground arith

at_start :
    (l : Lru) (ys : List ℕ) (x : ℕ) (zs : List ℕ)
    → Holds l (ys ++ x ∷ zs)
    → ((l.node x).prev ≡ none) ⊎ (is_ptr l.head x ≡ false)
at_start l [] x zs h = inl h.linked.0
at_start l (y ∷ ys) x zs h =
    let out = (Distinct-without (y ∷ ys) x zs h.distinct).1 in
    inr (rw h.at_head (ground (arith, λ (e : y ≡ x). out.0 (sym e))))

at_end :
    (l : Lru) (ys : List ℕ) (x : ℕ) (zs : List ℕ)
    → Holds l (ys ++ x ∷ zs)
    → ((l.node x).next ≡ none) ⊎ (is_ptr l.tail x ≡ false)
at_end l ys x [] h = inl (Linked-at l.node none ys x [] h.linked).1
at_end l ys x (z ∷ zs) h =
    let out = Absent-right x ys (z ∷ zs) (Distinct-without ys x (z ∷ zs) h.distinct).1 in
    inr (rw (h.at_tail, final-append none ys (x ∷ z ∷ zs)) (is_ptr-final z x zs out.0 out.1))

-- `lru_detach` takes exactly its node out of the list, wherever the node stands.
pub detach-Holds :
    (l : Lru) (ys : List ℕ) (x : ℕ) (zs : List ℕ)
    → Holds l (ys ++ x ∷ zs)
    → Holds (detach l x) (ys ++ zs)
detach-Holds l ys x zs h =
    let ne = neighbours_differ l ys x zs h in
    let ends = ends-detach l x ne.0 ne.1 (at_start l ys x zs h) (at_end l ys x zs h) in
    unlinked-Holds l (detach l x) ys x zs h (λ j d. sym (node-detach l x j ne.0 ne.1 d)) ends.0
      ends.1
