-- ===== src/Lru/Chain.antt =====
-- What it means that a list of nodes is linked up, with the ends where the list has its ends.
use bpf2socks.Prelude.{
  ℕ, Option, none, some, List, [], ◌∷◌, ◌++◌, ◌≡◌, ◌≢◌, refl, sym, false, arith,
}
use bpf2socks.Lru.{Node, Lru, empty, is_ptr}

-- `x` is none of the nodes.
abbrev pub Absent : ℕ → List ℕ → Type 0
Absent x [] = Unit {0}
Absent x (y ∷ ys) = (x ≢ y) × Absent x ys

abbrev pub Distinct : List ℕ → Type 0
Distinct [] = Unit {0}
Distinct (x ∷ xs) = Absent x xs × Distinct xs

abbrev pub first : List ℕ → Option ℕ
first [] = none
first (x ∷ xs) = some x

-- The last node, or `p` where there is none.
abbrev pub final : Option ℕ → List ℕ → Option ℕ
final p [] = p
final p (x ∷ xs) = final (some x) xs

-- Every node points to its neighbours; the first one points back to `p`.
abbrev pub Linked : (ℕ → Node) → Option ℕ → List ℕ → Type 0
Linked f p [] = Unit {0}
Linked f p (x ∷ xs) = ((f x).prev ≡ p) × ((f x).next ≡ first xs) × Linked f (some x) xs

-- The list from head to tail.
pub record Holds (l : Lru) (xs : List ℕ) : Type 0 where
  pub linked : Linked l.node none xs
  pub at_head : l.head ≡ first xs
  pub at_tail : l.tail ≡ final none xs
  pub distinct : Distinct xs

pub empty-Holds : Holds empty []
empty-Holds = record { linked = tt; at_head = refl; at_tail = refl; distinct = tt }

pub Absent-append : (x : ℕ) (xs ys : List ℕ) → Absent x xs → Absent x ys → Absent x (xs ++ ys)
Absent-append x [] ys a b = b
Absent-append x (y ∷ xs) ys a b = (a.0, Absent-append x xs ys a.1 b)

pub Absent-left : (x : ℕ) (xs ys : List ℕ) → Absent x (xs ++ ys) → Absent x xs
Absent-left x [] ys a = tt
Absent-left x (y ∷ xs) ys a = (a.0, Absent-left x xs ys a.1)

pub Absent-right : (x : ℕ) (xs ys : List ℕ) → Absent x (xs ++ ys) → Absent x ys
Absent-right x [] ys a = a
Absent-right x (y ∷ xs) ys a = Absent-right x xs ys a.1

pub Distinct-snoc : (xs : List ℕ) (x : ℕ) → Distinct xs → Absent x xs → Distinct (xs ++ x ∷ [])
Distinct-snoc [] x d a = (tt, tt)
Distinct-snoc (y ∷ xs) x d a =
    (Absent-append y xs (x ∷ []) d.0 ((λ e. a.0 (sym e)), tt), Distinct-snoc xs x d.1 a.1)

-- A distinct list stays distinct without one of its nodes, which is then absent.
pub Distinct-without :
    (ys : List ℕ) (x : ℕ) (zs : List ℕ)
    → Distinct (ys ++ x ∷ zs)
    → Distinct (ys ++ zs) × Absent x (ys ++ zs)
Distinct-without [] x zs d = (d.1, d.0)
Distinct-without (y ∷ ys) x zs d =
    let rest = Distinct-without ys x zs d.1 in
    let out = Absent-right y ys (x ∷ zs) d.0 in
    (
      (Absent-append y ys zs (Absent-left y ys (x ∷ zs) d.0) out.1, rest.0),
      ((λ e. out.0 (sym e)), rest.1),
    )

-- A pointer to none of the nodes.
abbrev pub Avoids : Option ℕ → List ℕ → Type 0
Avoids none xs = Unit {0}
Avoids (some p) xs = Absent p xs

pub is_ptr-Avoids : (p : Option ℕ) (x : ℕ) (xs : List ℕ) → Avoids p (x ∷ xs) → is_ptr p x ≡ false
is_ptr-Avoids none x xs a = refl
is_ptr-Avoids (some p) x xs a = ground (arith, a.0)

pub Avoids-tail : (p : Option ℕ) (x : ℕ) (xs : List ℕ) → Avoids p (x ∷ xs) → Avoids p xs
Avoids-tail none x xs a = tt
Avoids-tail (some p) x xs a = a.1

-- `final` runs over the first part, then over the second.
pub final-append : (p : Option ℕ) (xs ys : List ℕ) → final p (xs ++ ys) ≡ final (final p xs) ys
final-append p [] ys = refl
final-append p (x ∷ xs) ys = final-append (some x) xs ys

pub is_ptr-final :
    (q y : ℕ) (ys : List ℕ) → y ≢ q → Absent y ys → is_ptr (final (some q) ys) y ≡ false
is_ptr-final q y [] h a = ground (arith, λ (e : q ≡ y). h (sym e))
is_ptr-final q y (z ∷ ys) h a = is_ptr-final z y ys a.0 a.1

-- The links of a node in the middle.
pub Linked-at :
    (f : ℕ → Node) (p : Option ℕ) (ys : List ℕ) (x : ℕ) (zs : List ℕ)
    → Linked f p (ys ++ x ∷ zs)
    → ((f x).prev ≡ final p ys) × ((f x).next ≡ first zs)
Linked-at f p [] x zs h = (h.0, h.1)
Linked-at f p (y ∷ ys) x zs h = Linked-at f (some y) ys x zs h.2

-- Links that agree on the nodes link them alike.
abbrev pub Agree : (ℕ → Node) → (ℕ → Node) → List ℕ → Type 0
Agree f g [] = Unit {0}
Agree f g (x ∷ xs) = (f x ≡ g x) × Agree f g xs

pub Linked-Agree :
    (f g : ℕ → Node) (p : Option ℕ) (xs : List ℕ) → Agree f g xs → Linked f p xs → Linked g p xs
Linked-Agree f g p [] a h = tt
Linked-Agree f g p (x ∷ xs) a h =
    (rw (← a.0) h.0, rw (← a.0) h.1, Linked-Agree f g (some x) xs a.1 h.2)
