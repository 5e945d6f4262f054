-- ===== src/Downlink/Fifo.antt =====
-- The queue hands out its nodes in the order in which they were pushed.
use bpf2socks.Prelude.{
  ℕ, Option, none, some, List, [], ◌∷◌, ◌++◌, ◌≡◌, ◌≢◌, refl, sym, ◌∙◌, ap, arith, write, write_at,
  write_ne, subst,
}
use bpf2socks.Lru.Chain.{Absent, Distinct, first, final, Distinct-snoc, final-append}
use bpf2socks.Downlink.{Queue, push, pop_head, pop}

-- Every node points to the one behind it.
abbrev pub Chained : (ℕ → Option ℕ) → List ℕ → Type 0
Chained f [] = Unit {0}
Chained f (x ∷ xs) = (f x ≡ first xs) × Chained f xs

-- The nodes of the queue, from the head to the tail.
pub record Holds (q : Queue) (xs : List ℕ) : Type 0 where
  pub chained : Chained q.next xs
  pub at_head : q.head ≡ first xs
  pub at_tail : q.tail ≡ final none xs
  pub distinct : Distinct xs

Chained-write :
    (f : ℕ → Option ℕ) (i : ℕ) (v : Option ℕ) (xs : List ℕ)
    → Absent i xs
    → Chained f xs
    → Chained (write f i v) xs
Chained-write f i v [] a c = tt
Chained-write f i v (x ∷ xs) a c = (write_ne f i x v a.0 ∙ c.0, Chained-write f i v xs a.1 c.1)

final_ne : (x y t : ℕ) (ys : List ℕ) → Absent x (y ∷ ys) → final (some y) ys ≡ some t → t ≢ x
final_ne x y t [] a e = λ same. a.0 (ground arith)
final_ne x y t (z ∷ ys) a e = final_ne x z t ys a.1 e

Chained-snoc :
    (f : ℕ → Option ℕ) (x t node : ℕ) (xs : List ℕ)
    → Distinct (x ∷ xs)
    → Absent node (x ∷ xs)
    → f node ≡ none
    → final (some x) xs ≡ some t
    → Chained f (x ∷ xs)
    → Chained (write f t (some node)) ((x ∷ xs) ++ node ∷ [])
Chained-snoc f x t node [] d a free e c =
    let same : t ≡ x = ground arith in
    subst (λ k. Chained (write f k (some node)) (x ∷ node ∷ [])) (sym same)
      (write_at f x (some node), (write_ne f x node (some node) (λ q. a.0 (sym q)) ∙ free, tt))
Chained-snoc f x t node (y ∷ ys) d a free e c = (
  write_ne f t x (some node) (final_ne x y t ys d.0 e) ∙ c.0,
  Chained-snoc f y t node ys d.1 a.1 free e c.1,
)

final-some : (x : ℕ) (xs : List ℕ) → (t : ℕ) × (final (some x) xs ≡ some t)
final-some x [] = (x, refl)
final-some x (y ∷ ys) = final-some y ys

-- A push of a node that is not in the queue puts it behind the others.
pub push-Holds :
    (q : Queue) (xs : List ℕ) (node : ℕ)
    → Holds q xs
    → Absent node xs
    → Holds (push q node) (xs ++ node ∷ [])
unfolding push
push-Holds q [] node v a = rw v.at_tail (record {
  chained = (write_at q.next node none, tt);
  at_head = refl;
  at_tail = refl;
  distinct = (tt, tt);
})
push-Holds q (x ∷ xs) node v a =
    let (t, e) = final-some x xs in
    let cleared = write q.next node none in
    rw (v.at_tail ∙ e) (record {
      chained =
          Chained-snoc cleared x t node xs v.distinct a (write_at q.next node none) e
            (Chained-write q.next node none (x ∷ xs) a v.chained);
      at_head = v.at_head;
      at_tail = sym (final-append (some x) xs (node ∷ []));
      distinct = Distinct-snoc (x ∷ xs) node v.distinct a;
    })

-- A pop takes the first node, whose link it clears.
pub pop-Holds :
    (q : Queue) (x : ℕ) (xs : List ℕ)
    → Holds q (x ∷ xs)
    → ((pop q).0 ≡ some x) × Holds (pop q).1 xs × ((pop q).1.next x ≡ none)
unfolding pop
pop-Holds q x [] v =
    rw (v.at_head, v.chained.0)
      (
        refl,
        record { chained = tt; at_head = refl; at_tail = refl; distinct = tt },
        write_at q.next x none,
      )
pop-Holds q x (y ∷ ys) v =
    rw (v.at_head, v.chained.0)
      (
        refl,
        record {
          chained = Chained-write q.next x none (y ∷ ys) v.distinct.0 v.chained.1;
          at_head = refl;
          at_tail = v.at_tail;
          distinct = v.distinct.1;
        },
        write_at q.next x none,
      )

-- A pop of an empty queue answers nothing and changes nothing.
pub pop_empty : (q : Queue) → Holds q [] → pop q ≡ (none, q)
unfolding pop
pop_empty q v = ap (pop_head q) v.at_head
