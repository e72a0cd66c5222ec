-- ===== src/LruC/Links/Chain.antt =====
-- Segments of a doubly linked list (01-basics/lru-in-c/src/list.c) in a heap.
use cpp_graduate.Base.{
  ℕ, ◌≡◌, ◌≢◌, refl, ap, ◌∙◌, List, [], ◌∷◌, ◌++◌, true, false, ◌==◌, if◌then◌else◌, elem, arith,
}
use cpp_graduate.Perms.Loops.Lists.{Unique}
use cpp_graduate.LruC.Links.{Heap, prepend, detach}

pub here : (a : ℕ) (xs : List ℕ) → elem a (a ∷ xs) ≡ true
here a xs = ground arith

pub there : (a p : ℕ) (xs : List ℕ) → elem p xs ≡ true → elem p (a ∷ xs) ≡ true
there a p xs h = ground arith

skip : (b x p : ℕ) (xs : List ℕ) → elem p (b ∷ xs) ≡ true → elem p (b ∷ x ∷ xs) ≡ true
skip b x p xs h = ground arith

pub eq_self : (n : ℕ) → (n == n) ≡ true
eq_self n = ground arith

pub eq_other : (n m : ℕ) → n ≢ m → (n == m) ≡ false
eq_other n m h = ground arith

-- Of two addresses only one is in the list.
pub differ : (p q : ℕ) (xs : List ℕ) → elem p xs ≡ true → elem q xs ≡ false → (p == q) ≡ false
differ p q xs h k = eq_other p q (λ e. let m = ap (λ z. elem z xs) e in cc)

module _ {V : Type 0} where
  -- From `a` to `b` through the nodes, by `next` forwards and by `prev` backwards.
  abbrev pub Linked : Heap V → ℕ → List ℕ → ℕ → Type 0
  Linked h a [] b = (h.next a ≡ b) × (h.prev b ≡ a)
  Linked h a (x ∷ xs) b = (h.next a ≡ x) × (h.prev x ≡ a) × Linked h x xs b

  -- What a segment reads: `next` from its start and nodes, `prev` from its nodes and end.
  pub Linked-frame :
      (h k : Heap V) (a : ℕ) (xs : List ℕ) (b : ℕ)
      → ((p : ℕ) → elem p (a ∷ xs) ≡ true → k.next p ≡ h.next p)
      → ((p : ℕ) → elem p (b ∷ xs) ≡ true → k.prev p ≡ h.prev p)
      → Linked h a xs b
      → Linked k a xs b
  Linked-frame h k a [] b f g (e, d) = (f a (here a []) ∙ e, g b (here b []) ∙ d)
  Linked-frame h k a (x ∷ xs) b f g (e, d, l) = (
    f a (here a (x ∷ xs)) ∙ e,
    g x (there b x (x ∷ xs) (here x xs)) ∙ d,
    Linked-frame h k x xs b (λ p m. f p (there a p (x ∷ xs) m)) (λ p m. g p (skip b x p xs m)) l,
  )

  -- The two ends of a segment through a node.
  pub Linked-join :
      (h : Heap V) (a : ℕ) (xs : List ℕ) (n : ℕ) (ys : List ℕ) (b : ℕ)
      → Linked h a xs n
      → Linked h n ys b
      → Linked h a (xs ++ n ∷ ys) b
  Linked-join h a [] n ys b (e, d) l = (e, d, l)
  Linked-join h a (x ∷ xs) n ys b (e, d, k) l = (e, d, Linked-join h x xs n ys b k l)

  pub Linked-split :
      (h : Heap V) (a : ℕ) (xs : List ℕ) (n : ℕ) (ys : List ℕ) (b : ℕ)
      → Linked h a (xs ++ n ∷ ys) b
      → Linked h a xs n × Linked h n ys b
  Linked-split h a [] n ys b (e, d, l) = ((e, d), l)
  Linked-split h a (x ∷ xs) n ys b (e, d, l) =
      let (k, r) = Linked-split h x xs n ys b l in ((e, d, k), r)

  pub prepend_next :
      (h : Heap V) (list n p : ℕ)
      → (prepend h list n).next p
        ≡ (if p == list then n else (if p == n then h.next list else h.next p))
  unfolding prepend
  prepend_next h list n p = refl

  pub prepend_prev :
      (h : Heap V) (list n p : ℕ)
      → (prepend h list n).prev p
        ≡ (if p == h.next list then n else (if p == n then list else h.prev p))
  unfolding prepend
  prepend_prev h list n p = rw (eq_self n, if◌then◌else◌) refl

  -- A new node becomes the first.
  pub prepend-Linked :
      (h : Heap V) (list n : ℕ) (xs : List ℕ)
      → elem n (list ∷ xs) ≡ false
      → Unique (list ∷ xs)
      → Linked h list xs list
      → Linked (prepend h list n) list (n ∷ xs) list
  prepend-Linked h list n [] m u (e, d) = (
    ground (arith, prepend_next h list n list),
    ground (arith, prepend_prev h list n n, e),
    (ground (arith, prepend_next h list n n, e), ground (arith, prepend_prev h list n list, e)),
  )
  prepend-Linked h list n (x ∷ xs) m u (e, d, l) = (
    ground (arith, prepend_next h list n list),
    ground (arith, prepend_prev h list n n, e),
    (
      ground (arith, prepend_next h list n n, e),
      ground (arith, prepend_prev h list n x, e),
      Linked-frame h (prepend h list n) x xs list
          (λ p q.
            let a = differ p list (x ∷ xs) q u.0 in
            let b = differ p n (x ∷ xs) q (ground arith) in
            prepend_next h list n p ∙ rw (a, b, if◌then◌else◌) refl)
          (λ p q.
            let a = differ p x (list ∷ xs) q (ground arith) in
            let b = differ p n (list ∷ xs) q (ground arith) in
            prepend_prev h list n p ∙ rw (e, a, b, if◌then◌else◌) refl)
          l,
    ),
  )

  pub detach_next :
      (h : Heap V) (n p : ℕ) → (detach h n).next p ≡ (if p == h.prev n then h.next n else h.next p)
  unfolding detach
  detach_next h n p = refl

  -- Unless a node is its own neighbour, `detach` writes as it reads first.
  pub detach_prev :
      (h : Heap V) (n p : ℕ)
      → n ≢ h.prev n
      → (detach h n).prev p ≡ (if p == h.next n then h.prev n else h.prev p)
  unfolding detach
  detach_prev h n p ne = rw (eq_other n (h.prev n) ne, if◌then◌else◌) refl
