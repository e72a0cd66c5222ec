-- ===== src/LruC/Links/Detach.antt =====
-- `detach` of 01-basics/lru-in-c/src/list.c takes a node out of its list.
use cpp_graduate.Base.{
  ℕ, ◌≡◌, refl, ◌∙◌, List, [], ◌∷◌, ◌++◌, true, false, ◌==◌, if◌then◌else◌, elem, arith,
}
use cpp_graduate.Perms.Loops.Lists.{Unique}
use cpp_graduate.LruC.Links.{Heap, detach}
use cpp_graduate.Perms.Loops.Lists.{elem-append}
use cpp_graduate.LruC.Links.Chain.{
  Linked, Linked-frame, Linked-split, detach_next, detach_prev, differ, here, there,
}

pub absent_left : (p : ℕ) (ys zs : List ℕ) → elem p (ys ++ zs) ≡ false → elem p ys ≡ false
absent_left p ys zs h = ground (arith, elem-append p ys zs)

pub absent_right : (p n : ℕ) (ys zs : List ℕ) → elem p (ys ++ n ∷ zs) ≡ false → elem p zs ≡ false
absent_right p n ys zs h = ground (arith, elem-append p ys (n ∷ zs))

pub absent_node : (p n : ℕ) (ys zs : List ℕ) → elem p (ys ++ n ∷ zs) ≡ false → (n == p) ≡ false
absent_node p n ys zs h = ground (arith, elem-append p ys (n ∷ zs))

module _ {V : Type 0} where
  pub prev_in :
      (h : Heap V) (a : ℕ) (ys : List ℕ) (n : ℕ) → Linked h a ys n → elem (h.prev n) (a ∷ ys) ≡ true
  prev_in h a [] n (e, d) = ground (arith, here a [])
  prev_in h a (y ∷ ys) n (e, d, l) = there a (h.prev n) (y ∷ ys) (prev_in h y ys n l)

  pub next_in :
      (h : Heap V) (n : ℕ) (zs : List ℕ) (b : ℕ) → Linked h n zs b → elem (h.next n) (b ∷ zs) ≡ true
  next_in h n [] b (e, d) = ground (arith, here b [])
  next_in h n (z ∷ zs) b (e, d, l) = ground arith

  -- A node is none of its neighbours, so that `detach` writes two other nodes.
  detach_both :
      (h : Heap V) (n : ℕ)
      → (n == h.prev n) ≡ false
      → (p : ℕ)
      → ((detach h n).next p ≡ (if p == h.prev n then h.next n else h.next p))
        × ((detach h n).prev p ≡ (if p == h.next n then h.prev n else h.prev p))
  detach_both h n ne p = (detach_next h n p, detach_prev h n p (λ e. ground arith))

  -- The segment without the node is linked after `detach`.
  pub detach-Linked :
      (h : Heap V) (a : ℕ) (ys : List ℕ) (n : ℕ) (zs : List ℕ) (b : ℕ)
      → Unique (ys ++ n ∷ zs)
      → elem a (ys ++ n ∷ zs) ≡ false
      → elem b (ys ++ n ∷ zs) ≡ false
      → (n == h.prev n) ≡ false
      → Linked h a (ys ++ n ∷ zs) b
      → Linked (detach h n) a (ys ++ zs) b
  detach-Linked h a [] n [] b u ma mb ne (e, d, (f, g)) =
      (ground (arith, (detach_both h n ne a).0), ground (arith, (detach_both h n ne b).1))
  detach-Linked h a [] n (z ∷ zs) b u ma mb ne (e, d, (f, g, l)) = (
    ground (arith, (detach_both h n ne a).0),
    ground (arith, (detach_both h n ne z).1),
    Linked-frame h (detach h n) z zs b
        (λ p q.
          let x = differ p (h.prev n) (z ∷ zs) q (ground arith) in
          (detach_both h n ne p).0 ∙ rw (x, if◌then◌else◌) refl)
        (λ p q.
          let x = differ p (h.next n) (b ∷ zs) q (ground arith) in
          (detach_both h n ne p).1 ∙ rw (x, if◌then◌else◌) refl)
        l,
  )
  detach-Linked h a (y ∷ ys) n zs b u ma mb ne (e, d, l) =
      let (k, r) = Linked-split h y ys n zs b l in
      let before = prev_in h y ys n k in
      let after = next_in h n zs b r in
      let x = differ (h.prev n) a (y ∷ ys) before (absent_left a (y ∷ ys) (n ∷ zs) ma) in
      let w = differ (h.next n) y (b ∷ zs) after (ground (arith, absent_right y n ys zs u.0)) in
      (
        ground (arith, (detach_both h n ne a).0),
        ground (arith, (detach_both h n ne y).1),
        detach-Linked h y ys n zs b u.1 u.0 (ground arith) ne l,
      )
