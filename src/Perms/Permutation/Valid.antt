-- ===== src/Perms/Permutation/Valid.antt =====
-- The invariant of `Permutation` (perms.hpp), its constructors, and `check`.
use cpp_graduate.Base.{
  ℕ, zero, suc, ◌+◌, ◌-◌, ◌≤◌, ◌<◌, ◌≡◌, ◌≢◌, refl, ◌∙◌, List, [], ◌∷◌, true, arith, length, All,
  some,
}
use cpp_graduate.Perms.Idom.{InDomain}
use cpp_graduate.Perms.Loops.{PermLoop, smallest}
use cpp_graduate.Perms.Product.{apply_loops, covered, covered-nil, Disjoint, IsLoop}
use cpp_graduate.Perms.Create.Simplify.{simplify_loops-IsSimplified}
use cpp_graduate.Perms.Permutation
use cpp_graduate.Perms.Permutation.{
  Permutation, make_perm, identity, sortloops, valid, all_covered, check_order,
}
use cpp_graduate.Perms.Permutation.Sort.{
  Descending, covered-sortloops, All-sortloops, Disjoint-sortloops, apply-sortloops,
  Descending-sortloops,
}

-- Canonicalization: every loop is canonical, single loops are written explicitly (every element is in
-- a loop), no element is in two loops, and the loops are sorted by decreasing first element.
pub record IsValid (start fin : ℕ) (p : Permutation) : Type 0 where
  pub loops : All (IsLoop start fin) p.loops
  pub disjoint : Disjoint p.loops
  pub covers : (v : ℕ) → InDomain start fin v → covered p.loops v ≡ true
  pub sorted : Descending p.loops

module _ (start fin : ℕ) where
  sorted-IsValid :
      (ls : List PermLoop)
      → All (IsLoop start fin) ls
      → Disjoint ls
      → ((v : ℕ) → InDomain start fin v → covered ls v ≡ true)
      → IsValid start fin (record { loops = sortloops ls })
  sorted-IsValid ls h d c = record {
    loops = All-sortloops (IsLoop start fin) ls h;
    disjoint = Disjoint-sortloops ls d;
    covers = λ v hv. covered-sortloops ls v ∙ c v hv;
    sorted = Descending-sortloops start fin ls h d;
  }

  -- The constructor returns for every list of canonical loops of the domain, at least two elements
  -- large: a valid permutation, which sends an element where the loops, one after the other, send it.
  pub make_perm-IsValid :
      (ls : List PermLoop)
      → start < fin
      → All (IsLoop start fin) ls
      → (p : Permutation) × (make_perm start fin ls ≡ some p)
        × IsValid start fin p
        × ((v : ℕ) → InDomain start fin v → Permutation.apply p v ≡ apply_loops ls v)
  unfolding make_perm
  make_perm-IsValid ls lt h =
      let (out, e, s) = simplify_loops-IsSimplified start fin ls lt h in
      (
        record { loops = sortloops out },
        ground arith,
        sorted-IsValid out s.loops s.disjoint s.covers,
        λ v hv. apply-sortloops out v s.disjoint ∙ s.product v hv,
      )

  all_covered_of :
      (n x : ℕ) (ls : List PermLoop)
      → ((v : ℕ) → x ≤ v → v < x + n → covered ls v ≡ true)
      → all_covered n x ls ≡ true
  unfolding all_covered
  all_covered_of zero x ls h = refl
  all_covered_of (suc n) x ls h =
      let rest = all_covered_of n (suc x) ls (λ v a b. h v (omega arith) (omega arith)) in
      let here = h x (omega arith) (omega arith) in ground arith

  check_order_of : (ls : List PermLoop) → Descending ls → check_order ls ≡ valid
  unfolding check_order
  check_order_of [] h = refl
  check_order_of (p ∷ []) h = refl
  check_order_of (p ∷ q ∷ ls) h =
      let below : smallest q < smallest p = h.0.0 in ground (arith, check_order_of (q ∷ ls) h.1)

  -- `check` throws nothing for a valid permutation of a domain of at least two elements.
  check_of_IsValid :
      (p : Permutation) → start < fin → IsValid start fin p → Permutation.check start fin p ≡ valid
  unfolding Permutation.check
  check_of_IsValid p lt h =
      let a = all_covered_of (fin - start + 1) start p.loops (λ v l k. h.covers v (omega arith)) in
      let o = check_order_of p.loops h.sorted in
      let n : length p.loops ≢ 0 = nonempty p.loops (h.covers start (omega arith)) in ground arith
    where
      nonempty : (ls : List PermLoop) → covered ls start ≡ true → length ls ≢ 0
      nonempty [] c e = cc (covered-nil start)
      nonempty (q ∷ ls) c e = omega arith
