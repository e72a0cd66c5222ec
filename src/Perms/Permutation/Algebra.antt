-- ===== src/Perms/Permutation/Algebra.antt =====
-- `product`, `invert`, `Permutation()` and the two `apply` of perms.hpp.
use cpp_graduate.Base.{
  ℕ, ◌+◌, ◌-◌, ◌<◌, ◌≡◌, refl, ap, sym, ◌∙◌, List, [], ◌∷◌, ◌++◌, map, arith, length, All, some,
}
use cpp_graduate.Perms.Idom.{InDomain, at}
use cpp_graduate.Perms.Loops.{PermLoop, apply, inverse, smallest}
use cpp_graduate.Perms.Loops.Lists.{All-elem, elem-All}
use cpp_graduate.Perms.Loops.Apply.{
  apply-inverse, inverse-IsCanonical, contains-inverse, inverse-cons,
}
use cpp_graduate.Perms.Loops.Table.{apply_table-apply}
use cpp_graduate.Perms.Product.{
  apply_loops, covered, Apart, Disjoint, IsLoop, apply_loops-append, apply_loops_comm,
}
use cpp_graduate.Perms.Create.Simplify.{apply_loops-InDomain}
use cpp_graduate.Perms.Permutation
use cpp_graduate.Perms.Permutation.{
  Permutation, make_perm, rmul, lmul, product, invert, apply_each, identity,
}
use cpp_graduate.Perms.Permutation.Sort.{Descending}
use cpp_graduate.Perms.Permutation.Valid.{IsValid, make_perm-IsValid}

All-append_loops {ℓ} :
    (P : PermLoop → Type ℓ) (xs ys : List PermLoop) → All P xs → All P ys → All P (xs ++ ys)
All-append_loops P [] ys h k = k
All-append_loops P (x ∷ xs) ys h k = (h.0, All-append_loops P xs ys h.1 k)

module _ (start fin : ℕ) where
  -- `product lhs rhs` of valid permutations returns a valid permutation, which applies `lhs` first and
  -- then `rhs`.
  pub product-apply :
      (p q : Permutation)
      → start < fin
      → IsValid start fin p
      → IsValid start fin q
      → (r : Permutation) × (product start fin p q ≡ some r)
        × IsValid start fin r
        × ((v : ℕ)
            → InDomain start fin v
            → Permutation.apply r v ≡ Permutation.apply q (Permutation.apply p v))
  unfolding product
  product-apply p q lt hp hq =
      let (r, e, h, f) =
        make_perm-IsValid start fin (p.loops ++ q.loops) lt
          (All-append_loops (IsLoop start fin) p.loops q.loops hp.loops hq.loops) in
      (r, e, h, λ v hv. f v hv ∙ apply_loops-append p.loops q.loops v)

  -- `lmul` of valid permutations returns a valid permutation, which applies the argument first and then
  -- the permutation itself.
  lmul-apply :
      (p q : Permutation)
      → start < fin
      → IsValid start fin p
      → IsValid start fin q
      → (r : Permutation) × (lmul start fin p q ≡ some r)
        × IsValid start fin r
        × ((v : ℕ)
            → InDomain start fin v
            → Permutation.apply r v ≡ Permutation.apply p (Permutation.apply q v))
  unfolding lmul
  lmul-apply p q lt hp hq =
      let (r, e, h, f) =
        make_perm-IsValid start fin (q.loops ++ p.loops) lt
          (All-append_loops (IsLoop start fin) q.loops p.loops hq.loops hp.loops) in
      (r, e, h, λ v hv. f v hv ∙ apply_loops-append q.loops p.loops v)

  inverse-IsLoop : (p : PermLoop) → IsLoop start fin p → IsLoop start fin (inverse p)
  inverse-IsLoop p h = record {
    canonical = inverse-IsCanonical p h.canonical;
    domain =
        elem-All (InDomain start fin) (inverse p).loop
          (λ v i. All-elem (InDomain start fin) v p.loop h.domain (sym (contains-inverse p v) ∙ i));
  }

  Apart-inverse : (p q : PermLoop) → Apart p q → Apart (inverse p) (inverse q)
  Apart-inverse p q h v i = contains-inverse q v ∙ h v (sym (contains-inverse p v) ∙ i)

  Apart-inverses :
      (p : PermLoop) (ls : List PermLoop)
      → All (Apart p) ls
      → All (Apart (inverse p)) (map inverse ls)
  Apart-inverses p [] h = tt
  Apart-inverses p (q ∷ ls) h = (Apart-inverse p q h.0, Apart-inverses p ls h.1)

  Disjoint-inverses : (ls : List PermLoop) → Disjoint ls → Disjoint (map inverse ls)
  Disjoint-inverses [] h = tt
  Disjoint-inverses (p ∷ ls) h = (Apart-inverses p ls h.0, Disjoint-inverses ls h.1)

  All-inverses :
      (ls : List PermLoop) → All (IsLoop start fin) ls → All (IsLoop start fin) (map inverse ls)
  All-inverses [] h = tt
  All-inverses (p ∷ ls) h = (inverse-IsLoop p h.0, All-inverses ls h.1)

  covered_inverses : (ls : List PermLoop) (v : ℕ) → covered (map inverse ls) v ≡ covered ls v
  unfolding covered
  covered_inverses [] v = refl
  covered_inverses (p ∷ ls) v = ground (arith, contains-inverse p v, covered_inverses ls v)

  smallest-inverse : (p : PermLoop) → smallest (inverse p) ≡ smallest p
  smallest-inverse p = go p.loop
    where
      go : (l : List ℕ) → smallest (inverse (record { loop = l })) ≡ smallest (record { loop = l })
      go [] = unfold inverse in refl
      go (x ∷ xs) = rw (inverse-cons x xs) refl

  below_inverses :
      (p : PermLoop) (ls : List PermLoop)
      → All (λ q. smallest q < smallest p) ls
      → All (λ q. smallest q < smallest (inverse p)) (map inverse ls)
  below_inverses p [] h = tt
  below_inverses p (q ∷ ls) h =
      (omega (arith, smallest-inverse p, smallest-inverse q), below_inverses p ls h.1)

  Descending-inverses : (ls : List PermLoop) → Descending ls → Descending (map inverse ls)
  Descending-inverses [] h = tt
  Descending-inverses (p ∷ ls) h = (below_inverses p ls h.0, Descending-inverses ls h.1)

  undo :
      (ls : List PermLoop) (v : ℕ)
      → All (IsLoop start fin) ls
      → Disjoint ls
      → apply_loops (map inverse ls) (apply_loops ls v) ≡ v
  unfolding apply_loops
  undo [] v h d = refl
  undo (p ∷ ls) v h d =
      ap (λ w. apply_loops (map inverse ls) (apply (inverse p) w)) (apply_loops_comm p ls v d.0)
      ∙ ap (apply_loops (map inverse ls)) (apply-inverse p (apply_loops ls v) h.0.canonical.unique)
      ∙ undo ls v h.1 d.1

  -- `inverse` keeps a permutation valid, loop by loop and without sorting again, and undoes it.
  pub invert-apply :
      (p : Permutation)
      → IsValid start fin p
      → IsValid start fin (invert p)
        × ((v : ℕ) → Permutation.apply (invert p) (Permutation.apply p v) ≡ v)
  unfolding invert
  invert-apply p h = (
    record {
      loops = All-inverses p.loops h.loops;
      disjoint = Disjoint-inverses p.loops h.disjoint;
      covers = λ v hv. covered_inverses p.loops v ∙ h.covers v hv;
      sorted = Descending-inverses p.loops h.sorted;
    },
    λ v. undo p.loops v h.loops h.disjoint,
  )

  apply_each-apply :
      (ls : List PermLoop) (table : List ℕ)
      → start < fin
      → All (IsLoop start fin) ls
      → Disjoint ls
      → length table ≡ fin - start + 1
      → (t : List ℕ) × (apply_each start fin ls table ≡ some t)
        × (length t ≡ fin - start + 1)
        × ((v : ℕ) → InDomain start fin v → at start t v ≡ at start table (apply_loops ls v))
  unfolding apply_each apply_loops
  apply_each-apply [] table lt h d n = (table, refl, n, λ v hv. refl)
  apply_each-apply (p ∷ ls) table lt h d n =
      let c = h.0.canonical in
      let (t, e, m, f) = apply_table-apply start fin p table lt c.nonempty c.unique h.0.domain n in
      let (t', e', m', f') = apply_each-apply ls t lt h.1 d.1 m in
      (
        t',
        ground arith,
        m',
        λ v hv.
            f' v hv
            ∙ f (apply_loops ls v) (apply_loops-InDomain start fin ls v h.1 hv)
            ∙ ap (at start table) (sym (apply_loops_comm p ls v d.0)),
      )

  -- A valid permutation applied to a table in place moves each position as `apply(T)` moves the
  -- element, although the loops work on the table in the opposite order.
  pub apply_each-table :
      (p : Permutation) (table : List ℕ)
      → start < fin
      → IsValid start fin p
      → length table ≡ fin - start + 1
      → (t : List ℕ) × (apply_each start fin p.loops table ≡ some t)
        × (length t ≡ fin - start + 1)
        × ((v : ℕ) → InDomain start fin v → at start t v ≡ at start table (Permutation.apply p v))
  apply_each-table p table lt h n = apply_each-apply p.loops table lt h.loops h.disjoint n
