-- ===== src/Perms/Create/Simplify.antt =====
-- `simplify_loops` of permloops.hpp keeps the product of the loops.
use cpp_graduate.Base.{
  ℕ, ◌+◌, ◌-◌, ◌<◌, ◌≡◌, refl, ap, sym, ◌∙◌, subst, List, [], ◌∷◌, true, arith, length, All,
  Bool-cases, inl, inr, some,
}
use cpp_graduate.Perms.Idom.{InDomain, at, iota, length-iota, at-iota}
use cpp_graduate.Perms.Loops.{PermLoop, apply, contains, inverse}
use cpp_graduate.Perms.Loops.Lists.{All-elem}
use cpp_graduate.Perms.Loops.Apply.{apply-inverse}
use cpp_graduate.Perms.Loops.Table.{apply_table-apply}
use cpp_graduate.Perms.Product.{
  apply_loops, covered, Disjoint, IsLoop, apply_absent, contains-apply,
}
use cpp_graduate.Perms.Create.{apply_tables, simplify_loops}
use cpp_graduate.Perms.Create.Trace.{IsPermTable}
use cpp_graduate.Perms.Create.Rounds.{create_loops-IsDecomposed}

module _ (start fin : ℕ) where
  pub apply-InDomain :
      (p : PermLoop) (v : ℕ)
      → IsLoop start fin p
      → InDomain start fin v
      → InDomain start fin (apply p v)
  apply-InDomain p v h hv = elim (Bool-cases (contains p v)) [
    | inl i ↦ All-elem (InDomain start fin) (apply p v) p.loop h.domain (contains-apply p v i)
    | inr i ↦ subst (InDomain start fin) (sym (apply_absent p v i)) hv
  ]

  pub apply_loops-InDomain :
      (ls : List PermLoop) (v : ℕ)
      → All (IsLoop start fin) ls
      → InDomain start fin v
      → InDomain start fin (apply_loops ls v)
  unfolding apply_loops
  apply_loops-InDomain [] v h hv = hv
  apply_loops-InDomain (p ∷ ls) v h hv =
      apply_loops-InDomain ls (apply p v) h.1 (apply-InDomain p v h.0 hv)

  apply_loops-injective :
      (ls : List PermLoop) (v w : ℕ)
      → All (IsLoop start fin) ls
      → apply_loops ls v ≡ apply_loops ls w
      → v ≡ w
  unfolding apply_loops
  apply_loops-injective [] v w h e = e
  apply_loops-injective (p ∷ ls) v w h e =
      let u = h.0.canonical.unique in
      sym (apply-inverse p v u)
      ∙ ap (apply (inverse p)) (apply_loops-injective ls (apply p v) (apply p w) h.1 e)
      ∙ apply-inverse p w u

  -- The table after all loops holds the product, applied from the first loop to the last.
  apply_tables-apply :
      (ls : List PermLoop)
      → start < fin
      → All (IsLoop start fin) ls
      → (t : List ℕ) × (apply_tables start fin ls (iota start fin) ≡ some t)
        × (length t ≡ fin - start + 1)
        × ((v : ℕ) → InDomain start fin v → at start t v ≡ apply_loops ls v)
  unfolding apply_tables apply_loops
  apply_tables-apply [] lt h =
      (iota start fin, refl, length-iota start fin (omega arith), at-iota start fin)
  apply_tables-apply (p ∷ ls) lt h =
      let (t, e, n, f) = apply_tables-apply ls lt h.1 in
      let c = h.0.canonical in
      let (t', e', n', f') = apply_table-apply start fin p t lt c.nonempty c.unique h.0.domain n in
      (t', ground arith, n', λ v hv. f' v hv ∙ f (apply p v) (apply-InDomain p v h.0 hv))

  -- What `simplify_loops` writes for the loops `ls`: canonical loops of the domain without common
  -- elements, which have every element and the same product.
  pub record IsSimplified (ls out : List PermLoop) : Type 0 where
    pub loops : All (IsLoop start fin) out
    pub disjoint : Disjoint out
    pub covers : (v : ℕ) → InDomain start fin v → covered out v ≡ true
    pub product : (v : ℕ) → InDomain start fin v → apply_loops out v ≡ apply_loops ls v

  -- `simplify_loops` returns for every list of loops of the domain, and what it writes has the
  -- product of the given loops, taken from the first to the last.
  pub simplify_loops-IsSimplified :
      (ls : List PermLoop)
      → start < fin
      → All (IsLoop start fin) ls
      → (out : List PermLoop) × (simplify_loops start fin ls ≡ some out) × IsSimplified ls out
  unfolding simplify_loops
  simplify_loops-IsSimplified ls lt h =
      let (t, e, n, f) = apply_tables-apply ls lt h in
      let bij : IsPermTable start fin t = record {
        size = n;
        maps = λ v hv. subst (InDomain start fin) (sym (f v hv)) (apply_loops-InDomain ls v h hv);
        injective = λ v w hv hw q. apply_loops-injective ls v w h (sym (f v hv) ∙ q ∙ f w hw);
      } in
      let (out, e', d) = create_loops-IsDecomposed start fin t bij (omega arith) in
      (
        out,
        ground arith,
        record {
          loops = d.loops;
          disjoint = d.disjoint;
          covers = d.covers;
          product = λ v hv. d.images v hv ∙ f v hv;
        },
      )
