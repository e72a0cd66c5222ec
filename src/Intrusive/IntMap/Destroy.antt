-- ===== src/Intrusive/IntMap/Destroy.antt =====
-- `int_map_destroy` of 01-basics/lru-in-c-datastructs/src/int_map.c.
use cpp_graduate.Base.{
  ℕ, zero, suc, ◌+◌, ◌<◌, ◌≡◌, refl, ap, sym, subst, ◌∙◌, List, [], ◌∷◌, ◌++◌, true, false, Option,
  none, some, ◌==◌, if◌then◌else◌, elem, length, Bool-cases, inl, inr, ==_iff, arith,
}
use cpp_graduate.LruC.Links.Chain.{here, eq_self}
use cpp_graduate.Intrusive.IntMap.{
  Store, IntMap, bucket_for, int_map_remove, unlink, drain, drain_all, int_map_destroy,
}
use cpp_graduate.Intrusive.IntMap.Chain.{Chain, slot_in}
use cpp_graduate.Intrusive.IntMap.Laws.{IsTable}
use cpp_graduate.Intrusive.IntMap.Remove.{remove_at, shorter, slot, chain, unlinked-IsTable}

drain_step :
    (fuel : ℕ) (t u : Store) (a e : ℕ)
    → t.cell a ≡ some e
    → int_map_remove t e ≡ some u
    → drain (suc fuel) t a ≡ drain fuel u a
unfolding drain
drain_step fuel t u a e h k = ap start h ∙ ap next k
  where
    next : Option Store → Option Store
    next none = none
    next (some u) = drain fuel u a

    start : Option ℕ → Option Store
    start none = some t
    start (some e) = next (int_map_remove t e)

-- Chains that are emptied up to some bucket.
abbrev IsCleared : IntMap → (ℕ → List ℕ) → (ℕ → List ℕ) → ℕ → Type 0
IsCleared m chains after i = (after i ≡ []) × ((j : ℕ) → (i == j) ≡ false → after j ≡ chains j)

-- The entries of one bucket are unlinked one after the other.
drain_lem :
    (fuel : ℕ) (t : Store) (m : IntMap) (chains : ℕ → List ℕ) (i : ℕ) (es : List ℕ)
    → IsTable t m chains
    → i < m.bucket_count
    → chains i ≡ es
    → length es < fuel
    → (u : Store) × (after : ℕ → List ℕ) × (drain fuel t (m.buckets + i) ≡ some u)
      × IsTable u m after
      × IsCleared m chains after i
unfolding drain
drain_lem zero t m chains i es v lt s n = absurd (omega arith)
drain_lem (suc fuel) t m chains i [] v lt s n =
    let c = subst (Chain t (m.buckets + i)) s (v.chained i lt) in
    (t, chains, rw (drain, c) refl, v, (s, λ j ne. refl))
drain_lem (suc fuel) t m chains i (e ∷ es) v lt s n =
    let c = subst (Chain t (m.buckets + i)) s (v.chained i lt) in
    let b : bucket_for m.bucket_count (t.key e) ≡ i =
      v.placed i e (subst (λ l. elem e l ≡ true) (sym s) (here e es)) in
    let split : chains (bucket_for m.bucket_count (t.key e)) ≡ [] ++ e ∷ es = ap chains b ∙ s in
    let linked =
      (slot_in t (m.buckets + bucket_for m.bucket_count (t.key e)) [] e es
        (chain t m chains v e [] es split)).1 in
    let left : shorter t m chains v e [] es split i ≡ es = rw (b, eq_self i, if◌then◌else◌) refl in
    let (u, after, f, w, (g, h)) =
      drain_lem fuel (unlink t (slot t m chains v e [] es split) e) m
        (shorter t m chains v e [] es split) i es (unlinked-IsTable t m chains v e [] es split) lt
        left (omega arith) in
    (
      u,
      after,
      drain_step fuel t _ (m.buckets + i) e c.0
            (remove_at t (slot t m chains v e [] es split) e linked)
          ∙ f,
      w,
      (g, λ j ne. h j ne ∙ rw (b, ne, if◌then◌else◌) refl),
    )

drain_all_step :
    (fuel left : ℕ) (t u : Store) (a : ℕ)
    → drain fuel t a ≡ some u
    → drain_all fuel t a (suc left) ≡ drain_all fuel u (suc a) left
unfolding drain_all
drain_all_step fuel left t u a h = rw (drain_all, h) refl

drain_all_lem :
    (fuel left i a : ℕ) (t : Store) (m : IntMap) (chains : ℕ → List ℕ)
    → IsTable t m chains
    → i + left ≡ m.bucket_count
    → a ≡ m.buckets + i
    → ((j : ℕ) → length (chains j) < fuel)
    → ((j : ℕ) → j < i → chains j ≡ [])
    → (u : Store) × (after : ℕ → List ℕ) × (drain_all fuel t a left ≡ some u)
      × IsTable u m after
      × ((j : ℕ) → j < m.bucket_count → after j ≡ [])
unfolding drain_all
drain_all_lem fuel zero i a t m chains v n q short done =
    (t, chains, refl, v, λ j lt. done j (omega arith))
drain_all_lem fuel (suc left) i a t m chains v n q short done =
    let (u, after, f, w, (g, h)) =
      drain_lem fuel t m chains i (chains i) v (omega arith) refl (short i) in
    let step = drain_all_step fuel left t u a (ap (drain fuel t) q ∙ f) in
    let (u', after', f', w', all) =
      drain_all_lem fuel left (suc i) (suc a) u m after w (omega arith) (omega arith)
        (λ j. elim (Bool-cases (i == j)) [
          | inl e ↦
              let k = ap length (subst (λ z. after z ≡ []) ((==_iff i j).0 e) g) in
              let s = short i in omega arith
          | inr e ↦ subst (λ l. length l < fuel) (sym (h j e)) (short j)
        ])
        (λ j lt. elim (Bool-cases (i == j)) [
          | inl e ↦ subst (λ z. after z ≡ []) ((==_iff i j).0 e) g
          | inr e ↦ h j e ∙ done j (ground arith)
        ]) in
    (u', after', step ∙ f', w', all)

-- With a fuel above the length of every chain `int_map_destroy` ends, with no null pointer followed, and every bucket
-- is empty before the array of them is freed.
pub int_map_destroy_lem :
    (fuel : ℕ) (t : Store) (m : IntMap) (chains : ℕ → List ℕ)
    → IsTable t m chains
    → ((j : ℕ) → length (chains j) < fuel)
    → (u : Store) × (int_map_destroy fuel t m ≡ some (record { buckets = 0; bucket_count = 0 }, u))
      × ((i : ℕ) → i < m.bucket_count → u.cell (m.buckets + i) ≡ none)
unfolding int_map_destroy
int_map_destroy_lem fuel t m chains v short =
    let (u, after, f, w, all) =
      drain_all_lem fuel m.bucket_count 0 m.buckets t m chains v (omega arith) (omega arith) short
        (λ j lt. absurd (omega arith)) in
    (
      u,
      rw (int_map_destroy, f) refl,
      λ i lt. subst (Chain u (m.buckets + i)) (all i lt) (w.chained i lt),
    )
