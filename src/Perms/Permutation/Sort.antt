-- ===== src/Perms/Permutation/Sort.antt =====
-- `sortloops` of perms.hpp: what the order of loops without common elements changes.
use cpp_graduate.Base.{
  ℕ, ◌<◌, ◌≡◌, ◌≢◌, refl, ap, sym, ◌∙◌, subst, List, [], ◌∷◌, true, ◌||◌, arith, ltb, length, elem,
  All, Bool-cases, inl, inr,
}
use cpp_graduate.Perms.Loops.{PermLoop, front, smallest, apply, contains}
use cpp_graduate.Perms.Product.{
  apply_loops, covered, Apart, Disjoint, IsLoop, Apart-sym, apply_comm,
}
use cpp_graduate.Perms.Permutation.{insert_loop, sortloops}

-- Strictly decreasing smallest elements.
abbrev pub Descending : List PermLoop → Type 0
Descending [] = Unit
Descending (p ∷ ls) = All (λ q. smallest q < smallest p) ls × Descending ls

pub All-map {ℓ κ} :
    {P : PermLoop → Type ℓ} {Q : PermLoop → Type κ} (ls : List PermLoop)
    → ((q : PermLoop) → P q → Q q)
    → All P ls
    → All Q ls
All-map [] f h = tt
All-map (p ∷ ls) f h = (f p h.0, All-map ls f h.1)

pub All-insert_loop {ℓ} :
    (P : PermLoop → Type ℓ) (p : PermLoop) (ls : List PermLoop)
    → P p
    → All P ls
    → All P (insert_loop p ls)
unfolding insert_loop
All-insert_loop P p [] h k = (h, tt)
All-insert_loop P p (q ∷ ls) h k = elim (Bool-cases (ltb (smallest q) (smallest p))) [
  | inl lt ↦ rw lt (h, k)
  | inr ge ↦ rw ge (k.0, All-insert_loop P p ls h k.1)
]

covered-insert_loop :
    (p : PermLoop) (ls : List PermLoop) (v : ℕ)
    → covered (insert_loop p ls) v ≡ (contains p v || covered ls v)
unfolding insert_loop covered
covered-insert_loop p [] v = refl
covered-insert_loop p (q ∷ ls) v = ground (arith, covered-insert_loop p ls v)

apply-insert_loop :
    (p : PermLoop) (ls : List PermLoop) (v : ℕ)
    → All (Apart p) ls
    → apply_loops (insert_loop p ls) v ≡ apply_loops ls (apply p v)
unfolding insert_loop apply_loops
apply-insert_loop p [] v h = refl
apply-insert_loop p (q ∷ ls) v h = elim (Bool-cases (ltb (smallest q) (smallest p))) [
  | inl lt ↦ rw lt refl
  | inr ge ↦
      rw ge
        (apply-insert_loop p ls (apply q v) h.1 ∙ ap (apply_loops ls) (sym (apply_comm p q v h.0)))
]

Disjoint-insert_loop :
    (p : PermLoop) (ls : List PermLoop)
    → All (Apart p) ls
    → Disjoint ls
    → Disjoint (insert_loop p ls)
unfolding insert_loop
Disjoint-insert_loop p [] h d = (tt, tt)
Disjoint-insert_loop p (q ∷ ls) h d = elim (Bool-cases (ltb (smallest q) (smallest p))) [
  | inl lt ↦ rw lt (h, d)
  | inr ge ↦
      rw ge
        (All-insert_loop (Apart q) p ls (Apart-sym p q h.0) d.0, Disjoint-insert_loop p ls h.1 d.1)
]

Descending-insert_loop :
    (p : PermLoop) (ls : List PermLoop)
    → All (λ q. smallest q ≢ smallest p) ls
    → Descending ls
    → Descending (insert_loop p ls)
unfolding insert_loop
Descending-insert_loop p [] h d = (tt, tt)
Descending-insert_loop p (q ∷ ls) h d = elim (Bool-cases (ltb (smallest q) (smallest p))) [
  | inl lt ↦
      let below : smallest q < smallest p = ground arith in
      rw lt ((below, All-map ls (λ r k. omega arith) d.0), d)
  | inr ge ↦
      let above : smallest p < smallest q = ground (arith, h.0) in
      rw ge (
        All-insert_loop (λ r. smallest r < smallest q) p ls above d.0,
        Descending-insert_loop p ls h.1 d.1,
      )
]

elem-front : (l : List ℕ) → 0 < length l → elem (front l) l ≡ true
elem-front [] h = absurd (omega arith)
elem-front (x ∷ l) h = ground arith

-- Loops without a common element have different smallest elements.
pub smallest-ne :
    (start fin : ℕ) (p q : PermLoop)
    → IsLoop start fin p
    → IsLoop start fin q
    → Apart p q
    → smallest q ≢ smallest p
smallest-ne start fin p q hp hq h e =
    let i = elem-front p.loop hp.canonical.nonempty in
    let j : contains q (front p.loop) ≡ true =
      subst (λ w. contains q w ≡ true) e (elem-front q.loop hq.canonical.nonempty) in
    cc (h (front p.loop) i)

pub covered-sortloops : (ls : List PermLoop) (v : ℕ) → covered (sortloops ls) v ≡ covered ls v
unfolding sortloops covered
covered-sortloops [] v = refl
covered-sortloops (p ∷ ls) v =
    covered-insert_loop p (sortloops ls) v ∙ ground (arith, covered-sortloops ls v)

pub All-sortloops {ℓ} :
    (P : PermLoop → Type ℓ) (ls : List PermLoop) → All P ls → All P (sortloops ls)
unfolding sortloops
All-sortloops P [] h = tt
All-sortloops P (p ∷ ls) h = All-insert_loop P p (sortloops ls) h.0 (All-sortloops P ls h.1)

pub Disjoint-sortloops : (ls : List PermLoop) → Disjoint ls → Disjoint (sortloops ls)
unfolding sortloops
Disjoint-sortloops [] d = tt
Disjoint-sortloops (p ∷ ls) d =
    Disjoint-insert_loop p (sortloops ls) (All-sortloops (Apart p) ls d.0)
      (Disjoint-sortloops ls d.1)

-- Sorting loops without common elements does not change what they do to an element.
pub apply-sortloops :
    (ls : List PermLoop) (v : ℕ) → Disjoint ls → apply_loops (sortloops ls) v ≡ apply_loops ls v
unfolding sortloops apply_loops
apply-sortloops [] v d = refl
apply-sortloops (p ∷ ls) v d =
    apply-insert_loop p (sortloops ls) v (All-sortloops (Apart p) ls d.0)
    ∙ apply-sortloops ls (apply p v) d.1

Both_map :
    (start fin : ℕ) (p : PermLoop) (ls : List PermLoop)
    → IsLoop start fin p
    → All (IsLoop start fin) ls
    → All (Apart p) ls
    → All (λ q. smallest q ≢ smallest p) ls
Both_map start fin p [] hp h k = tt
Both_map start fin p (q ∷ ls) hp h k =
    (smallest-ne start fin p q hp h.0 k.0, Both_map start fin p ls hp h.1 k.1)

pub Descending-sortloops :
    (start fin : ℕ) (ls : List PermLoop)
    → All (IsLoop start fin) ls
    → Disjoint ls
    → Descending (sortloops ls)
unfolding sortloops
Descending-sortloops start fin [] h d = tt
Descending-sortloops start fin (p ∷ ls) h d =
    Descending-insert_loop p (sortloops ls)
      (Both_map start fin p (sortloops ls) h.0 (All-sortloops (IsLoop start fin) ls h.1)
        (All-sortloops (Apart p) ls d.0))
      (Descending-sortloops start fin ls h.1 d.1)
