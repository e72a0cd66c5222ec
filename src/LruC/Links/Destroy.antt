-- ===== src/LruC/Links/Destroy.antt =====
-- The ends of a list, and the end of a list, in 01-basics/lru-in-c/src/list.c.
use cpp_graduate.Base.{
  ℕ, zero, suc, ◌+◌, ◌<◌, ◌≡◌, refl, ap, ◌∙◌, List, [], ◌∷◌, ◌++◌, true, false, if◌then◌else◌, none,
  some, length, ==_iff, arith,
}
use cpp_graduate.LruC.{Memory, free}
use cpp_graduate.LruC.Links.{
  Heap, list_empty, list_front, list_back, list_remove, remove_all, list_destroy,
}
use cpp_graduate.LruC.Links.Chain.{Linked-split}
use cpp_graduate.LruC.Links.Laws.{IsList, list_remove-IsList}

module _ {V : Type 0} where
  pub list_empty-nil : (h : Heap V) (list : ℕ) → IsList h list [] → list_empty h list ≡ true
  unfolding list_empty
  list_empty-nil h list v = (==_iff (h.next list) list).1 v.linked.0

  pub list_empty-cons :
      (h : Heap V) (list n : ℕ) (nodes : List ℕ)
      → IsList h list (n ∷ nodes)
      → list_empty h list ≡ false
  unfolding list_empty
  list_empty-cons h list n nodes v = let e = v.linked.0 in let d = v.distinct.0 in ground arith

  -- The first node of a list and the last one are found, and a list without nodes has none.
  pub list_front_lem :
      (h : Heap V) (list : ℕ) (nodes : List ℕ)
      → IsList h list nodes
      → list_front h list ≡ (elim nodes [ [] ↦ none | n ∷ rest ↦ some n ])
  unfolding list_front
  list_front_lem h list [] v = rw (list_empty-nil h list v, if◌then◌else◌) refl
  list_front_lem h list (n ∷ nodes) v =
      rw (list_empty-cons h list n nodes v, if◌then◌else◌) (ap some v.linked.0)

  pub list_back_lem :
      (h : Heap V) (list : ℕ) (nodes : List ℕ) (n : ℕ)
      → IsList h list (nodes ++ n ∷ [])
      → list_back h list ≡ some n
  unfolding list_back
  list_back_lem h list nodes n v =
      let (k, r) = Linked-split h list nodes n [] list v.linked in
      rw (filled nodes v, if◌then◌else◌) (ap some r.1)
    where
      filled : (xs : List ℕ) → IsList h list (xs ++ n ∷ []) → list_empty h list ≡ false
      filled [] w = list_empty-cons h list n [] w
      filled (x ∷ xs) w = list_empty-cons h list x (xs ++ n ∷ []) w

  remove_all_step :
      (fuel : ℕ) (h : Heap V) (list : ℕ) (mem : Memory)
      → list_empty h list ≡ false
      → remove_all (suc fuel) h list mem
        ≡ remove_all fuel
            (list_remove h list (h.next list) mem).0
            list
            (list_remove h list (h.next list) mem).1
  unfolding remove_all
  remove_all_step fuel h list mem e = rw (e, if◌then◌else◌) refl

  remove_all_lem :
      (fuel : ℕ) (h : Heap V) (list : ℕ) (nodes : List ℕ) (mem : Memory)
      → IsList h list nodes
      → length nodes < fuel
      → (k : Heap V) × (m : Memory) × (remove_all fuel h list mem ≡ some (k, m))
        × (m.freed ≡ mem.freed + length nodes)
        × (m.allocated ≡ mem.allocated)
        × (m.answers ≡ mem.answers)
  unfolding remove_all list_remove free
  remove_all_lem zero h list nodes mem v lt = absurd (omega arith)
  remove_all_lem (suc fuel) h list [] mem v lt =
      (h, mem, rw (list_empty-nil h list v, if◌then◌else◌) refl, omega arith, refl, refl)
  remove_all_lem (suc fuel) h list (n ∷ nodes) mem v lt =
      let first = list_remove-IsList h list [] n nodes mem v in
      let (k, m, e, f, a, asked) =
        remove_all_lem fuel (list_remove h list n mem).0 list nodes (list_remove h list n mem).1
          first (omega arith) in
      let next = v.linked.0 in
      (
        k,
        m,
        remove_all_step fuel h list mem (list_empty-cons h list n nodes v)
            ∙ ap
                (λ p.
                  remove_all fuel (list_remove h list p mem).0 list (list_remove h list p mem).1)
                next
            ∙ e,
        f ∙ omega arith,
        a,
        asked,
      )

  -- With a fuel above the number of the nodes `list_destroy` ends, and gives back the block of every
  -- node and that of the list.
  pub list_destroy_lem :
      (fuel : ℕ) (h : Heap V) (list : ℕ) (nodes : List ℕ) (mem : Memory)
      → IsList h list nodes
      → length nodes < fuel
      → (k : Heap V) × (m : Memory) × (list_destroy fuel h list mem ≡ some (k, m))
        × (m.freed ≡ mem.freed + length nodes + 1)
        × (m.allocated ≡ mem.allocated)
        × (m.answers ≡ mem.answers)
  unfolding list_destroy free
  list_destroy_lem fuel h list nodes mem v lt =
      let (k, m, e, f, a, asked) = remove_all_lem fuel h list nodes mem v lt in
      (k, free m, rw (list_destroy, e) refl, omega arith, a, asked)
