-- ===== src/LruC/Links.antt =====
-- 01-basics/lru-in-c/src/list.c: a circular doubly linked list with a sentinel. A pointer is an address, and
-- the fields of the nodes are functions of it. The address of a list is that of its sentinel.
pub mod Chain
pub mod Detach
pub mod Laws
pub mod Destroy
use cpp_graduate.Base.{
  ℕ, zero, suc, List, [], ◌∷◌, Bool, true, false, Option, none, some, ◌==◌, if◌then◌else◌,
}
use cpp_graduate.LruC.{Memory, malloc, free}

-- The addresses below `unused` have been given out.
pub record Heap (V : Type 0) : Type 0 where
  pub prev : ℕ → ℕ
  pub next : ℕ → ℕ
  pub value : ℕ → Option V
  pub unused : ℕ

module _ {V : Type 0} where
  -- `p->prev = q` and `p->next = q`
  abbrev pub set_prev : Heap V → ℕ → ℕ → Heap V
  set_prev h p q = record h { prev = λ a. if a == p then q else h.prev a }

  abbrev pub set_next : Heap V → ℕ → ℕ → Heap V
  set_next h p q = record h { next = λ a. if a == p then q else h.next a }

  abbrev pub set_value : Heap V → ℕ → Option V → Heap V
  set_value h p v = record h { value = λ a. if a == p then v else h.value a }

  unfoldable pub list_create : Heap V → Memory → Option ℕ × Heap V × Memory
  list_create h mem =
      let (given, mem') = malloc mem in
      let list = h.unused in
      let h1 = record h { unused = suc list } in
      let h2 = set_value (set_next (set_prev h1 list list) list list) list none in
      if given then (some list, h2, mem') else (none, h, mem')

  unfoldable pub list_empty : Heap V → ℕ → Bool
  list_empty h list = h.next list == list

  unfoldable pub list_front : Heap V → ℕ → Option ℕ
  unfolding list_empty
  list_front h list = if list_empty h list then none else some (h.next list)

  unfoldable pub list_back : Heap V → ℕ → Option ℕ
  unfolding list_empty
  list_back h list = if list_empty h list then none else some (h.prev list)

  unfoldable pub list_value : Heap V → ℕ → Option V
  list_value h node = h.value node

  -- Four writes in the order of the code.
  unfoldable pub prepend : Heap V → ℕ → ℕ → Heap V
  prepend h list node =
      let h1 = set_prev h node list in
      let h2 = set_next h1 node (h1.next list) in
      let h3 = set_prev h2 (h2.next node) node in set_next h3 list node

  unfoldable pub detach : Heap V → ℕ → Heap V
  detach h node =
      let h1 = set_next h (h.prev node) (h.next node) in set_prev h1 (h1.next node) (h1.prev node)

  unfoldable pub list_push_front : Heap V → ℕ → V → Memory → Option ℕ × Heap V × Memory
  unfolding prepend
  list_push_front h list value mem =
      let (given, mem') = malloc mem in
      let node = h.unused in
      let h1 = set_value (record h { unused = suc node }) node (some value) in
      if given then (some node, prepend h1 list node, mem') else (none, h, mem')

  unfoldable pub list_move_front : Heap V → ℕ → ℕ → Heap V
  unfolding prepend detach
  list_move_front h list node = prepend (detach h node) list node

  unfoldable pub list_remove : Heap V → ℕ → ℕ → Memory → Heap V × Memory
  unfolding detach
  list_remove h list node mem = (detach h node, free mem)

  -- The loop of `list_destroy`, on fuel, and the end of it.
  unfoldable pub remove_all : ℕ → Heap V → ℕ → Memory → Option (Heap V × Memory)
  unfolding list_remove list_front list_empty
  remove_all zero h list mem = none
  remove_all (suc fuel) h list mem =
      let rest =
        (let (h', mem') = list_remove h list (h.next list) mem in remove_all fuel h' list mem') in
      if list_empty h list then some (h, mem) else rest

  unfoldable pub list_destroy : ℕ → Heap V → ℕ → Memory → Option (Heap V × Memory)
  unfolding remove_all
  list_destroy fuel h list mem = elim (remove_all fuel h list mem) [
    | none ↦ none
    | some (h', mem') ↦ some (h', free mem')
  ]
