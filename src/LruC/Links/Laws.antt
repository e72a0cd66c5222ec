-- ===== src/LruC/Links/Laws.antt =====
-- The operations of 01-basics/lru-in-c/src/list.c on the sequence that a list holds.
use cpp_graduate.Base.{
  ℕ, suc, ◌≡◌, refl, ◌∙◌, List, [], ◌∷◌, ◌++◌, true, false, ◌==◌, if◌then◌else◌, elem, Bool-cases,
  inl, inr, arith,
}
use cpp_graduate.Base.{some, ◌<◌}
use cpp_graduate.Perms.Loops.Lists.{Unique, elem-append}
use cpp_graduate.LruC.{Memory, malloc}
use cpp_graduate.LruC.Links.{Heap, detach, set_value, list_push_front, list_move_front, list_remove}
use cpp_graduate.LruC.Links.Chain.{
  Linked, Linked-frame, Linked-split, prepend-Linked, eq_other, differ, here, there,
}
use cpp_graduate.LruC.Links.Detach.{prev_in, detach-Linked, absent_node}

pub Unique-middle :
    (ys : List ℕ) (n : ℕ) (zs : List ℕ) → Unique (ys ++ n ∷ zs) → Unique (n ∷ (ys ++ zs))
Unique-middle [] n zs u = u
Unique-middle (y ∷ ys) n zs u =
    let ih = Unique-middle ys n zs u.1 in
    ground (arith, elem-append y ys (n ∷ zs), elem-append y ys zs, elem-append n ys zs)

pub absent_middle :
    (p : ℕ) (ys : List ℕ) (n : ℕ) (zs : List ℕ)
    → elem p (ys ++ n ∷ zs) ≡ false
    → elem p (ys ++ zs) ≡ false
absent_middle p ys n zs h = ground (arith, elem-append p ys (n ∷ zs), elem-append p ys zs)

more_middle :
    (p : ℕ) (ys : List ℕ) (n : ℕ) (zs : List ℕ)
    → elem p (ys ++ zs) ≡ true
    → elem p (ys ++ n ∷ zs) ≡ true
more_middle p ys n zs h = ground (arith, elem-append p ys (n ∷ zs), elem-append p ys zs)

node_middle : (ys : List ℕ) (n : ℕ) (zs : List ℕ) → elem n (ys ++ n ∷ zs) ≡ true
node_middle ys n zs =
    elem-append n ys (n ∷ zs) ∙ ground (arith, elem-append n ys (n ∷ zs), here n zs)

module _ {V : Type 0} where
  -- The list at an address holds these nodes in this order: they differ, are not the sentinel, have been
  -- given out, and are linked in a circle in both directions.
  pub record IsList (h : Heap V) (list : ℕ) (nodes : List ℕ) : Type 0 where
    pub distinct : Unique (list ∷ nodes)
    pub linked : Linked h list nodes list
    pub allocated : (p : ℕ) → elem p (list ∷ nodes) ≡ true → p < h.unused

  own_prev :
      (h : Heap V) (list : ℕ) (ys : List ℕ) (n : ℕ) (zs : List ℕ)
      → IsList h list (ys ++ n ∷ zs)
      → (n == h.prev n) ≡ false
  own_prev h list ys n zs v =
      let (k, r) = Linked-split h list ys n zs list v.linked in
      let before = prev_in h list ys n k in
      let middle = Unique-middle ys n zs v.distinct.1 in
      let e =
        differ (h.prev n) n (list ∷ ys) before
          (ground (arith, elem-append n ys zs, absent_node list n ys zs v.distinct.0)) in
      ground arith

  detach-IsList :
      (h : Heap V) (list : ℕ) (ys : List ℕ) (n : ℕ) (zs : List ℕ)
      → IsList h list (ys ++ n ∷ zs)
      → IsList (detach h n) list (ys ++ zs)
  unfolding detach
  detach-IsList h list ys n zs v = record {
    distinct = (absent_middle list ys n zs v.distinct.0, (Unique-middle ys n zs v.distinct.1).1);
    linked =
        detach-Linked h list ys n zs list v.distinct.1 v.distinct.0 v.distinct.0
          (own_prev h list ys n zs v) v.linked;
    allocated = λ p e. v.allocated p (ground (arith, more_middle p ys n zs));
  }

  -- `list_remove` takes the node out of the sequence.
  pub list_remove-IsList :
      (h : Heap V) (list : ℕ) (ys : List ℕ) (n : ℕ) (zs : List ℕ) (mem : Memory)
      → IsList h list (ys ++ n ∷ zs)
      → IsList (list_remove h list n mem).0 list (ys ++ zs)
  unfolding list_remove
  list_remove-IsList h list ys n zs mem v = detach-IsList h list ys n zs v

  -- Of a list that is linked in both directions through distinct nodes, `list_move_front` moves any node to
  -- the front of the sequence, and the list is again linked so.
  pub list_move_front-IsList :
      (h : Heap V) (list : ℕ) (ys : List ℕ) (n : ℕ) (zs : List ℕ)
      → IsList h list (ys ++ n ∷ zs)
      → IsList (list_move_front h list n) list (n ∷ (ys ++ zs))
  unfolding list_move_front
  list_move_front-IsList h list ys n zs v =
      let removed = detach-IsList h list ys n zs v in
      let u = Unique-middle ys n zs v.distinct.1 in
      let a = absent_node list n ys zs v.distinct.0 in
      record {
        distinct = ground (arith, removed.distinct);
        linked =
            prepend-Linked (detach h n) list n (ys ++ zs) (ground arith) removed.distinct
              removed.linked;
        allocated =
            λ p e. v.allocated p (ground (arith, more_middle p ys n zs, node_middle ys n zs));
      }

  -- The node of a push, with its payload, before it is linked.
  abbrev stored : Heap V → V → Heap V
  stored h value = set_value (record h { unused = suc h.unused }) h.unused (some value)

  -- A push that gets its memory answers with a new node, which is then the first.
  pub list_push_front-IsList :
      (h : Heap V) (list : ℕ) (nodes : List ℕ) (value : V) (mem : Memory)
      → IsList h list nodes
      → (malloc mem).0 ≡ true
      → ((list_push_front h list value mem).0 ≡ some h.unused)
        × IsList (list_push_front h list value mem).1 list (h.unused ∷ nodes)
  unfolding list_push_front
  list_push_front-IsList h list nodes value mem v given =
      rw (given, if◌then◌else◌)
        (
          refl,
          record {
            distinct = (ground (arith, away list (here list nodes)), (fresh, v.distinct.1));
            linked =
                prepend-Linked (stored h value) list h.unused nodes
                  (ground (arith, away list (here list nodes), fresh)) v.distinct
                  (Linked-frame h (stored h value) list nodes list (λ p q. refl) (λ p q. refl)
                    v.linked);
            allocated = λ p e. older p e;
          },
        )
    where
      away : (p : ℕ) → elem p (list ∷ nodes) ≡ true → (p == h.unused) ≡ false
      away p q = let lt = v.allocated p q in eq_other p h.unused (λ e. omega arith)

      fresh : elem h.unused nodes ≡ false
      fresh = elim (Bool-cases (elem h.unused nodes)) [
        | inr e ↦ e
        | inl e ↦
            let lt = v.allocated h.unused (there list h.unused nodes e) in absurd (omega arith)
      ]

      older : (p : ℕ) → elem p (list ∷ h.unused ∷ nodes) ≡ true → p < suc h.unused
      older p e = elim (Bool-cases (elem p (list ∷ nodes))) [
        | inl q ↦ let lt = v.allocated p q in omega arith
        | inr q ↦ ground arith
      ]
