-- ===== src/LruC/Cache/Serve.antt =====
-- `lookup_update` of 01-basics/lru-in-c/src/lru.c against the list of recent keys.
use cpp_graduate.Base.{
  ℕ, ◌+◌, ◌≡◌, refl, ap, sym, subst, ◌∙◌, List, ◌∷◌, ◌++◌, false, none, some, elem, length, arith,
}
use cpp_graduate.Lru.{Node}
use cpp_graduate.Lru.Spec.{touch}
use cpp_graduate.Lru.Store.{keys, ids, node_of, length-keys, elem-keys, elem-keys-some}
use cpp_graduate.Lru.Refine.{take_all}
use cpp_graduate.Perms.Loops.Lists.{Unique}
use cpp_graduate.LruC.{Memory}
use cpp_graduate.LruC.Links.{list_move_front, detach, prepend}
use cpp_graduate.LruC.Links.Laws.{IsList, list_move_front-IsList, Unique-middle}
use cpp_graduate.LruC.Cache.{LruCache, hit, lru_no_memory}
use cpp_graduate.LruC.Cache.Holds.{
  Stores, Holds, Points, entry_of, Points-frame, node_of-split, node_of-middle, remove-middle,
  All-middle, ids-middle, ids-both, keys-middle, keys-both, length-middle,
}
use cpp_graduate.LruC.Cache.Outcome.{IsLoaded, Asked, IsAnswered}

module _ {Page : Type 0} where
  -- A request without memory: the same entries, and no block more than before.
  pub refused-IsAnswered :
      (c c' : LruCache Page) (key : ℕ) (f : ℕ → Page) (mem mem' : Memory) (l : List (Node Page))
      → Stores c' l
      → Holds c l
      → c'.size ≡ c.size
      → c'.capacity ≡ c.capacity
      → IsLoaded f l
      → node_of key l ≡ none
      → mem'.allocated + mem.freed ≡ mem.allocated + mem'.freed
      → Asked lru_no_memory mem.answers mem'.answers
      → IsAnswered c key f mem l
          (record { result = lru_no_memory; cache = c'; mem = mem'; value = none })
          l
  refused-IsAnswered c c' key f mem mem' l s v n m loaded h e q = record {
    holds = record { stores = s; counted = n ∙ v.counted; bounded = omega (arith, v.bounded, m) };
    capacity = m;
    loaded = loaded;
    outcome = (elem-keys key l h, refl, refl);
    asked = q;
    blocks = omega (arith, e);
  }

  pub hit-IsAnswered :
      (c : LruCache Page) (key it : ℕ) (f : ℕ → Page) (mem : Memory) (l : List (Node Page))
      → Holds c l
      → IsLoaded f l
      → node_of key l ≡ some it
      → (n : Node Page) × (l' : List (Node Page)) × (c.heap.value it ≡ some (entry_of n))
        × IsAnswered c key f mem l
            (record {
              result = hit;
              cache = record c { heap = list_move_front c.heap c.recency it };
              mem = mem;
              value = some n.page;
            })
            l'
  unfolding list_move_front detach prepend
  hit-IsAnswered c key it f mem l v loaded h =
      let (ys, n, zs, split, id, k, new) = node_of-split key it l h in
      let s : Stores c (ys ++ n ∷ zs) = subst (Stores c) split v.stores in
      let loads = All-middle (λ n. n.page ≡ f n.key) ys n zs (subst (IsLoaded f) split loaded) in
      let points = All-middle (Points c.heap) ys n zs s.payload in
      let u =
        Unique-middle (keys ys) n.key (keys zs) (subst Unique (keys-middle ys n zs) s.unique) in
      let moved : IsList (list_move_front c.heap c.recency it) c.recency
          (n.id ∷ (ids ys ++ ids zs)) =
        subst
          (λ i. IsList (list_move_front c.heap c.recency i) c.recency (n.id ∷ (ids ys ++ ids zs)))
          id
          (list_move_front-IsList c.heap c.recency (ids ys) n.id (ids zs)
            (subst (IsList c.heap c.recency) (ids-middle ys n zs) s.list)) in
      let same : keys (n ∷ (ys ++ zs)) ≡ touch (keys l) key =
        unfold touch in (rw (split, remove-middle key ys n zs k new, k) refl) in
      let size : length (n ∷ (ys ++ zs)) ≡ length l =
        sym (length-middle ys n zs) ∙ ap length (sym split) in
      (
        n,
        n ∷ (ys ++ zs),
        subst (λ i. c.heap.value i ≡ some (entry_of n)) id points.0,
        record {
          holds = record {
            stores = record {
              list =
                  subst (λ z. IsList (list_move_front c.heap c.recency it) c.recency (n.id ∷ z))
                    (sym (ids-both ys zs)) moved;
              payload =
                  Points-frame c.heap (list_move_front c.heap c.recency it) (n ∷ (ys ++ zs))
                    (λ p. refl) points;
              unique = subst (λ z. Unique (n.key ∷ z)) (sym (keys-both ys zs)) u;
              table = s.table;
              index = λ j.
                  s.index j
                  ∙ sym (
                      node_of-middle j ys n zs (subst (λ z. elem z (keys ys) ≡ false) (sym k) new));
              filled = s.filled ∙ length-middle ys n zs;
            };
            counted = v.counted ∙ sym size;
            bounded = omega (arith, v.bounded, size);
          };
          capacity = refl;
          loaded = loads;
          outcome = (
            elem-keys-some key it l h,
            same
                ∙ sym (
                    take_all c.capacity (touch (keys l) key)
                      (rw (← same) (omega (arith, length-keys (n ∷ (ys ++ zs)), v.bounded, size)))),
            ap some (loads.0 ∙ ap f k),
          );
          asked = refl;
          blocks = omega (arith, size);
        },
      )
