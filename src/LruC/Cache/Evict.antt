-- ===== src/LruC/Cache/Evict.antt =====
-- `evict_oldest` of 01-basics/lru-in-c/src/lru.c.
use cpp_graduate.Base.{
  ◌+◌, ◌-◌, ◌≡◌, refl, ap, sym, subst, ◌∙◌, List, [], ◌∷◌, ◌++◌, none, some, All, elem, false, ◌==◌,
  if◌then◌else◌, arith, length-append,
}
use mathlib.Core.List.{append-nil}
use cpp_graduate.Perms.Loops.Lists.{Unique, elem-append}
use cpp_graduate.Lru.{Node}
use cpp_graduate.Lru.Store.{node_of, keys, ids, node_of-snoc, Unique-keys_init}
use cpp_graduate.LruC.{Memory, free}
use cpp_graduate.LruC.HashMap.{hash_map_remove}
use cpp_graduate.LruC.HashMap.Laws.{hash_map_remove_lem, hash_map_remove-free}
use cpp_graduate.LruC.HashMap.Entries.{hash_map_remove-entries}
use cpp_graduate.LruC.Links.{list_back, list_value, list_remove, detach}
use cpp_graduate.LruC.Links.Laws.{IsList, list_remove-IsList, Unique-middle}
use cpp_graduate.LruC.Links.Destroy.{list_back_lem}
use cpp_graduate.LruC.Cache.{LruCache, evict_oldest}
use cpp_graduate.LruC.Cache.Holds.{
  Points, Stores, All-middle, ids-middle, keys-middle, node_of-middle, Points-frame,
}

module _ {Page : Type 0} where
  -- What `evict_oldest` computes of a cache whose last entry is known.
  evicted : LruCache Page → Node Page → Memory → LruCache Page × Memory
  evicted c last mem =
      let (_, index, mem1) = hash_map_remove c.index last.key mem in
      let (heap, mem2) = list_remove c.heap c.recency last.id mem1 in
      (record c { heap = heap; index = index; size = c.size - 1 }, free mem2)

  evict_oldest-evicted :
      (c : LruCache Page) (r : List (Node Page)) (last : Node Page) (mem : Memory)
      → Stores c (r ++ last ∷ [])
      → evict_oldest c mem ≡ some (evicted c last mem)
  unfolding evict_oldest evicted list_value
  evict_oldest-evicted c r last mem s =
      let back : list_back c.heap c.recency ≡ some last.id =
        list_back_lem c.heap c.recency (ids r) last.id
          (subst (IsList c.heap c.recency) (ids-middle r last []) s.list) in
      let p = (All-middle (Points c.heap) r last [] s.payload).0 in rw (evict_oldest, back, p) refl

  last_found :
      (r : List (Node Page)) (last : Node Page)
      → Unique (keys (r ++ last ∷ []))
      → node_of last.key (r ++ last ∷ []) ≡ some last.id
  unfolding node_of
  last_found r last u =
      let m = Unique-middle (keys r) last.key [] (subst Unique (keys-middle r last []) u) in
      let a : elem last.key (keys r) ≡ false = ground (arith, elem-append last.key (keys r) []) in
      sym (node_of-middle last.key r last [] a) ∙ ground arith

  -- The last entry is gone from the list and from the index, and its three blocks are freed.
  pub record IsEvicted (c : LruCache Page) (r : List (Node Page)) (mem : Memory)
      (c' : LruCache Page) (mem' : Memory) : Type 0 where
    pub stores : Stores c' r
    pub size : c'.size ≡ c.size - 1
    pub capacity : c'.capacity ≡ c.capacity
    pub allocated : mem'.allocated ≡ mem.allocated
    pub freed : mem'.freed ≡ 3 + mem.freed
    pub answers : mem'.answers ≡ mem.answers

  pub evict_oldest-IsEvicted :
      (c : LruCache Page) (r : List (Node Page)) (last : Node Page) (mem : Memory)
      → Stores c (r ++ last ∷ [])
      → (c' : LruCache Page) × (mem' : Memory) × (evict_oldest c mem ≡ some (c', mem'))
        × IsEvicted c r mem c' mem'
  unfolding evicted list_remove detach free
  evict_oldest-IsEvicted c r last mem s =
      let frees =
        hash_map_remove-free c.index last.key mem last.id
          (s.index last.key ∙ last_found r last s.unique) in
      let (gone, table, found) = hash_map_remove_lem c.index last.key mem s.table in
      let points =
        subst (All (Points c.heap)) (append-nil r)
          (All-middle (Points c.heap) r last [] s.payload).1 in
      (
        (evicted c last mem).0,
        (evicted c last mem).1,
        evict_oldest-evicted c r last mem s,
        record {
          stores = record {
            list = subst (IsList _ c.recency) (append-nil (ids r)) (
                list_remove-IsList c.heap c.recency (ids r) last.id [] mem
                  (subst (IsList c.heap c.recency) (ids-middle r last []) s.list));
            payload = Points-frame c.heap (evicted c last mem).0.heap r (λ p. refl) points;
            unique = Unique-keys_init r last s.unique;
            table = table;
            index = λ k.
                found k
                ∙ ap (λ o. if last.key == k then none else o) (s.index k)
                ∙ sym (node_of-snoc k r last s.unique);
            filled =
                let n =
                  hash_map_remove-entries c.index last.key mem last.id s.table
                    (s.index last.key ∙ last_found r last s.unique) in
                omega (arith, n, s.filled, length-append r (last ∷ []));
          };
          size = refl;
          capacity = refl;
          allocated = ap (λ m. m.allocated) frees;
          freed = let e = ap (λ m. m.freed) frees in omega (arith, e);
          answers = ap (λ m. m.answers) frees;
        },
      )
