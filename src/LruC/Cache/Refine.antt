-- ===== src/LruC/Cache/Refine.antt =====
-- `insert_page` and `lookup_update` of 01-basics/lru-in-c/src/lru.c against the list of recent keys.
use cpp_graduate.Base.{
  ℕ, suc, ◌+◌, ◌≡◌, ◌≢◌, refl, ap, ◌∙◌, List, [], ◌∷◌, Bool, true, false, Option, none, some, ◌==◌,
  if◌then◌else◌, Bool-cases, Option-cases, inl, inr, arith,
}
use cpp_graduate.Lru.{Node}
use cpp_graduate.Lru.Store.{ids, node_of, elem-keys}
use cpp_graduate.LruC.{Memory, malloc, free}
use cpp_graduate.LruC.HashMap.{HashMap, HashMapResult, hash_map_find}
use cpp_graduate.LruC.HashMap.Laws.{IsMap}
use cpp_graduate.LruC.HashMap.Entries.{entries}
use cpp_graduate.LruC.Links.{Heap, list_remove, list_value, list_push_front, detach}
use cpp_graduate.LruC.Links.Laws.{IsList, list_remove-IsList}
use cpp_graduate.LruC.Cache.{
  CacheEntry, LruCache, lru_no_memory, Answer, insert_page, index_page, after_malloc, after_push,
  after_index, load_page, lookup_update,
}
use cpp_graduate.LruC.Cache.Holds.{Stores, Holds, Points-other, IsList-value}
use cpp_graduate.LruC.Cache.Insert.{
  malloc_cases, list_push_front_cases, hash_map_insert_cases, IsGiven,
}
use cpp_graduate.LruC.Cache.Load.{page_node, with_page, IsReady, load_page_room, load_page_full}
use cpp_graduate.LruC.Cache.Outcome.{IsLoaded, Asked, IsAnswered}
use cpp_graduate.LruC.Cache.Serve.{refused-IsAnswered, hit-IsAnswered}

module _ {Page : Type 0} (key : ℕ) (f : ℕ → Page) where
  -- The payload of a page that is not loaded.
  abbrev blank : CacheEntry Page
  blank = record { key = key; value = none }

  -- A node with a payload is in front of the list, and every other payload is as it was.
  record IsPushed (c : LruCache Page) (k : Heap (CacheEntry Page)) (l : List (Node Page))
      : Type 0 where
    pub list : IsList k c.recency (c.heap.unused ∷ ids l)
    pub payloads : (p : ℕ) → (p == c.heap.unused) ≡ false → k.value p ≡ c.heap.value p

  -- The node is taken back.
  removed-Stores :
      (c : LruCache Page) (k : Heap (CacheEntry Page)) (mem : Memory) (l : List (Node Page))
      → Stores c l
      → IsPushed c k l
      → Stores (record c { heap = (list_remove k c.recency c.heap.unused mem).0 }) l
  unfolding list_remove detach
  removed-Stores c k mem l s p = record {
    list = list_remove-IsList k c.recency [] c.heap.unused (ids l) mem p.list;
    payload =
        Points-other c.heap (list_remove k c.recency c.heap.unused mem).0 c.heap.unused l
          p.list.distinct.1.0 p.payloads s.payload;
    unique = s.unique;
    table = s.table;
    index = s.index;
    filled = s.filled;
  }

  -- The node and the index are as the loader needs them.
  pushed-Stores :
      (c : LruCache Page) (k : Heap (CacheEntry Page)) (m : HashMap ℕ) (l : List (Node Page))
      → Stores c l
      → IsPushed c k l
      → IsMap m
      → ((j : ℕ)
          → hash_map_find m j ≡ (if key == j then some c.heap.unused else hash_map_find c.index j))
      → node_of key l ≡ none
      → entries m ≡ suc (entries c.index)
      → Stores
          (with_page (record c { heap = k; index = m }) (page_node f key c.heap.unused))
          (page_node f key c.heap.unused ∷ l)
  unfolding node_of
  pushed-Stores c k m l s p v found new e = record {
    list = IsList-value k h c.recency (c.heap.unused ∷ ids l) (λ p. refl) (λ p. refl) refl p.list;
    payload = (
      ground arith,
      Points-other c.heap h c.heap.unused l p.list.distinct.1.0 (λ q e. rw e (p.payloads q e))
          s.payload,
    );
    unique = (elem-keys key l new, s.unique);
    table = v;
    index = λ j. found j ∙ ap (λ o. if key == j then some c.heap.unused else o) (s.index j);
    filled = e ∙ ap suc s.filled;
  }
    where
      h : Heap (CacheEntry Page)
      h = (with_page (record c { heap = k; index = m }) (page_node f key c.heap.unused)).heap

  -- What a miss does.
  module _ (c : LruCache Page) (l : List (Node Page)) (v : Holds c l) (loaded : IsLoaded f l)
      (ne : c.capacity ≢ 0) (new : node_of key l ≡ none) where
    abbrev Miss : Memory → Option (Answer Page) → Type 0
    Miss mem o =
        (a : Answer Page) × (l' : List (Node Page)) × (o ≡ some a) × IsAnswered c key f mem l a l'

    abbrev from_malloc : Bool × Memory → Option (Answer Page)
    from_malloc = after_malloc c key f

    abbrev from_push : Option ℕ × Heap (CacheEntry Page) × Memory → Option (Answer Page)
    from_push = after_push c key f

    abbrev from_index :
        Heap (CacheEntry Page) → HashMapResult × HashMap ℕ × Memory → Option (Answer Page)
    from_index k = after_index (record c { heap = k }) key c.heap.unused f

    -- The answer when memory runs out, with the cache and the memory that the code then has.
    abbrev refusal : LruCache Page → Memory → Answer Page
    refusal c' mem' = record { result = lru_no_memory; cache = c'; mem = mem'; value = none }

    refusal-Miss :
        (c' : LruCache Page) (mem mem' : Memory)
        → insert_page c key f mem ≡ some (refusal c' mem')
        → Stores c' l
        → c'.size ≡ c.size
        → c'.capacity ≡ c.capacity
        → mem'.allocated + mem.freed ≡ mem.allocated + mem'.freed
        → Asked lru_no_memory mem.answers mem'.answers
        → Miss mem (insert_page c key f mem)
    refusal-Miss c' mem mem' e s n m b q =
        (refusal c' mem', l, e, refused-IsAnswered c c' key f mem mem' l s v n m loaded new b q)

    load_page-Miss :
        (k : Heap (CacheEntry Page)) (m : HashMap ℕ) (mem mem3 : Memory)
        → IsReady (record c { heap = k; index = m }) key c.heap.unused f mem l mem3
        → Miss mem (load_page (record c { heap = k; index = m }) key c.heap.unused f mem3)
    load_page-Miss k m mem mem3 r = elim (Bool-cases (c.size == c.capacity)) [
      | inl e ↦
          let (a, l', q, s) =
            load_page_full (record c { heap = k; index = m }) key c.heap.unused f mem l mem3 r ne
              e in
          (
            a,
            l',
            q,
            record {
              holds = s.holds;
              capacity = s.capacity;
              loaded = s.loaded;
              outcome = s.outcome;
              asked = s.asked;
              blocks = s.blocks;
            },
          )
      | inr e ↦
          let (a, q, s) =
            load_page_room (record c { heap = k; index = m }) key c.heap.unused f mem l mem3 r e in
          (
            a,
            _,
            q,
            record {
              holds = s.holds;
              capacity = s.capacity;
              loaded = s.loaded;
              outcome = s.outcome;
              asked = s.asked;
              blocks = s.blocks;
            },
          )
    ]

    pushed-Miss :
        (k : Heap (CacheEntry Page)) (mem mem1 mem2 : Memory)
        → IsGiven mem mem1
        → IsGiven mem1 mem2
        → malloc mem ≡ (true, mem1)
        → list_push_front c.heap c.recency blank mem1 ≡ (some c.heap.unused, k, mem2)
        → IsPushed c k l
        → Miss mem (insert_page c key f mem)
    unfolding insert_page after_malloc after_push after_index index_page list_remove free
    pushed-Miss k mem mem1 mem2 g1 g2 e1 e2 p =
        elim (hash_map_insert_cases c.index key c.heap.unused mem2 v.stores.table
          (v.stores.index key ∙ new)) [
            | inl (mem3, e3, r) ↦
                refusal-Miss (record c { heap = (list_remove k c.recency c.heap.unused mem3).0 })
                  mem (free (free mem3))
                  (ap from_malloc e1 ∙ ap from_push e2 ∙ ap (from_index k) e3)
                  (removed-Stores c k mem3 l v.stores p) refl refl
                  (omega
                    (arith, g1.allocated, g2.allocated, r.allocated, g1.freed, g2.freed, r.freed))
                  (2, mem2.answers, omega arith, g1.asked ∙ ap (λ z. true ∷ z) g2.asked, r.asked)
            | inr (m, mem3, e3, g3, t, found, n) ↦
                let (a, l', q, s) = load_page-Miss k m mem mem3 (record {
                  stores = pushed-Stores c k m l v.stores p t found new n;
                  counted = v.counted;
                  bounded = v.bounded;
                  loaded = loaded;
                  new = new;
                  allocated = omega (arith, g1.allocated, g2.allocated, g3.allocated);
                  freed = g3.freed ∙ g2.freed ∙ g1.freed;
                  asked = g1.asked ∙ ap (λ z. true ∷ z) (g2.asked ∙ ap (λ z. true ∷ z) g3.asked);
                }) in
                (a, l', ap from_malloc e1 ∙ ap from_push e2 ∙ ap (from_index k) e3 ∙ q, s)
          ]

    insert_page-Miss : (mem : Memory) → Miss mem (insert_page c key f mem)
    unfolding insert_page after_malloc after_push free
    insert_page-Miss mem = elim (malloc_cases mem) [
      | inl (mem1, e, r) ↦
          refusal-Miss c mem mem1 (ap from_malloc e) v.stores refl refl
            (omega (arith, r.allocated, r.freed)) (0, mem.answers, omega arith, refl, r.asked)
      | inr (mem1, e1, g1) ↦
          elim (list_push_front_cases c.heap c.recency (ids l) blank mem1 v.stores.list) [
            | inl (mem2, e2, r2) ↦
                refusal-Miss c mem (free mem2) (ap from_malloc e1 ∙ ap from_push e2) v.stores refl
                  refl (omega (arith, g1.allocated, g1.freed, r2.allocated, r2.freed))
                  (1, mem1.answers, omega arith, g1.asked, r2.asked)
            | inr (k, mem2, e2, g2, w, values) ↦
                pushed-Miss k mem mem1 mem2 g1 g2 e1 e2 (record { list = w; payloads = values })
          ]
    ]

module _ {Page : Type 0} where
  -- A request to a cache whose list, payloads and index are in step, whose pages are those of the loader, and
  -- whose capacity is not zero, is served: it is a hit or a miss that gives the page of the key and leaves
  -- the most recent keys in their order, or memory ran out and the entries are those before. The
  -- allocator is not asked for a hit, it has given three blocks for a miss, and where memory ran out it
  -- has given fewer than three and refused one. As many blocks are in use as the entries need.
  pub lookup_update-IsAnswered :
      (c : LruCache Page) (key : ℕ) (f : ℕ → Page) (mem : Memory) (l : List (Node Page))
      → Holds c l
      → IsLoaded f l
      → c.capacity ≢ 0
      → (a : Answer Page) × (l' : List (Node Page)) × (lookup_update c key f mem ≡ some a)
        × IsAnswered c key f mem l a l'
  unfolding lookup_update list_value
  lookup_update-IsAnswered c key f mem l v loaded ne =
      let some_room : (c.capacity == 0) ≡ false = ground arith in
      elim (Option-cases (node_of key l)) [
        | inl h ↦
            let (a, l', q, s) = insert_page-Miss key f c l v loaded ne h mem in
            (a, l', rw (lookup_update, some_room, v.stores.index key, h, if◌then◌else◌) q, s)
        | inr (it, h) ↦
            let (n, l', p, s) = hit-IsAnswered c key it f mem l v loaded h in
            (_, l', rw (lookup_update, some_room, v.stores.index key, h, if◌then◌else◌, p) refl, s)
      ]
