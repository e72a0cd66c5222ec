-- ===== src/LruC/Cache/Load.antt =====
-- The end of `insert_page` of 01-basics/lru-in-c/src/lru.c: the page is loaded, and an entry makes room.
use cpp_graduate.Base.{
  ℕ, suc, ◌+◌, ◌≤◌, ◌≡◌, ◌≢◌, refl, ap, sym, subst, ◌∙◌, List, [], ◌∷◌, ◌++◌, true, false, none,
  some, ◌==◌, if◌then◌else◌, length, take, arith, length-append,
}
use cpp_graduate.Lru.{Node}
use cpp_graduate.Lru.Spec.{touch}
use cpp_graduate.Lru.Store.{keys, node_of, pop_back-append, keys-snoc, length-keys, elem-keys}
use cpp_graduate.Lru.Refine.{take_all, remove_absent}
use cpp_graduate.LruC.{Memory}
use cpp_graduate.LruC.Cache.{LruCache, miss, Answer, load_page}
use cpp_graduate.LruC.Cache.Holds.{Stores, All-middle, entry_of}
use cpp_graduate.LruC.Cache.Evict.{evict_oldest-IsEvicted}
use cpp_graduate.LruC.Cache.Outcome.{IsLoaded, IsAnswered}
use cpp_graduate.LruC.Links.{set_value}
use mathlib.Core.List.{append-nil}

module _ {Page : Type 0} where
  Stores-size :
      (c : LruCache Page) (k : ℕ) (l : List (Node Page))
      → Stores c l
      → Stores (record c { size = k }) l
  Stores-size c k l s = record {
    list = s.list;
    payload = s.payload;
    unique = s.unique;
    table = s.table;
    index = s.index;
    filled = s.filled;
  }

  abbrev pub page_node : (ℕ → Page) → ℕ → ℕ → Node Page
  page_node f key id = record { key = key; id = id; page = f key }

  -- The cache with the page in the entry of its node.
  abbrev pub with_page : LruCache Page → Node Page → LruCache Page
  with_page c n = record c { heap = set_value c.heap n.id (some (entry_of n)) }

  -- The new entry is in place, and its page is to be loaded.
  pub record IsReady (c : LruCache Page) (key id : ℕ) (f : ℕ → Page) (mem : Memory)
      (l : List (Node Page)) (mem3 : Memory) : Type 0 where
    pub stores : Stores (with_page c (page_node f key id)) (page_node f key id ∷ l)
    pub counted : c.size ≡ length l
    pub bounded : length l ≤ c.capacity
    pub loaded : IsLoaded f l
    pub new : node_of key l ≡ none
    pub allocated : mem3.allocated ≡ 3 + mem.allocated
    pub freed : mem3.freed ≡ mem.freed
    pub asked : mem.answers ≡ true ∷ true ∷ true ∷ mem3.answers

  recent :
      (l : List (Node Page)) (key : ℕ) → node_of key l ≡ none → touch (keys l) key ≡ key ∷ keys l
  unfolding touch
  recent l key h = ap (λ z. key ∷ z) (remove_absent key (keys l) (elem-keys key l h))

  pub load_page_room :
      (c : LruCache Page) (key id : ℕ) (f : ℕ → Page) (mem : Memory) (l : List (Node Page))
      (mem3 : Memory)
      → IsReady c key id f mem l mem3
      → (c.size == c.capacity) ≡ false
      → (a : Answer Page) × (load_page c key id f mem3 ≡ some a)
        × IsAnswered c key f mem l a (page_node f key id ∷ l)
  unfolding load_page
  load_page_room c key id f mem l mem3 r e = (
    record {
      result = miss;
      cache = record (with_page c (page_node f key id)) { size = suc c.size };
      mem = mem3;
      value = some (f key);
    },
    rw (load_page, e, if◌then◌else◌) refl,
    record {
      holds = record {
        stores =
            Stores-size (with_page c (page_node f key id)) (suc c.size) (page_node f key id ∷ l)
              r.stores;
        counted = ap suc r.counted;
        bounded = ground (arith, r.counted, r.bounded);
      };
      capacity = refl;
      loaded = (refl, r.loaded);
      outcome = (
        elem-keys key l r.new,
        rw (recent l key r.new) (
            sym (
              take_all c.capacity (keys (page_node f key id ∷ l))
                (ground (arith, length-keys (page_node f key id ∷ l), r.counted, r.bounded)))),
        refl,
      );
      asked = r.asked;
      blocks = omega (arith, r.allocated, r.freed);
    },
  )

  pub load_page_full :
      (c : LruCache Page) (key id : ℕ) (f : ℕ → Page) (mem : Memory) (l : List (Node Page))
      (mem3 : Memory)
      → IsReady c key id f mem l mem3
      → c.capacity ≢ 0
      → (c.size == c.capacity) ≡ true
      → (a : Answer Page) × (l' : List (Node Page)) × (load_page c key id f mem3 ≡ some a)
        × IsAnswered c key f mem l a l'
  unfolding load_page
  load_page_full c key id f mem l mem3 r ne e =
      let (rest, last, popped, split) = pop_back-append (page_node f key id) l in
      let (c', mem', evicts, v) =
        evict_oldest-IsEvicted (with_page c (page_node f key id)) rest last mem3
          (subst (Stores (with_page c (page_node f key id))) split r.stores) in
      let sizes : suc (length l) ≡ suc (length rest) =
        ap length split ∙ length-append rest (last ∷ []) ∙ omega arith in
      let width : length rest ≡ c.capacity = ground (arith, r.counted, sizes) in
      (
        record {
          result = miss;
          cache = record c' { size = suc c'.size };
          mem = mem';
          value = some (f key);
        },
        rest,
        rw (load_page, e, if◌then◌else◌, evicts) refl,
        record {
          holds = record {
            stores = Stores-size c' (suc c'.size) rest v.stores;
            counted = ground (arith, r.counted, r.bounded, v.size, sizes);
            bounded = omega (arith, r.bounded, sizes, v.capacity);
          };
          capacity = v.capacity;
          loaded = kept rest last (subst (IsLoaded f) split (refl, r.loaded));
          outcome = (
            elem-keys key l r.new,
            rw (recent l key r.new) (
                sym (keys-snoc rest last)
                ∙ ap (λ z. take z (keys (rest ++ last ∷ []))) width
                ∙ sym (ap (λ z. take c.capacity (keys z)) split)),
            refl,
          );
          asked = r.asked ∙ ap (λ z. true ∷ true ∷ true ∷ z) (sym v.answers);
          blocks = omega (arith, r.allocated, r.freed, v.allocated, v.freed, sizes);
        },
      )
    where
      kept :
          (rest : List (Node Page)) (last : Node Page)
          → IsLoaded f (rest ++ last ∷ [])
          → IsLoaded f rest
      kept rest last p =
          subst (IsLoaded f) (append-nil rest) (All-middle (λ n. n.page ≡ f n.key) rest last [] p).1
