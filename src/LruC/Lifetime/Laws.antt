-- ===== src/LruC/Lifetime/Laws.antt =====
-- A cache of 01-basics/lru-in-c/src/lru.c from its creation to its end: it is empty at first, and every block
-- is given back.
use cpp_graduate.Base.{
  ℕ, zero, suc, ◌+◌, ◌*◌, ◌<◌, ◌≡◌, refl, ap, subst, ◌∙◌, List, [], ◌∷◌, false, Option, none, some,
  if◌then◌else◌, length, arith, length-append,
}
use cpp_graduate.Lru.{Node}
use cpp_graduate.Lru.Store.{ids, pop_back-append}
use cpp_graduate.LruC.{Memory, free}
use cpp_graduate.LruC.HashMap.Entries.{hash_map_destroy_lem, hash_map_destroy-answers}
use cpp_graduate.LruC.Links.{list_empty}
use cpp_graduate.LruC.Links.Destroy.{list_empty-nil, list_empty-cons, list_destroy_lem}
use cpp_graduate.LruC.Cache.{LruCache, evict_oldest}
use cpp_graduate.LruC.Cache.Holds.{Stores}
use cpp_graduate.LruC.Cache.Evict.{evict_oldest-IsEvicted}
use cpp_graduate.LruC.Lifetime.{release_list, release_map, evict_all, lru_destroy}

module _ {Page : Type 0} where
  evict_all_step :
      (fuel : ℕ) (c c1 : LruCache Page) (mem mem1 : Memory)
      → list_empty c.heap c.recency ≡ false
      → evict_oldest c mem ≡ some (c1, mem1)
      → evict_all (suc fuel) c mem ≡ evict_all fuel c1 mem1
  unfolding evict_all
  evict_all_step fuel c c1 mem mem1 e f =
      ap (λ b. if b then some (c, mem) else step (evict_oldest c mem)) e ∙ ap step f
    where
      step : Option (LruCache Page × Memory) → Option (LruCache Page × Memory)
      step none = none
      step (some (c, m)) = evict_all fuel c m

  evict_all_lem :
      (fuel : ℕ) (c : LruCache Page) (l : List (Node Page)) (mem : Memory)
      → Stores c l
      → length l < fuel
      → (c' : LruCache Page) × (mem' : Memory) × (evict_all fuel c mem ≡ some (c', mem'))
        × Stores c' []
        × (mem'.freed ≡ mem.freed + 3 * length l)
        × (mem'.allocated ≡ mem.allocated)
        × (mem'.answers ≡ mem.answers)
  unfolding evict_all
  evict_all_lem zero c l mem s lt = absurd (omega arith)
  evict_all_lem (suc fuel) c [] mem s lt = (
    c,
    mem,
    rw (list_empty-nil c.heap c.recency s.list, if◌then◌else◌) refl,
    s,
    omega arith,
    refl,
    refl,
  )
  evict_all_lem (suc fuel) c (n ∷ l) mem s lt =
      let (r, last, popped, split) = pop_back-append n l in
      let (c1, mem1, e, v) = evict_oldest-IsEvicted c r last mem (subst (Stores c) split s) in
      let sizes : suc (length l) ≡ length r + 1 = ap length split ∙ length-append r (last ∷ []) in
      let (c2, mem2, f, t, freed, allocated, asked) =
        evict_all_lem fuel c1 r mem1 v.stores (omega arith) in
      (
        c2,
        mem2,
        evict_all_step fuel c c1 mem mem1 (list_empty-cons c.heap c.recency n.id (ids l) s.list) e
            ∙ f,
        t,
        omega (arith, freed, v.freed, sizes),
        allocated ∙ v.allocated,
        asked ∙ v.answers,
      )

  -- Where the list, the payloads and the index of a cache are in step, and the fuel is above the number of
  -- the entries, `lru_destroy` ends. It gives back the three blocks of every entry and those of the list,
  -- of the index and of the cache, allocates nothing and takes no answer of the allocator.
  pub lru_destroy_lem :
      (fuel : ℕ) (c : LruCache Page) (l : List (Node Page)) (mem : Memory)
      → Stores c l
      → length l < fuel
      → (mem' : Memory) × (lru_destroy fuel c mem ≡ some mem')
        × (mem'.freed ≡ mem.freed + 3 * length l + 4)
        × (mem'.allocated ≡ mem.allocated)
        × (mem'.answers ≡ mem.answers)
  unfolding lru_destroy release_list release_map free
  lru_destroy_lem fuel c l mem s lt =
      let (c1, mem1, e, t, f, a, asked) = evict_all_lem fuel c l mem s lt in
      let (k, mem2, e2, f2, a2, asked2) =
        list_destroy_lem fuel c1.heap c1.recency [] mem1 t.list (omega arith) in
      let (f3, a3) = hash_map_destroy_lem c1.index mem2 in
      (
        free (release_map (some c1.index) mem2),
        rw (lru_destroy, e, e2) refl,
        omega (arith, f, f2, f3, t.filled),
        a3 ∙ a2 ∙ a,
        hash_map_destroy-answers c1.index mem2 ∙ asked2 ∙ asked,
      )
