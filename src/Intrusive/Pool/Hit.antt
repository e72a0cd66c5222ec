-- ===== src/Intrusive/Pool/Hit.antt =====
-- `lru_access` of 01-basics/lru-in-c-datastructs/src/lru.c for a key that is there.
use cpp_graduate.Base.{
  ℕ, suc, ◌<◌, ◌≡◌, ◌≢◌, refl, ap, sym, subst, ◌∙◌, List, [], ◌∷◌, ◌++◌, map, Bool, true, false,
  some, ◌==◌, if◌then◌else◌, elem, length, take, arith,
}
use mathlib.Core.List.{map-append}
use cpp_graduate.Perms.Loops.Lists.{Unique, elem-append}
use cpp_graduate.Lru.Spec.{touch}
use cpp_graduate.Lru.Refine.{take_all}
use cpp_graduate.LruC.Links.Laws.{Unique-middle}
use cpp_graduate.Intrusive.IntMap.{bucket_for}
use cpp_graduate.Intrusive.IntMap.Chain.{find_in}
use cpp_graduate.Intrusive.IntMap.Laws.{int_map_find_lem}
use cpp_graduate.Intrusive.Links.{list_remove, list_push_front}
use cpp_graduate.Intrusive.Links.Laws.{remove-IsList, push_front-IsList}
use cpp_graduate.Intrusive.Pool.{LruCache, to_front, lru_access}
use cpp_graduate.Intrusive.Pool.Holds.{
  Holds, find_in-split, find_in-front, remove-keys, length-chain_le,
}

pub length-map : (f : ℕ → ℕ) (l : List ℕ) → length (map f l) ≡ length l
length-map f [] = refl
length-map f (x ∷ l) = ap suc (length-map f l)

elem-middle :
    (x : ℕ) (ys : List ℕ) (e : ℕ) (zs : List ℕ) → elem x (e ∷ (ys ++ zs)) ≡ elem x (ys ++ e ∷ zs)
elem-middle x [] e zs = refl
elem-middle x (y ∷ ys) e zs = ground (arith, elem-middle x ys e zs)

length-middle :
    (ys : List ℕ) (e : ℕ) (zs : List ℕ) → length (e ∷ (ys ++ zs)) ≡ length (ys ++ e ∷ zs)
length-middle [] e zs = refl
length-middle (y ∷ ys) e zs = ap suc (length-middle ys e zs)

-- What a request does, to the entries and by its answer.
pub record IsAccessed (c : LruCache) (key : ℕ) (l : List ℕ) (found : Bool) (c' : LruCache)
    (chains' : ℕ → List ℕ) (l' : List ℕ) : Type 0 where
  pub holds : Holds c' chains' l'
  pub capacity : c'.capacity ≡ c.capacity
  pub recency : map c'.table.key l' ≡ take c.capacity (touch (map c.table.key l) key)
  pub answer : found ≡ elem key (map c.table.key l)

abbrev pub moved : LruCache → ℕ → LruCache
moved c e = to_front (record c { ring = list_remove c.ring e }) e

moved-Holds :
    (c : LruCache) (chains : ℕ → List ℕ) (ys : List ℕ) (e : ℕ) (zs : List ℕ)
    → elem (c.table.key e) (map c.table.key ys) ≡ false
    → Holds c chains (ys ++ e ∷ zs)
    → Holds (moved c e) chains (e ∷ (ys ++ zs))
moved-Holds c chains ys e zs m v =
    let u = Unique-middle ys e zs v.ring.distinct.1 in
    let away : elem e (c.recency ∷ (ys ++ zs)) ≡ false =
      ground (arith, u, v.ring.distinct, elem-append c.recency ys (e ∷ zs)) in
    let inside : elem e (ys ++ e ∷ zs) ≡ true = ground (arith, elem-append e ys (e ∷ zs)) in
    let same : (x : ℕ) → elem x (e ∷ (ys ++ zs)) ≡ true → elem x (ys ++ e ∷ zs) ≡ true =
      λ x h. sym (elem-middle x ys e zs) ∙ h in
    record {
      ring =
          push_front-IsList (list_remove c.ring e) c.recency (ys ++ zs) e
            (remove-IsList c.ring c.recency ys e zs v.ring) away
            (unfold list_remove in v.ring.allocated e (ground (arith, inside)));
      table = v.table;
      index = λ k. v.index k ∙ sym (find_in-front c.table k e ys zs m);
      unique =
          subst (λ l. Unique (c.table.key e ∷ l)) (sym (map-append c.table.key ys zs))
            (Unique-middle (map c.table.key ys) (c.table.key e) (map c.table.key zs)
              (subst Unique (map-append c.table.key ys (e ∷ zs)) v.unique));
      values = λ x h. v.values x (same x h);
      counted = length-middle ys e zs ∙ v.counted;
      bounded = v.bounded;
      taken = λ x h. v.taken x (same x h);
      fresh = v.fresh;
      outside = v.outside;
      apart = λ x a b. (unfold list_remove list_push_front in v.apart x a b);
    }

-- A key that is found is moved to the front.
pub hit-IsAccessed :
    (fuel : ℕ) (c : LruCache) (chains : ℕ → List ℕ) (l : List ℕ) (key e : ℕ)
    → Holds c chains l
    → c.capacity < fuel
    → c.capacity ≢ 0
    → find_in c.table key l ≡ some e
    → (c' : LruCache) × (l' : List ℕ) × (lru_access fuel c key ≡ some (true, c'))
      × IsAccessed c key l true c' chains l'
unfolding lru_access
hit-IsAccessed fuel c chains l key e v enough ne h =
    let (ys, zs, s, k, m) = find_in-split c.table key e l h in
    let room : (c.capacity == 0) ≡ false = ground arith in
    let short = length-chain_le c chains l v (bucket_for c.index.bucket_count key) in
    let found =
      int_map_find_lem c.table c.index chains v.table fuel key (omega (arith, v.counted, v.bounded))
      ∙ ap some (v.index key ∙ h) in
    let inside : elem e l ≡ true = rw s (ground (arith, elem-append e ys (e ∷ zs))) in
    let held = moved-Holds c chains ys e zs (rw k m) (subst (Holds c chains) s v) in
    let keys : map c.table.key (e ∷ (ys ++ zs)) ≡ touch (map c.table.key l) key =
      unfold touch in (rw (s, remove-keys c.table key e ys zs k m, k) refl) in
    let size = length-middle ys e zs ∙ ap length (sym s) in
    (
      moved c e,
      e ∷ (ys ++ zs),
      rw (lru_access, room, found, if◌then◌else◌, v.values e inside) refl,
      record {
        holds = held;
        capacity = refl;
        recency =
            keys
            ∙ sym (
                take_all c.capacity (touch (map c.table.key l) key) (
                  rw (← keys) (
                    omega (
                      arith,
                      length-map c.table.key (e ∷ (ys ++ zs)),
                      size,
                      v.counted,
                      v.bounded,
                    ))));
        answer = sym (member ys zs s k);
      },
    )
  where
    member :
        (ys zs : List ℕ)
        → l ≡ ys ++ e ∷ zs
        → c.table.key e ≡ key
        → elem key (map c.table.key l) ≡ true
    member ys zs s k =
        ap (λ z. elem key (map c.table.key z)) s
        ∙ ap (elem key) (map-append c.table.key ys (e ∷ zs))
        ∙ ground (arith, elem-append key (map c.table.key ys) (c.table.key e ∷ map c.table.key zs))
