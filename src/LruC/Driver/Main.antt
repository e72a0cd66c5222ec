-- ===== src/LruC/Driver/Main.antt =====
-- `main` of 01-basics/lru-in-c/src/main.c as a whole.
use cpp_graduate.Base.{
  ℕ, zero, suc, ◌+◌, ◌^◌, ◌<◌, ◌≤◌, ◌≡◌, ◌⊎◌, refl, ap, sym, ◌∙◌, List, [], ◌∷◌, Bool, true, ◌||◌,
  Option, none, some, leb, ltb, if◌then◌else◌, length, take, inl, inr, Bool-cases, Option-cases,
  arith,
}
use cpp_graduate.Lru.Spec.{remove, touch, hits}
use cpp_graduate.Lru.Refine.{take_all}
use cpp_graduate.LruC.{Memory}
use cpp_graduate.LruC.Answers.{Denied}
use cpp_graduate.LruC.Links.{Heap}
use cpp_graduate.LruC.Cache.{CacheEntry, lru_no_memory}
use cpp_graduate.LruC.Lifetime.Create.{lru_create_lem}
use cpp_graduate.LruC.Input.{Input, read_integer}
use cpp_graduate.LruC.Driver.{
  Exit, finished, bad_sizes, no_cache, bad_element, no_page, with_cache, with_sizes, main,
}
use cpp_graduate.LruC.Driver.Requests.{read_all, Verdict, Short, Short-later}
use cpp_graduate.LruC.Driver.Runs.{serve_lem}

length-remove_le : (k : ℕ) (l : List ℕ) → length (remove k l) ≤ length l
unfolding remove
length-remove_le k [] = omega arith
length-remove_le k (x ∷ l) = ground (arith, length-remove_le k l)

-- A cache that is as large as all the keys has the hits of a larger one.
hits_enough :
    (m capacity : ℕ) (history ks : List ℕ)
    → m ≤ capacity
    → length history + length ks ≤ m
    → hits m history ks ≡ hits capacity history ks
unfolding hits touch
hits_enough m capacity history [] le fits = refl
hits_enough m capacity history (k ∷ ks) le fits =
    let ih =
      hits_enough m capacity (touch history k) ks le (omega (arith, length-remove_le k history)) in
    let e : take m history ≡ take capacity history =
      take_all m history (omega arith) ∙ sym (take_all capacity history (omega arith)) in
    rw (ih, e) refl

read_all_cases :
    (n : ℕ) (input : Input)
    → (read_all n input ≡ none) ⊎ ((ks : List ℕ) × (read_all n input ≡ some ks) × (length ks ≡ n))
unfolding read_all
read_all_cases zero input = inr ([], refl, refl)
read_all_cases (suc n) input = elim (Option-cases (read_integer input)) [
  | inl e ↦ inl (rw (read_all, e) refl)
  | inr ((key, rest), e) ↦ elim (read_all_cases n rest) [
    | inl f ↦ inl (rw (read_all, e, f) refl)
    | inr (ks, f, g) ↦ inr (key ∷ ks, rw (read_all, e, f) refl, ap suc g)
  ]
]

read_all-length : (n : ℕ) (input : Input) (ks : List ℕ) → read_all n input ≡ some ks → length ks ≡ n
read_all-length n input ks e = elim (read_all_cases n input) [
  | inl f ↦ absurd cc
  | inr (ls, f, g) ↦ let same : ls ≡ ks = cc in ap length (sym same) ∙ g
]

pub record IsSizes (input : Input) (capacity count : ℕ) (elements : Input) : Type 0 where
  pub rest : Input
  pub first : read_integer input ≡ some (capacity, rest)
  pub second : read_integer rest ≡ some (count, elements)

-- What an end of the program says of its input, and of the answers that the allocator gave.
abbrev pub MainVerdict : Input → List Bool → List Bool → Exit → Type 0
MainVerdict input answers answers' (finished m) =
    (capacity count : ℕ) × (elements : Input) × (ks : List ℕ) × IsSizes input capacity count
      elements
    × (read_all count elements ≡ some ks)
    × (m ≡ hits capacity [] ks)
MainVerdict input answers answers' bad_sizes =
    (read_all 2 input ≡ none)
    ⊎ ((capacity count : ℕ) × (elements : Input) × IsSizes input capacity count elements
        × ((leb (2 ^ 63) capacity || leb (2 ^ 63) count) ≡ true))
MainVerdict input answers answers' no_cache =
    Denied answers answers'
    ⊎ ((capacity count : ℕ) × (elements : Input) × IsSizes input capacity count elements
        × (2305843009213693951 < capacity)
        × (2305843009213693951 < count))
MainVerdict input answers answers' (bad_element i) =
    (capacity count : ℕ) × (elements : Input) × IsSizes input capacity count elements
    × (read_all count elements ≡ none)
MainVerdict input answers answers' (no_page r) = (r ≡ lru_no_memory) × Denied answers answers'

abbrev Ran : Memory → Input → Option (Exit × Memory) → Type 0
Ran mem input o =
    (exit : Exit) × (mem' : Memory) × (o ≡ some (exit, mem'))
    × (mem'.allocated + mem.freed ≡ mem.allocated + mem'.freed)
    × MainVerdict input mem.answers mem'.answers exit

-- From the sizes on: with `limit` for the capacity the hits are those of the capacity that was asked for.
with_sizes_lem :
    (fuel capacity count : ℕ) (heap : Heap (CacheEntry ℕ)) (mem : Memory) (input elements : Input)
    → 2 ^ 63 ≤ fuel
    → IsSizes input capacity count elements
    → Ran mem input (with_sizes fuel heap mem capacity count elements)
unfolding with_sizes with_cache
with_sizes_lem fuel capacity count heap mem input elements enough s =
    elim (Bool-cases (leb (2 ^ 63) capacity || leb (2 ^ 63) count)) [
      | inl e ↦
          (bad_sizes, mem, rw (e, if◌then◌else◌) refl, refl, inr (capacity, count, elements, s, e))
      | inr e ↦
          let limit = if ltb capacity count then capacity else count in
          let low : limit < fuel = ground arith in
          elim (lru_create_lem fuel heap limit mem (omega arith)) [
            | inl (mem', f, b, why) ↦
                (no_cache, mem', rw (e, if◌then◌else◌, f) refl, b, because why)
            | inr (c, mem1, f, v, g, allocated, freed, taken) ↦
                let (exit, mem', h, b, verdict, short) =
                  serve_lem fuel count 0 0 c [] mem1 [] elements v tt
                    (sym (take_all c.capacity [] (omega arith))) (omega (arith, g)) in
                (
                  exit,
                  mem',
                  rw (e, if◌then◌else◌, f) h,
                  omega (arith, b, allocated, freed),
                  meant mem'.answers limit c.capacity g exit verdict
                      (Short-later exit mem.answers mem1.answers mem'.answers taken short),
                )
          ]
    ]
  where
    smaller : (if ltb capacity count then capacity else count) ≤ capacity
    smaller = ground arith

    fits :
        (ks : List ℕ)
        → length ks ≡ count
        → hits (if ltb capacity count then capacity else count) [] ks ≡ hits capacity [] ks
    fits ks n = elim (Bool-cases (ltb capacity count)) [
      | inl e ↦ rw (e, if◌then◌else◌) refl
      | inr e ↦
          rw (e, if◌then◌else◌) (hits_enough count capacity [] ks (ground arith) (omega arith))
    ]

    because :
        {answers' : List Bool}
        → Denied mem.answers answers'
          ⊎ (2305843009213693951 < (if ltb capacity count then capacity else count))
        → MainVerdict input mem.answers answers' no_cache
    because (inl denied) = inl denied
    because (inr big) = inr (capacity, count, elements, s, ground arith, ground arith)

    meant :
        (answers' : List Bool) (limit size : ℕ)
        → size ≡ (if ltb capacity count then capacity else count)
        → (exit : Exit) → Verdict count 0 size [] elements exit
        → Short exit mem.answers answers'
        → MainVerdict input mem.answers answers' exit
    meant answers' limit size g (finished m) (ks, e, f) t = (
      capacity,
      count,
      elements,
      ks,
      s,
      e,
      f ∙ omega arith ∙ ap (λ z. hits z [] ks) g ∙ fits ks (read_all-length count elements ks e),
    )
    meant answers' limit size g bad_sizes v t = absurd v
    meant answers' limit size g no_cache v t = absurd v
    meant answers' limit size g (bad_element i) v t = (capacity, count, elements, s, v)
    meant answers' limit size g (no_page r) v t = (v, t)

-- With a fuel of 2^63 or more, for any answers of the allocator and any input `main` ends, and as many
-- blocks are freed as were allocated. If it counts hits, they are those of a cache of the capacity that was
-- read for the keys that were read. It complains of the sizes only if they cannot be read or one does not
-- count as positive or zero, and of an element only if the elements cannot all be read. It complains of a
-- page only for want of memory, and then one of the answers of the allocator that this run took is a
-- refusal or none is left, so that the next request is refused; of the cache only then too, or if both
-- sizes are above 2^61 - 1, so that the pointers of the table would not fit in memory.
pub main_lem :
    (fuel : ℕ) (heap : Heap (CacheEntry ℕ)) (mem : Memory) (input : Input)
    → 2 ^ 63 ≤ fuel
    → (exit : Exit) × (mem' : Memory) × (main fuel heap mem input ≡ some (exit, mem'))
      × (mem'.allocated + mem.freed ≡ mem.allocated + mem'.freed)
      × MainVerdict input mem.answers mem'.answers exit
unfolding main read_all
main_lem fuel heap mem input enough = elim (Option-cases (read_integer input)) [
  | inl e ↦ (bad_sizes, mem, rw (main, e) refl, refl, inl (rw (read_all, e) refl))
  | inr ((capacity, rest), e) ↦ elim (Option-cases (read_integer rest)) [
    | inl f ↦ (bad_sizes, mem, rw (main, e, f) refl, refl, inl (rw (read_all, e, f) refl))
    | inr ((count, elements), f) ↦
        let (exit, mem', h, b, v) =
          with_sizes_lem fuel capacity count heap mem input elements enough
            (record { rest = rest; first = e; second = f }) in
        (exit, mem', rw (main, e, f) h, b, v)
  ]
]
