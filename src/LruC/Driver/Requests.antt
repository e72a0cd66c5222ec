-- ===== src/LruC/Driver/Requests.antt =====
-- One request of the driver of 01-basics/lru-in-c/src/main.c, and what its ends say.
use native.Mathlib.Decide.{ℕ_discrete}
use cpp_graduate.Base.{
  ℕ, zero, suc, ◌+◌, ◌*◌, ◌<◌, ◌≡◌, refl, ap, sym, ◌∙◌, List, [], ◌∷◌, Bool, true, false, Option,
  none, some, if◌then◌else◌, length, take, elem, replicate, arith,
}
use cpp_graduate.Lru.{Node}
use cpp_graduate.Lru.Spec.{touch, hits}
use cpp_graduate.Lru.Store.{keys}
use cpp_graduate.Lru.Refine.{take-touch}
use cpp_graduate.LruC.{Memory}
use cpp_graduate.LruC.Answers.{Taken, Denied, Taken-refl, Refuses-Denied, Denied-later}
use cpp_graduate.LruC.Cache.{
  LruCache, LruResult, hit, miss, lru_no_memory, invalid_argument, index_error, Answer,
  lookup_update,
}
use cpp_graduate.LruC.Cache.Holds.{Holds}
use cpp_graduate.LruC.Cache.Outcome.{IsLoaded, Outcome, Asked}
use cpp_graduate.LruC.Cache.Refine.{lookup_update-IsAnswered}
use cpp_graduate.LruC.Lifetime.Laws.{lru_destroy_lem}
use cpp_graduate.LruC.Input.{Input, read_integer}
use cpp_graduate.LruC.Driver.{
  Exit, finished, bad_sizes, no_cache, bad_element, no_page, slow_get_page, close,
}

-- The next integers of the input, as many as are asked for.
unfoldable pub read_all : ℕ → Input → Option (List ℕ)
read_all zero input = some []
read_all (suc n) input = elim (read_integer input) [
  | none ↦ none
  | some (key, rest) ↦ elim (read_all n rest) [ none ↦ none | some ks ↦ some (key ∷ ks) ]
]

-- What an end of the loop means, for the elements that were left and the hits so far.
abbrev pub Verdict : ℕ → ℕ → ℕ → List ℕ → Input → Exit → Type 0
Verdict left n capacity history input (finished m) =
    (ks : List ℕ) × (read_all left input ≡ some ks) × (m ≡ n + hits capacity history ks)
Verdict left n capacity history input bad_sizes = ⊥
Verdict left n capacity history input no_cache = ⊥
Verdict left n capacity history input (bad_element i) = read_all left input ≡ none
Verdict left n capacity history input (no_page r) = r ≡ lru_no_memory

pub close_lem :
    (fuel : ℕ) (c : LruCache ℕ) (l : List (Node ℕ)) (mem : Memory) (exit : Exit)
    → Holds c l
    → c.capacity < fuel
    → (mem' : Memory) × (close fuel c mem exit ≡ some (exit, mem'))
      × (mem'.allocated + mem.freed + 3 * length l + 4 ≡ mem.allocated + mem'.freed)
      × (mem'.answers ≡ mem.answers)
unfolding close
close_lem fuel c l mem exit v lt =
    let (mem', e, f, a, asked) = lru_destroy_lem fuel c l mem v.stores (omega (arith, v.bounded)) in
    (mem', rw (close, e) refl, omega (arith, f, a), asked)

-- One more element is read.
pub Verdict-step :
    (left n capacity key : ℕ) (history : List ℕ) (input rest : Input) (exit : Exit)
    → read_integer input ≡ some (key, rest)
    → Verdict left
        (if elem key (take capacity history) then suc n else n)
        capacity
        (touch history key)
        rest
        exit
    → Verdict (suc left) n capacity history input exit
unfolding read_all hits
Verdict-step left n capacity key history input rest (finished m) e (ks, f, g) =
    (key ∷ ks, rw (read_all, e, f) refl, g ∙ counted (elem key (take capacity history)) n _)
  where
    counted : (b : Bool) (n m : ℕ) → (if b then suc n else n) + m ≡ n + (if b then suc m else m)
    counted true n m = omega arith
    counted false n m = refl
Verdict-step left n capacity key history input rest bad_sizes e v = v
Verdict-step left n capacity key history input rest no_cache e v = v
Verdict-step left n capacity key history input rest (bad_element i) e v = rw (read_all, e, v) refl
Verdict-step left n capacity key history input rest (no_page r) e v = v

-- What a request answers, against the keys that were requested before.
abbrev pub Answered : LruResult → ℕ → ℕ → List ℕ → List (Node ℕ) → Type 0
Answered hit capacity key history l =
    (elem key (take capacity history) ≡ true) × (keys l ≡ take capacity (touch history key))
Answered miss capacity key history l =
    (elem key (take capacity history) ≡ false) × (keys l ≡ take capacity (touch history key))
Answered lru_no_memory capacity key history l = Unit
Answered invalid_argument capacity key history l = ⊥
Answered index_error capacity key history l = ⊥

answered :
    (r : LruResult) (capacity key : ℕ) (history : List ℕ) (l l' : List (Node ℕ)) (v : Option ℕ)
    → keys l ≡ take capacity history
    → Outcome r slow_get_page capacity key l l' v
    → Answered r capacity key history l'
answered hit capacity key history l l' v w (e, f, g) = (
  ap (elem key) (sym w) ∙ e,
  f ∙ ap (λ z. take capacity (touch z key)) w ∙ take-touch capacity key history,
)
answered miss capacity key history l l' v w (e, f, g) = (
  ap (elem key) (sym w) ∙ e,
  f ∙ ap (λ z. take capacity (touch z key)) w ∙ take-touch capacity key history,
)
answered lru_no_memory capacity key history l l' v w o = tt
answered invalid_argument capacity key history l l' v w o = o
answered index_error capacity key history l l' v w o = o

-- A request that finds no memory was denied it; any other may have taken answers.
abbrev pub Wanted : LruResult → List Bool → List Bool → Type 0
Wanted lru_no_memory answers answers' = Denied answers answers'
Wanted r answers answers' = Taken answers answers'

wanted : (r : LruResult) (a b : List Bool) → Asked r a b → Wanted r a b
wanted hit a b e = Taken-refl e
wanted miss a b e = (true ∷ true ∷ true ∷ [], e)
wanted lru_no_memory a b (n, rest, lt, e, r) = Denied-later (replicate n true, e) (Refuses-Denied r)
wanted invalid_argument a b o = absurd o
wanted index_error a b o = absurd o

-- An end for want of memory is one after a refusal, of all the answers from one state to the other.
abbrev pub Short : Exit → List Bool → List Bool → Type 0
Short (no_page r) answers answers' = Denied answers answers'
Short exit answers answers' = Unit

pub Short-later : (exit : Exit) (a b c : List Bool) → Taken a b → Short exit b c → Short exit a c
Short-later (finished n) a b c t s = tt
Short-later bad_sizes a b c t s = tt
Short-later no_cache a b c t s = tt
Short-later (bad_element i) a b c t s = tt
Short-later (no_page r) a b c t s = Denied-later t s

-- A request at any capacity.
pub record IsRequested (c : LruCache ℕ) (key : ℕ) (history : List ℕ) (mem : Memory)
    (l : List (Node ℕ)) (a : Answer ℕ) (l' : List (Node ℕ)) : Type 0 where
  pub holds : Holds a.cache l'
  pub capacity : a.cache.capacity ≡ c.capacity
  pub loaded : IsLoaded slow_get_page l'
  pub answer : Answered a.result c.capacity key history l'
  pub wanted : Wanted a.result mem.answers a.mem.answers
  pub blocks :
      a.mem.allocated + mem.freed + 3 * length l ≡ mem.allocated + a.mem.freed + 3 * length l'

pub request_lem :
    (c : LruCache ℕ) (key : ℕ) (history : List ℕ) (mem : Memory) (l : List (Node ℕ))
    → Holds c l
    → IsLoaded slow_get_page l
    → keys l ≡ take c.capacity history
    → (a : Answer ℕ) × (l' : List (Node ℕ)) × (lookup_update c key slow_get_page mem ≡ some a)
      × IsRequested c key history mem l a l'
unfolding lookup_update
request_lem c key history mem l v loaded w = elim (ℕ_discrete c.capacity 0) [
  | no ne ↦
      let (a, l', e, s) = lookup_update-IsAnswered c key slow_get_page mem l v loaded ne in
      (
        a,
        l',
        e,
        record {
          holds = s.holds;
          capacity = s.capacity;
          loaded = s.loaded;
          answer = answered a.result c.capacity key history l l' a.value w s.outcome;
          wanted = wanted a.result mem.answers a.mem.answers s.asked;
          blocks = s.blocks;
        },
      )
  | yes z ↦ (
    record { result = miss; cache = c; mem = mem; value = some (slow_get_page key) },
    l,
    rw (z, if◌then◌else◌) refl,
    record {
      holds = v;
      capacity = refl;
      loaded = loaded;
      answer = rw z (refl, w ∙ ap (λ n. take n history) z);
      wanted = Taken-refl refl;
      blocks = refl;
    },
  )
]
