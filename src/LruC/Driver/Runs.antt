-- ===== src/LruC/Driver/Runs.antt =====
-- The driver of 01-basics/lru-in-c/src/main.c: it ends, it leaks nothing, and it counts the hits.
use cpp_graduate.Base.{
  ℕ, zero, suc, ◌+◌, ◌*◌, ◌<◌, ◌≡◌, refl, ap, sym, subst, ◌∙◌, List, [], Option, none, some,
  if◌then◌else◌, length, take, inl, inr, Option-cases, arith,
}
use cpp_graduate.Lru.{Node}
use cpp_graduate.Lru.Spec.{touch, hits}
use cpp_graduate.Lru.Store.{keys}
use cpp_graduate.LruC.{Memory}
use cpp_graduate.LruC.Answers.{Taken-refl, Denied-earlier}
use cpp_graduate.LruC.Cache.{
  LruCache, LruResult, hit, miss, lru_no_memory, invalid_argument, index_error, Answer,
  lookup_update,
}
use cpp_graduate.LruC.Cache.Holds.{Holds}
use cpp_graduate.LruC.Cache.Outcome.{IsLoaded}
use cpp_graduate.LruC.Input.{Input, read_integer}
use cpp_graduate.LruC.Driver.{Exit, finished, bad_element, no_page, slow_get_page, close, serve}
use cpp_graduate.LruC.Driver.Requests.{
  read_all, Verdict, close_lem, Verdict-step, Answered, Wanted, Short, Short-later, IsRequested,
  request_lem,
}

-- The loop ends, with every block of the cache given back, its end means what it says, and an end for
-- want of memory comes after a refusal.
abbrev Served :
    ℕ → ℕ → LruCache ℕ → List (Node ℕ) → Memory → List ℕ → Input → Option (Exit × Memory) → Type 0
Served left n c l mem history input o =
    (exit : Exit) × (mem' : Memory) × (o ≡ some (exit, mem'))
    × (mem'.allocated + mem.freed + 3 * length l + 4 ≡ mem.allocated + mem'.freed)
    × Verdict left n c.capacity history input exit
    × Short exit mem.answers mem'.answers

-- What the loop does with an answer.
answer_step : ℕ → ℕ → ℕ → ℕ → Input → Answer ℕ → LruResult → Option (Exit × Memory)
unfolding serve close
answer_step fuel left i n rest a hit = serve fuel left (suc i) (suc n) a.cache a.mem rest
answer_step fuel left i n rest a miss = serve fuel left (suc i) n a.cache a.mem rest
answer_step fuel left i n rest a lru_no_memory = close fuel a.cache a.mem (no_page lru_no_memory)
answer_step fuel left i n rest a invalid_argument =
    close fuel a.cache a.mem (no_page invalid_argument)
answer_step fuel left i n rest a index_error = close fuel a.cache a.mem (no_page index_error)

step_lem :
    (fuel left i n key : ℕ) (c : LruCache ℕ) (mem : Memory) (input rest : Input) (a : Answer ℕ)
    → read_integer input ≡ some (key, rest)
    → lookup_update c key slow_get_page mem ≡ some a
    → serve fuel (suc left) i n c mem input ≡ answer_step fuel left i n rest a a.result
unfolding serve answer_step
step_lem fuel left i n key c mem input rest a e f = ap from_read e ∙ ap (from_lookup rest) f
  where
    from_lookup : Input → Option (Answer ℕ) → Option (Exit × Memory)
    from_lookup rest none = none
    from_lookup rest (some a) = answer_step fuel left i n rest a a.result

    from_read : Option (ℕ × Input) → Option (Exit × Memory)
    from_read none = close fuel c mem (bad_element (i + 1))
    from_read (some (key, rest)) = from_lookup rest (lookup_update c key slow_get_page mem)

-- After a request: the loop goes on with the keys of the longer history, or it closes.
answer_lem :
    (fuel left i n key : ℕ) (c : LruCache ℕ) (l l' : List (Node ℕ)) (mem : Memory)
    (history : List ℕ) (input rest : Input) (a : Answer ℕ)
    → IsRequested c key history mem l a l'
    → read_integer input ≡ some (key, rest)
    → c.capacity < fuel
    → ((m : ℕ)
        → keys l' ≡ take a.cache.capacity (touch history key)
        → Served left m a.cache l' a.mem
            (touch history key)
            rest
            (serve fuel left (suc i) m a.cache a.mem rest))
    → (r : LruResult) → Answered r c.capacity key history l'
    → Wanted r mem.answers a.mem.answers
    → Served (suc left) n c l mem history input (answer_step fuel left i n rest a r)
unfolding answer_step
answer_lem fuel left i n key c l l' mem history input rest a s e lt ih hit (inside, w) t =
    let (exit, mem', f, b, v, short) =
      ih (suc n) (w ∙ ap (λ z. take z (touch history key)) (sym s.capacity)) in
    let v' = subst (λ z. Verdict left (suc n) z (touch history key) rest exit) s.capacity v in
    (
      exit,
      mem',
      f,
      omega (arith, b, s.blocks),
      Verdict-step left n c.capacity key history input rest exit e (rw (inside, if◌then◌else◌) v'),
      Short-later exit mem.answers a.mem.answers mem'.answers t short,
    )
answer_lem fuel left i n key c l l' mem history input rest a s e lt ih miss (outside, w) t =
    let (exit, mem', f, b, v, short) =
      ih n (w ∙ ap (λ z. take z (touch history key)) (sym s.capacity)) in
    let v' = subst (λ z. Verdict left n z (touch history key) rest exit) s.capacity v in
    (
      exit,
      mem',
      f,
      omega (arith, b, s.blocks),
      Verdict-step left n c.capacity key history input rest exit e (rw (outside, if◌then◌else◌) v'),
      Short-later exit mem.answers a.mem.answers mem'.answers t short,
    )
answer_lem fuel left i n key c l l' mem history input rest a s e lt ih lru_no_memory o t =
    let (mem', f, b, same) =
      close_lem fuel a.cache l' a.mem (no_page lru_no_memory) s.holds (omega (arith, s.capacity)) in
    (
      no_page lru_no_memory,
      mem',
      f,
      omega (arith, b, s.blocks),
      refl,
      Denied-earlier t (Taken-refl (sym same)),
    )
answer_lem fuel left i n key c l l' mem history input rest a s e lt ih invalid_argument o t =
    absurd o
answer_lem fuel left i n key c l l' mem history input rest a s e lt ih index_error o t = absurd o

pub serve_lem :
    (fuel left i n : ℕ) (c : LruCache ℕ) (l : List (Node ℕ)) (mem : Memory) (history : List ℕ)
    (input : Input)
    → Holds c l
    → IsLoaded slow_get_page l
    → keys l ≡ take c.capacity history
    → c.capacity < fuel
    → Served left n c l mem history input (serve fuel left i n c mem input)
unfolding serve read_all hits
serve_lem fuel zero i n c l mem history input v loaded w lt =
    let (mem', e, b, same) = close_lem fuel c l mem (finished n) v lt in
    (finished n, mem', e, b, ([], refl, omega arith), tt)
serve_lem fuel (suc left) i n c l mem history input v loaded w lt =
    elim (Option-cases (read_integer input)) [
      | inl e ↦
          let (mem', f, b, same) = close_lem fuel c l mem (bad_element (i + 1)) v lt in
          (bad_element (i + 1), mem', rw (serve, e) f, b, rw (read_all, e) refl, tt)
      | inr ((key, rest), e) ↦
          let (a, l', f, s) = request_lem c key history mem l v loaded w in
          subst (Served (suc left) n c l mem history input)
            (sym (step_lem fuel left i n key c mem input rest a e f))
            (answer_lem fuel left i n key c l l' mem history input rest a s e lt
              (λ m w'.
                serve_lem fuel left (suc i) m a.cache l' a.mem (touch history key) rest s.holds
                  s.loaded w' (omega (arith, s.capacity)))
              a.result s.answer s.wanted)
    ]
