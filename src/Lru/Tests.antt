-- ===== src/Lru/Tests.antt =====
-- Runs of the LRU cache (01-basics/lru-in-cxx, tests/cache_tests.cc), and the theorems at them.
use cpp_graduate.Base.{ℕ, ◌+◌, ◌≡◌, refl, List, [], ◌∷◌, foldl}
use cpp_graduate.Lru
use cpp_graduate.Lru.{Cache, lookup_update, make_cache, serve}
use cpp_graduate.Lru.Spec.{touch, window, hits}
use cpp_graduate.Lru.Store.{keys}
use cpp_graduate.Lru.Refine.{IsValid, IsServed, make_cache-IsValid}
use cpp_graduate.Lru.Recency.{serve-reverse}
use cpp_graduate.Lru.Requests.{lookup_update-IsServed, serve-hits}

-- The page of a key is the key, as in cache.cc.
abbrev slow_get_page : ℕ → ℕ
slow_get_page key = key

abbrev requests : List ℕ
requests = 1 ∷ 2 ∷ 1 ∷ 3 ∷ 2 ∷ 1 ∷ []

serve_run :
    ((serve requests slow_get_page (make_cache 2) 0).1 ≡ 1)
    × (keys (serve requests slow_get_page (make_cache 2) 0).0.cache ≡ 1 ∷ 2 ∷ [])
unfolding serve Lru.hash_find make_cache
serve_run = (refl, refl)

lookup_update-IsServed_example :
    IsServed
      (make_cache 2)
      7
      (lookup_update (make_cache 2) 7 slow_get_page).0
      (lookup_update (make_cache 2) 7 slow_get_page).1
lookup_update-IsServed_example =
    lookup_update-IsServed (make_cache 2) 7 slow_get_page (make_cache-IsValid 2)

serve-hits_example :
    IsValid (serve requests slow_get_page (make_cache 2) 0).0
    × (keys (serve requests slow_get_page (make_cache 2) 0).0.cache
        ≡ window (make_cache {T = ℕ} 2).sz (foldl touch [] requests))
    × ((serve requests slow_get_page (make_cache 2) 0).1
        ≡ 0 + hits (make_cache {T = ℕ} 2).sz [] requests)
unfolding make_cache
serve-hits_example =
    serve-hits requests [] slow_get_page (make_cache 2) 0 (make_cache-IsValid 2) refl

serve-reverse_example :
    keys (serve (4 ∷ 9 ∷ []) slow_get_page (make_cache 2) 0).0.cache ≡ 9 ∷ 4 ∷ []
serve-reverse_example =
    serve-reverse (4 ∷ 9 ∷ []) slow_get_page (make_cache 2) 0 (make_cache-IsValid 2)
      (refl, (refl, tt)) (unfold make_cache in refl)
