-- ===== src/Lru/Spec.antt =====
-- What an LRU cache promises (01-basics/lru-in-cxx): the keys by recency, with no nodes and no index.
use cpp_graduate.Base.{ℕ, suc, List, [], ◌∷◌, ◌==◌, if◌then◌else◌, take, elem}

-- The list without the first `k`.
unfoldable pub remove : ℕ → List ℕ → List ℕ
remove k [] = []
remove k (x ∷ xs) = if x == k then xs else x ∷ remove k xs

-- The keys that were ever requested, the most recent first.
unfoldable pub touch : List ℕ → ℕ → List ℕ
unfolding remove
touch history key = key ∷ remove key history

-- The keys in a cache of `sz` entries are the `sz` most recent ones.
abbrev pub window : ℕ → List ℕ → List ℕ
window sz history = take sz history

-- The hits of a sequence of requests after a history.
unfoldable pub hits : ℕ → List ℕ → List ℕ → ℕ
unfolding touch
hits sz history [] = 0
hits sz history (key ∷ keys) =
    let rest = hits sz (touch history key) keys in
    if elem key (window sz history) then suc rest else rest
