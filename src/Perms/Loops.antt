-- ===== src/Perms/Loops.antt =====
-- permloops.hpp: the class `PermLoop`, a cycle (a c d) of elements of a domain. The vector `loop_` is
-- the field `loop`; an iterator into it is the suffix that it points at. `front()` of an empty
-- vector, which no constructed loop is, reads 0.
pub mod Lists
pub mod Canonical
pub mod Normal
pub mod Apply
pub mod Table
use cpp_graduate.Base.{
  ℕ, zero, suc, ◌+◌, ◌-◌, List, [], ◌∷◌, ◌++◌, reverse, Bool, true, false, not, ◌&&◌, Option, none,
  some, ltb, leb, ◌==◌, if◌then◌else◌, length, get_or, take, drop, elem,
}
use cpp_graduate.Perms.Idom.{at, put}

pub record PermLoop : Type 0 where
  pub loop : List ℕ

abbrev pub front : List ℕ → ℕ
front l = get_or l 0 0

-- `back()`
abbrev pub back : List ℕ → ℕ
back l = get_or l (length l - 1) 0

-- `std::find`
unfoldable pub find : ℕ → List ℕ → List ℕ
find x [] = []
find x (y ∷ ys) = if y == x then y ∷ ys else find x ys

-- `std::min_element`, the loop: the smallest value so far, its index, and the index that is read
unfoldable pub min_index : ℕ → ℕ → ℕ → List ℕ → ℕ
min_index m mi i [] = mi
min_index m mi i (y ∷ ys) =
    min_index (if ltb y m then y else m) (if ltb y m then i else mi) (suc i) ys

-- `std::rotate(begin, begin + i, end)`
abbrev pub rotate : List ℕ → ℕ → List ℕ
rotate l i = drop i l ++ take i l

-- `reroll`: the smallest element first
unfoldable pub reroll : PermLoop → PermLoop
unfolding min_index
reroll p = elim p.loop [ [] ↦ p | x ∷ xs ↦ record { loop = rotate (x ∷ xs) (min_index x 0 1 xs) } ]

-- The constructors, from an initializer list or a range.
unfoldable pub make_loop : List ℕ → PermLoop
unfolding reroll
make_loop ls = reroll (record { loop = ls })

-- `add`
unfoldable pub add : PermLoop → ℕ → PermLoop
unfolding reroll
add p x = reroll (record { loop = p.loop ++ x ∷ [] })

-- `inverse`: nothing below three elements, otherwise all but the first are reversed
unfoldable pub inverse : PermLoop → PermLoop
inverse p =
    if ltb (length p.loop) 3 then p else record { loop = take 1 p.loop ++ reverse (drop 1 p.loop) }

abbrev pub smallest : PermLoop → ℕ
smallest p = front p.loop

abbrev pub contains : PermLoop → ℕ → Bool
contains p x = elem x p.loop

-- The tests of `apply` on the iterator that `find` returned.
unfoldable pub apply_at : ℕ → List ℕ → List ℕ → ℕ
apply_at x all [] = x
apply_at x all (y ∷ []) = front all
apply_at x all (y ∷ z ∷ rest) = z

-- `apply(T x)`
unfoldable pub apply : PermLoop → ℕ → ℕ
unfolding find apply_at
apply p x = apply_at x p.loop (find x p.loop)

-- The loop of `apply(tbeg, tend)`; `nxt` is kept as the element at that position.
unfoldable pub shift : ℕ → ℕ → ℕ → List ℕ → List ℕ → List ℕ × ℕ
shift start first nxt table [] = (table, nxt)
shift start first nxt table (l ∷ ls) =
    shift start first l (if l == first then table else put start table nxt (at start table l)) ls

-- `apply(tbeg, tend)`; `none` is a failed `assert`.
unfoldable pub apply_table : ℕ → ℕ → PermLoop → List ℕ → Option (List ℕ)
unfolding shift
apply_table start fin p table =
    if ltb start fin
      && leb start (front p.loop)
      && leb (back p.loop) fin
      && length table == fin - start + 1
    then (let tmp = at start table (front p.loop) in
        let (t, nxt) = shift start (front p.loop) (front p.loop) table p.loop in
        some (put start t nxt tmp))
    else none

-- `equals`, which is `==` of vectors
unfoldable pub equals_elems : List ℕ → List ℕ → Bool
equals_elems [] [] = true
equals_elems (x ∷ xs) (y ∷ ys) = x == y && equals_elems xs ys
equals_elems _ _ = false

abbrev pub equals : PermLoop → PermLoop → Bool
equals p q = equals_elems q.loop p.loop

-- The loop of `less`, over two vectors of one size.
unfoldable pub less_elems : List ℕ → List ℕ → Bool
less_elems [] ys = false
less_elems (x ∷ xs) [] = false
less_elems (x ∷ xs) (y ∷ ys) = if x == y then less_elems xs ys else ltb x y

-- `less`: by size, then by the elements in order
unfoldable pub less : PermLoop → PermLoop → Bool
unfolding less_elems
less p q =
    if length p.loop == length q.loop
    then less_elems p.loop q.loop
    else ltb (length p.loop) (length q.loop)

-- The exceptions of `check`, in its order.
pub data CheckResult : Type 0 where
  valid : CheckResult
  empty_loop repeated_element unnormalized : CheckResult

-- `std::unordered_set<T> uniqs(begin, end)`, as the list of the elements that were inserted
unfoldable pub uniqs : List ℕ → List ℕ
uniqs [] = []
uniqs (x ∷ xs) = let rest = uniqs xs in if elem x rest then rest else x ∷ rest

-- `check`
unfoldable pub check : PermLoop → CheckResult
unfolding uniqs min_index
check p = elim p.loop [
  | [] ↦ empty_loop
  | x ∷ xs ↦
      if length (uniqs (x ∷ xs)) == length (x ∷ xs)
      then (if get_or (x ∷ xs) (min_index x 0 1 xs) 0 == x then valid else unnormalized)
      else repeated_element
]
