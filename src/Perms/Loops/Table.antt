-- ===== src/Perms/Loops/Table.antt =====
-- `PermLoop::apply(tbeg, tend)` of permloops.hpp: the in-place shift of a table along the loop.
use cpp_graduate.Base.{
  ℕ, ◌+◌, ◌-◌, ◌<◌, ◌≡◌, ◌≢◌, refl, ap, sym, ◌∙◌, List, [], ◌∷◌, false, arith, ◌==◌, if◌then◌else◌,
  length, elem, All, length-set, some,
}
use cpp_graduate.Perms.Idom.{InDomain, at, put, at-put}
use cpp_graduate.Perms.Loops.{PermLoop, back, shift, apply_table, apply}
use cpp_graduate.Perms.Loops.Lists.{Unique, next, All-get_or}
use cpp_graduate.Perms.Loops.Apply.{apply-cyclic}

-- What position `v` holds in the end, if `l` is still to be shifted and `tmp` is the saved value.
read : ℕ → List ℕ → ℕ → ℕ → List ℕ → ℕ
read start table tmp v [] = at start table v
read start table tmp v (c ∷ []) = if c == v then tmp else at start table v
read start table tmp v (c ∷ z ∷ ls) =
    if c == v then at start table z else read start table tmp v (z ∷ ls)

pub length-put :
    (start : ℕ) (table : List ℕ) (c a : ℕ) → length (put start table c a) ≡ length table
unfolding put
length-put start table c a = length-set table (c - start) a

pub length-shift :
    (start first c : ℕ) (table ls : List ℕ) → length (shift start first c table ls).0 ≡ length table
unfolding shift
length-shift start first c table [] = refl
length-shift start first c table (l ∷ ls) =
    length-shift start first l (if l == first then table else put start table c (at start table l))
      ls
    ∙ ground (arith, length-put start table c (at start table l))

module _ (start fin : ℕ) where
  -- A write at a position that the rest of the loop does not name.
  read-put :
      (table : List ℕ) (tmp v c a : ℕ) (ls : List ℕ)
      → length table ≡ fin - start + 1
      → InDomain start fin v
      → InDomain start fin c
      → All (InDomain start fin) ls
      → c ≢ v
      → elem c ls ≡ false
      → read start (put start table c a) tmp v ls ≡ read start table tmp v ls
  unfolding read
  read-put table tmp v c a [] n hv hc hl ne out = ground (arith, at-put start fin table c v a)
  read-put table tmp v c a (z ∷ []) n hv hc hl ne out = ground (arith, at-put start fin table c v a)
  read-put table tmp v c a (z ∷ w ∷ ls) n hv hc hl ne out =
      ground (arith, at-put start fin table c w a, read-put table tmp v c a (w ∷ ls))

  read_absent :
      (table : List ℕ) (tmp v : ℕ) (ls : List ℕ)
      → elem v ls ≡ false
      → read start table tmp v ls ≡ at start table v
  unfolding read
  read_absent table tmp v [] h = refl
  read_absent table tmp v (c ∷ []) h = ground arith
  read_absent table tmp v (c ∷ z ∷ ls) h = ground (arith, read_absent table tmp v (z ∷ ls))

  -- The loop and the last write, from a position behind the first.
  shift-read :
      (first tmp v c : ℕ) (table ls : List ℕ)
      → length table ≡ fin - start + 1
      → InDomain start fin v
      → InDomain start fin c
      → All (InDomain start fin) ls
      → Unique (c ∷ ls)
      → elem first ls ≡ false
      → at start (put start (shift start first c table ls).0 (shift start first c table ls).1 tmp) v
        ≡ read start table tmp v (c ∷ ls)
  unfolding shift read
  shift-read first tmp v c table [] n hv hc hl u out = at-put start fin table c v tmp hc hv n
  shift-read first tmp v c table (z ∷ ls) n hv hc hl u out =
      let t = put start table c (at start table z) in
      ground (
        arith,
        shift-read first tmp v z t ls,
        length-put start table c (at start table z),
        at-put start fin table c v (at start table z),
        read_absent t tmp v (z ∷ ls),
        read-put table tmp v c (at start table z) (z ∷ ls),
      )

  read-next :
      (table : List ℕ) (d v : ℕ) (ls : List ℕ)
      → read start table (at start table d) v ls ≡ at start table (next d v ls)
  unfolding read next
  read-next table d v [] = refl
  read-next table d v (c ∷ []) = ground arith
  read-next table d v (c ∷ z ∷ ls) = ground (arith, read-next table d v (z ∷ ls))

  shift_first :
      (x : ℕ) (table xs : List ℕ) → shift start x x table (x ∷ xs) ≡ shift start x x table xs
  unfolding shift
  shift_first x table xs = ground arith

  -- The `assert`s pass on a loop of the domain and a table of its size.
  apply_table-cons :
      (x : ℕ) (xs table : List ℕ)
      → start < fin
      → All (InDomain start fin) (x ∷ xs)
      → length table ≡ fin - start + 1
      → apply_table start fin (record { loop = x ∷ xs }) table
        ≡ some
            (put start (shift start x x table xs).0 (shift start x x table xs).1 (at start table x))
  unfolding apply_table
  apply_table-cons x xs table lt hl n =
      let last : InDomain start fin (back (x ∷ xs)) =
        All-get_or (InDomain start fin) (x ∷ xs) (length (x ∷ xs) - 1) hl (omega arith) in
      ground (arith, shift_first x table xs)

  -- The table after the shift holds at each position what it held at the image of the position:
  -- permuting the table is `apply` of each element, and the asserts do not fail.
  pub apply_table-apply :
      (p : PermLoop) (table : List ℕ)
      → start < fin
      → 0 < length p.loop
      → Unique p.loop
      → All (InDomain start fin) p.loop
      → length table ≡ fin - start + 1
      → (t : List ℕ) × (apply_table start fin p table ≡ some t)
        × (length t ≡ fin - start + 1)
        × ((v : ℕ) → InDomain start fin v → at start t v ≡ at start table (apply p v))
  apply_table-apply p table lt ne u hl n = go p.loop ne u hl
    where
      go :
          (l : List ℕ)
          → 0 < length l
          → Unique l
          → All (InDomain start fin) l
          → (t : List ℕ) × (apply_table start fin (record { loop = l }) table ≡ some t)
            × (length t ≡ fin - start + 1)
            × ((v : ℕ)
                → InDomain start fin v
                → at start t v ≡ at start table (apply (record { loop = l }) v))
      go [] ne u hl = absurd (omega arith)
      go (x ∷ xs) ne u hl = (
        put start (shift start x x table xs).0 (shift start x x table xs).1 (at start table x),
        apply_table-cons x xs table lt hl n,
        length-put start _ _ _ ∙ length-shift start x x table xs ∙ n,
        λ v hv.
            shift-read x (at start table x) v x table xs n hv hl.0 hl.1 u u.0
            ∙ read-next table x v (x ∷ xs)
            ∙ ap (at start table) (sym (apply-cyclic (record { loop = x ∷ xs }) v)),
      )
