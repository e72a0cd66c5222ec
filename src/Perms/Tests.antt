-- ===== src/Perms/Tests.antt =====
-- Runs of the permutation code on the inputs of permtests.cc, and the theorems at concrete inputs.
use cpp_graduate.Base.{
  ℕ, zero, suc, ◌≡◌, refl, sym, ap, ◌∙◌, List, [], ◌∷◌, ◌++◌, true, arith, length, some, ◌↔◌,
}
use cpp_graduate.Perms
use cpp_graduate.Perms.Idom.{InDomain, at, put, iota}
use cpp_graduate.Perms.Loops.{PermLoop, make_loop, add, inverse, apply, apply_table, check, valid}
use cpp_graduate.Perms.Loops.Canonical.{IsCanonical}
use cpp_graduate.Perms.Loops.Normal.{make_loop-rotation, check-valid_iff}
use cpp_graduate.Perms.Loops.Apply.{apply-inverse}
use cpp_graduate.Perms.Loops.Table.{apply_table-apply}
use cpp_graduate.Perms.Product.{apply_loops, covered, IsLoop}
use cpp_graduate.Perms.Create.{create_loops, simplify_loops}
use cpp_graduate.Perms.Create.Trace.{IsPermTable}
use cpp_graduate.Perms.Create.Rounds.{IsDecomposed, create_loops-IsDecomposed}
use cpp_graduate.Perms.Create.Simplify.{IsSimplified, simplify_loops-IsSimplified}
use cpp_graduate.Perms.Permutation
use cpp_graduate.Perms.Permutation.{Permutation, make_perm, product, invert, apply_each, lmul}
use cpp_graduate.Perms.Permutation.Valid.{IsValid, make_perm-IsValid}
use cpp_graduate.Perms.Permutation.Algebra.{product-apply, invert-apply, apply_each-table}

abbrev loop_of : List ℕ → PermLoop
loop_of l = record { loop = l }

-- What the runs compute with.
program : Unit {0}
unfolding make_perm apply_table at put Perms.Create.trace Perms.Create.is_marked Perms.Create.mark
    Perms.Create.find_false create_loops add make_loop iota
program = tt

-- test_permloop: (4, 2, 1, 3) is (1 3 4 2), and sends [1, 2, 3, 4] to [3, 1, 4, 2].
permloop_run :
    (make_loop (4 ∷ 2 ∷ 1 ∷ 3 ∷ []) ≡ loop_of (1 ∷ 3 ∷ 4 ∷ 2 ∷ []))
    × (apply_table 1 4 (loop_of (1 ∷ 3 ∷ 4 ∷ 2 ∷ [])) (1 ∷ 2 ∷ 3 ∷ 4 ∷ [])
        ≡ some (3 ∷ 1 ∷ 4 ∷ 2 ∷ []))
unfolding make_loop apply_table at put
permloop_run = (refl, refl)

-- test_simple_perm: the cycles of [9, 2, 3, 1, 7, 6, 8, 5, 4].
simple_perm_run :
    create_loops 1 (9 ∷ 2 ∷ 3 ∷ 1 ∷ 7 ∷ 6 ∷ 8 ∷ 5 ∷ 4 ∷ [])
    ≡ some (
        loop_of (1 ∷ 9 ∷ 4 ∷ [])
        ∷ loop_of (2 ∷ [])
        ∷ loop_of (3 ∷ [])
        ∷ loop_of (5 ∷ 7 ∷ 8 ∷ [])
        ∷ loop_of (6 ∷ [])
        ∷ [])
unfolding program
simple_perm_run = refl

-- test_perm_mult: the constructor on (1 3 2)(1 2 4)(1 4 3 2).
perm_mult_run :
    make_perm 1 4
      (loop_of (1 ∷ 3 ∷ 2 ∷ []) ∷ loop_of (1 ∷ 2 ∷ 4 ∷ []) ∷ loop_of (1 ∷ 4 ∷ 3 ∷ 2 ∷ []) ∷ [])
    ≡ some (record { loops = loop_of (4 ∷ []) ∷ loop_of (3 ∷ []) ∷ loop_of (1 ∷ 2 ∷ []) ∷ [] })
unfolding program
perm_mult_run = refl

-- Concrete data for the theorems: the domain [1, 3], the loops (1 3 2) and (1 2), a table.
abbrev three : PermLoop
three = loop_of (1 ∷ 3 ∷ 2 ∷ [])

abbrev two : PermLoop
two = loop_of (1 ∷ 2 ∷ [])

three-IsLoop : IsLoop 1 3 three
three-IsLoop = record {
  canonical = record {
    nonempty = omega arith;
    unique = (refl, (refl, (refl, tt)));
    least = omega arith;
  };
  domain = omega arith;
}

two-IsLoop : IsLoop 1 3 two
two-IsLoop = record {
  canonical = record { nonempty = omega arith; unique = (refl, (refl, tt)); least = omega arith };
  domain = omega arith;
}

swapped_maps : (v : ℕ) → InDomain 1 3 v → InDomain 1 3 (at 1 (2 ∷ 1 ∷ 3 ∷ []) v)
unfolding at
swapped_maps zero h = absurd (omega arith)
swapped_maps (suc zero) h = omega arith
swapped_maps (suc (suc zero)) h = omega arith
swapped_maps (suc (suc (suc zero))) h = omega arith
swapped_maps (suc (suc (suc (suc v)))) h = absurd (omega arith)

swapped_twice : (v : ℕ) → InDomain 1 3 v → at 1 (2 ∷ 1 ∷ 3 ∷ []) (at 1 (2 ∷ 1 ∷ 3 ∷ []) v) ≡ v
unfolding at
swapped_twice zero h = absurd (omega arith)
swapped_twice (suc zero) h = refl
swapped_twice (suc (suc zero)) h = refl
swapped_twice (suc (suc (suc zero))) h = refl
swapped_twice (suc (suc (suc (suc v)))) h = absurd (omega arith)

swapped-IsPermTable : IsPermTable 1 3 (2 ∷ 1 ∷ 3 ∷ [])
swapped-IsPermTable = record {
  size = refl;
  maps = swapped_maps;
  injective =
      λ v w hv hw e. sym (swapped_twice v hv) ∙ ap (at 1 (2 ∷ 1 ∷ 3 ∷ [])) e ∙ swapped_twice w hw;
}

create_loops-IsDecomposed_example :
    (ls : List PermLoop) × (create_loops 1 (2 ∷ 1 ∷ 3 ∷ []) ≡ some ls)
    × IsDecomposed 1 3 (2 ∷ 1 ∷ 3 ∷ []) ls
create_loops-IsDecomposed_example =
    create_loops-IsDecomposed 1 3 (2 ∷ 1 ∷ 3 ∷ []) swapped-IsPermTable (omega arith)

simplify_loops-IsSimplified_example :
    (out : List PermLoop) × (simplify_loops 1 3 (three ∷ two ∷ []) ≡ some out)
    × IsSimplified 1 3 (three ∷ two ∷ []) out
simplify_loops-IsSimplified_example =
    simplify_loops-IsSimplified 1 3 (three ∷ two ∷ []) (omega arith)
      (three-IsLoop, (two-IsLoop, tt))

make_perm-IsValid_example :
    (p : Permutation) × (make_perm 1 3 (three ∷ two ∷ []) ≡ some p)
    × IsValid 1 3 p
    × ((v : ℕ) → InDomain 1 3 v → Permutation.apply p v ≡ apply_loops (three ∷ two ∷ []) v)
make_perm-IsValid_example =
    make_perm-IsValid 1 3 (three ∷ two ∷ []) (omega arith) (three-IsLoop, (two-IsLoop, tt))

abbrev cycle : Permutation
cycle = record { loops = three ∷ [] }

cycle_covers : (v : ℕ) → InDomain 1 3 v → covered (three ∷ []) v ≡ true
unfolding covered
cycle_covers zero h = absurd (omega arith)
cycle_covers (suc zero) h = refl
cycle_covers (suc (suc zero)) h = refl
cycle_covers (suc (suc (suc zero))) h = refl
cycle_covers (suc (suc (suc (suc v)))) h = absurd (omega arith)

cycle-IsValid : IsValid 1 3 cycle
cycle-IsValid = record {
  loops = (three-IsLoop, tt);
  disjoint = (tt, tt);
  covers = cycle_covers;
  sorted = (tt, tt);
}

product-apply_example :
    (r : Permutation) × (product 1 3 cycle cycle ≡ some r)
    × IsValid 1 3 r
    × ((v : ℕ)
        → InDomain 1 3 v
        → Permutation.apply r v ≡ Permutation.apply cycle (Permutation.apply cycle v))
product-apply_example = product-apply 1 3 cycle cycle (omega arith) cycle-IsValid cycle-IsValid

invert-apply_example :
    IsValid 1 3 (invert cycle)
    × ((v : ℕ) → Permutation.apply (invert cycle) (Permutation.apply cycle v) ≡ v)
invert-apply_example = invert-apply 1 3 cycle cycle-IsValid

apply_each-table_example :
    (t : List ℕ) × (apply_each 1 3 cycle.loops (5 ∷ 6 ∷ 7 ∷ []) ≡ some t)
    × (length t ≡ 3)
    × ((v : ℕ) → InDomain 1 3 v → at 1 t v ≡ at 1 (5 ∷ 6 ∷ 7 ∷ []) (Permutation.apply cycle v))
apply_each-table_example =
    apply_each-table 1 3 cycle (5 ∷ 6 ∷ 7 ∷ []) (omega arith) cycle-IsValid refl

apply_table-apply_example :
    (t : List ℕ) × (apply_table 1 3 three (5 ∷ 6 ∷ 7 ∷ []) ≡ some t)
    × (length t ≡ 3)
    × ((v : ℕ) → InDomain 1 3 v → at 1 t v ≡ at 1 (5 ∷ 6 ∷ 7 ∷ []) (apply three v))
apply_table-apply_example =
    apply_table-apply 1 3 three (5 ∷ 6 ∷ 7 ∷ []) (omega arith) (omega arith)
      (refl, (refl, (refl, tt))) (omega arith) refl

make_loop-rotation_example : make_loop ((1 ∷ []) ++ 3 ∷ 4 ∷ []) ≡ make_loop ((3 ∷ 4 ∷ []) ++ 1 ∷ [])
make_loop-rotation_example = make_loop-rotation (1 ∷ []) (3 ∷ 4 ∷ []) (refl, (refl, (refl, tt)))

apply-inverse_example : apply (inverse three) (apply three 3) ≡ 3
apply-inverse_example = apply-inverse three 3 (refl, (refl, (refl, tt)))

check-valid_iff_example : (check three ≡ valid) ↔ IsCanonical three
check-valid_iff_example = check-valid_iff three
