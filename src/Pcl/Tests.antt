-- ===== src/Pcl/Tests.antt =====
-- Runs of ParaCL programs (15-llvm/naive-pcl), and the theorems at them.
use cpp_graduate.Base.{
  ℕ, zero, suc, ◌<◌, ◌≡◌, refl, [], ◌∷◌, true, false, none, some, arith, ◌==◌, if◌then◌else◌,
}
use cpp_graduate.Base.Int.{ℤ, pos, negsuc, ◌-ℤ◌}
use cpp_graduate.Pcl
use cpp_graduate.Base.Int
use cpp_graduate.Pcl.{
  INode, null, value, decl, scope, operand, while_loop, if_then, Branches, no_branch, branch, State,
  Result, ok, thrown, plus, minus, assign, greater, less, std_out, std_in, div, calc, truthy,
}
use cpp_graduate.Pcl.Order.{calc-eval}
use cpp_graduate.Pcl.Loops.{Round, while_loop_ends}
use cpp_graduate.Pcl.Dump.{dump, titled, numbered, printed, shown, dump-preorder}

abbrev pub initial : State
initial = record { vals = λ d. none; input = pos 6 ∷ pos 3 ∷ []; output = [] }

-- a = ?; b = ?; print a / b; with the declarations 0 and 1
abbrev pub quotient : INode
quotient = scope (
    branch (operand (decl 0) assign (operand null std_in null)) (
      branch (operand (decl 1) assign (operand null std_in null))
        (branch (operand null std_out (operand (decl 0) div (decl 1))) no_branch)))

quotient_run : (s : State) × (calc true 6 quotient initial ≡ ok (pos 0) s) × (s.output ≡ pos 2 ∷ [])
unfolding calc Pcl.calc_node Pcl.operate Pcl.calc_branches Pcl.scan Pcl.set_value Pcl.print Pcl.int
    Pcl.read_decl
quotient_run = (_, refl, refl)

-- `7 / ?`: the number that is read first is compared with zero, the one that is read second divides.
division_run :
    calc true 3 (operand (value (pos 7)) div (operand null std_in null)) initial
    ≡ ok (pos 2) (record initial { input = [] })
unfolding calc Pcl.calc_node Pcl.operate Pcl.scan Pcl.nearest_int Pcl.int
division_run = refl

-- A number that is too big for `int` gives the largest one, and the stream has failed.
scan_run :
    Pcl.scan (record initial { input = pos 5000000000 ∷ pos 3 ∷ [] })
    ≡ ok (pos 2147483647) (record initial { input = [] })
unfolding Pcl.scan Pcl.nearest_int
scan_run = refl

abbrev counting : ℤ → State
counting v = record { vals = λ d. some v; input = []; output = [] }

calc-eval_example :
    calc false 3 (operand (operand (value (pos 7)) minus (decl 0)) div (decl 1)) (counting (pos 2))
    ≡ ok (pos 2) (counting (pos 2))
unfolding ◌-ℤ◌ Int.div_ℤ
calc-eval_example =
    calc-eval (counting (pos 2)) false 3
      (operand (operand (value (pos 7)) minus (decl 0)) div (decl 1)) (omega arith) (pos 2) refl

-- while (a > 0) a = a - 1;
abbrev positive : INode
positive = operand (decl 0) greater (value (pos 0))

abbrev decrement : INode
decrement = operand (decl 0) assign (operand (decl 0) minus (value (pos 1)))

abbrev left_over : State → ℕ
left_over s = elim (s.vals 0) [ none ↦ 0 | some (pos n) ↦ n | some (negsuc n) ↦ 0 ]

left_over_lem : (n : ℕ) (s : State) → s.vals 0 ≡ some (pos n) → left_over s ≡ n
left_over_lem n s e = rw (e, left_over) refl

abbrev Counts : State → Type 0
Counts s = (n : ℕ) × (s.vals 0 ≡ some (pos n)) × (n < 1000)

abbrev IsDone : State → Type 0
IsDone s = s.vals 0 ≡ some (pos 0)

pred_lem : (n : ℕ) → pos (suc n) -ℤ pos 1 ≡ pos n
unfolding ◌-ℤ◌
pred_lem n = ground arith

in_range_lem : (n : ℕ) → n < 1000 → Int.in_int32 (pos n) ≡ true
in_range_lem n lt = ground arith

positive_lem : (n : ℕ) → Int.ltb_ℤ (pos 0) (pos (suc n)) ≡ true
positive_lem n = ground arith

Counts-Round :
    (n : ℕ) (s : State)
    → s.vals 0 ≡ some (pos n)
    → n < 1000
    → Round true 3 positive decrement Counts IsDone left_over s
unfolding calc Pcl.calc_node Pcl.operate Pcl.read_decl Pcl.set_value Pcl.int
Counts-Round zero s e lt = record {
  test = pos 0;
  tested = s;
  condition = rw (e, Pcl.◌>>=◌, Pcl.both) refl;
  leaves = λ h. e;
  repeats = λ h. absurd cc;
}
Counts-Round (suc n) s e lt = record {
  test = pos 1;
  tested = s;
  condition = rw (e, Pcl.◌>>=◌, Pcl.both, positive_lem n) refl;
  leaves = λ h. absurd cc;
  repeats = λ h. (
    pos n,
    record s { vals = λ d. if 0 == d then some (pos n) else s.vals d },
    rw (e, Pcl.◌>>=◌, Pcl.both, pred_lem n, in_range_lem n (omega arith)) refl,
    (n, refl, omega arith),
    let less = left_over_lem (suc n) s e in omega arith,
  );
}

while_loop_ends_example :
    (t : State) × (calc true 9 (while_loop positive decrement) (counting (pos 5)) ≡ ok (pos 0) t)
    × IsDone t
while_loop_ends_example =
    while_loop_ends true 3 positive decrement Counts IsDone left_over
      (λ s p. Counts-Round p.0 s p.1 p.2) 6 (counting (pos 5)) (5, refl, omega arith) (omega arith)

-- Without values a program is shown up to its first variable; the reading has no right operand.
dump_run :
    (dump (λ d. none) quotient ≡ none)
    × (dump (λ d. some (pos 0)) (operand null std_out (value (pos 2)))
        ≡ some (titled "Node Operand: " "StdOut" ∷ numbered "Node Value: " (pos 2) ∷ []))
unfolding dump Pcl.Dump.operation_name
dump_run = (refl, refl)

dump-preorder_example :
    dump (λ d. some (pos 0)) quotient ≡ printed (λ d. some (pos 0)) (shown quotient)
dump-preorder_example = dump-preorder (λ d. some (pos 0)) quotient
