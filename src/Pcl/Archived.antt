-- ===== src/Pcl/Archived.antt =====
-- archive/13-llvm/01-naive: the first version of the interpreter, `calc` of the nodes in Node.cc. Nodes and
-- operations are those of 15-llvm/naive-pcl.
pub mod Agree
pub mod Calc
pub mod Codegen
pub mod Generated
pub mod Dump
pub mod Destroy
pub mod Scopes
pub mod Tests
use Prim.Native.String.{String}
use cpp_graduate.Base.{ℕ, zero, suc, Bool, if◌then◌else◌}
use cpp_graduate.Base.Int.{ℤ, pos, ◌+ℤ◌, ◌-ℤ◌, ◌*ℤ◌, div_ℤ, mod_ℤ, ltb_ℤ, eqb_ℤ}
use cpp_graduate.Pcl
use cpp_graduate.Pcl.{
  Operation, plus, minus, assign, greater, less, greater_eq, less_eq, std_out, std_in, equal,
  not_equal, div, mul, modulo, negation, conjunction, disjunction, INode, null, value, decl, scope,
  operand, while_loop, if_then, Branches, no_branch, branch, State, Result, ok, thrown, undefined,
  out_of_fuel, from_bool, truthy, read_decl, set_value, print, scan,
}

-- The end of a run: one of the later version, or the end of the program by `exit` with a status, after a
-- line that was printed behind the output of the state.
pub data RunEnd : Type 0 where
  as_later : Result → RunEnd
  exited : String → ℕ → State → RunEnd

abbrev pub M : Type 0
M = State → RunEnd

-- The part of the later version.
abbrev pub lift : Pcl.M → M
lift m s = as_later (m s)

infixl 5 ◌>>=◌
abbrev pub ◌>>=◌ : M → (ℤ → M) → M
◌>>=◌ m f s = elim (m s) [
  | as_later r ↦ elim r [
    | ok v s' ↦ f v s'
    | thrown s' ↦ as_later (thrown s')
    | undefined ↦ as_later undefined
    | out_of_fuel ↦ as_later out_of_fuel
  ]
  | exited line status s' ↦ exited line status s'
]

abbrev pub pure : ℤ → M
pure v s = as_later (ok v s)

abbrev pub fault : M
fault s = as_later undefined

unfoldable pub as_int : ℤ → M
unfolding Pcl.int
as_int v = lift (Pcl.int v)

-- `std::cout << line << std::endl; exit(status)`
unfoldable pub print_and_exit : String → ℕ → M
print_and_exit line status s = exited line status s

module _ (left_first : Bool) where
  -- The two operands of a built-in operator, in either order.
  abbrev pub operands : M → M → (ℤ → ℤ → M) → M
  operands l r f =
      if left_first then (l >>= λ a. r >>= λ b. f a b) else (r >>= λ b. l >>= λ a. f a b)

  -- `Op::calc`, by the `calc` of the operands
  unfoldable pub op_calc : (INode → M) → INode → Operation → INode → M
  unfolding as_int print_and_exit print scan set_value ◌+ℤ◌ ◌-ℤ◌ ◌*ℤ◌ div_ℤ mod_ℤ
  op_calc calc null plus r = calc r >>= λ b. as_int (pos 0 +ℤ b)
  op_calc calc l plus r = operands (calc l) (calc r) (λ a b. as_int (a +ℤ b))
  op_calc calc null minus r = calc r >>= λ b. as_int (pos 0 -ℤ b)
  op_calc calc l minus r = operands (calc l) (calc r) (λ a b. as_int (a -ℤ b))
  op_calc calc l greater r = operands (calc l) (calc r) (λ a b. pure (from_bool (ltb_ℤ b a)))
  op_calc calc l less r = operands (calc l) (calc r) (λ a b. pure (from_bool (ltb_ℤ a b)))
  op_calc calc l greater_eq r =
      operands (calc l) (calc r) (λ a b. pure (if ltb_ℤ a b then pos 0 else pos 1))
  op_calc calc l less_eq r =
      operands (calc l) (calc r) (λ a b. pure (if ltb_ℤ b a then pos 0 else pos 1))
  op_calc calc (decl d) assign r = calc r >>= λ v. lift (set_value d v)
  op_calc calc l assign r = calc r >>= λ v. fault
  op_calc calc l std_out r = calc r >>= λ v. lift (print v) >>= λ _. pure (pos 998)
  op_calc calc l std_in r = lift scan
  op_calc calc l equal r = operands (calc l) (calc r) (λ a b. pure (from_bool (eqb_ℤ a b)))
  op_calc calc l not_equal r =
      operands (calc l) (calc r) (λ a b. pure (if eqb_ℤ a b then pos 0 else pos 1))
  op_calc calc l negation r = calc r >>= λ b. pure (if truthy b then pos 0 else pos 1)
  op_calc calc l conjunction r = calc l >>= λ a.
      if truthy a then (calc r >>= λ b. pure (from_bool (truthy b))) else pure (pos 0)
  op_calc calc l disjunction r = calc l >>= λ a.
      if truthy a then pure (pos 1) else (calc r >>= λ b. pure (from_bool (truthy b)))
  op_calc calc l div r = calc r >>= λ v.
      if truthy v
      then operands (calc l) (calc r) (λ a b. if truthy b then as_int (div_ℤ a b) else fault)
      else print_and_exit "Division by zero!" 1
  op_calc calc l mul r = operands (calc l) (calc r) (λ a b. as_int (a *ℤ b))
  op_calc calc l modulo r =
      operands (calc l) (calc r)
        (λ a b. if truthy b then (as_int (div_ℤ a b) >>= λ _. pure (mod_ℤ a b)) else fault)

  -- The loop of `Scope::calc`.
  unfoldable pub scope_calc : (INode → M) → Branches → M
  scope_calc calc no_branch = pure (pos 0)
  scope_calc calc (branch x rest) = calc x >>= λ _. scope_calc calc rest

  -- `While::calc`, one round, which `calc` of the loop follows
  unfoldable pub while_calc : (INode → M) → INode → INode → M
  while_calc calc op body = calc op >>= λ v.
      if truthy v then (calc body >>= λ _. calc (while_loop op body)) else pure (pos 0)

  -- `If::calc`
  unfoldable pub if_calc : (INode → M) → INode → INode → M
  if_calc calc op body =
      calc op >>= λ v. if truthy v then (calc body >>= λ _. pure (pos 0)) else pure (pos 0)

  unfoldable pub node_calc : (INode → M) → INode → M
  unfolding op_calc scope_calc while_calc if_calc read_decl
  node_calc calc null = fault
  node_calc calc (value v) = pure v
  node_calc calc (decl d) = lift (read_decl d)
  node_calc calc (scope bs) = scope_calc calc bs
  node_calc calc (operand l op r) = op_calc calc l op r
  node_calc calc (while_loop c body) = while_calc calc c body
  node_calc calc (if_then c body) = if_calc calc c body

  unfoldable pub calc : ℕ → INode → M
  unfolding node_calc
  calc zero n = λ s. as_later out_of_fuel
  calc (suc fuel) n = node_calc (calc fuel) n
